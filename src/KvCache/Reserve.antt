-- ===== src/KvCache/Reserve.antt =====
-- `ReserveBlocks`: which pages it takes, and the rollback.
use inferflux.Prelude.{
  ℕ, zero, suc, ◌+◌, ◌<◌, ◌≡◌, refl, sym, ◌∙◌, ap, Bool, true, false, ◌||◌, Option, none, some,
  List, [], ◌∷◌, ◌++◌, arith, ◌==◌, if◌then◌else◌, length, length-append, Bool-cases, inl, inr,
}
use inferflux.KvCache.Defs.{Page, Cache}
use inferflux.KvCache.Ops.{
  exhausted_blocks, Outcome, returns, throws, take_page, mark_free, unreserve, reserve_loop,
  reserve_blocks, count_free,
}
use inferflux.KvCache.Take.{
  full, took, flag_at, contains, IsDistinct, IsStamped, Takes, take_page-Takes,
}

contains-snoc :
    (j i : ℕ) (ids : List ℕ)
    → contains j (ids ++ i ∷ []) ≡ (if i == j then true else contains j ids)
contains-snoc j i [] = ground arith
contains-snoc j i (x ∷ ids) = ground (arith, contains-snoc j i ids)

IsDistinct-snoc :
    (i : ℕ) (ids : List ℕ) → contains i ids ≡ false → IsDistinct ids → IsDistinct (ids ++ i ∷ [])
IsDistinct-snoc i [] e d = (refl, tt)
IsDistinct-snoc i (x ∷ ids) e d =
    (rw (contains-snoc x i ids) (ground (arith, d.0)), IsDistinct-snoc i ids (ground arith) d.1)

-- `cur` is `base` with the pages `ids` reserved.
pub record Reserved (base : List Page) (ids : List ℕ) (cur : List Page) : Type 0 where
  pub distinct : IsDistinct ids
  pub were_free : (j : ℕ) → contains j ids ≡ true → flag_at base j ≡ some false
  pub flags : (j : ℕ) → flag_at cur j ≡ (if contains j ids then some true else flag_at base j)
  pub counted : count_free cur + length ids ≡ count_free base

Reserved-snoc :
    (base cur next : List Page) (ids : List ℕ) (i : ℕ)
    → Reserved base ids cur
    → flag_at cur i ≡ some false
    → ((j : ℕ) → flag_at next j ≡ (if i == j then some true else flag_at cur j))
    → count_free next + 1 ≡ count_free cur
    → Reserved base (ids ++ i ∷ []) next
Reserved-snoc base cur next ids i r free grown counted =
    let new : contains i ids ≡ false = ground (arith, r.flags i) in
    record {
      distinct = IsDistinct-snoc i ids new r.distinct;
      were_free = λ j h. ground (arith, contains-snoc j i ids, r.were_free j, r.flags i);
      flags = λ j. ground (arith, contains-snoc j i ids, r.flags j, grown j);
      counted = omega (arith, length-append ids (i ∷ []), r.counted);
    }

abbrev cleared : Option Bool → Option Bool
cleared none = none
cleared (some b) = some false

mark_free_lem :
    (ps : List Page) (i j : ℕ)
    → flag_at (mark_free ps i) j ≡ (if i == j then cleared (flag_at ps j) else flag_at ps j)
unfolding mark_free
mark_free_lem [] i j = ground arith
mark_free_lem (p ∷ ps) zero zero = ground arith
mark_free_lem (p ∷ ps) zero (suc j) = ground arith
mark_free_lem (p ∷ ps) (suc i) zero = ground arith
mark_free_lem (p ∷ ps) (suc i) (suc j) = ground (arith, mark_free_lem ps i j)

-- The rollback clears the flags of the pages reserved so far.
unreserve_lem :
    (ids : List ℕ) (ps : List Page) (j : ℕ)
    → flag_at (unreserve ids ps) j
      ≡ (if contains j ids then cleared (flag_at ps j) else flag_at ps j)
unfolding unreserve
unreserve_lem [] ps j = refl
unreserve_lem (i ∷ ids) ps j =
    unreserve_lem ids (mark_free ps i) j
    ∙ merge (i == j) (contains j ids) (flag_at ps j) (flag_at (mark_free ps i) j)
        (mark_free_lem ps i j)
  where
    merge :
        (here later : Bool) (o o' : Option Bool)
        → o' ≡ (if here then cleared o else o)
        → (if later then cleared o' else o') ≡ (if here || later then cleared o else o)
    merge true true none o' e = ap cleared e
    merge true true (some b) o' e = ap cleared e
    merge true false o o' e = e
    merge false true o o' e = ap cleared e
    merge false false o o' e = e

-- The outcome of `ReserveBlocks n`.
pub data Reserves (n : ℕ) (base : Cache) : Outcome (List ℕ) → Type 0 where
  reserved :
      (ids : List ℕ) (c : Cache)
      → length ids ≡ n
      → Reserved base.pages ids c.pages
      → Reserves n base (returns ids c)
  rolled_back :
      (c : Cache)
      → count_free base.pages < n
      → ((j : ℕ) → flag_at c.pages j ≡ flag_at base.pages j)
      → Reserves n base (throws exhausted_blocks c)

restored :
    (base cur : List Page) (ids : List ℕ) (j : ℕ)
    → Reserved base ids cur
    → flag_at (unreserve ids cur) j ≡ flag_at base j
restored base cur ids j r = elim (Bool-cases (contains j ids)) [
  | inl e ↦ unreserve_lem ids cur j ∙ rw (e, r.flags j) (rw e (sym (r.were_free j e)))
  | inr e ↦ unreserve_lem ids cur j ∙ rw e (r.flags j ∙ rw e)
]

reserve_loop-Reserves :
    (n total : ℕ) (base cur : Cache) (ids : List ℕ)
    → IsStamped cur
    → Reserved base.pages ids cur.pages
    → total ≡ length ids + n
    → Reserves total base (reserve_loop n ids cur)
unfolding reserve_loop
reserve_loop-Reserves zero total base cur ids st r e = reserved ids cur (omega arith) r
reserve_loop-Reserves (suc n) total base cur ids st r e =
    go (take_page cur) (take_page-Takes cur st) (λ i c' st' r'.
      reserve_loop-Reserves n total base c' (ids ++ i ∷ []) st' r'
        (omega (arith, length-append ids (i ∷ []))))
  where
    go :
        (t : Option ℕ × Cache)
        → Takes cur t
        → ((i : ℕ) (c' : Cache)
            → IsStamped c'
            → Reserved base.pages (ids ++ i ∷ []) c'.pages
            → Reserves total base (reserve_loop n (ids ++ i ∷ []) c'))
        → Reserves total base (elim t.0 [
          | none ↦ throws exhausted_blocks (record (t.1) { pages = unreserve ids t.1.pages })
          | some i ↦ reserve_loop n (ids ++ i ∷ []) t.1
        ])
    go (none, c') (full _ empty same) ih =
        rolled_back _ (omega (arith, r.counted)) (λ j.
          ap (λ ps. flag_at (unreserve ids ps) j) same ∙ restored base.pages cur.pages ids j r)
    go (some i, c') (took _ _ free grown counted st') ih =
        ih i c' st' (Reserved-snoc base.pages cur.pages c'.pages ids i r free grown counted)

-- `ReserveBlocks n` either returns n distinct pages that were free, and then exactly these have come
-- into use and the number of free pages has fallen by n; or it throws, when fewer than n pages are
-- free, and then every page is as free or used as before. (Use stamps fit `uint64_t`.)
pub reserve_blocks-Reserves : (n : ℕ) (c : Cache) → IsStamped c → Reserves n c (reserve_blocks n c)
unfolding reserve_blocks
reserve_blocks-Reserves n c st =
    reserve_loop-Reserves n n c c [] st
      (record { distinct = tt; were_free = λ j h. cc; flags = λ j. refl; counted = omega arith })
      (omega arith)
