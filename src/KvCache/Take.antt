-- ===== src/KvCache/Take.antt =====
-- The page that one round of a reservation takes.
use inferflux.Prelude.{
  ℕ, zero, suc, ◌+◌, ◌<◌, ◌≡◌, refl, ap, Bool, true, false, ◌||◌, Option, none, some, List, [], ◌∷◌,
  arith, ◌==◌, if◌then◌else◌, get_elem?, set,
}
use inferflux.KvCache.Defs.{Page, Cache, u64, select_candidate, fresh_page, acquire_page}
use inferflux.KvCache.Ops.{with_clock, take_page, count_free}
use inferflux.KvCache.Select.{IsFree, AllUsed, Picks, AreStamped, select_candidate-Picks}

-- Whether the page at a position is in use, if there is one.
abbrev pub flag_at : List Page → ℕ → Option Bool
flag_at ps j = elim (get_elem? ps j) [ none ↦ none | some p ↦ some p.in_use ]

abbrev pub contains : ℕ → List ℕ → Bool
contains j [] = false
contains j (i ∷ ids) = i == j || contains j ids

abbrev pub IsDistinct : List ℕ → Type 0
IsDistinct [] = Unit {0}
IsDistinct (i ∷ ids) = (contains i ids ≡ false) × IsDistinct ids

pub record IsStamped (c : Cache) : Type 0 where
  pub pages_stamped : AreStamped c.pages
  pub counter_small : c.usage_counter < u64

flag_at-set :
    (ps : List Page) (i j : ℕ) (b : Bool) (p : Page)
    → flag_at ps i ≡ some b
    → flag_at (set ps i p) j ≡ (if i == j then some p.in_use else flag_at ps j)
flag_at-set [] i j b p e = cc
flag_at-set (x ∷ ps) zero zero b p e = ground arith
flag_at-set (x ∷ ps) zero (suc j) b p e = ground arith
flag_at-set (x ∷ ps) (suc i) zero b p e = ground arith
flag_at-set (x ∷ ps) (suc i) (suc j) b p e = ground (arith, flag_at-set ps i j b p e)

count_free-set :
    (ps : List Page) (i : ℕ) (p : Page)
    → flag_at ps i ≡ some false
    → p.in_use ≡ true
    → count_free (set ps i p) + 1 ≡ count_free ps
unfolding count_free
count_free-set [] i p e u = cc
count_free-set (x ∷ ps) zero p e u = ground arith
count_free-set (x ∷ ps) (suc i) p e u = ground (arith, count_free-set ps i p e u)

pub count_free-AllUsed : (ps : List Page) → AllUsed ps → count_free ps ≡ 0
unfolding count_free
count_free-AllUsed [] h = refl
count_free-AllUsed (p ∷ ps) h = ground (arith, count_free-AllUsed ps h.1)

-- What taking one page does.
pub data Takes (c : Cache) : Option ℕ × Cache → Type 0 where
  full : (c' : Cache) → count_free c.pages ≡ 0 → c'.pages ≡ c.pages → Takes c (none, c')
  took :
      (i : ℕ) (c' : Cache)
      → flag_at c.pages i ≡ some false
      → ((j : ℕ) → flag_at c'.pages j ≡ (if i == j then some true else flag_at c.pages j))
      → count_free c'.pages + 1 ≡ count_free c.pages
      → IsStamped c'
      → Takes c (some i, c')

set-AreStamped :
    (ps : List Page) (i : ℕ) (p : Page)
    → AreStamped ps
    → p.last_used < u64
    → AreStamped (set ps i p)
set-AreStamped [] i p st small j q g = cc
set-AreStamped (x ∷ ps) zero p st small zero q g = ground arith
set-AreStamped (x ∷ ps) zero p st small (suc j) q g = st (suc j) q g
set-AreStamped (x ∷ ps) (suc i) p st small zero q g = st zero q g
set-AreStamped (x ∷ ps) (suc i) p st small (suc j) q g =
    set-AreStamped ps i p (λ k r. st (suc k) r) small j q g

acquire_page-took :
    (c : Cache) (bits : List Bool) (hand i : ℕ)
    → IsStamped c
    → IsFree c.pages i
    → Takes c (some i, acquire_page (with_clock c (bits, hand)) i)
unfolding acquire_page
acquire_page-took c bits hand i st (p, g, free) =
    let fresh = fresh_page c.page_size_bytes c.usage_counter p in
    let flag : flag_at c.pages i ≡ some false = rw (g, flag_at) (ap some free) in
    rw (g, acquire_page)
      (took i _ flag (λ j. flag_at-set c.pages i j false fresh flag)
        (count_free-set c.pages i fresh flag refl)
        (record {
          pages_stamped = set-AreStamped c.pages i fresh st.pages_stamped st.counter_small;
          counter_small = omega arith;
        }))

pub take_page-Takes : (c : Cache) → IsStamped c → Takes c (take_page c)
unfolding take_page
take_page-Takes c st = go (select_candidate c) (select_candidate-Picks c st.pages_stamped)
  where
    go :
        (r : Option ℕ × List Bool × ℕ)
        → Picks c.pages r.0
        → Takes c (elim r.0 [
          | none ↦ (none, with_clock c (r.1, r.2))
          | some i ↦ (some i, acquire_page (with_clock c (r.1, r.2)) i)
        ])
    go (none, bits, hand) picks =
        full (with_clock c (bits, hand)) (count_free-AllUsed c.pages picks) refl
    go (some i, bits, hand) picks = acquire_page-took c bits hand i st picks
