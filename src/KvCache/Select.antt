-- ===== src/KvCache/Select.antt =====
-- Which page `SelectEvictionCandidate` picks.
use inferflux.Prelude.{
  ℕ, zero, suc, ◌+◌, ◌-◌, ◌*◌, ◌%◌, ◌≤◌, ◌<◌, ◌≡◌, refl, sym, ◌∙◌, ap, Bool, true, false, not, ◌&&◌,
  Option, none, some, List, [], ◌∷◌, arith, leb, if◌then◌else◌, get_elem?, get_or, set, length,
  Bool-cases, inl, inr, ◌⊎◌,
}
use inferflux.KvCache.Defs.{
  Page, Policy, lru, clock, Cache, u64, new_page, clock_scan, first_free, lru_scan, clock_candidate,
  select_candidate,
}

-- A page that is there and not in use.
abbrev pub IsFree : List Page → ℕ → Type 0
IsFree ps i = (p : Page) × (get_elem? ps i ≡ some p) × (p.in_use ≡ false)

abbrev pub AllUsed : List Page → Type 0
AllUsed [] = Unit {0}
AllUsed (p ∷ ps) = (p.in_use ≡ true) × AllUsed ps

-- A search that gives a free page, or none if there is none.
abbrev pub Picks : List Page → Option ℕ → Type 0
Picks ps none = AllUsed ps
Picks ps (some i) = IsFree ps i

abbrev pub shifted : ℕ → Option ℕ → Option ℕ
shifted k none = none
shifted k (some i) = some (k + i)

first_free-shifted :
    (ps : List Page) (k : ℕ) → (o : Option ℕ) × Picks ps o × (first_free ps k ≡ shifted k o)
unfolding first_free
first_free-shifted [] k = (none, tt, refl)
first_free-shifted (p ∷ ps) k = elim (Bool-cases p.in_use) [
  | inl e ↦ later (first_free-shifted ps (k + 1)) e
  | inr e ↦ (some 0, (p, refl, e), rw e (ap some (omega arith)))
]
  where
    later :
        (o : Option ℕ) × Picks ps o × (first_free ps (k + 1) ≡ shifted (k + 1) o)
        → p.in_use ≡ true
        → (o : Option ℕ) × Picks (p ∷ ps) o
          × ((if p.in_use then first_free ps (k + 1) else some k) ≡ shifted k o)
    later (none, picks, eq) e = (none, (e, picks), rw e eq)
    later (some i, picks, eq) e = (some (suc i), picks, rw e (eq ∙ ap some (omega arith)))

pub first_free-Picks : (ps : List Page) → Picks ps (first_free ps 0)
first_free-Picks ps = go (first_free-shifted ps 0)
  where
    go : (o : Option ℕ) × Picks ps o × (first_free ps 0 ≡ shifted 0 o) → Picks ps (first_free ps 0)
    go (none, picks, eq) = rw eq picks
    go (some i, picks, eq) =
        let same : first_free ps 0 ≡ some i = eq ∙ ap some (omega arith) in rw same picks

-- The last of the longest unused of the free pages.
abbrev pub Oldest : List Page → ℕ → Page → Type 0
Oldest ps i p =
    (get_elem? ps i ≡ some p)
    × (p.in_use ≡ false)
    × ((j : ℕ) (q : Page) → get_elem? ps j ≡ some q → q.in_use ≡ false → p.last_used ≤ q.last_used)

abbrev Scanned : List Page → ℕ → ℕ → Option ℕ → Option ℕ → Type 0
Scanned ps k oldest candidate result =
    ((result ≡ candidate)
      × ((j : ℕ) (q : Page) → get_elem? ps j ≡ some q → q.in_use ≡ false → oldest < q.last_used))
    ⊎ ((i : ℕ) × (p : Page) × Oldest ps i p × (p.last_used ≤ oldest) × (result ≡ some (k + i)))

lru_scan-skip :
    (p : Page) (ps : List Page) (k oldest : ℕ) (candidate result : Option ℕ)
    → (p.in_use ≡ false → oldest < p.last_used)
    → Scanned ps (k + 1) oldest candidate result
    → Scanned (p ∷ ps) k oldest candidate result
lru_scan-skip p ps k oldest candidate result not_older (inl (e, later)) = inl (e, all)
  where
    all :
        (j : ℕ) (q : Page) → get_elem? (p ∷ ps) j ≡ some q → q.in_use ≡ false → oldest < q.last_used
    all zero q g f = ground (arith, not_older)
    all (suc j) q g f = later j q g f
lru_scan-skip p ps k oldest candidate result not_older (inr (i, r, (g, f, least), le, e)) =
    inr (suc i, r, (g, f, all), le, e ∙ ap some (omega arith))
  where
    all :
        (j : ℕ) (q : Page)
        → get_elem? (p ∷ ps) j ≡ some q
        → q.in_use ≡ false
        → r.last_used ≤ q.last_used
    all zero q g' f' = ground (arith, not_older)
    all (suc j) q g' f' = least j q g' f'

lru_scan-take :
    (p : Page) (ps : List Page) (k oldest : ℕ) (candidate result : Option ℕ)
    → p.in_use ≡ false
    → p.last_used ≤ oldest
    → Scanned ps (k + 1) p.last_used (some k) result
    → Scanned (p ∷ ps) k oldest candidate result
lru_scan-take p ps k oldest candidate result free le (inl (e, later)) =
    inr (0, p, (refl, free, all), le, e ∙ ap some (omega arith))
  where
    all :
        (j : ℕ) (q : Page)
        → get_elem? (p ∷ ps) j ≡ some q
        → q.in_use ≡ false
        → p.last_used ≤ q.last_used
    all zero q g f = ground arith
    all (suc j) q g f = omega (arith, later j q g f)
lru_scan-take p ps k oldest candidate result free le (inr (i, r, (g, f, least), le', e)) =
    inr (suc i, r, (g, f, all), omega arith, e ∙ ap some (omega arith))
  where
    all :
        (j : ℕ) (q : Page)
        → get_elem? (p ∷ ps) j ≡ some q
        → q.in_use ≡ false
        → r.last_used ≤ q.last_used
    all zero q g' f' = ground arith
    all (suc j) q g' f' = least j q g' f'

lru_scan-Scanned :
    (ps : List Page) (k oldest : ℕ) (candidate : Option ℕ)
    → Scanned ps k oldest candidate (lru_scan ps k oldest candidate)
unfolding lru_scan
lru_scan-Scanned [] k oldest candidate = inl (refl, λ j q g f. cc)
lru_scan-Scanned (p ∷ ps) k oldest candidate =
    elim (Bool-cases (not p.in_use && leb p.last_used oldest)) [
      | inl e ↦ rw e (
          lru_scan-take p ps k oldest candidate _ (ground arith) (ground arith)
            (lru_scan-Scanned ps (k + 1) p.last_used (some k)))
      | inr e ↦ rw e (
          lru_scan-skip p ps k oldest candidate _ (λ f. ground arith)
            (lru_scan-Scanned ps (k + 1) oldest candidate))
    ]

-- Every use stamp fits `uint64_t`.
abbrev pub AreStamped : List Page → Type 0
AreStamped ps = (i : ℕ) (p : Page) → get_elem? ps i ≡ some p → p.last_used < u64

none_free :
    (ps : List Page) → ((j : ℕ) (q : Page) → get_elem? ps j ≡ some q → q.in_use ≡ true) → AllUsed ps
none_free [] h = tt
none_free (p ∷ ps) h = (h 0 p refl, none_free ps (λ j q g. h (suc j) q g))

stamped_used :
    (ps : List Page)
    → AreStamped ps
    → ((j : ℕ) (q : Page) → get_elem? ps j ≡ some q → q.in_use ≡ false → u64 - 1 < q.last_used)
    → AllUsed ps
stamped_used ps st h = none_free ps λ j q g. elim (Bool-cases q.in_use) [
  | inl e ↦ e
  | inr e ↦ absurd (omega (arith, st j q g, h j q g e))
]

get_or-lt :
    (ps : List Page) (i : ℕ) (d : Page) → i < length ps → get_elem? ps i ≡ some (get_or ps i d)
get_or-lt [] i d h = absurd (omega arith)
get_or-lt (p ∷ ps) zero d h = refl
get_or-lt (p ∷ ps) (suc i) d h = get_or-lt ps i d (omega arith)

some_eq : (a b : ℕ) → some a ≡ some b → a ≡ b
some_eq a b e = cc

no_rounds : (bits : List Bool) (hand i : ℕ) → (clock_scan 0 [] bits hand).0 ≡ some i → ⊥
unfolding clock_scan
no_rounds bits hand i e = cc

-- What the clock's loop finds is free.
clock_scan-Picks :
    (rounds : ℕ) (ps : List Page) (bits : List Bool) (hand i : ℕ)
    → 0 < length ps
    → (clock_scan rounds ps bits hand).0 ≡ some i
    → IsFree ps i
unfolding clock_scan
clock_scan-Picks zero ps bits hand i pos_len e = cc
clock_scan-Picks (suc rounds) ps bits hand i pos_len e =
    let idx = if leb (length ps) hand then 0 else hand in
    let inside : idx < length ps = ground arith in
    let next = (idx + 1) % length ps in
    elim (Bool-cases (get_or ps idx new_page).in_use) [
      | inl used ↦ clock_scan-Picks rounds ps bits next i pos_len (rw used at e)
      | inr free ↦ elim (Bool-cases (get_or bits idx false)) [
        | inl bit ↦
            clock_scan-Picks rounds ps (set bits idx false) next i pos_len (rw (free, bit) at e)
        | inr clear ↦
            let same : idx ≡ i = some_eq idx i (rw (free, clear) at e) in
            (get_or ps idx new_page, rw (← same) (get_or-lt ps idx new_page inside), free)
      ]
    ]

clock_candidate-Picks :
    (ps : List Page) (r : Option ℕ × List Bool × ℕ)
    → ((i : ℕ) → r.0 ≡ some i → IsFree ps i)
    → Picks ps (clock_candidate ps r).0
unfolding clock_candidate
clock_candidate-Picks ps (some i, bits, hand) h = h i refl
clock_candidate-Picks ps (none, bits, hand) h = first_free-Picks ps

lru-Picks :
    (ps : List Page) (o : Option ℕ) → AreStamped ps → Scanned ps 0 (u64 - 1) none o → Picks ps o
lru-Picks ps o st (inl (e, later)) = rw e (stamped_used ps st later)
lru-Picks ps o st (inr (i, p, (g, f, least), le, e)) =
    let same : o ≡ some i = e ∙ ap some (omega arith) in rw same (p, g, f)

clock-Picks :
    (ps : List Page) (bits : List Bool) (hand : ℕ)
    → Picks ps (clock_candidate ps (clock_scan (length ps * 2) ps bits hand)).0
clock-Picks [] bits hand =
    clock_candidate-Picks [] (clock_scan 0 [] bits hand) (λ i e. absurd (no_rounds bits hand i e))
clock-Picks (p ∷ ps) bits hand =
    clock_candidate-Picks (p ∷ ps) (clock_scan (length (p ∷ ps) * 2) (p ∷ ps) bits hand)
      (λ i e. clock_scan-Picks (length (p ∷ ps) * 2) (p ∷ ps) bits hand i (omega arith) e)

-- `SelectEvictionCandidate` picks a page that is there and not in use, under either policy, and
-- gives -1 only if every page is in use. (Use stamps fit `uint64_t`.)
pub select_candidate-Picks : (c : Cache) → AreStamped c.pages → Picks c.pages (select_candidate c).0
unfolding select_candidate
select_candidate-Picks c st = go c.policy
  where
    go : (policy : Policy) → Picks c.pages (select_candidate (record c { policy = policy })).0
    go lru = lru-Picks c.pages _ st (lru_scan-Scanned c.pages 0 (u64 - 1) none)
    go clock = clock-Picks c.pages c.clock_ref_bits c.clock_hand

-- Under the LRU policy the page picked has the least use stamp of the pages not in use.
pub select_candidate-Oldest :
    (c : Cache) (i : ℕ)
    → c.policy ≡ lru
    → AreStamped c.pages
    → (select_candidate c).0 ≡ some i
    → (p : Page) × Oldest c.pages i p
unfolding select_candidate
select_candidate-Oldest c i is_lru st e =
    go (lru_scan-Scanned c.pages 0 (u64 - 1) none) (rw (is_lru, select_candidate) at e)
  where
    go :
        {o : Option ℕ}
        → Scanned c.pages 0 (u64 - 1) none o
        → o ≡ some i
        → (p : Page) × Oldest c.pages i p
    go (inl (d, later)) d' = cc
    go (inr (j, p, h, le, d)) d' =
        let same : j ≡ i = some_eq j i (ap some (omega arith) ∙ sym d ∙ d') in (p, rw (← same) h)
