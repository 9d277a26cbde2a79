-- ===== src/Slots/Acquire.antt =====
-- `AcquireLease`: which slot it takes, and when it fails.
use inferflux.Prelude.{
  ℕ, zero, suc, ◌<◌, ◌≡◌, refl, sym, ◌∙◌, Bool, true, false, Option, none, some, List, [], ◌∷◌,
  arith, if◌then◌else◌, length, get_elem?, Option-cases, Bool-cases, inl, inr, ◌↔◌,
}
use inferflux.Prelude.Int.{ℤ, pos, leb_ℤ}
use inferflux.Slots.Defs.{
  Slot, Lease, Manager, is_free, reset, reap_slots, is_available, find_slot, put, is_ripe, count_if,
}
use inferflux.Slots.Ops.{acquired, reaped, grant, acquire_lease}
use inferflux.Slots.Query.{free_count}

pub get_elem?-lt {ℓ} :
    {A : Type ℓ} (xs : List A) (i : ℕ) (a : A) → get_elem? xs i ≡ some a → i < length xs
get_elem?-lt [] i a e = cc
get_elem?-lt (x ∷ xs) zero a e = omega arith
get_elem?-lt (x ∷ xs) (suc i) a e = omega (arith, get_elem?-lt xs i a e)

-- The outcome of a search for the first slot that passes a test.
pub data Finds (test : Slot → Bool) (ss : List Slot) : Option ℕ → Type 0 where
  nowhere : ((i : ℕ) (s : Slot) → get_elem? ss i ≡ some s → test s ≡ false) → Finds test ss none
  first_at :
      (i : ℕ) (s : Slot)
      → get_elem? ss i ≡ some s
      → test s ≡ true
      → ((j : ℕ) (t : Slot) → get_elem? ss j ≡ some t → j < i → test t ≡ false)
      → Finds test ss (some i)

find_slot-cons :
    (test : Slot → Bool) (x : Slot) (ss : List Slot) (o : Option ℕ)
    → test x ≡ false
    → Finds test ss o
    → Finds test (x ∷ ss) (elim o [ none ↦ none | some i ↦ some (suc i) ])
find_slot-cons test x ss o e (nowhere h) = nowhere λ i s g. skip i s g
  where
    skip : (i : ℕ) (s : Slot) → get_elem? (x ∷ ss) i ≡ some s → test s ≡ false
    skip zero s g = ground arith
    skip (suc i) s g = h i s g
find_slot-cons test x ss o e (first_at i s g yes_test before) =
    first_at (suc i) s g yes_test λ j t g' lt. skip j t g' lt
  where
    skip : (j : ℕ) (t : Slot) → get_elem? (x ∷ ss) j ≡ some t → j < suc i → test t ≡ false
    skip zero t g' lt = ground arith
    skip (suc j) t g' lt = before j t g' (omega arith)

pub find_slot-Finds : (test : Slot → Bool) (ss : List Slot) → Finds test ss (find_slot test ss)
unfolding find_slot
find_slot-Finds test [] = nowhere λ i s e. cc
find_slot-Finds test (x ∷ ss) = elim (Bool-cases (test x)) [
  | inl e ↦ rw e (first_at 0 x refl e λ j t g lt. absurd (omega arith))
  | inr e ↦ rw e (find_slot-cons test x ss _ e (find_slot-Finds test ss))
]

-- What reaping makes of the slot at a position.
abbrev pub reap : ℕ → Slot → Slot
reap now s = if is_ripe now s then reset s else s

pub get_elem?-reap_slots :
    (now : ℕ) (ss : List Slot) (i : ℕ)
    → get_elem? (reap_slots now ss).0 i
      ≡ elim (get_elem? ss i) [ none ↦ none | some s ↦ some (reap now s) ]
unfolding reap_slots
get_elem?-reap_slots now [] i = refl
get_elem?-reap_slots now (s ∷ ss) zero = ground arith
get_elem?-reap_slots now (s ∷ ss) (suc i) = elim (Bool-cases (is_ripe now s)) [
  | inl e ↦ rw e (get_elem?-reap_slots now ss i)
  | inr e ↦ rw e (get_elem?-reap_slots now ss i)
]

-- What `AcquireLease` may do to a manager whose retired slots have been reaped.
pub data Acquires (now : ℕ) (request_id capacity : ℤ) (r : Manager)
    : Manager → Option Lease → Type 0 where
  refused :
      ((i : ℕ) (s : Slot) → get_elem? r.slots i ≡ some s → is_available capacity s ≡ false)
      → Acquires now request_id capacity r r none
  granted :
      (i : ℕ) (s : Slot)
      → get_elem? r.slots i ≡ some s
      → is_available capacity s ≡ true
      → ((j : ℕ) (t : Slot)
          → get_elem? r.slots j ≡ some t
          → j < i
          → is_available capacity t ≡ false)
      → Acquires now request_id capacity r (put r i (acquired now request_id s)) (
          some (record {
            slot_id = pos i;
            generation = (acquired now request_id s).generation;
            request_id = request_id;
          }))

grant-Acquires :
    (now : ℕ) (request_id capacity : ℤ) (r : Manager) (o : Option ℕ)
    → Finds (is_available capacity) r.slots o
    → Acquires now request_id capacity r (grant now request_id r o).0 (grant now request_id r o).1
unfolding grant
grant-Acquires now request_id capacity r o (nowhere h) = refused h
grant-Acquires now request_id capacity r o (first_at i s g test before) =
    rw (g, grant) (granted i s g test before)

-- `AcquireLease` takes the first free slot below the capacity, once the ripe retired slots have
-- been reaped, and gives it the next generation and the request; it is refused exactly when there
-- is no such slot, and then it has only reaped.
pub acquire_lease-Acquires :
    (now now' : ℕ) (request_id capacity : ℤ) (m : Manager)
    → let (m', l) = acquire_lease now now' request_id capacity m in
      Acquires now' request_id capacity (reaped now m) m' l
unfolding acquire_lease
acquire_lease-Acquires now now' request_id capacity m =
    grant-Acquires now' request_id capacity (reaped now m) _
      (find_slot-Finds (is_available capacity) (reaped now m).slots)

count_if-ext :
    (p q : Slot → Bool) (ss : List Slot) → ((s : Slot) → p s ≡ q s) → count_if p ss ≡ count_if q ss
unfolding count_if
count_if-ext p q [] h = refl
count_if-ext p q (s ∷ ss) h = ground (arith, h s, count_if-ext p q ss h)

-- A count is zero exactly when the search finds nothing.
find_slot-count_if :
    (test : Slot → Bool) (ss : List Slot) → (find_slot test ss ≡ none) ↔ (count_if test ss ≡ 0)
unfolding find_slot count_if
find_slot-count_if test [] = (λ _. refl, λ _. refl)
find_slot-count_if test (s ∷ ss) = elim (Bool-cases (test s)) [
  | inl e ↦ rw e ((λ h. cc), (λ h. absurd (omega arith)))
  | inr e ↦ rw e (skip (find_slot test ss) (find_slot-count_if test ss))
]
  where
    skip :
        (o : Option ℕ)
        → (o ≡ none) ↔ (count_if test ss ≡ 0)
        → ◌≡◌ {A = Option ℕ} (elim o [ none ↦ none | some i ↦ some (suc i) ]) none
          ↔ (count_if test ss ≡ 0)
    skip none h = h
    skip (some i) h = ((λ e. cc), λ e. cc (h.1 e))

find_slot-inside :
    (test : Slot → Bool) (ss : List Slot) (i : ℕ)
    → find_slot test ss ≡ some i
    → (s : Slot) × (get_elem? ss i ≡ some s)
find_slot-inside test ss i e = go (find_slot test ss) (find_slot-Finds test ss) e
  where
    go : (o : Option ℕ) → Finds test ss o → o ≡ some i → (s : Slot) × (get_elem? ss i ≡ some s)
    go _ (nowhere h) d = cc
    go _ (first_at j s g t before) d = (s, ground arith)

grant-none :
    (now : ℕ) (request_id : ℤ) (r : Manager) (test : Slot → Bool)
    → ((grant now request_id r (find_slot test r.slots)).1 ≡ none) ↔ (find_slot test r.slots ≡ none)
unfolding grant
grant-none now request_id r test = elim (Option-cases (find_slot test r.slots)) [
  | inl e ↦ rw (e, grant) ((λ _. refl), (λ _. refl))
  | inr (i, e) ↦
      let (s, g) = find_slot-inside test r.slots i e in rw (e, grant, g) ((λ h. cc), (λ h. cc))
]

-- With no capacity given, `AcquireLease` fails exactly when `GetFreeSlotCount` is 0 after the
-- reaping.
pub acquire_lease-none_iff :
    (now now' : ℕ) (request_id capacity : ℤ) (m : Manager)
    → leb_ℤ capacity (pos 0) ≡ true
    → ((acquire_lease now now' request_id capacity m).1 ≡ none) ↔ (free_count (reaped now m) ≡ 0)
unfolding acquire_lease free_count
acquire_lease-none_iff now now' request_id capacity m unbounded =
    let r : Manager = reaped now m in
    let a = grant-none now' request_id r (is_available capacity) in
    let b = find_slot-count_if (is_available capacity) r.slots in
    let c : count_if (is_available capacity) r.slots ≡ count_if (λ s. is_free s.state) r.slots =
      count_if-ext _ _ r.slots (λ s. ground arith) in
    ((λ h. sym c ∙ b.0 (a.0 h)), (λ h. a.1 (b.1 (c ∙ h))))
