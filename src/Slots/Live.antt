-- ===== src/Slots/Live.antt =====
-- The lease that `AcquireLease` hands out.
use inferflux.Prelude.{
  ℕ, ◌≤◌, ◌<◌, ◌≡◌, refl, sym, ◌∙◌, ap, true, false, Option, some, arith, ltb, get_elem?,
  Bool-cases, inl, inr, get_elem?-set_self, dec_lt,
}
use inferflux.Prelude.Int.{ℤ, pos, negsuc}
use inferflux.Slots.Defs.{Slot, Lease, Manager, is_free, is_available, validate, put}
use inferflux.Slots.Ops.{acquired, reaped, acquire_lease, retire_lease}
use inferflux.Slots.Query.{is_live_lease, slot_at, eq_ℤ}
use inferflux.Slots.Acquire.{refused, granted, get_elem?-lt, Acquires, acquire_lease-Acquires}

eq_ℤ_refl : (a : ℤ) → eq_ℤ a a ≡ true
eq_ℤ_refl (pos n) = ground arith
eq_ℤ_refl (negsuc n) = ground arith

acquired-live :
    (now now' : ℕ) (request_id : ℤ) (r m' : Manager) (i : ℕ) (s : Slot) (l : Lease)
    → get_elem? r.slots i ≡ some s
    → m' ≡ put r i (acquired now' request_id s)
    → l ≡ record {
      slot_id = pos i;
      generation = (acquired now' request_id s).generation;
      request_id = request_id;
    }
    → i < r.max_slots
    → is_live_lease m' l ≡ true
unfolding is_live_lease slot_at
acquired-live now now' request_id r m' i s l g em el lt = ground (
  arith,
  get_elem?-set_self r.slots i (acquired now' request_id s) (get_elem?-lt r.slots i s g),
  eq_ℤ_refl request_id,
)

-- A lease beyond `max_slots` fails the guard of every method.
stranded :
    (r m' : Manager) (l : Lease) (i : ℕ) (s : Slot) (now : ℕ) (request_id : ℤ)
    → m' ≡ put r i (acquired now request_id s)
    → l.slot_id ≡ pos i
    → r.max_slots ≤ i
    → (is_live_lease m' l ≡ false)
      × ((ready_at at : ℕ) → retire_lease ready_at at l m' ≡ (m', false))
unfolding is_live_lease slot_at retire_lease validate
stranded r m' l i s now request_id em el le = (ground arith, λ ready_at at. ground arith)

-- The lease that `AcquireLease` hands out is live exactly if its slot lies below `max_slots`.
pub acquire_lease-live :
    (now now' : ℕ) (request_id capacity : ℤ) (m m' : Manager) (l : Lease)
    → acquire_lease now now' request_id capacity m ≡ (m', some l)
    → (i : ℕ) × (l.slot_id ≡ pos i) × (is_live_lease m' l ≡ ltb i m.max_slots)
acquire_lease-live now now' request_id capacity m m' l e =
    go (acquire_lease-Acquires now now' request_id capacity m) (ap (λ p. p.0) e) (ap (λ p. p.1) e)
  where
    go :
        {n : Manager} {o : Option Lease}
        → Acquires now' request_id capacity (reaped now m) n o
        → n ≡ m'
        → o ≡ some l
        → (i : ℕ) × (l.slot_id ≡ pos i) × (is_live_lease m' l ≡ ltb i m.max_slots)
    go (refused h) em el = cc
    go (granted i s g test before) em el = (
      i,
      ground arith,
      elim (Bool-cases (ltb i m.max_slots)) [
        | inl below ↦
            acquired-live now now' request_id (reaped now m) m' i s l g (sym em) (ground arith)
              (ground arith)
            ∙ sym below
        | inr above ↦
            (stranded (reaped now m) m' l i s now' request_id (sym em) (ground arith)
              (ground arith)).0
            ∙ sym above
      ],
    )

absurd_free :
    (capacity : ℤ) (s : Slot) → is_free s.state ≡ false → is_available capacity s ≡ true → ⊥
absurd_free capacity s a b = ground arith

-- `AcquireLease` may hand out a dead lease, at any sequence capacity: when, once the retired slots that
-- are due have been reaped, every slot below `max_slots` is taken and some slot is free whose `slot_id` the
-- capacity admits (it is below the capacity, or the capacity is not above 0), it succeeds with a lease
-- that is not live and that `RetireLease` refuses.
pub acquire_lease_strands :
    (now now' : ℕ) (request_id capacity : ℤ) (m : Manager)
    → ((j : ℕ) (s : Slot)
        → j < m.max_slots
        → get_elem? (reaped now m).slots j ≡ some s
        → is_free s.state ≡ false)
    → (i : ℕ) (s : Slot) → get_elem? (reaped now m).slots i ≡ some s
    → is_available capacity s ≡ true
    → (m' : Manager) × (l : Lease) × (acquire_lease now now' request_id capacity m ≡ (m', some l))
      × (is_live_lease m' l ≡ false)
      × ((ready_at at : ℕ) → retire_lease ready_at at l m' ≡ (m', false))
acquire_lease_strands now now' request_id capacity m full i0 s0 at0 free0 =
    go (acquire_lease now now' request_id capacity m)
      (acquire_lease-Acquires now now' request_id capacity m)
  where
    go :
        (p : Manager × Option Lease)
        → Acquires now' request_id capacity (reaped now m) p.0 p.1
        → (m' : Manager) × (l : Lease) × (p ≡ (m', some l))
          × (is_live_lease m' l ≡ false)
          × ((ready_at at : ℕ) → retire_lease ready_at at l m' ≡ (m', false))
    go (n, o) (refused h) = cc (h i0 s0 at0, free0)
    go (n, o) (granted i s g test before) =
        let le : m.max_slots ≤ i = elim (dec_lt i m.max_slots) [
          | yes lt ↦ absurd (absurd_free capacity s (full i s lt g) test)
          | no ge ↦ omega arith
        ] in
        let (dead, refuses) = stranded (reaped now m) n _ i s now' request_id refl refl le in
        (n, _, refl, dead, refuses)
