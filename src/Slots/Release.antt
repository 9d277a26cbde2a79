-- ===== src/Slots/Release.antt =====
-- `ReleaseLease` and the counts of the slots by state.
use inferflux.Prelude.{
  ℕ, zero, suc, ◌+◌, ◌≤◌, ◌≡◌, ◌≢◌, refl, sym, ◌∙◌, ap, true, false, Option, none, some, List, [],
  ◌∷◌, arith, ltb, length, get_elem?, set, Option-cases, inl, inr, ◌⊎◌, ℕ_discrete,
  get_elem?-set_self, get_elem?-set_ne,
}
use inferflux.Slots.Defs.{
  retiring, completed, Slot, Lease, Manager, reset, reap_slots, validate, put, is_ripe, is_state,
  is_used, is_free, count_if,
}
use inferflux.Slots.Ops.{
  reaped, change_lease, is_held, retire_lease, reap_retired_slots, release_lease,
}
use inferflux.Slots.Query.{used_count, free_count, retiring_count}
use inferflux.Slots.Invariant.{validate-some}
use inferflux.Slots.Acquire.{reap, get_elem?-reap_slots, get_elem?-lt}

-- Reaping counts every slot that it finds ripe.
reap_slots-pos :
    (now : ℕ) (ss : List Slot) (i : ℕ) (s : Slot)
    → get_elem? ss i ≡ some s
    → is_ripe now s ≡ true
    → ltb 0 (reap_slots now ss).1 ≡ true
unfolding reap_slots
reap_slots-pos now [] i s g e = cc
reap_slots-pos now (x ∷ ss) zero s g e = ground arith
reap_slots-pos now (x ∷ ss) (suc i) s g e = ground (arith, reap_slots-pos now ss i s g e)

reap_slots-none :
    (now : ℕ) (ss : List Slot)
    → ((i : ℕ) (s : Slot) → get_elem? ss i ≡ some s → is_ripe now s ≡ false)
    → (reap_slots now ss).1 ≡ 0
unfolding reap_slots
reap_slots-none now [] h = refl
reap_slots-none now (x ∷ ss) h =
    ground (arith, h 0 x refl, reap_slots-none now ss (λ i s g. h (suc i) s g))

abbrev pub retired : ℕ → ℕ → Slot → Slot
retired ready_at now s = record s {
  state = retiring;
  retire_ready_at = ready_at;
  last_access = now;
}

retire_lease-cases :
    (ready_at now : ℕ) (l : Lease) (m : Manager)
    → ((validate m l is_held ≡ none) × (retire_lease ready_at now l m ≡ (m, false)))
      ⊎ ((i : ℕ) × (s : Slot) × (validate m l is_held ≡ some (i, s))
          × (get_elem? m.slots i ≡ some s)
          × (retire_lease ready_at now l m ≡ (put m i (retired ready_at now s), true)))
unfolding retire_lease
retire_lease-cases ready_at now l m = elim (Option-cases (validate m l is_held)) [
  | inl e ↦ inl (e, rw (e, change_lease))
  | inr ((i, s), e) ↦ inr (i, s, e, (validate-some m l is_held i s e).1, rw (e, change_lease))
]

-- With no other thread between its two parts and a clock that does not run backwards,
-- `ReleaseLease` answers true exactly when the lease is valid (in range, of the present generation,
-- and its slot prefilling, decoding or completed); then the slot is reset to idle, and otherwise
-- nothing has changed.
pub release_lease_lem :
    (ready_at now now' : ℕ) (l : Lease) (m : Manager)
    → ready_at ≤ now'
    → let (m', ok) = release_lease ready_at now now' (λ n. n) l m in
      ((validate m l is_held ≡ none) × (ok ≡ false) × (m' ≡ m))
      ⊎ ((i : ℕ) × (s : Slot) × (validate m l is_held ≡ some (i, s))
          × (ok ≡ true)
          × (get_elem? m'.slots i ≡ some (reset (retired ready_at now s))))
unfolding release_lease reap_retired_slots
release_lease_lem ready_at now now' l m le = elim (retire_lease-cases ready_at now l m) [
  | inl (e, r) ↦ inl (e, rw r, rw r)
  | inr (i, s, e, g, r) ↦
      let t : Slot = retired ready_at now s in
      let at : get_elem? (set m.slots i t) i ≡ some t =
        get_elem?-set_self m.slots i t (get_elem?-lt m.slots i s g) in
      inr (
        i,
        s,
        e,
        rw r (reap_slots-pos now' (set m.slots i t) i t at (ground arith)),
        rw r (rw (get_elem?-reap_slots now' (set m.slots i t) i, at) (ground arith)),
      )
]

retire_lease-valid :
    (ready_at now : ℕ) (l : Lease) (m : Manager) (i : ℕ) (s : Slot)
    → validate m l is_held ≡ some (i, s)
    → retire_lease ready_at now l m ≡ (put m i (retired ready_at now s), true)
unfolding retire_lease
retire_lease-valid ready_at now l m i s v = rw (v, change_lease)

elsewhere :
    (now other : ℕ) (u : Slot) (o : Option Slot)
    → ((v : Slot) → o ≡ some v → is_state v.state retiring ≡ false)
    → some u ≡ elim o [ none ↦ none | some v ↦ some (reap other v) ]
    → is_ripe now u ≡ false
elsewhere now other u none h e = cc
elsewhere now other u (some v) h e = ground (arith, h v refl)

-- After a reaping of the only retiring slot, nothing is left to reap.
nothing_ripe :
    (now other : ℕ) (ss : List Slot) (i : ℕ) (t s : Slot)
    → get_elem? ss i ≡ some s
    → get_elem? (reap_slots other (set ss i t)).0 i ≡ some (reset t)
    → ((j : ℕ) (u : Slot) → j ≢ i → get_elem? ss j ≡ some u → is_state u.state retiring ≡ false)
    → (j : ℕ) (u : Slot) → get_elem? (reap_slots other (set ss i t)).0 j ≡ some u
    → is_ripe now u ≡ false
nothing_ripe now other ss i t s g at alone j u h = elim (ℕ_discrete j i) [
  | yes e ↦ ground (arith, at, ap (get_elem? (reap_slots other (set ss i t)).0) e)
  | no ne ↦
      elsewhere now other u (get_elem? ss j) (λ v. alone j v ne)
        (sym h
          ∙ get_elem?-reap_slots other (set ss i t) j
          ∙ rw (get_elem?-set_ne ss t (λ e. ne (sym e))))
]

-- The race between the two parts: if another thread reaps there, and no other slot is retiring,
-- then `ReleaseLease` answers false although it has released the slot.
pub release_lease_race :
    (ready_at now other now' : ℕ) (l : Lease) (m : Manager) (i : ℕ) (s : Slot)
    → validate m l is_held ≡ some (i, s)
    → ready_at ≤ other
    → ((j : ℕ) (t : Slot)
        → j ≢ i
        → get_elem? m.slots j ≡ some t
        → is_state t.state retiring ≡ false)
    → let (m', ok) = release_lease ready_at now now' (reaped other) l m in
      (ok ≡ false) × (get_elem? m'.slots i ≡ some (reset (retired ready_at now s)))
unfolding release_lease reap_retired_slots
release_lease_race ready_at now other now' l m i s v le alone =
    let t : Slot = retired ready_at now s in
    let ss : List Slot = set m.slots i t in
    let g : get_elem? m.slots i ≡ some s = (validate-some m l is_held i s v).1 in
    let at : get_elem? (reap_slots other ss).0 i ≡ some (reset t) =
      get_elem?-reap_slots other ss i
      ∙ rw (get_elem?-set_self m.slots i t (get_elem?-lt m.slots i s g)) (ground arith) in
    rw (retire_lease-valid ready_at now l m i s v) (
      rw (
          reap_slots-none now' (reap_slots other ss).0
            (nothing_ripe now' other m.slots i t s g at alone)),
      get_elem?-reap_slots now' (reap_slots other ss).0 i ∙ rw at (ground arith),
    )

-- Every slot is free, used, retiring or completed.
all_counts :
    (ss : List Slot)
    → count_if (λ s. is_free s.state) ss
        + count_if (λ s. is_used s.state) ss
        + count_if (λ s. is_state s.state retiring) ss
        + count_if (λ s. is_state s.state completed) ss
      ≡ length ss
unfolding count_if
all_counts [] = omega arith
all_counts (s ∷ ss) = ground (arith, all_counts ss)

-- The free, used and retiring slots that the manager reports, with the completed ones, make up all
-- the slots.
pub slot_counts :
    (m : Manager)
    → free_count m
        + used_count m
        + retiring_count m
        + count_if (λ s. is_state s.state completed) m.slots
      ≡ length m.slots
unfolding free_count used_count retiring_count
slot_counts m = all_counts m.slots
