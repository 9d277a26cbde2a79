-- ===== src/Slots/Generation.antt =====
-- How the generation of a slot changes over calls.
use inferflux.Prelude.{
  ℕ, zero, suc, ◌+◌, ◌%◌, ◌<◌, ◌≡◌, refl, sym, ◌∙◌, ap, Bool, ◌&&◌, Option, none, some, List, [],
  ◌∷◌, arith, ◌==◌, if◌then◌else◌, get_elem?, set, Option-cases, Bool-cases, inl, inr,
}
use inferflux.Prelude.Int.{ℤ, pos, negsuc, index?}
use inferflux.Slots.Defs.{
  State, Slot, Lease, Manager, u64, reap_slots, validate, is_ripe, is_state, decoding, is_idle,
}
use inferflux.Slots.Ops.{
  acquired, reaped, acquire_lease, change_slot, release_slot, mark_processing, update_token_count,
  change_lease, retire_lease, reap_retired_slots, complete_retired_lease, mark_completed,
  restore_lease, evict_slots, evict_idle_slots, set_idle_timeout, degrade,
}
use inferflux.Slots.Run.{
  Call, acquires, releases, retires, reaps, completes_retired, evicts, processes, counts, completes,
  restores, resizes, sets_timeout, degrades, step, run,
}
use inferflux.Slots.Acquire.{Acquires, refused, granted, acquire_lease-Acquires}
use inferflux.Slots.Invariant.{validate-some}

-- The generation of the slot at a position.
abbrev pub generation_at : List Slot → ℕ → Option ℕ
generation_at ss i = elim (get_elem? ss i) [ none ↦ none | some s ↦ some s.generation ]

abbrev pub bump : ℕ → Option ℕ → Option ℕ
bump k none = none
bump k (some g) = some ((g + k) % u64)

-- How many leases of slot `i` a call hands out.
abbrev pub grants_of : Option Lease → ℕ → ℕ
grants_of none i = 0
grants_of (some l) i = elim l.slot_id [ pos j ↦ if j == i then 1 else 0 | negsuc j ↦ 0 ]

unfoldable pub grants : Call → Manager → ℕ → ℕ
grants (acquires now now' request_id capacity) m i =
    grants_of (acquire_lease now now' request_id capacity m).1 i
grants _ m i = 0

unfoldable pub all_grants : List Call → Manager → ℕ → ℕ
all_grants [] m i = 0
all_grants (c ∷ cs) m i = grants c m i + all_grants cs (step c m) i

-- `SetMaxSlots` builds new slots, with generations from 0.
abbrev pub IsSteady : Call → Type 0
IsSteady (resizes clock n) = ⊥
IsSteady _ = Unit {0}

abbrev pub AreSteady : List Call → Type 0
AreSteady [] = Unit {0}
AreSteady (c ∷ cs) = IsSteady c × AreSteady cs

generation_at-set :
    (ss : List Slot) (i j : ℕ) (s t : Slot)
    → get_elem? ss i ≡ some s
    → t.generation ≡ s.generation
    → generation_at (set ss i t) j ≡ generation_at ss j
generation_at-set [] i j s t g e = refl
generation_at-set (x ∷ ss) zero zero s t g e = ground arith
generation_at-set (x ∷ ss) zero (suc j) s t g e = refl
generation_at-set (x ∷ ss) (suc i) zero s t g e = refl
generation_at-set (x ∷ ss) (suc i) (suc j) s t g e = generation_at-set ss i j s t g e

generation_at-reap_slots :
    (now : ℕ) (ss : List Slot) (j : ℕ) → generation_at (reap_slots now ss).0 j ≡ generation_at ss j
unfolding reap_slots
generation_at-reap_slots now [] j = refl
generation_at-reap_slots now (s ∷ ss) zero = ground arith
generation_at-reap_slots now (s ∷ ss) (suc j) = elim (Bool-cases (is_ripe now s)) [
  | inl e ↦ rw e (generation_at-reap_slots now ss j)
  | inr e ↦ rw e (generation_at-reap_slots now ss j)
]

generation_at-evict_slots :
    (clock : Slot → ℕ) (timeout : ℤ) (ss : List Slot) (j : ℕ)
    → generation_at (evict_slots clock timeout ss).0 j ≡ generation_at ss j
unfolding evict_slots
generation_at-evict_slots clock timeout [] j = refl
generation_at-evict_slots clock timeout (s ∷ ss) zero = ground arith
generation_at-evict_slots clock timeout (s ∷ ss) (suc j) =
    elim (Bool-cases (is_state s.state decoding && is_idle (clock s) timeout s)) [
      | inl e ↦ rw e (generation_at-evict_slots clock timeout ss j)
      | inr e ↦ rw e (generation_at-evict_slots clock timeout ss j)
    ]

generation_at-change_slot :
    (slot_id : ℤ) (f : Slot → Slot) (m : Manager) (j : ℕ)
    → ((s : Slot) → (f s).generation ≡ s.generation)
    → generation_at (change_slot slot_id f m).slots j ≡ generation_at m.slots j
generation_at-change_slot slot_id f m j same = elim (Option-cases (index? slot_id m.max_slots)) [
  | inl e ↦ rw (e, change_slot)
  | inr (i, e) ↦ elim (Option-cases (get_elem? m.slots i)) [
    | inl d ↦ rw (e, change_slot, d, change_slot)
    | inr (s, d) ↦
        rw (e, change_slot, d, change_slot) (generation_at-set m.slots i j s (f s) d (same s))
  ]
]

generation_at-change_lease :
    (l : Lease) (accepted : State → Bool) (f : Slot → Slot) (m : Manager) (j : ℕ)
    → ((s : Slot) → (f s).generation ≡ s.generation)
    → generation_at (change_lease l accepted f m).0.slots j ≡ generation_at m.slots j
generation_at-change_lease l accepted f m j same = elim (Option-cases (validate m l accepted)) [
  | inl e ↦ rw (e, change_lease)
  | inr ((i, s), e) ↦
      rw (e, change_lease)
        (generation_at-set m.slots i j s (f s) (validate-some m l accepted i s e).1 (same s))
]

generation_at-acquired :
    (now : ℕ) (request_id : ℤ) (ss : List Slot) (i j : ℕ) (s : Slot)
    → get_elem? ss i ≡ some s
    → generation_at (set ss i (acquired now request_id s)) j
      ≡ (if i == j then bump 1 (generation_at ss j) else generation_at ss j)
generation_at-acquired now request_id [] i j s g = cc
generation_at-acquired now request_id (x ∷ ss) zero zero s g = ground arith
generation_at-acquired now request_id (x ∷ ss) zero (suc j) s g = ground arith
generation_at-acquired now request_id (x ∷ ss) (suc i) zero s g = ground arith
generation_at-acquired now request_id (x ∷ ss) (suc i) (suc j) s g =
    ground (arith, generation_at-acquired now request_id ss i j s g)

-- Every generation below the modulus.
abbrev pub AreBounded : List Slot → Type 0
AreBounded ss = (i g : ℕ) → generation_at ss i ≡ some g → g < u64

bump_zero : (o : Option ℕ) → ((g : ℕ) → o ≡ some g → g < u64) → o ≡ bump 0 o
bump_zero none h = refl
bump_zero (some g) h = let lt : g < u64 = h g refl in ap some (omega arith)

bump_add : (a b : ℕ) (o : Option ℕ) → bump b (bump a o) ≡ bump (a + b) o
bump_add a b none = refl
bump_add a b (some g) = ap some (omega arith)

bump_lt : (k : ℕ) (o : Option ℕ) (g : ℕ) → bump k o ≡ some g → g < u64
bump_lt k none g e = cc
bump_lt k (some h) g e = ground arith

acquire_lease-generation :
    (now now' : ℕ) (request_id capacity : ℤ) (m : Manager) (j : ℕ)
    → AreBounded m.slots
    → generation_at (acquire_lease now now' request_id capacity m).0.slots j
      ≡ bump
          (grants_of (acquire_lease now now' request_id capacity m).1 j)
          (generation_at m.slots j)
acquire_lease-generation now now' request_id capacity m j b =
    go (acquire_lease-Acquires now now' request_id capacity m)
  where
    keep : generation_at (reap_slots now m.slots).0 j ≡ bump 0 (generation_at m.slots j)
    keep = generation_at-reap_slots now m.slots j ∙ bump_zero (generation_at m.slots j) (b j)

    go :
        {n : Manager} {o : Option Lease}
        → Acquires now' request_id capacity (reaped now m) n o
        → generation_at n.slots j ≡ bump (grants_of o j) (generation_at m.slots j)
    go (refused h) = keep
    go (granted i s g test before) =
        generation_at-acquired now' request_id (reap_slots now m.slots).0 i j s g
        ∙ elim (Bool-cases (i == j)) [
          | inl e ↦ rw e (ap (bump 1) (generation_at-reap_slots now m.slots j))
          | inr e ↦ rw e keep
        ]

degraded :
    (pressure : ℤ) (m : Manager) (j : ℕ)
    → generation_at (degrade pressure m).0.slots j ≡ generation_at m.slots j
unfolding degrade
degraded (negsuc n) m j = refl
degraded (pos n) m j = ground arith

step-generation :
    (c : Call) (m : Manager) (j : ℕ)
    → IsSteady c
    → AreBounded m.slots
    → generation_at (step c m).slots j ≡ bump (grants c m j) (generation_at m.slots j)
unfolding step grants release_slot retire_lease reap_retired_slots complete_retired_lease
    evict_idle_slots mark_processing update_token_count mark_completed restore_lease
    set_idle_timeout
step-generation (acquires now now' request_id capacity) m j st b =
    acquire_lease-generation now now' request_id capacity m j b
step-generation (releases slot_id) m j st b =
    generation_at-change_slot slot_id _ m j (λ s. refl) ∙ bump_zero _ (b j)
step-generation (retires ready_at now l) m j st b =
    generation_at-change_lease l _ _ m j (λ s. refl) ∙ bump_zero _ (b j)
step-generation (reaps now) m j st b = generation_at-reap_slots now m.slots j ∙ bump_zero _ (b j)
step-generation (completes_retired l) m j st b =
    generation_at-change_lease l _ _ m j (λ s. refl) ∙ bump_zero _ (b j)
step-generation (evicts clock timeout) m j st b =
    generation_at-evict_slots clock timeout m.slots j ∙ bump_zero _ (b j)
step-generation (processes now slot_id) m j st b =
    generation_at-change_slot slot_id _ m j (λ s. refl) ∙ bump_zero _ (b j)
step-generation (counts slot_id count) m j st b =
    generation_at-change_slot slot_id _ m j (λ s. refl) ∙ bump_zero _ (b j)
step-generation (completes now count l) m j st b =
    generation_at-change_lease l _ _ m j (λ s. refl) ∙ bump_zero _ (b j)
step-generation (restores now request_id sequence_id count l) m j st b =
    generation_at-change_lease l _ _ m j (λ s. refl) ∙ bump_zero _ (b j)
step-generation (resizes clock n) m j st b = absurd st
step-generation (sets_timeout timeout) m j st b = bump_zero _ (b j)
step-generation (degrades pressure) m j st b = degraded pressure m j ∙ bump_zero _ (b j)

step-AreBounded :
    (c : Call) (m : Manager) → IsSteady c → AreBounded m.slots → AreBounded (step c m).slots
step-AreBounded c m st b i g e =
    bump_lt (grants c m i) (generation_at m.slots i) g (sym (step-generation c m i st b) ∙ e)

-- A slot's generation after any calls other than `SetMaxSlots` has grown by the number of leases
-- of that slot that `AcquireLease` handed out, modulo 2^64.
pub run-generation :
    (cs : List Call) (m : Manager) (j : ℕ)
    → AreSteady cs
    → AreBounded m.slots
    → generation_at (run cs m).slots j ≡ bump (all_grants cs m j) (generation_at m.slots j)
unfolding run all_grants
run-generation [] m j st b = bump_zero _ (b j)
run-generation (c ∷ cs) m j st b =
    run-generation cs (step c m) j st.1 (step-AreBounded c m st.0 b)
    ∙ ap (bump (all_grants cs (step c m) j)) (step-generation c m j st.0 b)
    ∙ bump_add _ _ _
