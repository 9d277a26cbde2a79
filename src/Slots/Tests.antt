-- ===== src/Slots/Tests.antt =====
-- Runs of the slot manager on small inputs, and its theorems at such inputs.
use inferflux.Prelude.{
  ℕ, zero, suc, ◌<◌, ◌≡◌, ◌≢◌, refl, true, false, none, some, List, [], ◌∷◌, ◌^◌, arith, get_elem?,
}
use inferflux.Prelude.Int.{ℤ, pos, negsuc}
use inferflux.Slots.Defs.{
  State, idle, prefilling, retiring, Slot, Lease, Manager, reset, reap_slots, find_slot, validate,
  is_free, is_state,
}
use inferflux.Slots.Ops.{
  reaped, acquire_lease, grant, retire_lease, release_lease, release_slot, is_held, set_max_slots,
  degrade,
}
use inferflux.Slots.Query.{is_live_lease}
use inferflux.Slots.Run.{Call, acquires, releases, step, run}
use inferflux.Slots.Invariant.{IsValid, run-IsValid}
use inferflux.Slots.Acquire.{Acquires, acquire_lease-Acquires}
use inferflux.Slots.Live.{acquire_lease_strands}
use inferflux.Slots.Generation.{generation_at, bump, grants, all_grants, run-generation}
use inferflux.Slots.Stale.{stale_lease_refused, set_max_slots_revives}
use inferflux.Slots.Release.{retired, release_lease_race}

abbrev slot : ℕ → State → ℕ → ℤ → Slot
slot i state generation request_id = record {
  slot_id = i;
  request_id = request_id;
  sequence_id = negsuc 0;
  generation = generation;
  state = state;
  last_access = 0;
  acquired_at = 0;
  retire_ready_at = 0;
  token_count = pos 0;
}

-- Slot 0 prefills request 7 under generation 1, slot 1 is idle.
abbrev busy : Manager
busy = record {
  slots = slot 0 prefilling 1 (pos 7) ∷ slot 1 idle 4 (negsuc 0) ∷ [];
  max_slots = 2;
  idle_timeout = pos 300_000;
}

-- The same slots after the limit was lowered to 1.
abbrev lowered : Manager
lowered = record busy { max_slots = 1 }

abbrev held : Lease
held = record { slot_id = pos 0; generation = 1; request_id = pos 7 }

-- Slot 0 is released and handed out again.
abbrev history : List Call
history = releases (pos 0) ∷ acquires 5 6 (pos 8) (pos 0) ∷ []

busy-IsValid : IsValid busy
busy-IsValid = record {
  numbered = (refl, (λ e. cc), (refl, (λ _. (refl, refl)), tt));
  limited = omega arith;
}

degrade_halves : (degrade (pos 90) (record busy { max_slots = 40 })).0.max_slots ≡ 20
unfolding degrade
degrade_halves = refl

run-IsValid_example : IsValid (run history busy)
run-IsValid_example = run-IsValid history busy busy-IsValid

acquire_lease-Acquires_example :
    let (m', l) = acquire_lease 5 6 (pos 8) (pos 0) busy in
    Acquires 6 (pos 8) (pos 0) (reaped 5 busy) m' l
acquire_lease-Acquires_example = acquire_lease-Acquires 5 6 (pos 8) (pos 0) busy

abbrev second : Lease
second = record { slot_id = pos 1; generation = 5; request_id = pos 8 }

lowered_full :
    (j : ℕ) (s : Slot)
    → j < 1
    → get_elem? (reaped 5 lowered).slots j ≡ some s
    → is_free s.state ≡ false
unfolding reap_slots
lowered_full zero s lt e = ground arith
lowered_full (suc j) s lt e = absurd (omega arith)

acquire_lease_strands_example :
    (m' : Manager) × (l : Lease) × (acquire_lease 5 6 (pos 8) (pos 2) lowered ≡ (m', some l))
    × (is_live_lease m' l ≡ false)
    × ((ready_at at : ℕ) → retire_lease ready_at at l m' ≡ (m', false))
unfolding reap_slots
acquire_lease_strands_example =
    acquire_lease_strands 5 6 (pos 8) (pos 2) lowered lowered_full 1 (slot 1 idle 4 (negsuc 0)) refl
      refl

busy-AreBounded : (i g : ℕ) → generation_at busy.slots i ≡ some g → g < 2 ^ 64
busy-AreBounded zero g e = ground arith
busy-AreBounded (suc zero) g e = ground arith
busy-AreBounded (suc (suc i)) g e = cc

run-generation_example :
    generation_at (run history busy).slots 0 ≡ bump (all_grants history busy 0) (some 1)
run-generation_example = run-generation history busy 0 (tt, (tt, tt)) busy-AreBounded

history_grants : all_grants history busy 0 ≡ 1
unfolding all_grants grants acquire_lease step release_slot reap_slots find_slot grant
history_grants = refl

stale_lease_refused_example :
    (validate (run history busy) held is_held ≡ none)
    × (is_live_lease (run history busy) held ≡ false)
stale_lease_refused_example =
    stale_lease_refused history busy held 0 is_held (tt, (tt, tt)) busy-AreBounded refl refl
      (omega (arith, history_grants)) (omega (arith, history_grants))

set_max_slots_revives_example :
    (retire_lease 9 9 held (acquire_lease 5 6 (pos 8) (pos 0) (set_max_slots (λ k. k) 4 busy)).0).1
    ≡ true
set_max_slots_revives_example =
    set_max_slots_revives (λ k. k) 3 5 6 9 9 (pos 8) busy held (omega arith) refl refl

others_busy :
    (j : ℕ) (t : Slot) → j ≢ 0 → get_elem? busy.slots j ≡ some t → is_state t.state retiring ≡ false
others_busy zero t ne e = absurd (ne refl)
others_busy (suc zero) t ne e = ground arith
others_busy (suc (suc j)) t ne e = cc

release_lease_race_example :
    let (m', ok) = release_lease 3 3 4 (reaped 3) held busy in
    (ok ≡ false) × (get_elem? m'.slots 0 ≡ some (reset (retired 3 3 (slot 0 prefilling 1 (pos 7)))))
unfolding validate
release_lease_race_example =
    release_lease_race 3 3 3 4 held busy 0 (slot 0 prefilling 1 (pos 7)) refl (omega arith)
      others_busy
