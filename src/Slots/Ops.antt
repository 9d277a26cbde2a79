-- ===== src/Slots/Ops.antt =====
-- The public methods of the slot manager that change its state.
use inferflux.Prelude.{
  ℕ, ◌+◌, ◌*◌, ◌/◌, ◌%◌, Bool, true, false, ◌&&◌, ◌||◌, Option, none, some, List, [], ◌∷◌, ltb, leb,
  ◌==◌, if◌then◌else◌, get_elem?, max,
}
use inferflux.Prelude.Int.{ℤ, pos, negsuc, index?, max_zero}
use inferflux.Slots.Defs.{
  State, prefilling, decoding, retiring, completed, evicted, Slot, Lease, Manager, u64, is_state,
  is_idle, fresh_slots, reset, reap_slots, is_available, find_slot, validate, put,
}

-- What `AcquireLease` writes into the slot that it found.
abbrev pub acquired : ℕ → ℤ → Slot → Slot
acquired now request_id s = record s {
  generation = (s.generation + 1) % u64;
  state = prefilling;
  request_id = request_id;
  sequence_id = negsuc 0;
  acquired_at = now;
  last_access = now;
  retire_ready_at = 0;
  token_count = pos 0;
}

abbrev pub reaped : ℕ → Manager → Manager
reaped now m = record m { slots = (reap_slots now m.slots).0 }

-- The part of `AcquireLease` behind `FindFreeSlot`.
unfoldable pub grant : ℕ → ℤ → Manager → Option ℕ → Manager × Option Lease
grant now request_id m none = (m, none)
grant now request_id m (some i) = elim (get_elem? m.slots i) [
  | none ↦ (m, none)
  | some s ↦
      let t = acquired now request_id s in
      (
        put m i t,
        some (record { slot_id = pos i; generation = t.generation; request_id = request_id }),
      )
]

-- `AcquireLease`, with its two readings of the clock.
unfoldable pub acquire_lease : ℕ → ℕ → ℤ → ℤ → Manager → Manager × Option Lease
acquire_lease now now' request_id capacity m =
    let r = reaped now m in grant now' request_id r (find_slot (is_available capacity) r.slots)

-- `AcquireSlot`.
unfoldable pub acquire_slot : ℕ → ℕ → ℤ → Manager → Manager × Option ℤ
acquire_slot now now' request_id m =
    let (m', l) = acquire_lease now now' request_id (pos 0) m in
    (m', elim l [ none ↦ none | some lease ↦ some lease.slot_id ])

-- The methods that take a slot by its number, with no generation to compare.
abbrev pub change_slot : ℤ → (Slot → Slot) → Manager → Manager
change_slot slot_id f m = elim (index? slot_id m.max_slots) [
  | none ↦ m
  | some i ↦ elim (get_elem? m.slots i) [ none ↦ m | some s ↦ put m i (f s) ]
]

-- `ReleaseSlot`.
unfoldable pub release_slot : ℤ → Manager → Manager
release_slot slot_id m = change_slot slot_id reset m

abbrev pub processing : ℕ → Slot → Slot
processing now s = record s {
  last_access = now;
  state = if is_state s.state prefilling then decoding else s.state;
}

-- `MarkProcessing`.
unfoldable pub mark_processing : ℕ → ℤ → Manager → Manager
mark_processing now slot_id m = change_slot slot_id (processing now) m

-- `UpdateTokenCount`.
unfoldable pub update_token_count : ℤ → ℤ → Manager → Manager
update_token_count slot_id count m = change_slot slot_id (λ s. record s { token_count = count }) m

-- The methods that take a lease: nothing happens unless the lease is valid.
abbrev pub change_lease : Lease → (State → Bool) → (Slot → Slot) → Manager → Manager × Bool
change_lease l accepted f m = elim (validate m l accepted) [
  | none ↦ (m, false)
  | some (i, s) ↦ (put m i (f s), true)
]

abbrev pub is_held : State → Bool
is_held s = is_state s prefilling || is_state s decoding || is_state s completed

-- `RetireLease`: `ready_at` is the fence.
unfoldable pub retire_lease : ℕ → ℕ → Lease → Manager → Manager × Bool
retire_lease ready_at now l m =
    change_lease l is_held
      (λ s. record s { state = retiring; retire_ready_at = ready_at; last_access = now }) m

-- `ReapRetiredSlots`.
unfoldable pub reap_retired_slots : ℕ → Manager → Manager × ℕ
reap_retired_slots now m = (reaped now m, (reap_slots now m.slots).1)

-- `ReleaseLease`: it lets go of the lock between its two parts, and `between` is what the other
-- threads do there. The fence, the stamp and the reaping read the clock in turn.
unfoldable pub release_lease : ℕ → ℕ → ℕ → (Manager → Manager) → Lease → Manager → Manager × Bool
release_lease ready_at now now' between l m =
    let (m', ok) = retire_lease ready_at now l m in
    if ok
    then (let (m'', n) = reap_retired_slots now' (between m') in (m'', ltb 0 n))
    else (m', false)

-- `CompleteRetiredLease`.
unfoldable pub complete_retired_lease : Lease → Manager → Manager × Bool
complete_retired_lease l m = change_lease l (λ s. is_state s retiring) reset m

-- `MarkCompleted`.
unfoldable pub mark_completed : ℕ → ℤ → Lease → Manager → Manager × Bool
mark_completed now count l m =
    change_lease l is_held
      (λ s. record s { state = completed; token_count = max_zero count; last_access = now }) m

-- `RestoreLease`.
unfoldable pub restore_lease : ℕ → ℤ → ℤ → ℤ → Lease → Manager → Manager × Bool
restore_lease now request_id sequence_id count l m =
    change_lease l (λ s. is_state s completed)
      (λ s. record s {
        request_id = request_id;
        sequence_id = sequence_id;
        state = prefilling;
        token_count = max_zero count;
        last_access = now;
        acquired_at = now;
        retire_ready_at = 0;
      })
      m

-- The loop of `EvictIdleSlotsLocked`: the slots, and the evicted pairs of slot and sequence.
unfoldable pub evict_slots : (Slot → ℕ) → ℤ → List Slot → List Slot × List (ℕ × ℤ)
evict_slots clock timeout [] = ([], [])
evict_slots clock timeout (s ∷ ss) =
    let (rest, out) = evict_slots clock timeout ss in
    if is_state s.state decoding && is_idle (clock s) timeout s
    then (record s { state = evicted } ∷ rest, (s.slot_id, s.sequence_id) ∷ out)
    else (s ∷ rest, out)

-- `EvictIdleSlots`: `clock s` is the reading of the clock in the test of slot `s`.
unfoldable pub evict_idle_slots : (Slot → ℕ) → ℤ → Manager → Manager × List (ℕ × ℤ)
evict_idle_slots clock timeout m =
    let (ss, out) = evict_slots clock timeout m.slots in (record m { slots = ss }, out)

-- `SetMaxSlots`.
unfoldable pub set_max_slots : (ℕ → ℕ) → ℕ → Manager → Manager
set_max_slots clock n m =
    if n == m.max_slots then m else record m { max_slots = n; slots = fresh_slots clock n 0 }

-- `SetIdleTimeout`.
unfoldable pub set_idle_timeout : ℤ → Manager → Manager
set_idle_timeout timeout m = record m { idle_timeout = timeout }

-- `PerformGracefulDegradation` of a CUDA build, at the value of `GetMemoryPressure`.
unfoldable pub degrade : ℤ → Manager → Manager × Bool
degrade (negsuc n) m = (m, false)
degrade (pos pressure) m =
    if leb 90 pressure
    then shrink (max 8 (m.max_slots / 2))
    else if leb 85 pressure
    then shrink (max 16 (m.max_slots * 3 / 4))
    else (m, false)
  where
    shrink : ℕ → Manager × Bool
    shrink n = if ltb n m.max_slots then (record m { max_slots = n }, true) else (m, false)
