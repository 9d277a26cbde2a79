-- ===== src/Slots/Run.antt =====
-- The calls that the scheduler can make of the slot manager, in any order.
use inferflux.Prelude.{ℕ, List, [], ◌∷◌}
use inferflux.Prelude.Int.{ℤ}
use inferflux.Slots.Defs.{Slot, Lease, Manager}
use inferflux.Slots.Ops.{
  acquire_lease, release_slot, retire_lease, reap_retired_slots, complete_retired_lease,
  evict_idle_slots, mark_processing, update_token_count, mark_completed, restore_lease,
  set_max_slots, set_idle_timeout, degrade,
}

-- `ReleaseLease` is a `retires` followed by a `reaps`.
pub data Call : Type 0 where
  acquires : (now now' : ℕ) → (request_id capacity : ℤ) → Call
  releases : (slot_id : ℤ) → Call
  retires : (ready_at now : ℕ) → Lease → Call
  reaps : (now : ℕ) → Call
  completes_retired : Lease → Call
  evicts : (clock : Slot → ℕ) → (timeout : ℤ) → Call
  processes : (now : ℕ) → (slot_id : ℤ) → Call
  counts : (slot_id count : ℤ) → Call
  completes : (now : ℕ) → (count : ℤ) → Lease → Call
  restores : (now : ℕ) → (request_id sequence_id count : ℤ) → Lease → Call
  resizes : (clock : ℕ → ℕ) → ℕ → Call
  sets_timeout : ℤ → Call
  degrades : (pressure : ℤ) → Call

unfoldable pub step : Call → Manager → Manager
step (acquires now now' request_id capacity) m = (acquire_lease now now' request_id capacity m).0
step (releases slot_id) m = release_slot slot_id m
step (retires ready_at now l) m = (retire_lease ready_at now l m).0
step (reaps now) m = (reap_retired_slots now m).0
step (completes_retired l) m = (complete_retired_lease l m).0
step (evicts clock timeout) m = (evict_idle_slots clock timeout m).0
step (processes now slot_id) m = mark_processing now slot_id m
step (counts slot_id count) m = update_token_count slot_id count m
step (completes now count l) m = (mark_completed now count l m).0
step (restores now request_id sequence_id count l) m =
    (restore_lease now request_id sequence_id count l m).0
step (resizes clock n) m = set_max_slots clock n m
step (sets_timeout timeout) m = set_idle_timeout timeout m
step (degrades pressure) m = (degrade pressure m).0

unfoldable pub run : List Call → Manager → Manager
run [] m = m
run (c ∷ cs) m = run cs (step c m)
