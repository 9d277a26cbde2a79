-- ===== src/Slots/Stale.antt =====
-- Leases that the generations tell from the present one.
use inferflux.Prelude.{
  ℕ, suc, ◌+◌, ◌%◌, ◌<◌, ◌≡◌, ◌≢◌, ◌∙◌, ap, Bool, true, false, none, some, List, arith,
}
use inferflux.Prelude.Int.{ℤ, pos}
use inferflux.Slots.Defs.{State, Lease, Manager, u64, fresh_slots, find_slot, reap_slots, validate}
use inferflux.Slots.Ops.{grant, acquire_lease, retire_lease, set_max_slots}
use inferflux.Slots.Query.{is_live_lease, slot_at}
use inferflux.Slots.Run.{Call, run}
use inferflux.Slots.Generation.{
  generation_at, bump, all_grants, AreSteady, AreBounded, run-generation, run-generation,
}

bump_ne : (g k : ℕ) → g < u64 → 0 < k → k < u64 → (g + k) % u64 ≢ g
bump_ne g k a b c = omega arith

-- A lease is of no use where its slot has another generation.
moved_on :
    (m : Manager) (l : Lease) (i : ℕ) (accepted : State → Bool) (k : ℕ)
    → l.slot_id ≡ pos i
    → generation_at m.slots i ≡ some ((l.generation + k) % u64)
    → (l.generation + k) % u64 ≢ l.generation
    → (validate m l accepted ≡ none) × (is_live_lease m l ≡ false)
unfolding validate is_live_lease slot_at
moved_on m l i accepted k at g ne = (ground arith, ground arith)

-- A lease is refused for good once its slot has been handed out again: after any calls other than
-- `SetMaxSlots` that hand out the slot at least once and fewer than 2^64 times, no method that
-- takes the lease accepts it, whatever the state of the slot, and the lease is not live.
pub stale_lease_refused :
    (cs : List Call) (m : Manager) (l : Lease) (i : ℕ) (accepted : State → Bool)
    → AreSteady cs
    → AreBounded m.slots
    → l.slot_id ≡ pos i
    → generation_at m.slots i ≡ some l.generation
    → 0 < all_grants cs m i
    → all_grants cs m i < u64
    → (validate (run cs m) l accepted ≡ none) × (is_live_lease (run cs m) l ≡ false)
stale_lease_refused cs m l i accepted st b at now_generation some_grants few =
    let after = run-generation cs m i st b in
    moved_on (run cs m) l i accepted (all_grants cs m i) at
      (after ∙ ap (bump (all_grants cs m i)) now_generation)
      (bump_ne l.generation (all_grants cs m i) (b i l.generation now_generation) some_grants few)

-- `SetMaxSlots` forgets the generations: after a change of the limit, the next lease of slot 0 has
-- generation 1 again, and `RetireLease` accepts any lease of slot 0 and generation 1, also one that
-- was handed out before the change.
pub set_max_slots_revives :
    (clock : ℕ → ℕ) (n now now' ready_at at : ℕ) (request_id : ℤ) (m : Manager) (old : Lease)
    → suc n ≢ m.max_slots
    → old.slot_id ≡ pos 0
    → old.generation ≡ 1
    → (retire_lease ready_at at old
        (acquire_lease now now' request_id (pos 0) (set_max_slots clock (suc n) m)).0).1
      ≡ true
unfolding retire_lease acquire_lease set_max_slots fresh_slots reap_slots find_slot grant validate
set_max_slots_revives clock n now now' ready_at at request_id m old change slot generation =
    ground arith
