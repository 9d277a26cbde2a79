-- ===== src/Slots/Query.antt =====
-- The public methods of the slot manager that only read its state.
use inferflux.Prelude.{ℕ, Bool, false, ◌&&◌, Option, none, some, ◌==◌, get_elem?}
use inferflux.Prelude.Int.{ℤ, pos, negsuc, index?}
use inferflux.Slots.Defs.{
  retiring, Slot, Lease, Manager, is_state, is_free, is_used, count_if, find_slot,
}

-- Equality of two `int64_t`.
abbrev pub eq_ℤ : ℤ → ℤ → Bool
eq_ℤ (pos a) (pos b) = a == b
eq_ℤ (negsuc a) (negsuc b) = a == b
eq_ℤ _ _ = false

-- The slot that a signed number names, if it passes the guard of the readers.
unfoldable pub slot_at : Manager → ℤ → Option Slot
slot_at m slot_id = elim (index? slot_id m.max_slots) [ none ↦ none | some i ↦ get_elem? m.slots i ]

-- `CurrentGeneration`.
unfoldable pub current_generation : Manager → ℤ → Option ℕ
current_generation m slot_id = elim (slot_at m slot_id) [ none ↦ none | some s ↦ some s.generation ]

-- `IsLiveLease`.
unfoldable pub is_live_lease : Manager → Lease → Bool
is_live_lease m l = elim (slot_at m l.slot_id) [
  | none ↦ false
  | some s ↦ s.generation == l.generation && eq_ℤ s.request_id l.request_id && is_used s.state
]

-- `GetRetiringSlotCount`.
unfoldable pub retiring_count : Manager → ℕ
retiring_count m = count_if (λ s. is_state s.state retiring) m.slots

-- `GetUsedSlotCount`.
unfoldable pub used_count : Manager → ℕ
used_count m = count_if (λ s. is_used s.state) m.slots

-- `GetFreeSlotCount`.
unfoldable pub free_count : Manager → ℕ
free_count m = count_if (λ s. is_free s.state) m.slots

-- `FindSlotByRequestId`.
unfoldable pub find_slot_by_request_id : Manager → ℤ → Option ℕ
find_slot_by_request_id m request_id =
    find_slot (λ s. eq_ℤ s.request_id request_id && is_used s.state) m.slots
