-- ===== src/Slots/Defs.antt =====
-- The data of the slot manager, and the parts that its methods share.
use inferflux.Prelude.{
  ℕ, zero, suc, ◌+◌, ◌*◌, ◌^◌, Bool, true, false, ◌&&◌, ◌||◌, Option, none, some, List, [], ◌∷◌,
  leb, ◌==◌, if◌then◌else◌, get_elem?, set,
}
use inferflux.Prelude.Int.{ℤ, pos, negsuc, sub_ℕ, ltb_ℤ, leb_ℤ, index?}

-- `SequenceState`.
pub data State : Type 0 where
  idle prefilling decoding retiring completed evicted : State

-- `SequenceSlot`.
pub record Slot : Type 0 where
  pub slot_id : ℕ
  pub request_id : ℤ
  pub sequence_id : ℤ
  pub generation : ℕ
  pub state : State
  pub last_access : ℕ
  pub acquired_at : ℕ
  pub retire_ready_at : ℕ
  pub token_count : ℤ

-- `SequenceLease`.
pub record Lease : Type 0 where
  pub slot_id : ℤ
  pub generation : ℕ
  pub request_id : ℤ

-- `SequenceSlotManager`. The timeout is in milliseconds.
pub record Manager : Type 0 where
  pub slots : List Slot
  pub max_slots : ℕ
  pub idle_timeout : ℤ

abbrev pub u64 : ℕ
u64 = 2 ^ 64

abbrev pub is_state : State → State → Bool
is_state idle idle = true
is_state prefilling prefilling = true
is_state decoding decoding = true
is_state retiring retiring = true
is_state completed completed = true
is_state evicted evicted = true
is_state _ _ = false

abbrev pub is_free : State → Bool
is_free s = is_state s idle || is_state s evicted

abbrev pub is_used : State → Bool
is_used s = is_state s prefilling || is_state s decoding

abbrev pub nanos : ℤ → ℤ
nanos (pos ms) = pos (ms * 1_000_000)
nanos (negsuc ms) = negsuc (ms * 1_000_000 + 999_999)

-- `SequenceSlot::IsIdle`.
abbrev pub is_idle : ℕ → ℤ → Slot → Bool
is_idle now timeout s =
    if is_state s.state decoding then ltb_ℤ (nanos timeout) (sub_ℕ now s.last_access) else true

-- `InitializeSlots` reads the clock twice for each slot: `clock k` is its reading number `k`.
unfoldable pub fresh_slots : (ℕ → ℕ) → ℕ → ℕ → List Slot
fresh_slots clock zero i = []
fresh_slots clock (suc n) i =
    record {
      slot_id = i;
      request_id = negsuc 0;
      sequence_id = negsuc 0;
      generation = 0;
      state = idle;
      last_access = clock (2 * i);
      acquired_at = clock (2 * i + 1);
      retire_ready_at = 0;
      token_count = pos 0;
    }
    ∷ fresh_slots clock n (i + 1)

-- The constructor.
unfoldable pub init : (ℕ → ℕ) → ℕ → Manager
init clock max_slots = record {
  slots = fresh_slots clock max_slots 0;
  max_slots = max_slots;
  idle_timeout = pos 300_000;
}

-- `ResetSlotForReuse`.
abbrev pub reset : Slot → Slot
reset s = record s {
  state = idle;
  request_id = negsuc 0;
  sequence_id = negsuc 0;
  token_count = pos 0;
  retire_ready_at = 0;
}

abbrev pub is_ripe : ℕ → Slot → Bool
is_ripe now s = is_state s.state retiring && leb s.retire_ready_at now

-- `ReapRetiredSlotsLocked`: the slots, and how many it made idle.
unfoldable pub reap_slots : ℕ → List Slot → List Slot × ℕ
reap_slots now [] = ([], 0)
reap_slots now (s ∷ ss) =
    let (rest, n) = reap_slots now ss in
    if is_ripe now s then (reset s ∷ rest, n + 1) else (s ∷ rest, n)

-- The test of `FindFreeSlot`.
abbrev pub is_available : ℤ → Slot → Bool
is_available capacity s =
    (leb_ℤ capacity (pos 0) || ltb_ℤ (pos s.slot_id) capacity) && is_free s.state

-- `std::find_if` over the slots: the position that it finds.
unfoldable pub find_slot : (Slot → Bool) → List Slot → Option ℕ
find_slot test [] = none
find_slot test (s ∷ ss) =
    let rest = find_slot test ss in
    if test s then some 0 else elim rest [ none ↦ none | some i ↦ some (suc i) ]

-- `LockAndValidateLease`: the position and the slot of a lease that is in range, of the slot's
-- present generation, and in an accepted state.
unfoldable pub validate : Manager → Lease → (State → Bool) → Option (ℕ × Slot)
validate m l accepted = elim (index? l.slot_id m.max_slots) [
  | none ↦ none
  | some i ↦ elim (get_elem? m.slots i) [
    | none ↦ none
    | some s ↦
        if s.generation == l.generation
        then (if accepted s.state then some (i, s) else none)
        else none
  ]
]

abbrev pub put : Manager → ℕ → Slot → Manager
put m i s = record m { slots = set m.slots i s }

unfoldable pub count_if : (Slot → Bool) → List Slot → ℕ
count_if test [] = 0
count_if test (s ∷ ss) = if test s then suc (count_if test ss) else count_if test ss
