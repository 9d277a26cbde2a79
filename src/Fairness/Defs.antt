-- ===== src/Fairness/Defs.antt =====
-- `FairnessController` and its entries.
use inferflux.Prelude.{
  ℕ, ◌+◌, ◌==◌, Bool, true, false, not, Option, none, some, List, [], ◌∷◌, if◌then◌else◌,
}
use inferflux.Prelude.Int.{ℤ, pos, leb_ℤ, ltb_ℤ}

-- `FairnessConfig`.
pub record Config : Type 0 where
  pub high_priority_threshold : ℤ
  pub max_timeslice_tokens : ℤ
  pub enable_preemption : Bool

-- `FairnessEntry`. A request is an address, and none is the null pointer.
pub record Entry : Type 0 where
  pub request : Option ℕ
  pub priority_level : ℤ
  pub queue_index : ℕ

-- `FairnessDecision`.
pub record Decision : Type 0 where
  pub swap : Bool
  pub batch_index : ℕ
  pub queue_index : ℕ

-- `FairnessDecision{}`.
abbrev pub no_swap : Decision
no_swap = record { swap = false; batch_index = 0; queue_index = 0 }

-- `std::max_element` over `priority_level`: the first of the largest entries, with its position. The
-- arguments are the best so far with its position, and the position of the next.
unfoldable pub max_loop : ℕ → Entry → ℕ → List Entry → ℕ × Entry
max_loop j best i [] = (j, best)
max_loop j best i (e ∷ es) =
    let is_larger = ltb_ℤ best.priority_level e.priority_level in
    max_loop (if is_larger then i else j) (if is_larger then e else best) (i + 1) es

unfoldable pub max_element : List Entry → Option (ℕ × Entry)
max_element [] = none
max_element (e ∷ es) = some (max_loop 0 e 1 es)

-- `std::min_element` over `priority_level`.
unfoldable pub min_loop : ℕ → Entry → ℕ → List Entry → ℕ × Entry
min_loop j best i [] = (j, best)
min_loop j best i (e ∷ es) =
    let is_smaller = ltb_ℤ e.priority_level best.priority_level in
    min_loop (if is_smaller then i else j) (if is_smaller then e else best) (i + 1) es

unfoldable pub min_element : List Entry → Option (ℕ × Entry)
min_element [] = none
min_element (e ∷ es) = some (min_loop 0 e 1 es)

-- `Evaluate` from its search of the batch on.
unfoldable pub evaluate_batch : List Entry → ℕ → Entry → Decision
evaluate_batch batch high_at high = elim (min_element batch) [
  | none ↦ no_swap
  | some (low_at, low) ↦
      if leb_ℤ high.priority_level low.priority_level
      then no_swap
      else record { swap = true; batch_index = low_at; queue_index = high_at }
]

-- `Evaluate`. An empty batch or queue has no largest or smallest entry.
unfoldable pub evaluate : Config → List Entry → List Entry → Decision
evaluate c batch queue = if not c.enable_preemption then no_swap else elim (max_element queue) [
  | none ↦ no_swap
  | some (high_at, high) ↦
      if ltb_ℤ high.priority_level c.high_priority_threshold
      then no_swap
      else evaluate_batch batch high_at high
]

-- The fields of `RequestFairnessState` that the controller reads and writes, and the requests by address.
pub record RequestFairness : Type 0 where
  pub remaining_decode_tokens : ℤ
  pub timeslice_tokens : ℤ

abbrev pub Requests : Type 0
Requests = ℕ → RequestFairness

-- The tokens that a low-priority request may decode.
unfoldable pub slice_limit : Config → RequestFairness → ℤ
slice_limit c r =
    if ltb_ℤ (pos 0) r.remaining_decode_tokens
    then (if ltb_ℤ r.remaining_decode_tokens c.max_timeslice_tokens
        then r.remaining_decode_tokens
        else c.max_timeslice_tokens)
    else c.max_timeslice_tokens

-- One turn of the loop of `ApplyTimeslice`.
unfoldable pub slice_entry : Config → Entry → Requests → Requests
slice_entry c e requests = elim e.request [
  | none ↦ requests
  | some r ↦ if leb_ℤ c.high_priority_threshold e.priority_level then requests else (λ a.
      if a == r
      then record (requests a) { timeslice_tokens = slice_limit c (requests a) }
      else requests a)
]

unfoldable pub slice_loop : Config → List Entry → Requests → Requests
slice_loop c [] requests = requests
slice_loop c (e ∷ es) requests = slice_loop c es (slice_entry c e requests)

-- `ApplyTimeslice` of a batch that is there.
unfoldable pub apply_timeslice : Config → List Entry → Requests → Requests
apply_timeslice c batch requests =
    if leb_ℤ c.max_timeslice_tokens (pos 0) then requests else slice_loop c batch requests
