-- ===== src/Fairness/Tests.antt =====
-- Runs of the fairness controller on small inputs, and its theorems at such inputs.
use inferflux.Prelude.{ℕ, ◌==◌, ◌≡◌, refl, ◌⊎◌, true, false, some, List, [], ◌∷◌, if◌then◌else◌}
use inferflux.Prelude.Int.{ℤ, pos, negsuc}
use inferflux.Fairness.Defs.{
  Config, Entry, Requests, evaluate, evaluate_batch, max_element, max_loop, min_element, min_loop,
  apply_timeslice,
}
use inferflux.Fairness.Timeslice.{IsWithin, apply_timeslice_lem}
use inferflux.Fairness.Preempt.{Evaluates, evaluate-Evaluates}

abbrev config : Config
config = record {
  high_priority_threshold = pos 5;
  max_timeslice_tokens = pos 8;
  enable_preemption = true;
}

abbrev entry : ℕ → ℤ → Entry
entry r priority = record { request = some r; priority_level = priority; queue_index = 0 }

abbrev batch : List Entry
batch = entry 0 (pos 7) ∷ entry 1 (negsuc 0) ∷ entry 2 (negsuc 0) ∷ []

abbrev queue : List Entry
queue = entry 3 (pos 2) ∷ entry 4 (pos 9) ∷ []

-- Request 1 has 3 tokens left, the others have not said.
abbrev requests : Requests
requests a = record {
  remaining_decode_tokens = if a == 1 then pos 3 else negsuc 0;
  timeslice_tokens = pos 0;
}

swaps_the_first_lowest :
    evaluate config batch queue ≡ record { swap = true; batch_index = 1; queue_index = 1 }
unfolding evaluate evaluate_batch max_element max_loop min_element min_loop
swaps_the_first_lowest = refl

evaluate-Evaluates_example : Evaluates config batch queue (evaluate config batch queue)
evaluate-Evaluates_example = evaluate-Evaluates config batch queue

-- Request 1, of low priority and with 3 tokens left.
apply_timeslice_lem_example :
    let r = apply_timeslice config batch requests 1 in
    ((true ≡ false) × (r ≡ requests 1))
    ⊎ ((true ≡ true) × (r.remaining_decode_tokens ≡ pos 3) × IsWithin (pos 8) r)
apply_timeslice_lem_example = apply_timeslice_lem config batch requests 1
