-- ===== src/Lanes/Tests.antt =====
-- Runs of the dispatcher on small inputs, and its theorems at such inputs.
use inferflux.Prelude.{◌≡◌, refl, Bool, true, false, none, some, List, [], ◌∷◌, arith}
use inferflux.Lanes.Defs.{
  handed_out, Input, Result, Item, Pending, success, init, find, erase, update, start, submit,
  try_collect, sweep_loop, sweep_abandoned, next_item, pick, complete,
}
use inferflux.Lanes.Steps.{Call, starts, submits, collects, sweeps, picks, completes, step, run}
use inferflux.Lanes.Entries.{lane_count, young}
use inferflux.Lanes.Counts.{IsPermitted, init-IsPermitted}
use inferflux.Lanes.Permits.{sweep_abandoned-Sweeps, run-IsPermitted}
use inferflux.Lanes.Logged.{find_item, history}
use inferflux.Lanes.Results.{run-collects}
use inferflux.Lanes.Turns.{turns, all_spare, BecomesReady}
use inferflux.Lanes.Served.{run-BecomesReady}

-- The outputs are the inputs.
abbrev echo : List Input → Bool → Result
echo inputs decode_lane = record { success = true; outputs = inputs; error = []; elapsed_ms = 1 }

abbrev calls : List Call
calls =
    starts
    ∷ submits (7 ∷ []) true 10
    ∷ submits (8 ∷ 9 ∷ []) false 11
    ∷ picks false
    ∷ picks true
    ∷ completes true
    ∷ []

collects_the_first :
    (try_collect 1 (run echo calls (init 4))).1
    ≡ (record { status = success; decode_lane = some true; result = some (echo (7 ∷ []) true) })
unfolding run step start submit pick complete try_collect init find erase update next_item
collects_the_first = refl

-- A batch that was swept while it was executed leaves no result.
leaves_none : (run echo (sweeps 12 ∷ completes false ∷ []) (run echo calls (init 4))).pending ≡ []
unfolding run step start submit pick complete try_collect init find erase update next_item
    sweep_abandoned sweep_loop
leaves_none = refl

run-IsPermitted_example : IsPermitted (run echo calls (init 4))
unfolding init
run-IsPermitted_example = run-IsPermitted echo calls (init 4) (init-IsPermitted 4) (omega arith)

sweep_abandoned-Sweeps_example :
    let d' = (sweep_abandoned 11 (init 4)).0 in
    (d'.pending ≡ young 11 (init 4).pending)
    × (d'.decode.pending_count ≡ lane_count true (young 11 (init 4).pending))
    × (d'.prefill.pending_count ≡ lane_count false (young 11 (init 4).pending))
    × (d'.next_handle ≡ (init 4).next_handle)
sweep_abandoned-Sweeps_example = sweep_abandoned-Sweeps 11 (init 4) (init-IsPermitted 4)

run-collects_example :
    let d = run echo calls (init 4) in
    (i : Item) × (find_item 1 (history echo calls (init 4) []) ≡ some i)
    × ((try_collect 1 d).1.decode_lane ≡ some i.decode_lane)
    × (echo (7 ∷ []) true ≡ handed_out (echo i.inputs i.decode_lane))
    × (find 1 (try_collect 1 d).0.pending ≡ none)
unfolding run step start submit pick complete try_collect init find erase update next_item
run-collects_example = run-collects echo calls 4 1 (echo (7 ∷ []) true) (omega arith) refl

abbrev entry : Pending
entry = record {
  decode_lane = false;
  ready = false;
  result = record { success = false; outputs = []; error = []; elapsed_ms = 0 };
  enqueued_at = 11;
}

-- Another batch comes to the lane, the caller asks for its result too early and younger entries than a
-- cutoff are spared, before the lane's worker, which executes the batch, records its result; the caller
-- then takes it.
abbrev more : List Call
more =
    submits (5 ∷ []) false 12
    ∷ picks false
    ∷ collects 2
    ∷ sweeps 11
    ∷ completes false
    ∷ collects 2
    ∷ []

run-BecomesReady_example : BecomesReady echo 2 false more (run echo calls (init 4))
unfolding run step start submit pick complete init find update next_item turns all_spare
    sweep_abandoned sweep_loop try_collect
run-BecomesReady_example =
    run-BecomesReady echo calls more 4 2 entry (omega arith) refl refl refl refl (omega arith)
