-- ===== src/Lanes/Steps.antt =====
-- The critical sections in a sequence: any interleaving of the callers and the two workers.
use inferflux.Prelude.{ℕ, Bool, true, false, ◌&&◌, List, [], ◌∷◌, if◌then◌else◌}
use inferflux.Lanes.Defs.{
  Input, Result, Dispatcher, Worker, returned, waiting, executing, start, stop, stopped, submit,
  try_collect, sweep_abandoned, pick, complete,
}

pub data Call : Type 0 where
  starts : Call
  stops : Call
  joins : Call
  submits : List Input → Bool → ℕ → Call
  collects : ℕ → Call
  sweeps : ℕ → Call
  picks : Bool → Call
  completes : Bool → Call

-- Whether the thread of a lane has returned, so that it can be joined.
abbrev pub has_returned : Worker → Bool
has_returned returned = true
has_returned waiting = false
has_returned (executing i) = false

module _ (execute : List Input → Bool → Result) where
  -- A section that its thread is not at, or that still waits, does nothing: Start goes on once the
  -- dispatcher has stopped, and the rest of Stop runs once both workers have returned.
  unfoldable pub step : Call → Dispatcher → Dispatcher
  step starts d = if d.running then d else start d
  step stops d = stop d
  step joins d =
      if d.running && d.stopping && has_returned d.decode.worker && has_returned d.prefill.worker
      then stopped d
      else d
  step (submits inputs decode_lane now) d = (submit inputs decode_lane now d).0
  step (collects handle) d = (try_collect handle d).0
  step (sweeps cutoff) d = (sweep_abandoned cutoff d).0
  step (picks decode_lane) d = pick decode_lane d
  step (completes decode_lane) d = complete execute decode_lane d

  unfoldable pub run : List Call → Dispatcher → Dispatcher
  run [] d = d
  run (c ∷ cs) d = run cs (step c d)
