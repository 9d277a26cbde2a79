-- ===== src/Lanes/Permits.antt =====
-- The sweep of abandoned entries, and the permits through any sequence of steps.
use inferflux.Prelude.{
  ℕ, ◌+◌, ◌%◌, ◌^◌, ◌==◌, ◌≤◌, ◌<◌, ◌≡◌, refl, sym, ap, subst, ◌∙◌, Bool, true, false, not, ◌&&◌,
  none, List, [], ◌∷◌, ltb, if◌then◌else◌, length, arith, Bool-cases, Option-cases, inl, inr,
}
use inferflux.Lanes.Defs.{
  Input, Result, Pending, Lane, Dispatcher, lane, set_lane, find, start, stop, stopped, submit,
  try_collect, sweep_loop, sweep_abandoned, pick, complete, give_back,
}
use inferflux.Lanes.Steps.{
  Call, starts, stops, joins, submits, collects, sweeps, picks, completes, step, run, has_returned,
}
use inferflux.Lanes.Entries.{lane_count, IsBelow, young, young-IsBelow}
use inferflux.Lanes.Counts.{
  IsPermitted, start-IsPermitted, stop-IsPermitted, stopped-IsPermitted, submit-IsPermitted,
  try_collect-IsPermitted, pick-IsPermitted, complete-IsPermitted,
}

pub sweep_loop-entries :
    (cutoff : ℕ) (es : List (ℕ × Pending)) (dl pl : Lane)
    → (sweep_loop cutoff es dl pl).0.0 ≡ young cutoff es
unfolding sweep_loop young
sweep_loop-entries cutoff [] dl pl = refl
sweep_loop-entries cutoff (e ∷ es) dl pl = elim (Bool-cases (ltb e.1.enqueued_at cutoff)) [
  | inl old ↦ rw old (sweep_loop-entries cutoff es _ _)
  | inr recent ↦ rw recent (ap (◌∷◌ e) (sweep_loop-entries cutoff es dl pl))
]

-- The sweep gives back a permit for each entry that it takes away, to the entry's lane.
sweep_loop-decode :
    (cutoff : ℕ) (es : List (ℕ × Pending)) (dl pl : Lane)
    → lane_count true es ≤ dl.pending_count
    → (sweep_loop cutoff es dl pl).0.1.pending_count + lane_count true es
      ≡ dl.pending_count + lane_count true (young cutoff es)
unfolding sweep_loop young lane_count
sweep_loop-decode cutoff [] dl pl l = refl
sweep_loop-decode cutoff (e ∷ es) dl pl l =
    let old = ltb e.1.enqueued_at cutoff in
    let dl' = if old && e.1.decode_lane then give_back dl else dl in
    let pl' = if old && not e.1.decode_lane then give_back pl else pl in
    ground (arith, l, sweep_loop-decode cutoff es dl' pl')

sweep_loop-prefill :
    (cutoff : ℕ) (es : List (ℕ × Pending)) (dl pl : Lane)
    → lane_count false es ≤ pl.pending_count
    → (sweep_loop cutoff es dl pl).0.2.pending_count + lane_count false es
      ≡ pl.pending_count + lane_count false (young cutoff es)
unfolding sweep_loop young lane_count
sweep_loop-prefill cutoff [] dl pl l = refl
sweep_loop-prefill cutoff (e ∷ es) dl pl l =
    let old = ltb e.1.enqueued_at cutoff in
    let dl' = if old && e.1.decode_lane then give_back dl else dl in
    let pl' = if old && not e.1.decode_lane then give_back pl else pl in
    ground (arith, l, sweep_loop-prefill cutoff es dl' pl')

lane_count-young :
    (b : Bool) (cutoff : ℕ) (es : List (ℕ × Pending))
    → lane_count b (young cutoff es) ≤ lane_count b es
unfolding young lane_count
lane_count-young b cutoff [] = omega arith
lane_count-young b cutoff (e ∷ es) = elim (Bool-cases (ltb e.1.enqueued_at cutoff)) [
  | inl old ↦ rw old (omega (arith, lane_count-young b cutoff es))
  | inr recent ↦ rw recent (omega (arith, lane_count-young b cutoff es))
]

-- SweepAbandoned at a counted dispatcher keeps the entries that are not older than the cutoff, takes all
-- others away, and gives the permit of each of them back: afterwards each lane counts the entries that
-- are left of it.
pub sweep_abandoned-Sweeps :
    (cutoff : ℕ) (d : Dispatcher)
    → IsPermitted d
    → let d' = (sweep_abandoned cutoff d).0 in
      (d'.pending ≡ young cutoff d.pending)
      × (d'.decode.pending_count ≡ lane_count true (young cutoff d.pending))
      × (d'.prefill.pending_count ≡ lane_count false (young cutoff d.pending))
      × (d'.next_handle ≡ d.next_handle)
unfolding sweep_abandoned
sweep_abandoned-Sweeps cutoff d s = (
  sweep_loop-entries cutoff d.pending d.decode d.prefill,
  omega (arith, s.decode_counts, sweep_loop-decode cutoff d.pending d.decode d.prefill),
  omega (arith, s.prefill_counts, sweep_loop-prefill cutoff d.pending d.decode d.prefill),
  refl,
)

sweep_abandoned-IsPermitted :
    (cutoff : ℕ) (d : Dispatcher) → IsPermitted d → IsPermitted (sweep_abandoned cutoff d).0
unfolding sweep_abandoned
sweep_abandoned-IsPermitted cutoff d s =
    let (entries, dc, pc, same) = sweep_abandoned-Sweeps cutoff d s in
    record {
      started = s.started;
      below =
          subst (IsBelow d.next_handle)
            (sym (sweep_loop-entries cutoff d.pending d.decode d.prefill))
            (young-IsBelow d.next_handle cutoff d.pending s.below);
      decode_counts = dc ∙ ap (lane_count true) (sym entries);
      prefill_counts = pc ∙ ap (lane_count false) (sym entries);
      decode_fits =
          omega (arith, dc, s.decode_counts, s.decode_fits, lane_count-young true cutoff d.pending);
      prefill_fits =
          omega
            (arith, pc, s.prefill_counts, s.prefill_fits, lane_count-young false cutoff d.pending);
    }

pub set_lane-next_handle :
    (b : Bool) (l : Lane) (d : Dispatcher) → (set_lane b l d).next_handle ≡ d.next_handle
set_lane-next_handle true l d = refl
set_lane-next_handle false l d = refl

try_collect-next_handle :
    (h : ℕ) (d : Dispatcher) → (try_collect h d).0.next_handle ≤ d.next_handle + 1
unfolding try_collect
try_collect-next_handle h d = elim (Option-cases (if h == 0 then none else find h d.pending)) [
  | inl e ↦ rw (e, try_collect) (omega arith)
  | inr (p, e) ↦
      rw (e, try_collect)
        (elim (Bool-cases p.ready) [
          | inl done ↦ rw done (
              omega
                (arith, set_lane-next_handle p.decode_lane (give_back (lane p.decode_lane d)) d))
          | inr waits ↦ rw waits (omega arith)
        ])
]

module _ (execute : List Input → Bool → Result) where
  pub step-IsPermitted :
      (c : Call) (d : Dispatcher)
      → IsPermitted d
      → d.next_handle + 1 < 2 ^ 64
      → IsPermitted (step execute c d)
  unfolding step
  step-IsPermitted starts d s l = elim (Bool-cases d.running) [
    | inl runs ↦ simp runs s
    | inr rests ↦ simp rests (start-IsPermitted d s)
  ]
  step-IsPermitted stops d s l = stop-IsPermitted d s
  step-IsPermitted joins d s l =
      elim (Bool-cases (
        d.running && d.stopping && has_returned d.decode.worker && has_returned d.prefill.worker)) [
          | inl ends ↦ rw ends (stopped-IsPermitted d s)
          | inr waits ↦ rw waits s
        ]
  step-IsPermitted (submits inputs b now) d s l = submit-IsPermitted inputs b now d s l
  step-IsPermitted (collects h) d s l = try_collect-IsPermitted h d s
  step-IsPermitted (sweeps cutoff) d s l = sweep_abandoned-IsPermitted cutoff d s
  step-IsPermitted (picks b) d s l = pick-IsPermitted b d s
  step-IsPermitted (completes b) d s l = complete-IsPermitted execute b d s

  -- A handle is given out by a submission alone.
  pub step-next_handle :
      (c : Call) (d : Dispatcher)
      → IsPermitted d
      → d.next_handle + 1 < 2 ^ 64
      → (step execute c d).next_handle ≤ d.next_handle + 1
  unfolding step start stop stopped submit try_collect sweep_abandoned pick complete
  step-next_handle starts d s l = ground arith
  step-next_handle stops d s l = ground arith
  step-next_handle joins d s l = ground arith
  step-next_handle (submits inputs b now) d s l =
      let next : (d.next_handle + 1) % 2 ^ 64 ≡ d.next_handle + 1 = omega arith in
      ground (arith, next)
  step-next_handle (collects h) d s l = try_collect-next_handle h d
  step-next_handle (sweeps cutoff) d s l = omega arith
  step-next_handle (picks true) d s l = ground arith
  step-next_handle (picks false) d s l = ground arith
  step-next_handle (completes true) d s l = ground arith
  step-next_handle (completes false) d s l = ground arith

  -- From a counted dispatcher on, while no handle has wrapped, through any interleaving of the callers
  -- and the workers: each entry has a handle of its own that was given out, each lane counts exactly its
  -- own entries, and no lane has more of them than the limit.
  pub run-IsPermitted :
      (cs : List Call) (d : Dispatcher)
      → IsPermitted d
      → d.next_handle + length cs < 2 ^ 64
      → IsPermitted (run execute cs d)
  unfolding run
  run-IsPermitted [] d s l = s
  run-IsPermitted (c ∷ cs) d s l =
      run-IsPermitted cs (step execute c d) (step-IsPermitted c d s (omega arith))
        (omega (arith, step-next_handle c d s (omega arith)))
