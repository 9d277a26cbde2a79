-- ===== src/Lanes/Served.antt =====
-- The progress of a lane: how its worker comes to an entry, with the other threads' sections in between.
use inferflux.Prelude.{
  ℕ, ◌+◌, ◌*◌, ◌^◌, ◌==◌, ◌≤◌, ◌<◌, ◌≡◌, refl, sym, ap, subst, ◌∙◌, Bool, true, false, some, List,
  [], ◌∷◌, length, arith, Bool-cases, Option-cases, inl, inr,
}
use inferflux.Lanes.Defs.{
  Input, Result, Pending, Worker, returned, waiting, executing, Lane, Dispatcher, lane, find, init,
  recorded, complete,
}
use inferflux.Lanes.Steps.{
  Call, starts, stops, joins, submits, collects, sweeps, picks, completes, step, run,
}
use inferflux.Lanes.Entries.{time_of, find-update}
use inferflux.Lanes.Counts.{IsPermitted, init-IsPermitted}
use inferflux.Lanes.Permits.{step-IsPermitted, step-next_handle, run-IsPermitted}
use inferflux.Lanes.Progress.{lane_of, holds, IsServed, init-IsServed}
use inferflux.Lanes.Work.{find-recorded, step-IsServed, run-IsServed}
use inferflux.Lanes.Turns.{
  place, due, due_at, load, turn, turns, spares, all_spare, BecomesReady, here, later, due-load,
  holds-due,
}
use inferflux.Lanes.Kept.{
  Kept, same-Kept, changed-Kept, submit-Kept, try_collect-Kept, sweep_abandoned-Kept, pick-Kept,
}

-- A result that is recorded leaves every entry in the map.
recorded-found :
    (k h : ℕ) (r : Result) (p : Pending) (es : List (ℕ × Pending))
    → find h es ≡ some p
    → (q : Pending) × (find h (recorded k r es) ≡ some q)
      × (q.decode_lane ≡ p.decode_lane)
      × (q.enqueued_at ≡ p.enqueued_at)
recorded-found k h r p es f = elim (Option-cases (find k es)) [
  | inl e ↦ rw (e, recorded) (p, f, refl, refl)
  | inr (o, e) ↦
      rw (e, recorded)
        (let o' : Pending = record o { ready = true; result = r } in
          let u = find-update h k o' es in
          (elim (Bool-cases (k == h)) [
            | inr other ↦ (p, rw (other, f) at u, refl, refl)
            | inl same ↦
                let j : k ≡ h = ground (arith, same) in
                let e' : some o ≡ some p = sym e ∙ ap (λ i. find i es) j ∙ f in
                (o', rw (same, f) at u, cc (ap (lane_of true) e'), cc (ap (time_of 0) e'))
          ]))
]

module _ (execute : List Input → Bool → Result) where
  run-next_handle :
      (cs : List Call) (d : Dispatcher)
      → IsPermitted d
      → d.next_handle + length cs < 2 ^ 64
      → (run execute cs d).next_handle ≤ d.next_handle + length cs
  unfolding run
  run-next_handle [] d v l = omega arith
  run-next_handle (c ∷ cs) d v l =
      let le = step-next_handle execute c d v (omega arith) in
      let rest =
        run-next_handle cs (step execute c d) (step-IsPermitted execute c d v (omega arith))
          (omega (arith, le)) in
      omega (arith, le, rest)

module _ (execute : List Input → Bool → Result) (b : Bool) (h : ℕ) where
  complete-Kept :
      (c : Bool) (p : Pending) (d : Dispatcher)
      → d.running ≡ true
      → d.stopping ≡ false
      → find h d.pending ≡ some p
      → Kept b h (turn b (completes c) d) p d (complete execute c d)
  unfolding complete
  complete-Kept c p d r st f = go (lane c d).worker refl
    where
      go :
          (w : Worker)
          → (lane c d).worker ≡ w
          → Kept b h (turn b (completes c) d) p d (complete execute c d)
      go returned e = rw (e, complete) (same-Kept b h p _ d (ground (arith, e)) r st f)
      go waiting e = rw (e, complete) (same-Kept b h p _ d (ground (arith, e)) r st f)
      go (executing i) e =
          rw (e, complete)
            (let l : Lane = record (lane c d) { worker = waiting } in
              let result = execute i.inputs c in
              let (q, fq, el, et) = recorded-found i.handle h result p d.pending f in
              changed-Kept b h p _ 1 c l (recorded i.handle result d.pending) _ q d
                (ground (arith, e)) r st fq el et
                (λ w same.
                  let other = (find-recorded i.handle h result q d.pending fq w).1 in
                  let before : due h (lane c d) ≡ 1 + 2 * place h (lane c d).queue =
                    rw other at (ap (λ x. due_at h x (lane c d).queue) e) in
                  omega (arith, before)))

  step-Kept :
      (c : Call) (p : Pending) (d : Dispatcher)
      → IsPermitted d
      → IsServed d
      → d.running ≡ true
      → d.stopping ≡ false
      → find h d.pending ≡ some p
      → p.decode_lane ≡ b
      → p.ready ≡ false
      → spares p.enqueued_at c ≡ true
      → Kept b h (turn b c d) p d (step execute c d)
  unfolding step
  step-Kept starts p d v s r st f l w sp = simp r (same-Kept b h p 0 d (omega arith) r st f)
  step-Kept stops p d v s r st f l w sp = cc
  step-Kept joins p d v s r st f l w sp = simp (r, st) (same-Kept b h p 0 d (omega arith) r st f)
  step-Kept (submits inputs c now) p d v s r st f l w sp =
      submit-Kept b h p inputs c now d v r st f
        (subst (λ x. holds h (lane x d) ≡ true) l (s.held h p st f w))
  step-Kept (collects k) p d v s r st f l w sp = try_collect-Kept b h p k d r st f w
  step-Kept (sweeps cutoff) p d v s r st f l w sp =
      sweep_abandoned-Kept b h p cutoff d r st f (ground (arith, sp))
  step-Kept (picks c) p d v s r st f l w sp = pick-Kept b h p c d r st f
  step-Kept (completes c) p d v s r st f l w sp = complete-Kept c p d r st f

  -- The sections that are due are enough.
  due-BecomesReady :
      (cs : List Call) (p : Pending) (d : Dispatcher)
      → IsPermitted d
      → IsServed d
      → d.next_handle + length cs < 2 ^ 64
      → d.running ≡ true
      → d.stopping ≡ false
      → find h d.pending ≡ some p
      → p.decode_lane ≡ b
      → all_spare p.enqueued_at cs ≡ true
      → (p.ready ≡ false → due h (lane b d) ≤ turns execute b cs d)
      → BecomesReady execute h b cs d
  unfolding turns all_spare
  due-BecomesReady [] p d v s le r st f l sp nearer = elim (Bool-cases p.ready) [
    | inl done ↦ here p f l done
    | inr w ↦
        let held = subst (λ x. holds h (lane x d) ≡ true) l (s.held h p st f w) in
        absurd (omega (arith, nearer w, holds-due h (lane b d) held))
  ]
  due-BecomesReady (c ∷ cs) p d v s le r st f l sp nearer = elim (Bool-cases p.ready) [
    | inl done ↦ here p f l done
    | inr w ↦
        let k = step-Kept c p d v s r st f l w (ground (arith, sp)) in
        later (
          due-BecomesReady cs k.entry (step execute c d)
            (step-IsPermitted execute c d v (omega arith)) (step-IsServed execute c d v s)
            (omega (arith, step-next_handle execute c d v (omega arith))) k.running k.stopping
            k.found (k.same_lane ∙ l) (ap (λ t. all_spare t cs) k.same_time ∙ ground (arith, sp))
            (λ w'. omega (arith, k.sooner w', nearer w)))
  ]

-- A lane's worker comes to an entry with any sections of the other threads between its own. Take any
-- interleaving of the callers and the workers from a new dispatcher on, after which the dispatcher runs,
-- is not stopping and has an entry; and any further interleaving that has no call of Stop and no sweep
-- with a cutoff after the time of the entry, and in which the lane's worker goes through as many of its
-- sections as the lane asks for at its start, two for each queued item and one for an item in execution.
-- At some point of the further interleaving the entry is there, in its lane, and is ready. Batches that
-- are submitted meanwhile do not raise that number. (No handle wraps.)
pub run-BecomesReady :
    (execute : List Input → Bool → Result) (cs more : List Call) (n h : ℕ) (p : Pending)
    → length cs + length more + 1 < 2 ^ 64
    → (run execute cs (init n)).running ≡ true
    → (run execute cs (init n)).stopping ≡ false
    → find h (run execute cs (init n)).pending ≡ some p
    → all_spare p.enqueued_at more ≡ true
    → load (lane p.decode_lane (run execute cs (init n)))
      ≤ turns execute p.decode_lane more (run execute cs (init n))
    → BecomesReady execute h p.decode_lane more (run execute cs (init n))
unfolding init
run-BecomesReady execute cs more n h p le r st f sp enough =
    let d = run execute cs (init n) in
    due-BecomesReady execute p.decode_lane h more p d
      (run-IsPermitted execute cs (init n) (init-IsPermitted n) (omega arith))
      (run-IsServed execute cs (init n) (init-IsPermitted n) (init-IsServed n) (omega arith))
      (omega (arith, run-next_handle execute cs (init n) (init-IsPermitted n) (omega arith))) r st f
      refl sp (λ w. omega (arith, due-load h (lane p.decode_lane d), enough))
