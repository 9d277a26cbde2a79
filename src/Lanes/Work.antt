-- ===== src/Lanes/Work.antt =====
-- The workers' sections and the sequences of steps, as to where the batch of an entry is.
use inferflux.Prelude.{
  ℕ, ◌+◌, ◌^◌, ◌==◌, ◌<◌, ◌≡◌, refl, sym, ap, subst, ◌∙◌, Bool, true, false, ◌&&◌, ◌||◌, Option,
  none, some, List, [], ◌∷◌, length, arith, Bool-cases, Option-cases, inl, inr,
}
use inferflux.Lanes.Defs.{
  Input, Result, Item, Pending, Worker, returned, waiting, executing, Lane, Dispatcher, lane,
  set_lane, find, is_none, next_item, pick, picked, recorded, complete,
}
use inferflux.Lanes.Steps.{
  Call, starts, stops, joins, submits, collects, sweeps, picks, completes, step, run, has_returned,
}
use inferflux.Lanes.Entries.{find-update}
use inferflux.Lanes.Counts.{IsPermitted, set_lane-pending}
use inferflux.Lanes.Permits.{step-next_handle, step-IsPermitted}
use inferflux.Lanes.Progress.{
  ready_of, queued, executes, holds, IsServed, start-IsServed, stop-IsServed, stopped-IsServed,
  holds-set_lane, changed-IsServed, submit-IsServed, try_collect-IsServed, sweep_abandoned-IsServed,
}

-- The worker drops no item that has an entry.
next_item-holds :
    (h : ℕ) (p : Pending) (es : List (ℕ × Pending)) (q : List Item)
    → find h es ≡ some p
    → queued h q ≡ true
    → (executes h (elim (next_item es q).0 [ none ↦ waiting | some i ↦ executing i ])
        || queued h (next_item es q).1)
      ≡ true
unfolding next_item queued
next_item-holds h p es [] f e = cc
next_item-holds h p es (i ∷ q) f e = elim (Option-cases (find i.handle es)) [
  | inr (p', g) ↦ rw (g, next_item) e
  | inl g ↦
      rw (g, next_item)
        (next_item-holds h p es q f (elim (Bool-cases (i.handle == h)) [
          | inr other ↦ rw other at e
          | inl same ↦
              let k : i.handle ≡ h = ground (arith, same) in
              cc (subst (λ j. find j es ≡ none) k g, f)
        ]))
]

picked-holds :
    (h : ℕ) (p : Pending) (d : Dispatcher) (l : Lane)
    → l.worker ≡ waiting
    → find h d.pending ≡ some p
    → d.stopping ≡ false
    → holds h l ≡ true
    → holds h (picked d l) ≡ true
picked-holds h p d l w f st e = elim (Bool-cases (is_none l.queue)) [
  | inl no_items ↦ rw no_items (simp st e)
  | inr some_items ↦ rw some_items (
      next_item-holds h p d.pending l.queue f
        (ap (λ x. executes h x || queued h l.queue) (sym w) ∙ e))
]

next_item-worker :
    (es : List (ℕ × Pending)) (q : List Item)
    → has_returned (elim (next_item es q).0 [ none ↦ waiting | some i ↦ executing i ]) ≡ false
next_item-worker es q = go (next_item es q).0
  where
    go : (o : Option Item) → has_returned (elim o [ none ↦ waiting | some i ↦ executing i ]) ≡ false
    go none = refl
    go (some i) = refl

picked-alive :
    (d : Dispatcher) (l : Lane)
    → d.stopping ≡ false
    → has_returned l.worker ≡ false
    → has_returned (picked d l).worker ≡ false
picked-alive d l st a = elim (Bool-cases (is_none l.queue)) [
  | inl no_items ↦ rw no_items (simp st a)
  | inr some_items ↦ rw some_items (next_item-worker d.pending l.queue)
]

same_next :
    (b : Bool) (l : Lane) (es : List (ℕ × Pending)) (d : Dispatcher)
    → record (set_lane b l d) { pending = es; next_handle = d.next_handle }
      ≡ record (set_lane b l d) { pending = es }
same_next true l es d = refl
same_next false l es d = refl

pub pick-IsServed : (b : Bool) (d : Dispatcher) → IsServed d → IsServed (pick b d)
unfolding pick
pick-IsServed b d s = go (lane b d).worker refl
  where
    go : (w : Worker) → (lane b d).worker ≡ w → IsServed (pick b d)
    go returned e = rw (e, pick) s
    go (executing i) e = rw (e, pick) s
    go waiting e =
        rw (e, pick)
          (subst IsServed
            (same_next b (picked d (lane b d)) d.pending d
              ∙ set_lane-pending b (picked d (lane b d)) d)
            (changed-IsServed b (picked d (lane b d)) d.pending d.next_handle d (λ r. (s.rests r).0)
              s (λ st a. picked-alive d (lane b d) st a)
              (λ h p st f r.
                holds-set_lane h b p.decode_lane (picked d (lane b d)) d
                  (picked-holds h p d (lane b d) e f st) (s.held h p st f r))))

-- An entry that is not ready after an item has been recorded was so before, and is of another handle.
pub find-recorded :
    (h k : ℕ) (r : Result) (p : Pending) (es : List (ℕ × Pending))
    → find k (recorded h r es) ≡ some p
    → p.ready ≡ false
    → (find k es ≡ some p) × ((h == k) ≡ false)
find-recorded h k r p es = elim (Option-cases (find h es)) [
  | inl e ↦
      rw (e, recorded)
        (λ f rd. (
          f,
          (elim (Bool-cases (h == k)) [
            | inr other ↦ other
            | inl same ↦
                let j : h ≡ k = ground (arith, same) in cc (subst (λ i. find i es ≡ none) j e, f)
          ]),
        ))
  | inr (q, e) ↦
      rw (e, recorded)
        (λ f rd.
          let u = sym (find-update k h (record q { ready = true; result = r }) es) ∙ f in
          (elim (Bool-cases (h == k)) [
            | inr other ↦ (rw other at u, other)
            | inl same ↦
                let j : h ≡ k = ground (arith, same) in
                let e' : find k es ≡ some q = subst (λ i. find i es ≡ some q) j e in
                let now : some (record q { ready = true; result = r }) ≡ some p =
                  sym (rw (same, e') refl) ∙ u in
                cc (ap (ready_of false) now, rd)
          ]))
]

recorded_nil : (h : ℕ) (r : Result) (es : List (ℕ × Pending)) → es ≡ [] → recorded h r es ≡ []
unfolding find
recorded_nil h r es e = ap (recorded h r) e

module _ (execute : List Input → Bool → Result) where
  pub complete-IsServed : (b : Bool) (d : Dispatcher) → IsServed d → IsServed (complete execute b d)
  unfolding complete
  complete-IsServed b d s = go (lane b d).worker refl
    where
      go : (w : Worker) → (lane b d).worker ≡ w → IsServed (complete execute b d)
      go returned e = rw (e, complete) s
      go waiting e = rw (e, complete) s
      go (executing i) e =
          rw (e, complete)
            (let l : Lane = record (lane b d) { worker = waiting } in
              let es = recorded i.handle (execute i.inputs b) d.pending in
              subst IsServed (same_next b l es d) (
                changed-IsServed b l es d.next_handle d
                  (λ r. recorded_nil i.handle (execute i.inputs b) d.pending (s.rests r).0) s
                  (λ st a. refl)
                  (λ h p st f r.
                    let (f', other) =
                      find-recorded i.handle h (execute i.inputs b) p d.pending f r in
                    holds-set_lane h b p.decode_lane l d
                      (λ x.
                        rw other at
                          (ap (λ w. executes h w || queued h (lane b d).queue) (sym e) ∙ x))
                      (s.held h p st f' r))))

  pub step-IsServed :
      (c : Call) (d : Dispatcher) → IsPermitted d → IsServed d → IsServed (step execute c d)
  unfolding step
  step-IsServed starts d v s = elim (Bool-cases d.running) [
    | inl runs ↦ simp runs s
    | inr rests ↦ simp rests (start-IsServed d rests s)
  ]
  step-IsServed stops d v s = stop-IsServed d s
  step-IsServed joins d v s =
      elim (Bool-cases (
        d.running && d.stopping && has_returned d.decode.worker && has_returned d.prefill.worker)) [
          | inl ends ↦ rw ends (stopped-IsServed d s)
          | inr waits ↦ rw waits s
        ]
  step-IsServed (submits inputs b now) d v s = submit-IsServed inputs b now d v s
  step-IsServed (collects h) d v s = try_collect-IsServed h d v s
  step-IsServed (sweeps cutoff) d v s = sweep_abandoned-IsServed cutoff d v s
  step-IsServed (picks b) d v s = pick-IsServed b d s
  step-IsServed (completes b) d v s = complete-IsServed b d s

  pub run-IsServed :
      (cs : List Call) (d : Dispatcher)
      → IsPermitted d
      → IsServed d
      → d.next_handle + length cs < 2 ^ 64
      → IsServed (run execute cs d)
  unfolding run
  run-IsServed [] d v s l = s
  run-IsServed (c ∷ cs) d v s l =
      run-IsServed cs (step execute c d) (step-IsPermitted execute c d v (omega arith))
        (step-IsServed c d v s) (omega (arith, step-next_handle execute c d v (omega arith)))
