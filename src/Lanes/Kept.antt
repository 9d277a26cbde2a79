-- ===== src/Lanes/Kept.antt =====
-- What each section leaves of an entry that waits for its result, and of the sections before it.
use inferflux.Prelude.{
  ℕ, ◌-◌, ◌*◌, ◌==◌, ◌≤◌, ◌≡◌, refl, sym, ap, ap₂, subst, ◌∙◌, Bool, true, false, not, ◌||◌, none,
  some, List, [], ◌∷◌, ltb, leb, if◌then◌else◌, arith, Bool-cases, Option-cases, inl, inr,
}
use inferflux.Lanes.Defs.{
  Input, Item, Pending, Worker, returned, waiting, executing, Lane, Dispatcher, lane, set_lane,
  find, erase, is_none, submit, give_back, try_collect, sweep_loop, sweep_abandoned, pick, picked,
}
use inferflux.Lanes.Steps.{picks}
use inferflux.Lanes.Entries.{IsBelow-find-none, find-erase_other, find-young}
use inferflux.Lanes.Counts.{IsPermitted, emplace_fresh}
use inferflux.Lanes.Permits.{sweep_loop-entries}
use inferflux.Lanes.Progress.{ready_of, holds, set_lane_flags, sweep_loop-lanes}
use inferflux.Lanes.Turns.{
  is_lane, is_lane-eq, place, due, due_at, turn, due-append, next_item-due, due-set_lane, lane_past,
}

-- The dispatcher goes on and has the entry, in the same lane and of the same time, and while that is not
-- ready, its item has come nearer by a number of sections.
pub record Kept (b : Bool) (h s : ℕ) (p : Pending) (d d' : Dispatcher) : Type 0 where
  pub running : d'.running ≡ true
  pub stopping : d'.stopping ≡ false
  pub entry : Pending
  pub found : find h d'.pending ≡ some entry
  pub same_lane : entry.decode_lane ≡ p.decode_lane
  pub same_time : entry.enqueued_at ≡ p.enqueued_at
  pub sooner : entry.ready ≡ false → due h (lane b d') ≤ due h (lane b d) - s

place_none : (h : ℕ) (q : List Item) → is_none q ≡ true → place h q ≡ 0
unfolding place
place_none h [] e = refl
place_none h (i ∷ q) e = cc

module _ (b : Bool) (h : ℕ) (p : Pending) where
  pub same-Kept :
      (s : ℕ) (d : Dispatcher)
      → s ≤ 0
      → d.running ≡ true
      → d.stopping ≡ false
      → find h d.pending ≡ some p
      → Kept b h s p d d
  same-Kept s d le r st f = record {
    running = r;
    stopping = st;
    entry = p;
    found = f;
    same_lane = refl;
    same_time = refl;
    sooner = λ w. omega arith;
  }

  -- A section that changes one lane and the entries.
  pub changed-Kept :
      (t s : ℕ) (c : Bool) (l : Lane) (es : List (ℕ × Pending)) (n : ℕ) (q : Pending)
      → (d : Dispatcher) → t ≤ (if is_lane b c then s else 0)
      → d.running ≡ true
      → d.stopping ≡ false
      → find h es ≡ some q
      → q.decode_lane ≡ p.decode_lane
      → q.enqueued_at ≡ p.enqueued_at
      → (q.ready ≡ false → is_lane b c ≡ true → due h l ≤ due h (lane c d) - s)
      → Kept b h t p d (record (set_lane c l d) { pending = es; next_handle = n })
  changed-Kept t s c l es n q d le r st f el et nearer =
      let (r0, s0, p0) = set_lane_flags c l d in
      record {
        running = r0 ∙ r;
        stopping = s0 ∙ st;
        entry = q;
        found = f;
        same_lane = el;
        same_time = et;
        sooner = λ w. omega (
          arith,
          due-set_lane h s b c l d (nearer w),
          ap (due h) (lane_past b es n (set_lane c l d)),
        );
      }

  pub submit-Kept :
      (inputs : List Input) (c : Bool) (now : ℕ) (d : Dispatcher)
      → IsPermitted d
      → d.running ≡ true
      → d.stopping ≡ false
      → find h d.pending ≡ some p
      → holds h (lane b d) ≡ true
      → Kept b h 0 p d (submit inputs c now d).0
  unfolding submit find
  submit-Kept inputs c now d v r st f held =
      elim (Bool-cases (
        is_none inputs
        || not d.running
        || d.stopping
        || not d.has_execute_fn
        || leb d.max_pending_per_lane (lane c d).pending_count)) [
          | inl refused ↦ rw refused (same-Kept 0 d (omega arith) r st f)
          | inr goes_on ↦ rw goes_on (
              let none_yet = IsBelow-find-none d.next_handle d.pending v.below in
              let other : (d.next_handle == h) ≡ false = (elim (Bool-cases (d.next_handle == h)) [
                | inr o ↦ o
                | inl same ↦
                    let k : d.next_handle ≡ h = ground (arith, same) in
                    cc (subst (λ j. find j d.pending ≡ none) k none_yet, f)
              ]) in
              rw (emplace_fresh d.next_handle _ d.pending none_yet) (
                changed-Kept 0 0 c _ _ _ p d (omega arith) r st (rw other f) refl refl (λ w same.
                  let k = is_lane-eq b c same in
                  omega (
                    arith,
                    due-append h (lane c d).worker (lane c d).queue _
                        (subst (λ x. holds h (lane x d) ≡ true) k held),
                  ))))
        ]

  -- A caller that asks too early takes nothing.
  pub try_collect-Kept :
      (k : ℕ) (d : Dispatcher)
      → d.running ≡ true
      → d.stopping ≡ false
      → find h d.pending ≡ some p
      → p.ready ≡ false
      → Kept b h 0 p d (try_collect k d).0
  unfolding try_collect
  try_collect-Kept k d r st f w = elim (Option-cases (if k == 0 then none else find k d.pending)) [
    | inl e ↦ rw (e, try_collect) (same-Kept 0 d (omega arith) r st f)
    | inr (o, e) ↦
        rw (e, try_collect)
          (elim (Bool-cases o.ready) [
            | inr early ↦ rw early (same-Kept 0 d (omega arith) r st f)
            | inl done ↦ rw done (
                let found : find k d.pending ≡ some o = (elim (Bool-cases (k == 0)) [
                  | inl none_given ↦ cc (rw none_given at e)
                  | inr given ↦ rw given at e
                ]) in
                let other : (k == h) ≡ false = (elim (Bool-cases (k == h)) [
                  | inr other ↦ other
                  | inl same ↦
                      let j : k ≡ h = ground (arith, same) in
                      let u : some o ≡ some p = sym found ∙ ap (λ i. find i d.pending) j ∙ f in
                      cc (ap (ready_of false) u, done, w)
                ]) in
                changed-Kept 0 0 o.decode_lane (give_back (lane o.decode_lane d))
                  (erase k d.pending) _ p d (omega arith) r st
                  (find-erase_other h k d.pending other ∙ f) refl refl (λ w' same. omega arith))
          ])
  ]

  pub sweep_abandoned-Kept :
      (cutoff : ℕ) (d : Dispatcher)
      → d.running ≡ true
      → d.stopping ≡ false
      → find h d.pending ≡ some p
      → ltb p.enqueued_at cutoff ≡ false
      → Kept b h 0 p d (sweep_abandoned cutoff d).0
  unfolding sweep_abandoned
  sweep_abandoned-Kept cutoff d r st f y =
      let (dq, dw, pq, pw) = sweep_loop-lanes cutoff d.pending d.decode d.prefill in
      let swept = sweep_loop cutoff d.pending d.decode d.prefill in
      let d' : Dispatcher = record d {
        pending = swept.0.0;
        decode = swept.0.1;
        prefill = swept.0.2;
      } in
      record {
        running = r;
        stopping = st;
        entry = p;
        found =
            ap (find h) (sweep_loop-entries cutoff d.pending d.decode d.prefill)
            ∙ find-young h cutoff p d.pending f y;
        same_lane = refl;
        same_time = refl;
        sooner = λ w. (elim b as (λ c. due h (lane c d') ≤ due h (lane c d) - 0) [
          | true ↦ omega (arith, ap₂ (due_at h) dw dq)
          | false ↦ omega (arith, ap₂ (due_at h) pw pq)
        ]);
      }

  pub pick-Kept :
      (c : Bool) (d : Dispatcher)
      → d.running ≡ true
      → d.stopping ≡ false
      → find h d.pending ≡ some p
      → Kept b h (turn b (picks c) d) p d (pick c d)
  unfolding pick place
  pick-Kept c d r st f = go (lane c d).worker refl
    where
      nearer : (lane c d).worker ≡ waiting → due h (picked d (lane c d)) ≤ due h (lane c d) - 1
      nearer e =
          let before : due h (lane c d) ≡ 2 * place h (lane c d).queue =
            ap (λ w. due_at h w (lane c d).queue) e in
          (elim (Bool-cases (is_none (lane c d).queue)) [
            | inr some_items ↦
                rw some_items
                  (omega (arith, before, next_item-due h p d.pending (lane c d).queue f))
            | inl no_items ↦ rw no_items (simp st (omega (arith, before, empty no_items)))
          ])
        where
          empty : is_none (lane c d).queue ≡ true → place h (lane c d).queue ≡ 0
          empty = place_none h (lane c d).queue

      go : (w : Worker) → (lane c d).worker ≡ w → Kept b h (turn b (picks c) d) p d (pick c d)
      go returned e = rw (e, pick) (same-Kept _ d (ground (arith, e)) r st f)
      go (executing i) e = rw (e, pick) (same-Kept _ d (ground (arith, e)) r st f)
      go waiting e =
          rw (e, pick)
            (let (r0, s0, p0) = set_lane_flags c (picked d (lane c d)) d in
              changed-Kept _ 1 c (picked d (lane c d)) _ _ p d (ground (arith, e)) r st
                (ap (find h) p0 ∙ f) refl refl (λ w same. nearer e))
