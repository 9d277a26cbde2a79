-- ===== src/Lanes/Faithful.antt =====
-- Each step keeps the queues, the workers and the entries to what was submitted.
use inferflux.Prelude.{
  ℕ, ◌+◌, ◌%◌, ◌^◌, ◌==◌, ◌<◌, ◌≡◌, refl, sym, ap, subst, Bool, true, false, not, ◌&&◌, ◌||◌, none,
  some, List, [], ◌∷◌, ◌++◌, ltb, leb, if◌then◌else◌, arith, Bool-cases, Option-cases, inl, inr,
}
use inferflux.Lanes.Defs.{
  Input, Result, Item, Pending, Worker, returned, waiting, executing, Lane, Dispatcher, lane,
  set_lane, find, erase, start, stop, stopped, is_none, entered, submit, try_collect, sweep_loop,
  sweep_abandoned, pick, picked, recorded, complete, give_back, no_result,
}
use inferflux.Lanes.Steps.{
  Call, starts, stops, joins, submits, collects, sweeps, picks, completes, step, has_returned,
}
use inferflux.Lanes.Entries.{IsBelow-find-none}
use inferflux.Lanes.Counts.{IsPermitted, set_lane-pending, emplace_fresh}
use inferflux.Lanes.Permits.{sweep_loop-entries}
use inferflux.Lanes.Logged.{
  find_item, submitted, Explains, AreExplained, IsLogged, AreLogged, LaneLogged, IsFaithful,
  find-Explains, erase-AreExplained, young-AreExplained, update-AreExplained, picked-LaneLogged,
  AreExplained-grown, AreExplained-grown, LaneLogged-grown, AreLogged-append,
}

module _ (execute : List Input → Bool → Result) where
  set_lane-IsFaithful :
      (log : List Item) (b : Bool) (l : Lane) (es : List (ℕ × Pending)) (d : Dispatcher)
      → IsFaithful execute log d
      → LaneLogged execute log b l
      → AreExplained execute log es
      → IsFaithful execute log (record (set_lane b l d) { pending = es })
  set_lane-IsFaithful log true l es d s t u = record {
    fresh = s.fresh;
    decode = t;
    prefill = s.prefill;
    entries = u;
  }
  set_lane-IsFaithful log false l es d s t u = record {
    fresh = s.fresh;
    decode = s.decode;
    prefill = t;
    entries = u;
  }

  lane_logged :
      (log : List Item) (b : Bool) (d : Dispatcher)
      → IsFaithful execute log d
      → LaneLogged execute log b (lane b d)
  lane_logged log true d s = s.decode
  lane_logged log false d s = s.prefill

  start-IsFaithful :
      (log : List Item) (d : Dispatcher)
      → IsFaithful execute log d
      → IsFaithful execute log (start d)
  unfolding start
  start-IsFaithful log d s = record {
    fresh = s.fresh;
    decode = record { queue = s.decode.queue; worker = tt };
    prefill = record { queue = s.prefill.queue; worker = tt };
    entries = s.entries;
  }

  stop-IsFaithful :
      (log : List Item) (d : Dispatcher)
      → IsFaithful execute log d
      → IsFaithful execute log (stop d)
  unfolding stop AreLogged
  stop-IsFaithful log d s = elim (Bool-cases d.running) [
    | inl runs ↦ simp runs (record {
      fresh = s.fresh;
      decode = record { queue = tt; worker = s.decode.worker };
      prefill = record { queue = tt; worker = s.prefill.worker };
      entries = s.entries;
    })
    | inr rests ↦ simp rests s
  ]

  stopped-IsFaithful :
      (log : List Item) (d : Dispatcher)
      → IsFaithful execute log d
      → IsFaithful execute log (stopped d)
  unfolding stopped AreExplained
  stopped-IsFaithful log d s = record {
    fresh = s.fresh;
    decode = record { queue = s.decode.queue; worker = s.decode.worker };
    prefill = record { queue = s.prefill.queue; worker = s.prefill.worker };
    entries = tt;
  }

  set_lane-LaneLogged :
      (log : List Item) (b : Bool) (l : Lane) (d : Dispatcher)
      → LaneLogged execute log true d.decode
      → LaneLogged execute log false d.prefill
      → LaneLogged execute log b l
      → LaneLogged execute log true (set_lane b l d).decode
        × LaneLogged execute log false (set_lane b l d).prefill
  set_lane-LaneLogged log true l d s t u = (u, t)
  set_lane-LaneLogged log false l d s t u = (s, u)

  entered-IsFaithful :
      (log : List Item) (inputs : List Input) (b : Bool) (now : ℕ) (d : Dispatcher)
      → IsFaithful execute log d
      → IsPermitted d
      → d.next_handle + 1 < 2 ^ 64
      → IsFaithful execute
          (record { handle = d.next_handle; decode_lane = b; inputs = inputs } ∷ log)
          (entered d.next_handle inputs b now d)
  unfolding AreExplained find_item
  entered-IsFaithful log inputs b now d s v l =
      let item : Item = record { handle = d.next_handle; decode_lane = b; inputs = inputs } in
      let p : Pending = record {
        decode_lane = b;
        ready = false;
        result = no_result;
        enqueued_at = now;
      } in
      let unused = s.fresh d.next_handle (omega arith) in
      let none_yet = IsBelow-find-none d.next_handle d.pending v.below in
      let next : (d.next_handle + 1) % 2 ^ 64 ≡ d.next_handle + 1 = omega arith in
      let self : (d.next_handle == d.next_handle) ≡ true = ground arith in
      let logged : find_item d.next_handle (item ∷ log) ≡ some item = rw (self, find_item) refl in
      let entry : Explains execute (item ∷ log) d.next_handle p = record {
        item = item;
        logged = logged;
        same_lane = refl;
        result = λ h. cc;
      } in
      let old = LaneLogged-grown execute log item unused b (lane b d) (lane_logged log b d s) in
      let added : LaneLogged execute (item ∷ log) b (record (lane b d) {
        queue = (lane b d).queue ++ item ∷ [];
        pending_count = (lane b d).pending_count + 1;
      }) =
        record {
          queue =
              AreLogged-append execute (item ∷ log) b (lane b d).queue item old.queue
                (logged, refl);
          worker = old.worker;
        } in
      let lanes =
        set_lane-LaneLogged (item ∷ log) b _ d
          (LaneLogged-grown execute log item unused true d.decode s.decode)
          (LaneLogged-grown execute log item unused false d.prefill s.prefill) added in
      simp (emplace_fresh d.next_handle p d.pending none_yet, next)
        (record {
          fresh = λ m h.
              let other : (d.next_handle == m) ≡ false = ground arith in
              rw (other, find_item) (s.fresh m (omega arith));
          decode = lanes.0;
          prefill = lanes.1;
          entries = (entry, AreExplained-grown execute log item unused d.pending s.entries);
        })

  submit-IsFaithful :
      (log : List Item) (inputs : List Input) (b : Bool) (now : ℕ) (d : Dispatcher)
      → IsFaithful execute log d
      → IsPermitted d
      → d.next_handle + 1 < 2 ^ 64
      → IsFaithful execute (submitted (submits inputs b now) d ++ log) (submit inputs b now d).0
  unfolding submit
  submit-IsFaithful log inputs b now d s v l =
      let given : (d.next_handle == 0) ≡ false = ground (arith, v.started) in
      elim (Bool-cases (
        is_none inputs
        || not d.running
        || d.stopping
        || not d.has_execute_fn
        || leb d.max_pending_per_lane (lane b d).pending_count)) [
          | inl refused ↦ rw refused s
          | inr goes_on ↦ rw goes_on (rw given (entered-IsFaithful log inputs b now d s v l))
        ]

  try_collect-IsFaithful :
      (log : List Item) (h : ℕ) (d : Dispatcher)
      → IsFaithful execute log d
      → IsFaithful execute log (try_collect h d).0
  unfolding try_collect
  try_collect-IsFaithful log h d s =
      elim (Option-cases (if h == 0 then none else find h d.pending)) [
        | inl e ↦ rw (e, try_collect) s
        | inr (p, e) ↦
            rw (e, try_collect)
              (elim (Bool-cases p.ready) [
                | inl done ↦ rw done (
                    let old = lane_logged log p.decode_lane d s in
                    set_lane-IsFaithful log p.decode_lane (give_back (lane p.decode_lane d))
                      (erase h d.pending) d s (record { queue = old.queue; worker = old.worker })
                      (erase-AreExplained execute log h d.pending s.entries))
                | inr waits ↦ rw waits s
              ])
      ]

  sweep_loop-LaneLogged :
      (log : List Item) (cutoff : ℕ) (es : List (ℕ × Pending)) (dl pl : Lane)
      → LaneLogged execute log true dl
      → LaneLogged execute log false pl
      → LaneLogged execute log true (sweep_loop cutoff es dl pl).0.1
        × LaneLogged execute log false (sweep_loop cutoff es dl pl).0.2
  unfolding sweep_loop
  sweep_loop-LaneLogged log cutoff [] dl pl s t = (s, t)
  sweep_loop-LaneLogged log cutoff (e ∷ es) dl pl s t =
      elim (Bool-cases (ltb e.1.enqueued_at cutoff)) [
        | inr recent ↦ rw recent (sweep_loop-LaneLogged log cutoff es dl pl s t)
        | inl old ↦ rw old (elim (Bool-cases e.1.decode_lane) [
          | inl decodes ↦ simp decodes (
              sweep_loop-LaneLogged log cutoff es (give_back dl) pl
                (record { queue = s.queue; worker = s.worker }) t)
          | inr prefills ↦ simp prefills (
              sweep_loop-LaneLogged log cutoff es dl (give_back pl) s
                (record { queue = t.queue; worker = t.worker }))
        ])
      ]

  sweep_abandoned-IsFaithful :
      (log : List Item) (cutoff : ℕ) (d : Dispatcher)
      → IsFaithful execute log d
      → IsFaithful execute log (sweep_abandoned cutoff d).0
  unfolding sweep_abandoned
  sweep_abandoned-IsFaithful log cutoff d s =
      let lanes =
        sweep_loop-LaneLogged log cutoff d.pending d.decode d.prefill s.decode s.prefill in
      record {
        fresh = s.fresh;
        decode = lanes.0;
        prefill = lanes.1;
        entries =
            subst (AreExplained execute log)
              (sym (sweep_loop-entries cutoff d.pending d.decode d.prefill))
              (young-AreExplained execute log cutoff d.pending s.entries);
      }

  pick-IsFaithful :
      (log : List Item) (b : Bool) (d : Dispatcher)
      → IsFaithful execute log d
      → IsFaithful execute log (pick b d)
  unfolding pick
  pick-IsFaithful log b d s = go (lane b d).worker refl
    where
      go : (w : Worker) → (lane b d).worker ≡ w → IsFaithful execute log (pick b d)
      go returned e = rw (e, pick) s
      go (executing i) e = rw (e, pick) s
      go waiting e =
          rw (e, pick)
            (subst (IsFaithful execute log) (set_lane-pending b (picked d (lane b d)) d) (
              set_lane-IsFaithful log b (picked d (lane b d)) d.pending d s
                (picked-LaneLogged execute log b d (lane b d) (lane_logged log b d s)) s.entries))

  recorded-AreExplained :
      (log : List Item) (i : Item) (b : Bool) (es : List (ℕ × Pending))
      → IsLogged execute log b i
      → AreExplained execute log es
      → AreExplained execute log (recorded i.handle (execute i.inputs b) es)
  recorded-AreExplained log i b es (e, c) s = elim (Option-cases (find i.handle es)) [
    | inl none_left ↦ rw (none_left, recorded) s
    | inr (p, f) ↦
        rw (f, recorded)
          (let y = find-Explains execute log i.handle p es s f in
            update-AreExplained execute log i.handle
              (record p { ready = true; result = execute i.inputs b }) es
              (record {
                item = i;
                logged = e;
                same_lane = cc (y.same_lane, y.logged, e);
                result = λ h. ap (execute i.inputs) (sym c);
              })
              s)
  ]

  complete-IsFaithful :
      (log : List Item) (b : Bool) (d : Dispatcher)
      → IsFaithful execute log d
      → IsFaithful execute log (complete execute b d)
  unfolding complete
  complete-IsFaithful log b d s = go (lane b d).worker refl (lane_logged log b d s)
    where
      go :
          (w : Worker)
          → (lane b d).worker ≡ w
          → LaneLogged execute log b (lane b d)
          → IsFaithful execute log (complete execute b d)
      go returned e t = rw (e, complete) s
      go waiting e t = rw (e, complete) s
      go (executing i) e t =
          rw (e, complete)
            (set_lane-IsFaithful log b (record (lane b d) { worker = waiting }) _ d s
              (record { queue = t.queue; worker = tt })
              (recorded-AreExplained log i b d.pending (rw e at t.worker) s.entries))

  pub step-IsFaithful :
      (log : List Item) (c : Call) (d : Dispatcher)
      → IsFaithful execute log d
      → IsPermitted d
      → d.next_handle + 1 < 2 ^ 64
      → IsFaithful execute (submitted c d ++ log) (step execute c d)
  unfolding step
  step-IsFaithful log starts d s v l = elim (Bool-cases d.running) [
    | inl runs ↦ simp runs s
    | inr rests ↦ simp rests (start-IsFaithful log d s)
  ]
  step-IsFaithful log stops d s v l = stop-IsFaithful log d s
  step-IsFaithful log joins d s v l =
      elim (Bool-cases (
        d.running && d.stopping && has_returned d.decode.worker && has_returned d.prefill.worker)) [
          | inl ends ↦ rw ends (stopped-IsFaithful log d s)
          | inr waits ↦ rw waits s
        ]
  step-IsFaithful log (submits inputs b now) d s v l = submit-IsFaithful log inputs b now d s v l
  step-IsFaithful log (collects h) d s v l = try_collect-IsFaithful log h d s
  step-IsFaithful log (sweeps cutoff) d s v l = sweep_abandoned-IsFaithful log cutoff d s
  step-IsFaithful log (picks b) d s v l = pick-IsFaithful log b d s
  step-IsFaithful log (completes b) d s v l = complete-IsFaithful log b d s
