-- ===== src/Lanes/Counts.antt =====
-- The permits of the lanes: their counts are those of the entries, within the limit.
use inferflux.Prelude.{
  ℕ, ◌+◌, ◌%◌, ◌^◌, ◌==◌, ◌≤◌, ◌<◌, ◌≡◌, refl, subst, Bool, true, false, not, ◌||◌, Option, none,
  some, List, ◌∷◌, leb, arith, Bool-cases, Option-cases, inl, inr,
}
use inferflux.Lanes.Defs.{
  Input, Result, Pending, Worker, returned, waiting, executing, Lane, Dispatcher, lane, set_lane,
  find, erase, emplace, init, start, stop, stopped, is_none, entered, submit, try_collect, pick,
  picked, recorded, complete, give_back,
}
use inferflux.Lanes.Entries.{
  lane_count, weight, IsBelow, IsBelow-find-none, IsBelow-weaken, erase-IsBelow, update-IsBelow,
  lane_count-erase, lane_count-update,
}

-- The entries have handles that were given out, each lane counts its own ones, and no more of them than
-- the limit. Without a running dispatcher there are none.
pub record IsPermitted (d : Dispatcher) : Type 0 where
  pub started : 0 < d.next_handle
  pub below : IsBelow d.next_handle d.pending
  pub decode_counts : d.decode.pending_count ≡ lane_count true d.pending
  pub prefill_counts : d.prefill.pending_count ≡ lane_count false d.pending
  pub decode_fits : d.decode.pending_count ≤ d.max_pending_per_lane
  pub prefill_fits : d.prefill.pending_count ≤ d.max_pending_per_lane

pub init-IsPermitted : (n : ℕ) → IsPermitted (init n)
unfolding init IsBelow lane_count
init-IsPermitted n = record {
  started = omega arith;
  below = tt;
  decode_counts = refl;
  prefill_counts = refl;
  decode_fits = omega arith;
  prefill_fits = omega arith;
}

pub start-IsPermitted : (d : Dispatcher) → IsPermitted d → IsPermitted (start d)
unfolding start
start-IsPermitted d s = record {
  started = s.started;
  below = s.below;
  decode_counts = s.decode_counts;
  prefill_counts = s.prefill_counts;
  decode_fits = s.decode_fits;
  prefill_fits = s.prefill_fits;
}

pub stop-IsPermitted : (d : Dispatcher) → IsPermitted d → IsPermitted (stop d)
unfolding stop
stop-IsPermitted d s = elim (Bool-cases d.running) [
  | inl runs ↦ simp runs (record {
    started = s.started;
    below = s.below;
    decode_counts = s.decode_counts;
    prefill_counts = s.prefill_counts;
    decode_fits = s.decode_fits;
    prefill_fits = s.prefill_fits;
  })
  | inr rests ↦ simp rests s
]

pub stopped-IsPermitted : (d : Dispatcher) → IsPermitted d → IsPermitted (stopped d)
unfolding stopped IsBelow lane_count
stopped-IsPermitted d s = record {
  started = s.started;
  below = tt;
  decode_counts = refl;
  prefill_counts = refl;
  decode_fits = omega arith;
  prefill_fits = omega arith;
}

pub emplace_fresh :
    (n : ℕ) (p : Pending) (es : List (ℕ × Pending))
    → find n es ≡ none
    → emplace n p es ≡ (n, p) ∷ es
emplace_fresh n p es e = rw (e, emplace) refl

entered-IsPermitted :
    (inputs : List Input) (b : Bool) (now : ℕ) (d : Dispatcher)
    → IsPermitted d
    → d.next_handle + 1 < 2 ^ 64
    → (lane b d).pending_count < d.max_pending_per_lane
    → IsPermitted (entered d.next_handle inputs b now d)
unfolding IsBelow lane_count
entered-IsPermitted inputs true now d s l m =
    let unused = IsBelow-find-none d.next_handle d.pending s.below in
    let next : (d.next_handle + 1) % 2 ^ 64 ≡ d.next_handle + 1 = omega arith in
    simp (emplace_fresh d.next_handle _ d.pending unused, next)
      (record {
        started = omega arith;
        below = (
          s.started,
          omega arith,
          unused,
          IsBelow-weaken d.next_handle (d.next_handle + 1) d.pending (omega arith) s.below,
        );
        decode_counts = omega (arith, s.decode_counts);
        prefill_counts = omega (arith, s.prefill_counts);
        decode_fits = omega arith;
        prefill_fits = s.prefill_fits;
      })
entered-IsPermitted inputs false now d s l m =
    let unused = IsBelow-find-none d.next_handle d.pending s.below in
    let next : (d.next_handle + 1) % 2 ^ 64 ≡ d.next_handle + 1 = omega arith in
    simp (emplace_fresh d.next_handle _ d.pending unused, next)
      (record {
        started = omega arith;
        below = (
          s.started,
          omega arith,
          unused,
          IsBelow-weaken d.next_handle (d.next_handle + 1) d.pending (omega arith) s.below,
        );
        decode_counts = omega (arith, s.decode_counts);
        prefill_counts = omega (arith, s.prefill_counts);
        decode_fits = s.decode_fits;
        prefill_fits = omega arith;
      })

pub submit-IsPermitted :
    (inputs : List Input) (b : Bool) (now : ℕ) (d : Dispatcher)
    → IsPermitted d
    → d.next_handle + 1 < 2 ^ 64
    → IsPermitted (submit inputs b now d).0
unfolding submit
submit-IsPermitted inputs b now d s l =
    elim (Bool-cases (
      is_none inputs
      || not d.running
      || d.stopping
      || not d.has_execute_fn
      || leb d.max_pending_per_lane (lane b d).pending_count)) [
        | inl refused ↦ rw refused s
        | inr goes_on ↦
            rw goes_on (entered-IsPermitted inputs b now d s l (ground (arith, goes_on)))
      ]

-- A lane with a permit back, where it has given one out.
give_back-lane :
    (b : Bool) (h : ℕ) (p : Pending) (d : Dispatcher)
    → IsPermitted d
    → find h d.pending ≡ some p
    → p.decode_lane ≡ b
    → IsPermitted (record (set_lane b (give_back (lane b d)) d) { pending = erase h d.pending })
give_back-lane true h p d s e c =
    let w : weight true p ≡ 1 = ground arith in
    let v : weight false p ≡ 0 = ground arith in
    let t = lane_count-erase true h p d.pending e in
    let f = lane_count-erase false h p d.pending e in
    record {
      started = s.started;
      below = erase-IsBelow d.next_handle h d.pending s.below;
      decode_counts = ground (arith, s.decode_counts, t, w);
      prefill_counts = omega (arith, s.prefill_counts, f, v);
      decode_fits = ground (arith, s.decode_fits);
      prefill_fits = s.prefill_fits;
    }
give_back-lane false h p d s e c =
    let w : weight false p ≡ 1 = ground arith in
    let v : weight true p ≡ 0 = ground arith in
    let t = lane_count-erase true h p d.pending e in
    let f = lane_count-erase false h p d.pending e in
    record {
      started = s.started;
      below = erase-IsBelow d.next_handle h d.pending s.below;
      decode_counts = omega (arith, s.decode_counts, t, v);
      prefill_counts = ground (arith, s.prefill_counts, f, w);
      decode_fits = s.decode_fits;
      prefill_fits = ground (arith, s.prefill_fits);
    }

pub try_collect-IsPermitted :
    (h : ℕ) (d : Dispatcher) → IsPermitted d → IsPermitted (try_collect h d).0
unfolding try_collect
try_collect-IsPermitted h d s = elim (Bool-cases (h == 0)) [
  | inl zero_handle ↦ rw (zero_handle, try_collect) s
  | inr given ↦ go (find h d.pending) refl given
]
  where
    go :
        (o : Option Pending)
        → find h d.pending ≡ o
        → (h == 0) ≡ false
        → IsPermitted (try_collect h d).0
    go none e g = rw (g, try_collect) (rw (e, try_collect) s)
    go (some p) e g = elim (Bool-cases p.ready) [
      | inl done ↦
          rw (g, try_collect)
            (rw (e, try_collect) (rw done (give_back-lane p.decode_lane h p d s e refl)))
      | inr waits ↦ rw (g, try_collect) (rw (e, try_collect) (rw waits s))
    ]

-- A lane with the same permits, and entries of the same lanes.
swap_lane :
    (b : Bool) (l : Lane) (es : List (ℕ × Pending)) (d : Dispatcher)
    → IsPermitted d
    → l.pending_count ≡ (lane b d).pending_count
    → IsBelow d.next_handle es
    → ((c : Bool) → lane_count c es ≡ lane_count c d.pending)
    → IsPermitted (record (set_lane b l d) { pending = es })
swap_lane true l es d s e below same = record {
  started = s.started;
  below = below;
  decode_counts = omega (arith, s.decode_counts, same true);
  prefill_counts = omega (arith, s.prefill_counts, same false);
  decode_fits = omega (arith, s.decode_fits);
  prefill_fits = s.prefill_fits;
}
swap_lane false l es d s e below same = record {
  started = s.started;
  below = below;
  decode_counts = omega (arith, s.decode_counts, same true);
  prefill_counts = omega (arith, s.prefill_counts, same false);
  decode_fits = s.decode_fits;
  prefill_fits = omega (arith, s.prefill_fits);
}

pub set_lane-pending :
    (b : Bool) (l : Lane) (d : Dispatcher)
    → record (set_lane b l d) { pending = d.pending } ≡ set_lane b l d
set_lane-pending true l d = refl
set_lane-pending false l d = refl

pub pick-IsPermitted : (b : Bool) (d : Dispatcher) → IsPermitted d → IsPermitted (pick b d)
unfolding pick
pick-IsPermitted b d s = go (lane b d).worker refl
  where
    go : (w : Worker) → (lane b d).worker ≡ w → IsPermitted (pick b d)
    go returned e = rw (e, pick) s
    go (executing i) e = rw (e, pick) s
    go waiting e =
        rw (e, pick)
          (subst IsPermitted (set_lane-pending b (picked d (lane b d)) d)
            (swap_lane b (picked d (lane b d)) d.pending d s (ground arith) s.below (λ c. refl)))

recorded-IsBelow :
    (n h : ℕ) (r : Result) (es : List (ℕ × Pending)) → IsBelow n es → IsBelow n (recorded h r es)
recorded-IsBelow n h r es s = elim (Option-cases (find h es)) [
  | inl e ↦ rw (e, recorded) s
  | inr (p, e) ↦ rw (e, recorded) (update-IsBelow n h _ es s)
]

lane_count-recorded :
    (c : Bool) (h : ℕ) (r : Result) (es : List (ℕ × Pending))
    → lane_count c (recorded h r es) ≡ lane_count c es
lane_count-recorded c h r es = elim (Option-cases (find h es)) [
  | inl e ↦ rw (e, recorded) refl
  | inr (p, e) ↦
      rw (e, recorded) (lane_count-update c h (record p { ready = true; result = r }) p es e refl)
]

pub complete-IsPermitted :
    (execute : List Input → Bool → Result) (b : Bool) (d : Dispatcher)
    → IsPermitted d
    → IsPermitted (complete execute b d)
unfolding complete
complete-IsPermitted execute b d s = go (lane b d).worker refl
  where
    go : (w : Worker) → (lane b d).worker ≡ w → IsPermitted (complete execute b d)
    go returned e = rw (e, complete) s
    go waiting e = rw (e, complete) s
    go (executing i) e =
        rw (e, complete)
          (swap_lane b (record (lane b d) { worker = waiting }) _ d s refl
            (recorded-IsBelow d.next_handle i.handle (execute i.inputs b) d.pending s.below)
            (λ c. lane_count-recorded c i.handle (execute i.inputs b) d.pending))
