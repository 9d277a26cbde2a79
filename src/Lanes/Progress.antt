-- ===== src/Lanes/Progress.antt =====
-- Where the batch of an entry is: while the entry stays and has no result, its lane has the item.
use inferflux.Prelude.{
  ℕ, ◌+◌, ◌%◌, ◌^◌, ◌==◌, ◌≡◌, refl, sym, ap, ap₂, subst, ◌∙◌, Bool, true, false, not, ◌||◌, Option,
  none, some, List, [], ◌∷◌, ◌++◌, ltb, leb, if◌then◌else◌, arith, Bool-cases, Option-cases, inl,
  inr,
}
use inferflux.Lanes.Permits.{sweep_loop-entries, set_lane-next_handle}
use inferflux.Lanes.Defs.{
  Input, Item, Pending, Worker, returned, waiting, executing, Lane, Dispatcher, lane, set_lane,
  find, erase, emplace, init, start, stop, stopped, is_none, entered, submit, try_collect,
  sweep_loop, sweep_abandoned, give_back, no_result,
}
use inferflux.Lanes.Steps.{has_returned}
use inferflux.Lanes.Entries.{young, IsBelow-find-none, find-erase-some, find-young-some}
use inferflux.Lanes.Counts.{IsPermitted, emplace_fresh}

abbrev pub lane_of : Bool → Option Pending → Bool
lane_of b none = b
lane_of b (some p) = p.decode_lane

abbrev pub ready_of : Bool → Option Pending → Bool
ready_of b none = b
ready_of b (some p) = p.ready

-- Whether a lane's worker executes the item of a handle, or its queue has it.
unfoldable pub queued : ℕ → List Item → Bool
queued h [] = false
queued h (i ∷ q) = i.handle == h || queued h q

abbrev pub executes : ℕ → Worker → Bool
executes h (executing i) = i.handle == h
executes h waiting = false
executes h returned = false

abbrev pub holds : ℕ → Lane → Bool
holds h l = executes h l.worker || queued h l.queue

-- While the dispatcher does not stop, its workers have not returned, and each entry that is not ready is
-- of an item that its lane holds. One that does not run has no entries, and does not stop.
pub record IsServed (d : Dispatcher) : Type 0 where
  pub alive :
      (b : Bool) → d.running ≡ true → d.stopping ≡ false → has_returned (lane b d).worker ≡ false
  pub held :
      (h : ℕ) (p : Pending)
      → d.stopping ≡ false
      → find h d.pending ≡ some p
      → p.ready ≡ false
      → holds h (lane p.decode_lane d) ≡ true
  pub rests : d.running ≡ false → (d.pending ≡ []) × (d.stopping ≡ false)

no_entry : (h : ℕ) (p : Pending) (es : List (ℕ × Pending)) → es ≡ [] → find h es ≡ some p → ⊥
unfolding find
no_entry h p es e f = cc (ap (find h) e, f)

pub init-IsServed : (n : ℕ) → IsServed (init n)
unfolding init find
init-IsServed n = record { alive = λ b r s. cc; held = λ h p s f r. cc; rests = λ r. (refl, refl) }

pub start-IsServed : (d : Dispatcher) → d.running ≡ false → IsServed d → IsServed (start d)
unfolding start
start-IsServed d r s = record {
  alive = λ b r' s'.
      (elim b
        as (λ c.
          has_returned
            (if c
              then record d.decode { worker = waiting }
              else record d.prefill { worker = waiting }).worker
          ≡ false) [ true ↦ refl | false ↦ refl ]);
  held = λ h p s' f r'. absurd (no_entry h p d.pending (s.rests r).0 f);
  rests = λ r'. cc;
}

pub stop-IsServed : (d : Dispatcher) → IsServed d → IsServed (stop d)
unfolding stop
stop-IsServed d s = elim (Bool-cases d.running) [
  | inl runs ↦ simp runs (record { alive = λ b r s'. cc; held = λ h p s' f r. cc; rests = λ r. cc })
  | inr rests ↦ simp rests s
]

pub stopped-IsServed : (d : Dispatcher) → IsServed d → IsServed (stopped d)
unfolding stopped find
stopped-IsServed d s = record {
  alive = λ b r s'. cc;
  held = λ h p s' f r. cc;
  rests = λ r. (refl, refl);
}

-- A lane that holds the item of a handle, after another has been set that holds what the lane before it
-- held.
pub holds-set_lane :
    (h : ℕ) (b c : Bool) (l : Lane) (d : Dispatcher)
    → (holds h (lane b d) ≡ true → holds h l ≡ true)
    → holds h (lane c d) ≡ true
    → holds h (lane c (set_lane b l d)) ≡ true
holds-set_lane h true true l d keeps e = keeps e
holds-set_lane h true false l d keeps e = e
holds-set_lane h false true l d keeps e = e
holds-set_lane h false false l d keeps e = keeps e

pub lane-set_lane : (b : Bool) (l : Lane) (d : Dispatcher) → lane b (set_lane b l d) ≡ l
lane-set_lane true l d = refl
lane-set_lane false l d = refl

alive-set_lane :
    (b c : Bool) (l : Lane) (d : Dispatcher)
    → has_returned l.worker ≡ false
    → has_returned (lane c d).worker ≡ false
    → has_returned (lane c (set_lane b l d)).worker ≡ false
alive-set_lane true true l d e f = e
alive-set_lane true false l d e f = f
alive-set_lane false true l d e f = f
alive-set_lane false false l d e f = e

pub set_lane_flags :
    (b : Bool) (l : Lane) (d : Dispatcher)
    → ((set_lane b l d).running ≡ d.running)
      × ((set_lane b l d).stopping ≡ d.stopping)
      × ((set_lane b l d).pending ≡ d.pending)
set_lane_flags true l d = (refl, refl, refl)
set_lane_flags false l d = (refl, refl, refl)

-- A dispatcher with another lane and other entries.
pub changed-IsServed :
    (b : Bool) (l : Lane) (es : List (ℕ × Pending)) (n : ℕ) (d : Dispatcher)
    → (d.running ≡ false → es ≡ [])
    → IsServed d
    → (d.stopping ≡ false → has_returned (lane b d).worker ≡ false → has_returned l.worker ≡ false)
    → ((h : ℕ) (p : Pending)
        → d.stopping ≡ false
        → find h es ≡ some p
        → p.ready ≡ false
        → holds h (lane p.decode_lane (set_lane b l d)) ≡ true)
    → IsServed (record (set_lane b l d) { pending = es; next_handle = n })
changed-IsServed b l es n d rests s alive held =
    let (r0, s0, p0) = set_lane_flags b l d in
    record {
      alive = λ c r s'.
          let st : d.stopping ≡ false = sym s0 ∙ s' in
          alive-set_lane b c l d (alive st (s.alive b (sym r0 ∙ r) st)) (s.alive c (sym r0 ∙ r) st);
      held = λ h p s' f r. held h p (sym s0 ∙ s') f r;
      rests = λ r. let r' : d.running ≡ false = sym r0 ∙ r in (rests r', s0 ∙ (s.rests r').1);
    }

queued-append_left : (h : ℕ) (q r : List Item) → queued h q ≡ true → queued h (q ++ r) ≡ true
unfolding queued
queued-append_left h [] r e = cc
queued-append_left h (i ∷ q) r e = ground (arith, e, queued-append_left h q r)

queued-append_last : (q : List Item) (i : Item) → queued i.handle (q ++ i ∷ []) ≡ true
unfolding queued
queued-append_last [] i = ground arith
queued-append_last (j ∷ q) i = ground (arith, queued-append_last q i)

entered-IsServed :
    (inputs : List Input) (b : Bool) (now : ℕ) (d : Dispatcher)
    → d.running ≡ true
    → IsPermitted d
    → IsServed d
    → IsServed (entered d.next_handle inputs b now d)
unfolding find
entered-IsServed inputs b now d runs v s =
    let p : Pending = record {
      decode_lane = b;
      ready = false;
      result = no_result;
      enqueued_at = now;
    } in
    let item : Item = record { handle = d.next_handle; decode_lane = b; inputs = inputs } in
    let l : Lane = record (lane b d) {
      queue = (lane b d).queue ++ item ∷ [];
      pending_count = (lane b d).pending_count + 1;
    } in
    let none_yet = IsBelow-find-none d.next_handle d.pending v.below in
    let grows : (h : ℕ) → holds h (lane b d) ≡ true → holds h l ≡ true =
      λ h e. ground (arith, e, queued-append_left h (lane b d).queue (item ∷ [])) in
    let new_held : holds d.next_handle l ≡ true =
      ground (arith, queued-append_last (lane b d).queue item) in
    changed-IsServed b l (emplace d.next_handle p d.pending) ((d.next_handle + 1) % 2 ^ 64) d
      (λ r. cc (r, runs)) s (λ st e. e)
      (rw (emplace_fresh d.next_handle p d.pending none_yet) (λ h q st f r.
        (elim (Bool-cases (d.next_handle == h)) [
          | inr other ↦
              holds-set_lane h b q.decode_lane l d (grows h) (s.held h q st (rw other at f) r)
          | inl same ↦
              let k : d.next_handle ≡ h = ground (arith, same) in
              let e : b ≡ q.decode_lane = cc (ap (lane_of b) (rw same at f)) in
              subst (λ j. holds j (lane q.decode_lane (set_lane b l d)) ≡ true) k
                (subst (λ c. holds d.next_handle (lane c (set_lane b l d)) ≡ true) e
                  (subst (λ m. holds d.next_handle m ≡ true) (sym (lane-set_lane b l d)) new_held))
        ])))

pub submit-IsServed :
    (inputs : List Input) (b : Bool) (now : ℕ) (d : Dispatcher)
    → IsPermitted d
    → IsServed d
    → IsServed (submit inputs b now d).0
unfolding submit
submit-IsServed inputs b now d v s =
    elim (Bool-cases (
      is_none inputs
      || not d.running
      || d.stopping
      || not d.has_execute_fn
      || leb d.max_pending_per_lane (lane b d).pending_count)) [
        | inl refused ↦ rw refused s
        | inr goes_on ↦ rw goes_on (entered-IsServed inputs b now d (ground (arith, goes_on)) v s)
      ]

erase_nil : (h : ℕ) (es : List (ℕ × Pending)) → es ≡ [] → erase h es ≡ []
unfolding erase
erase_nil h es e = ap (erase h) e

pub try_collect-IsServed :
    (h : ℕ) (d : Dispatcher) → IsPermitted d → IsServed d → IsServed (try_collect h d).0
unfolding try_collect
try_collect-IsServed h d v s = elim (Option-cases (if h == 0 then none else find h d.pending)) [
  | inl e ↦ rw (e, try_collect) s
  | inr (p, e) ↦
      rw (e, try_collect)
        (elim (Bool-cases p.ready) [
          | inr waits ↦ rw waits s
          | inl done ↦ rw done (
              let l = give_back (lane p.decode_lane d) in
              let (r0, s0, p0) = set_lane_flags p.decode_lane l d in
              subst
                (λ n. IsServed (record (set_lane p.decode_lane l d) {
                  pending = erase h d.pending;
                  next_handle = n;
                }))
                (sym (set_lane-next_handle p.decode_lane l d))
                (changed-IsServed p.decode_lane l (erase h d.pending) d.next_handle d
                  (λ r. erase_nil h d.pending (s.rests r).0) s (λ st a. a)
                  (λ k q st f r.
                    holds-set_lane k p.decode_lane q.decode_lane l d (λ x. x)
                      (s.held k q st (find-erase-some d.next_handle k h q d.pending v.below f) r))))
        ])
]

-- A sweep changes of the lanes the counts alone.
pub sweep_loop-lanes :
    (cutoff : ℕ) (es : List (ℕ × Pending)) (dl pl : Lane)
    → ((sweep_loop cutoff es dl pl).0.1.queue ≡ dl.queue)
      × ((sweep_loop cutoff es dl pl).0.1.worker ≡ dl.worker)
      × ((sweep_loop cutoff es dl pl).0.2.queue ≡ pl.queue)
      × ((sweep_loop cutoff es dl pl).0.2.worker ≡ pl.worker)
unfolding sweep_loop
sweep_loop-lanes cutoff [] dl pl = (refl, refl, refl, refl)
sweep_loop-lanes cutoff (e ∷ es) dl pl = elim (Bool-cases (ltb e.1.enqueued_at cutoff)) [
  | inr recent ↦ rw recent (sweep_loop-lanes cutoff es dl pl)
  | inl old ↦ rw old (elim (Bool-cases e.1.decode_lane) [
    | inl decodes ↦ simp decodes (sweep_loop-lanes cutoff es (give_back dl) pl)
    | inr prefills ↦ simp prefills (sweep_loop-lanes cutoff es dl (give_back pl))
  ])
]

same_holds :
    (h : ℕ) (l m : Lane)
    → m.queue ≡ l.queue
    → m.worker ≡ l.worker
    → holds h l ≡ true
    → holds h m ≡ true
same_holds h l m q w e = ap₂ (λ x y. executes h x || queued h y) w q ∙ e

young_nil : (cutoff : ℕ) (es : List (ℕ × Pending)) → es ≡ [] → young cutoff es ≡ []
unfolding young
young_nil cutoff es e = ap (young cutoff) e

pub sweep_abandoned-IsServed :
    (cutoff : ℕ) (d : Dispatcher)
    → IsPermitted d
    → IsServed d
    → IsServed (sweep_abandoned cutoff d).0
unfolding sweep_abandoned
sweep_abandoned-IsServed cutoff d v s =
    let (dq, dw, pq, pw) = sweep_loop-lanes cutoff d.pending d.decode d.prefill in
    let entries = sweep_loop-entries cutoff d.pending d.decode d.prefill in
    let r = sweep_loop cutoff d.pending d.decode d.prefill in
    let d' : Dispatcher = record d { pending = r.0.0; decode = r.0.1; prefill = r.0.2 } in
    let alive' : (b : Bool)
        → has_returned (lane b d).worker ≡ false
        → has_returned (lane b d').worker ≡ false =
      λ b.
        (elim b
          as (λ c.
            has_returned (lane c d).worker ≡ false → has_returned (lane c d').worker ≡ false) [
              | true ↦ λ e. ap has_returned dw ∙ e
              | false ↦ λ e. ap has_returned pw ∙ e
            ]) in
    let holds' : (h : ℕ) (b : Bool) → holds h (lane b d) ≡ true → holds h (lane b d') ≡ true =
      λ h b. (elim b as (λ c. holds h (lane c d) ≡ true → holds h (lane c d') ≡ true) [
        | true ↦ same_holds h d.decode r.0.1 dq dw
        | false ↦ same_holds h d.prefill r.0.2 pq pw
      ]) in
    record {
      alive = λ b ru st. alive' b (s.alive b ru st);
      held = λ h p st f rd. holds' h p.decode_lane (
          s.held h p st
            (find-young-some d.next_handle h cutoff p d.pending v.below
              (ap (find h) (sym entries) ∙ f))
            rd);
      rests = λ ru. (entries ∙ young_nil cutoff d.pending (s.rests ru).0, (s.rests ru).1);
    }
