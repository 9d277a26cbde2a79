-- ===== src/Lanes/Turns.antt =====
-- The sections that a lane's worker has yet to go through for an item, and those of a sequence of calls.
use inferflux.Prelude.{
  ℕ, ◌+◌, ◌-◌, ◌*◌, ◌==◌, ◌≤◌, ◌≡◌, refl, subst, Bool, true, false, not, ◌&&◌, ◌||◌, none, some,
  List, [], ◌∷◌, ◌++◌, ltb, if◌then◌else◌, length, arith, Bool-cases, Option-cases, inl, inr,
}
use inferflux.Lanes.Defs.{
  Input, Result, Item, Pending, Worker, returned, waiting, executing, Lane, Dispatcher, lane,
  set_lane, find, next_item,
}
use inferflux.Lanes.Steps.{
  Call, starts, stops, joins, submits, collects, sweeps, picks, completes, step,
}
use inferflux.Lanes.Progress.{queued, executes, holds}

abbrev pub is_lane : Bool → Bool → Bool
is_lane b c = if b then c else not c

abbrev pub waits : Worker → ℕ
waits waiting = 1
waits (executing i) = 0
waits returned = 0

abbrev pub works : Worker → ℕ
works (executing i) = 1
works waiting = 0
works returned = 0

-- How many items of a queue are taken until that of a handle is.
unfoldable pub place : ℕ → List Item → ℕ
place h [] = 0
place h (i ∷ q) = let rest = place h q in if i.handle == h then 1 else 1 + rest

-- The worker's sections until it has executed the item of a handle: two for each item, to take it and to
-- record its result.
abbrev pub due_at : ℕ → Worker → List Item → ℕ
due_at h (executing i) q = if i.handle == h then 1 else 1 + 2 * place h q
due_at h waiting q = 2 * place h q
due_at h returned q = 2 * place h q

abbrev pub due : ℕ → Lane → ℕ
due h l = due_at h l.worker l.queue

-- Two sections for each queued item, and one for an item that the worker executes.
abbrev pub load : Lane → ℕ
load l = 2 * length l.queue + works l.worker

-- One for a call that is a section which the worker of a lane is at, 0 for another.
abbrev pub turn : Bool → Call → Dispatcher → ℕ
turn b starts d = 0
turn b stops d = 0
turn b joins d = 0
turn b (submits inputs c now) d = 0
turn b (collects h) d = 0
turn b (sweeps cutoff) d = 0
turn b (picks c) d = if is_lane b c then waits (lane c d).worker else 0
turn b (completes c) d = if is_lane b c then works (lane c d).worker else 0

-- Whether a call leaves an entry of a time in the map until it is ready: it is not Stop, and no sweep of
-- the entries before a later time.
abbrev pub spares : ℕ → Call → Bool
spares time starts = true
spares time stops = false
spares time joins = true
spares time (submits inputs c now) = true
spares time (collects h) = true
spares time (sweeps cutoff) = not (ltb time cutoff)
spares time (picks c) = true
spares time (completes c) = true

unfoldable pub all_spare : ℕ → List Call → Bool
all_spare time [] = true
all_spare time (c ∷ cs) = spares time c && all_spare time cs

module _ (execute : List Input → Bool → Result) where
  -- How many sections the worker of a lane goes through in a sequence of calls.
  unfoldable pub turns : Bool → List Call → Dispatcher → ℕ
  turns b [] d = 0
  turns b (c ∷ cs) d = turn b c d + turns b cs (step execute c d)

  -- At some point of a sequence of calls, the entry of a handle is in a lane and is ready.
  pub data BecomesReady (h : ℕ) (b : Bool) : List Call → Dispatcher → Type 0 where
    here :
        {cs : List Call} {d : Dispatcher} (q : Pending)
        → find h d.pending ≡ some q
        → q.decode_lane ≡ b
        → q.ready ≡ true
        → BecomesReady h b cs d
    later :
        {c : Call} {cs : List Call} {d : Dispatcher}
        → BecomesReady h b cs (step execute c d)
        → BecomesReady h b (c ∷ cs) d

place-length : (h : ℕ) (q : List Item) → place h q ≤ length q
unfolding place
place-length h [] = omega arith
place-length h (i ∷ q) = ground (arith, place-length h q)

pub due-load : (h : ℕ) (l : Lane) → due h l ≤ load l
due-load h l = go l.worker
  where
    go : (w : Worker) → due_at h w l.queue ≤ 2 * length l.queue + works w
    go waiting = omega (arith, place-length h l.queue)
    go returned = omega (arith, place-length h l.queue)
    go (executing i) = ground (arith, place-length h l.queue)

queued-place : (h : ℕ) (q : List Item) → queued h q ≡ true → 1 ≤ place h q
unfolding queued place
queued-place h [] e = cc
queued-place h (i ∷ q) e = ground (arith, e, queued-place h q)

-- An item that a lane holds is due.
pub holds-due : (h : ℕ) (l : Lane) → holds h l ≡ true → 1 ≤ due h l
holds-due h l = go l.worker
  where
    go : (w : Worker) → (executes h w || queued h l.queue) ≡ true → 1 ≤ due_at h w l.queue
    go waiting e = omega (arith, queued-place h l.queue e)
    go returned e = omega (arith, queued-place h l.queue e)
    go (executing i) e = ground arith

place-append : (h : ℕ) (q r : List Item) → queued h q ≡ true → place h (q ++ r) ≡ place h q
unfolding queued place
place-append h [] r e = cc
place-append h (i ∷ q) r e = ground (arith, e, place-append h q r)

-- An item that comes to the end of the queue does not delay those that the lane holds.
pub due-append :
    (h : ℕ) (w : Worker) (q r : List Item)
    → (executes h w || queued h q) ≡ true
    → due_at h w (q ++ r) ≡ due_at h w q
due-append h waiting q r e = omega (arith, place-append h q r e)
due-append h returned q r e = omega (arith, place-append h q r e)
due-append h (executing i) q r e = ground (arith, place-append h q r)

-- To take an item, or to drop one that has no entry, brings each item with an entry nearer.
pub next_item-due :
    (h : ℕ) (p : Pending) (es : List (ℕ × Pending)) (q : List Item)
    → find h es ≡ some p
    → due_at h
        (elim (next_item es q).0 [ none ↦ waiting | some i ↦ executing i ])
        (next_item es q).1
      ≤ 2 * place h q - 1
unfolding next_item place
next_item-due h p es [] f = omega arith
next_item-due h p es (i ∷ q) f = elim (Option-cases (find i.handle es)) [
  | inr (p', g) ↦ rw (g, next_item) (ground arith)
  | inl g ↦
      rw (g, next_item)
        (elim (Bool-cases (i.handle == h)) [
          | inr other ↦ rw other (omega (arith, next_item-due h p es q f))
          | inl same ↦
              let k : i.handle ≡ h = ground (arith, same) in
              cc (subst (λ j. find j es ≡ none) k g, f)
        ])
]

pub is_lane-eq : (b c : Bool) → is_lane b c ≡ true → b ≡ c
is_lane-eq true true e = refl
is_lane-eq true false e = cc
is_lane-eq false true e = cc
is_lane-eq false false e = refl

-- What another lane leaves of the sections that are due.
pub due-set_lane :
    (h s : ℕ) (b c : Bool) (l : Lane) (d : Dispatcher)
    → (is_lane b c ≡ true → due h l ≤ due h (lane c d) - s)
    → due h (lane b (set_lane c l d)) ≤ due h (lane b d) - (if is_lane b c then s else 0)
due-set_lane h s true true l d e = e refl
due-set_lane h s true false l d e = omega arith
due-set_lane h s false true l d e = omega arith
due-set_lane h s false false l d e = e refl

pub lane_past :
    (b : Bool) (es : List (ℕ × Pending)) (n : ℕ) (d : Dispatcher)
    → lane b (record d { pending = es; next_handle = n }) ≡ lane b d
lane_past true es n d = refl
lane_past false es n d = refl
