-- ===== src/Lanes/Logged.antt =====
-- The log of what was submitted, and what the queues, the workers and the entries have to do with it.
use inferflux.Prelude.{
  ℕ, ◌==◌, ◌≤◌, ◌≡◌, ap, subst, Bool, true, false, Option, none, some, List, [], ◌∷◌, ◌++◌, ltb,
  if◌then◌else◌, arith, Bool-cases, Option-cases, inl, inr,
}
use inferflux.Lanes.Defs.{
  Input, Result, Item, Pending, Worker, returned, waiting, executing, Lane, Dispatcher, find, erase,
  update, is_none, submit, next_item, picked,
}
use inferflux.Lanes.Steps.{Call, submits, step}
use inferflux.Lanes.Entries.{young}

-- The item that was submitted under a handle.
unfoldable pub find_item : ℕ → List Item → Option Item
find_item h [] = none
find_item h (i ∷ is) = if i.handle == h then some i else find_item h is

abbrev unwrapped : Pending → Option Pending → Pending
unwrapped p none = p
unwrapped p (some q) = q

-- What a step submits.
abbrev pub submitted : Call → Dispatcher → List Item
submitted (submits inputs b now) d =
    if (submit inputs b now d).1 == 0
    then []
    else record { handle = (submit inputs b now d).1; decode_lane = b; inputs = inputs } ∷ []
submitted _ d = []

module _ (execute : List Input → Bool → Result) where
  -- The items submitted in the course of some steps, the last ones first, before some earlier ones.
  unfoldable pub history : List Call → Dispatcher → List Item → List Item
  history [] d log = log
  history (c ∷ cs) d log = history cs (step execute c d) (submitted c d ++ log)

  -- An entry is that of the item submitted under its handle, and if it is ready it has its result.
  pub record Explains (log : List Item) (h : ℕ) (p : Pending) : Type 0 where
    pub item : Item
    pub logged : find_item h log ≡ some item
    pub same_lane : p.decode_lane ≡ item.decode_lane
    pub result : p.ready ≡ true → p.result ≡ execute item.inputs item.decode_lane

  unfoldable pub AreExplained : List Item → List (ℕ × Pending) → Type 0
  AreExplained log [] = Unit {0}
  AreExplained log (e ∷ es) = Explains log e.0 e.1 × AreExplained log es

  abbrev pub IsLogged : List Item → Bool → Item → Type 0
  IsLogged log b i = (find_item i.handle log ≡ some i) × (i.decode_lane ≡ b)

  unfoldable pub AreLogged : List Item → Bool → List Item → Type 0
  AreLogged log b [] = Unit {0}
  AreLogged log b (i ∷ is) = IsLogged log b i × AreLogged log b is

  abbrev WorksOn : List Item → Bool → Worker → Type 0
  WorksOn log b (executing i) = IsLogged log b i
  WorksOn log b waiting = Unit {0}
  WorksOn log b returned = Unit {0}

  pub record LaneLogged (log : List Item) (b : Bool) (l : Lane) : Type 0 where
    pub queue : AreLogged log b l.queue
    pub worker : WorksOn log b l.worker

  pub record IsFaithful (log : List Item) (d : Dispatcher) : Type 0 where
    pub fresh : (m : ℕ) → d.next_handle ≤ m → find_item m log ≡ none
    pub decode : LaneLogged log true d.decode
    pub prefill : LaneLogged log false d.prefill
    pub entries : AreExplained log d.pending

  pub find-Explains :
      (log : List Item) (h : ℕ) (p : Pending) (es : List (ℕ × Pending))
      → AreExplained log es
      → find h es ≡ some p
      → Explains log h p
  unfolding AreExplained find
  find-Explains log h p [] s e = cc
  find-Explains log h p (x ∷ es) (y, s) e = elim (Bool-cases (x.0 == h)) [
    | inl same ↦
        let k : x.0 ≡ h = ground (arith, same) in
        let q : some x.1 ≡ some p = rw same at e in
        subst (λ k'. Explains log k' p) k (subst (Explains log x.0) (ap (unwrapped p) q) y)
    | inr other ↦ find-Explains log h p es s (rw other at e)
  ]

  pub erase-AreExplained :
      (log : List Item) (h : ℕ) (es : List (ℕ × Pending))
      → AreExplained log es
      → AreExplained log (erase h es)
  unfolding AreExplained erase
  erase-AreExplained log h [] s = s
  erase-AreExplained log h (x ∷ es) (y, s) = elim (Bool-cases (x.0 == h)) [
    | inl same ↦ rw same s
    | inr other ↦ rw other (y, erase-AreExplained log h es s)
  ]

  pub young-AreExplained :
      (log : List Item) (cutoff : ℕ) (es : List (ℕ × Pending))
      → AreExplained log es
      → AreExplained log (young cutoff es)
  unfolding AreExplained young
  young-AreExplained log cutoff [] s = s
  young-AreExplained log cutoff (x ∷ es) (y, s) = elim (Bool-cases (ltb x.1.enqueued_at cutoff)) [
    | inl old ↦ rw old (young-AreExplained log cutoff es s)
    | inr recent ↦ rw recent (y, young-AreExplained log cutoff es s)
  ]

  pub update-AreExplained :
      (log : List Item) (h : ℕ) (p : Pending) (es : List (ℕ × Pending))
      → Explains log h p
      → AreExplained log es
      → AreExplained log (update h p es)
  unfolding AreExplained update
  update-AreExplained log h p [] x s = s
  update-AreExplained log h p (e ∷ es) x (y, s) = elim (Bool-cases (e.0 == h)) [
    | inl same ↦ rw same (x, s)
    | inr other ↦ rw other (y, update-AreExplained log h p es x s)
  ]

  next_item-AreLogged :
      (log : List Item) (b : Bool) (es : List (ℕ × Pending)) (q : List Item)
      → AreLogged log b q
      → AreLogged log b (next_item es q).1
        × WorksOn log b (elim (next_item es q).0 [ none ↦ waiting | some i ↦ executing i ])
  unfolding AreLogged next_item
  next_item-AreLogged log b es [] s = (tt, tt)
  next_item-AreLogged log b es (i ∷ q) (x, s) = elim (Option-cases (find i.handle es)) [
    | inl e ↦ rw (e, next_item) (next_item-AreLogged log b es q s)
    | inr (p, e) ↦ rw (e, next_item) (s, x)
  ]

  pub picked-LaneLogged :
      (log : List Item) (b : Bool) (d : Dispatcher) (l : Lane)
      → LaneLogged log b l
      → LaneLogged log b (picked d l)
  unfolding AreLogged
  picked-LaneLogged log b d l s = elim (Bool-cases (is_none l.queue)) [
    | inr some_items ↦ rw some_items (
        let r = next_item-AreLogged log b d.pending l.queue s.queue in
        record { queue = r.0; worker = r.1 })
    | inl no_items ↦ rw no_items (elim (Bool-cases d.stopping) [
      | inl ends ↦ simp ends (record { queue = s.queue; worker = tt })
      | inr waits ↦ simp waits s
    ])
  ]

  -- The log with one more item, under a handle that is not in it.
  module _ (log : List Item) (item : Item) (unused : find_item item.handle log ≡ none) where
    find_item_grown :
        (h : ℕ) (i : Item) → find_item h log ≡ some i → find_item h (item ∷ log) ≡ some i
    unfolding find_item
    find_item_grown h i e = elim (Bool-cases (item.handle == h)) [
      | inr other ↦ rw other e
      | inl same ↦ let k : item.handle ≡ h = ground (arith, same) in cc (k, unused, e)
    ]

    pub AreExplained-grown :
        (es : List (ℕ × Pending)) → AreExplained log es → AreExplained (item ∷ log) es
    unfolding AreExplained
    AreExplained-grown [] s = s
    AreExplained-grown (e ∷ es) (y, s) = (
      record {
        item = y.item;
        logged = find_item_grown e.0 y.item y.logged;
        same_lane = y.same_lane;
        result = y.result;
      },
      AreExplained-grown es s,
    )

    AreLogged-grown : (b : Bool) (q : List Item) → AreLogged log b q → AreLogged (item ∷ log) b q
    unfolding AreLogged
    AreLogged-grown b [] s = s
    AreLogged-grown b (i ∷ q) ((e, c), s) =
        ((find_item_grown i.handle i e, c), AreLogged-grown b q s)

    WorksOn-grown : (b : Bool) (w : Worker) → WorksOn log b w → WorksOn (item ∷ log) b w
    WorksOn-grown b returned s = s
    WorksOn-grown b waiting s = s
    WorksOn-grown b (executing i) (e, c) = (find_item_grown i.handle i e, c)

    pub LaneLogged-grown : (b : Bool) (l : Lane) → LaneLogged log b l → LaneLogged (item ∷ log) b l
    LaneLogged-grown b l s = record {
      queue = AreLogged-grown b l.queue s.queue;
      worker = WorksOn-grown b l.worker s.worker;
    }

  pub AreLogged-append :
      (log : List Item) (b : Bool) (q : List Item) (i : Item)
      → AreLogged log b q
      → IsLogged log b i
      → AreLogged log b (q ++ i ∷ [])
  unfolding AreLogged
  AreLogged-append log b [] i s x = (x, tt)
  AreLogged-append log b (j ∷ q) i (y, s) x = (y, AreLogged-append log b q i s x)
