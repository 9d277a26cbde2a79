-- ===== src/Fairness/Preempt.antt =====
-- When `Evaluate` swaps two requests, and which.
use inferflux.Prelude.{
  ℕ, zero, suc, ◌+◌, ◌≡◌, refl, true, false, Option, none, some, List, [], ◌∷◌, if◌then◌else◌,
  arith, get_elem?, inl, inr, Bool-cases,
}
use inferflux.Prelude.Int.{leb_ℤ, ltb_ℤ, ◌≤ℤ◌}
use inferflux.Prelude.Scan.{From, From-cons, From-get_elem?}
use inferflux.Fairness.Defs.{
  Config, Entry, Decision, no_swap, max_loop, max_element, min_loop, min_element, evaluate_batch,
  evaluate,
}

-- Some entry's priority, or else each one's, lies below or above that of an entry that a search found.
pub record Largest (es : List Entry) (best : Entry) : Type 0 where
  pub no_larger :
      (n : ℕ) (e : Entry) → get_elem? es n ≡ some e → e.priority_level ≤ℤ best.priority_level

pub record Smallest (es : List Entry) (best : Entry) : Type 0 where
  pub no_smaller :
      (n : ℕ) (e : Entry) → get_elem? es n ≡ some e → best.priority_level ≤ℤ e.priority_level

max_loop-start :
    (es : List Entry) (j : ℕ) (best : Entry) (i : ℕ)
    → best.priority_level ≤ℤ (max_loop j best i es).1.priority_level
unfolding max_loop
max_loop-start [] j best i = omega arith
max_loop-start (e ∷ es) j best i =
    ground (arith, max_loop-start es i e (i + 1), max_loop-start es j best (i + 1))

max_loop-all :
    (es : List Entry) (j : ℕ) (best : Entry) (i n : ℕ) (e : Entry)
    → get_elem? es n ≡ some e
    → e.priority_level ≤ℤ (max_loop j best i es).1.priority_level
unfolding max_loop
max_loop-all [] j best i n e g = cc
max_loop-all (x ∷ es) j best i zero e g =
    let same : x.priority_level ≡ e.priority_level = ground arith in
    ground (arith, same, max_loop-start es i x (i + 1), max_loop-start es j best (i + 1))
max_loop-all (x ∷ es) j best i (suc n) e g = max_loop-all es _ _ (i + 1) n e g

max_loop-From :
    (es : List Entry) (j : ℕ) (best : Entry) (i : ℕ) → From es j best i (max_loop j best i es)
unfolding max_loop
max_loop-From [] j best i = inl refl
max_loop-From (x ∷ es) j best i = From-cons es j best i x _ _ (max_loop-From es _ _ (i + 1))

min_loop-start :
    (es : List Entry) (j : ℕ) (best : Entry) (i : ℕ)
    → (min_loop j best i es).1.priority_level ≤ℤ best.priority_level
unfolding min_loop
min_loop-start [] j best i = omega arith
min_loop-start (e ∷ es) j best i =
    ground (arith, min_loop-start es i e (i + 1), min_loop-start es j best (i + 1))

min_loop-all :
    (es : List Entry) (j : ℕ) (best : Entry) (i n : ℕ) (e : Entry)
    → get_elem? es n ≡ some e
    → (min_loop j best i es).1.priority_level ≤ℤ e.priority_level
unfolding min_loop
min_loop-all [] j best i n e g = cc
min_loop-all (x ∷ es) j best i zero e g =
    let same : x.priority_level ≡ e.priority_level = ground arith in
    ground (arith, same, min_loop-start es i x (i + 1), min_loop-start es j best (i + 1))
min_loop-all (x ∷ es) j best i (suc n) e g = min_loop-all es _ _ (i + 1) n e g

min_loop-From :
    (es : List Entry) (j : ℕ) (best : Entry) (i : ℕ) → From es j best i (min_loop j best i es)
unfolding min_loop
min_loop-From [] j best i = inl refl
min_loop-From (x ∷ es) j best i = From-cons es j best i x _ _ (min_loop-From es _ _ (i + 1))

-- What a search of a list finds, by a record of what is so of the entry.
data Finds (P : List Entry → Entry → Type 0) (es : List Entry) : Option (ℕ × Entry) → Type 0 where
  nothing : es ≡ [] → Finds P es none
  found : (k : ℕ) (e : Entry) → get_elem? es k ≡ some e → P es e → Finds P es (some (k, e))

max_element-Finds : (es : List Entry) → Finds Largest es (max_element es)
unfolding max_element
max_element-Finds [] = nothing refl
max_element-Finds (x ∷ es) =
    let r = max_loop 0 x 1 es in
    found r.0 r.1 (From-get_elem? x es r (max_loop-From es 0 x 1)) (record { no_larger = all })
  where
    all :
        (n : ℕ) (e : Entry)
        → get_elem? (x ∷ es) n ≡ some e
        → e.priority_level ≤ℤ (max_loop 0 x 1 es).1.priority_level
    all zero e g =
        let same : x.priority_level ≡ e.priority_level = ground arith in
        ground (arith, same, max_loop-start es 0 x 1)
    all (suc n) e g = max_loop-all es 0 x 1 n e g

min_element-Finds : (es : List Entry) → Finds Smallest es (min_element es)
unfolding min_element
min_element-Finds [] = nothing refl
min_element-Finds (x ∷ es) =
    let r = min_loop 0 x 1 es in
    found r.0 r.1 (From-get_elem? x es r (min_loop-From es 0 x 1)) (record { no_smaller = all })
  where
    all :
        (n : ℕ) (e : Entry)
        → get_elem? (x ∷ es) n ≡ some e
        → (min_loop 0 x 1 es).1.priority_level ≤ℤ e.priority_level
    all zero e g =
        let same : x.priority_level ≡ e.priority_level = ground arith in
        ground (arith, same, min_loop-start es 0 x 1)
    all (suc n) e g = min_loop-all es 0 x 1 n e g

-- A queued entry that may take the place of one in the batch.
pub record Outranks (c : Config) (low high : Entry) : Type 0 where
  pub preempts : c.enable_preemption ≡ true
  pub is_high : c.high_priority_threshold ≤ℤ high.priority_level
  pub is_lower : ltb_ℤ low.priority_level high.priority_level ≡ true

-- What `Evaluate` may decide.
pub data Evaluates (c : Config) (batch queue : List Entry) : Decision → Type 0 where
  keeps :
      ((i j : ℕ) (low high : Entry)
        → get_elem? batch i ≡ some low
        → get_elem? queue j ≡ some high
        → ¬ Outranks c low high)
      → Evaluates c batch queue no_swap
  swaps :
      (i j : ℕ) (low high : Entry)
      → get_elem? batch i ≡ some low
      → get_elem? queue j ≡ some high
      → Outranks c low high
      → Smallest batch low
      → Largest queue high
      → Evaluates c batch queue (record { swap = true; batch_index = i; queue_index = j })

-- `Evaluate` decides for a swap exactly when it may make one: when preemption is on and some queued entry
-- with a priority no less than the threshold ranks above some entry of the batch. The entries that it then
-- names are a queued one of the highest priority and one of the batch of the lowest.
pub evaluate-Evaluates :
    (c : Config) (batch queue : List Entry) → Evaluates c batch queue (evaluate c batch queue)
unfolding evaluate evaluate_batch
evaluate-Evaluates c batch queue = elim (Bool-cases c.enable_preemption) [
  | inr off ↦ simp off (keeps (λ i j low high b q o. cc (off, o.preempts)))
  | inl on ↦ simp on (search_queue on (max_element queue) (max_element-Finds queue))
]
  where
    search_batch :
        c.enable_preemption ≡ true
        → (high_at : ℕ) (high : Entry) → ltb_ℤ high.priority_level c.high_priority_threshold ≡ false
        → get_elem? queue high_at ≡ some high
        → Largest queue high
        → (r : Option (ℕ × Entry)) → Finds Smallest batch r
        → Evaluates c batch queue (elim r [
          | none ↦ no_swap
          | some (low_at, low) ↦
              if leb_ℤ high.priority_level low.priority_level
              then no_swap
              else record { swap = true; batch_index = low_at; queue_index = high_at }
        ])
    search_batch on high_at high above q top _ (nothing e) =
        keeps (λ i j low high' b q' o. cc (e, b))
    search_batch on high_at high above q top _ (found low_at low b bottom) =
        elim (Bool-cases (leb_ℤ high.priority_level low.priority_level)) [
          | inl t ↦ rw t (
              keeps (λ i j low' high' b' q' o. absurd (
                ground (arith, o.is_lower, top.no_larger j high' q', bottom.no_smaller i low' b'))))
          | inr f ↦ rw f (
              swaps low_at high_at low high b q
                (record { preempts = on; is_high = ground arith; is_lower = ground arith }) bottom
                top)
        ]

    search_queue :
        c.enable_preemption ≡ true
        → (r : Option (ℕ × Entry)) → Finds Largest queue r
        → Evaluates c batch queue (elim r [
          | none ↦ no_swap
          | some (high_at, high) ↦
              if ltb_ℤ high.priority_level c.high_priority_threshold
              then no_swap
              else evaluate_batch batch high_at high
        ])
    search_queue on _ (nothing e) = keeps (λ i j low high b q o. cc (e, q))
    search_queue on _ (found high_at high q top) =
        elim (Bool-cases (ltb_ℤ high.priority_level c.high_priority_threshold)) [
          | inl t ↦ rw t (
              keeps (λ i j low' high' b' q' o.
                absurd (ground (arith, o.is_high, top.no_larger j high' q'))))
          | inr f ↦
              rw f
                (search_batch on high_at high f q top (min_element batch) (min_element-Finds batch))
        ]
