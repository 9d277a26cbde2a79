-- ===== src/Speculative/Chunks.antt =====
-- The chunks of a draft, and how many of them `Validate` accepts.
use mathlib.Core.List.{append-nil, append_assoc}
use inferflux.Prelude.{
  ℕ, zero, suc, ◌+◌, ◌-◌, ◌≤◌, ◌<◌, ◌≡◌, refl, sym, ◌∙◌, ap, true, false, ◌&&◌, Option, List, [],
  ◌∷◌, ◌++◌, arith, ltb, if◌then◌else◌, length, take, drop, length-take, length-append, length-drop,
  Bool-cases, inl, inr, min, take-append-drop, take_all, ◌⊎◌,
}
use inferflux.Prelude.Int.{ℤ, pos, negsuc, leb_ℤ, ltb_ℤ}
use inferflux.Speculative.Defs.{
  Token, Chunk, Draft, Validation, Config, to_size, chunk_take, chunk_loop, chunk_walk, chunks_walk,
  no_tokens, check_draft, extend, reuse, accept, target_tokens, validate, make_draft, empty_draft,
  chunk_tokens, at_most, produced,
}
use inferflux.Speculative.Validate.{branch}

-- The chunks cover the positions from `a` to `b` in order, each with one to `size` tokens.
abbrev pub Tiles : ℕ → ℕ → ℕ → List Chunk → Type 0
Tiles size a b [] = a ≡ b
Tiles size a b (c ∷ cs) =
    (c.start ≡ a) × (c.start < c.end) × (c.end ≤ c.start + size) × Tiles size c.end b cs

Tiles-snoc :
    (size a b e : ℕ) (cs : List Chunk)
    → Tiles size a b cs
    → b < e
    → e ≤ b + size
    → Tiles size a e (cs ++ record { start = b; end = e } ∷ [])
Tiles-snoc size a b e [] t lt le = (sym t, lt, le, refl)
Tiles-snoc size a b e (c ∷ cs) t lt le = (t.0, t.1, t.2, Tiles-snoc size c.end b e cs t.3 lt le)

chunk_take_lem :
    (rounds cursor size : ℕ)
    → cursor ≤ size
    → chunk_take rounds cursor size ≡ min (cursor + rounds) size
unfolding chunk_take
chunk_take_lem zero cursor size h = omega arith
chunk_take_lem (suc rounds) cursor size h = elim (Bool-cases (ltb cursor size)) [
  | inl e ↦
      let lt : cursor + 1 ≤ size = ground arith in
      rw e (omega (arith, chunk_take_lem rounds (cursor + 1) size lt))
  | inr e ↦ rw e (ground arith)
]

pub record Chunked (size : ℕ) (tokens : List Token) (d : Draft) : Type 0 where
  pub kept : d.completion_tokens ≡ tokens
  pub tiled : Tiles size 0 (length tokens) d.chunks

chunk_loop-Chunked :
    (fuel size : ℕ) (out rest : List Token) (cs : List Chunk)
    → length rest ≤ fuel
    → 0 < size
    → Tiles size 0 (length out) cs
    → Chunked size (out ++ rest) (chunk_loop fuel size out rest cs)
unfolding chunk_loop
chunk_loop-Chunked zero size out [] cs le pos_size t = record {
  kept = sym (append-nil out);
  tiled = rw (append-nil out) t;
}
chunk_loop-Chunked zero size out (x ∷ xs) cs le pos_size t = absurd (omega arith)
chunk_loop-Chunked (suc fuel) size out [] cs le pos_size t = record {
  kept = sym (append-nil out);
  tiled = rw (append-nil out) t;
}
chunk_loop-Chunked (suc fuel) size out (x ∷ xs) cs le pos_size t =
    let rest = x ∷ xs in
    let n = chunk_take size 0 (length rest) in
    let e : n ≡ min size (length rest) = omega (arith, chunk_take_lem size 0 (length rest)) in
    let grown : length (out ++ take n rest) ≡ length out + n =
      omega (arith, length-append out (take n rest), length-take n rest) in
    let left : length (drop n rest) ≤ fuel = omega (arith, length-drop n rest) in
    let ih = chunk_loop-Chunked fuel size (out ++ take n rest) (drop n rest) _ left pos_size (
      Tiles-snoc size 0 (length out) (length (out ++ take n rest)) cs t (omega arith)
        (omega arith)) in
    let whole : (out ++ take n rest) ++ drop n rest ≡ out ++ rest =
      append_assoc out (take n rest) (drop n rest) ∙ ap (◌++◌ out) (take-append-drop n rest) in
    rw whole at ih

chunk_tokens-pos : (c : Config) → 0 < chunk_tokens c
unfolding chunk_tokens
chunk_tokens-pos c = go c.chunk_size
  where
    go : (z : ℤ) → 0 < (if ltb_ℤ z (pos 1) then 1 else to_size z)
    go (pos n) = ground arith
    go (negsuc n) = ground arith

at_most-take : (n : ℕ) (xs : List Token) → at_most n xs ≡ take n xs
unfolding at_most
at_most-take n xs = elim (Bool-cases (ltb n (length xs))) [
  | inl e ↦ rw e
  | inr e ↦ let le : length xs ≤ n = ground arith in rw e (sym (take_all n xs le))
]

positive : (z : ℤ) → 0 < to_size z → leb_ℤ z (pos 0) ≡ false
positive (pos n) lt = ground arith
positive (negsuc n) lt = absurd (omega arith)

not_positive : (z : ℤ) → to_size z ≡ 0 → leb_ℤ z (pos 0) ≡ true
not_positive (pos n) e = ground arith
not_positive (negsuc n) e = ground arith

-- `Draft`, when it is enabled and `max_new_tokens` is positive, returns the first `max_new_tokens`
-- of the produced tokens, and chunks that cover them in order with no gap, each of at least one and
-- at most `chunk_size` tokens (1 if `chunk_size` is not positive). Otherwise the draft is empty.
pub make_draft-Chunked :
    (c : Config) (generated : Option (List Token → List Token)) (greedy : List Token → List Token)
    (prompt : List Token) (max_new : ℤ)
    → let d = make_draft c generated greedy prompt max_new in
      let drafts = c.enabled && ltb 0 (to_size max_new) in
      ((drafts ≡ true)
        × Chunked (chunk_tokens c) (take (to_size max_new) (produced c generated greedy prompt)) d)
      ⊎ ((drafts ≡ false) × (d ≡ empty_draft))
unfolding make_draft
make_draft-Chunked c generated greedy prompt max_new = elim (Bool-cases c.enabled) [
  | inr off ↦ inr (ground arith, rw off)
  | inl on ↦ (elim (Bool-cases (ltb 0 (to_size max_new))) [
    | inr zero_asked ↦ inr (ground arith, rw (not_positive max_new (ground arith)) (ground arith))
    | inl asked ↦
        let f : leb_ℤ max_new (pos 0) ≡ false = positive max_new (ground arith) in
        inl (
          ground arith,
          simp (on, f, at_most-take (to_size max_new) (produced c generated greedy prompt))
              (chunk_loop-Chunked _ (chunk_tokens c) [] _ [] (omega arith) (chunk_tokens-pos c)
                refl),
        )
  ])
]

-- What a walk over the chunks adds to the counters.
record Counted (r r' : Validation) (n : ℕ) : Type 0 where
  same_total : r'.total_chunks ≡ r.total_chunks
  accepted : r'.accepted_chunks ≤ r.accepted_chunks + n
  reused :
      r'.reused_tokens + length r.completion_tokens ≡ r.reused_tokens + length r'.completion_tokens

Counted-trans :
    (r s t : Validation) (n : ℕ)
    → s.total_chunks ≡ r.total_chunks
    → s.accepted_chunks ≤ r.accepted_chunks + 1
    → s.reused_tokens + length r.completion_tokens ≡ r.reused_tokens + length s.completion_tokens
    → Counted s t n
    → Counted r t (suc n)
Counted-trans r s t n a b c q = record {
  same_total = q.same_total ∙ a;
  accepted = omega (arith, q.accepted);
  reused = omega (arith, q.reused);
}

chunks_walk-Counted :
    (cs : List Chunk) (draft target : List Token) (limit : ℕ) (r : Validation) (i : ℕ)
    → Counted r (chunks_walk cs draft target limit r i).0 (length cs)
unfolding chunks_walk
chunks_walk-Counted [] draft target limit r i = record {
  same_total = refl;
  accepted = omega arith;
  reused = refl;
}
chunks_walk-Counted (c ∷ cs) draft target limit r i =
    let (taken, i', all_ok) =
      chunk_walk (c.end - c.start) draft target limit (length r.completion_tokens) c.start [] i in
    let grown = length-append r.completion_tokens taken in
    branch (λ (o : Validation × ℕ). Counted r o.0 (length (c ∷ cs))) _ _ _ (r, i) (r, i') _
      (reuse taken r, i') (record { same_total = refl; accepted = omega arith; reused = refl })
      (λ e. record { same_total = refl; accepted = omega arith; reused = refl })
      (Counted-trans r (accept (reuse taken r)) _ (length cs) refl (omega arith)
        (omega (arith, grown)) (chunks_walk-Counted cs draft target limit _ i'))
      (record { same_total = refl; accepted = omega arith; reused = omega (arith, grown) })

length-le-extend : (limit : ℕ) (rest out : List Token) → length out ≤ length (extend rest limit out)
unfolding extend
length-le-extend limit [] out = omega arith
length-le-extend limit (t ∷ ts) out =
    ground (arith, length-le-extend limit ts (out ++ t ∷ []), length-append out (t ∷ []))

check_draft_metrics :
    (d : Draft) (limit : ℕ) (target : List Token)
    → let r = check_draft d limit target in
      (r.total_chunks ≡ length d.chunks)
      × (r.accepted_chunks ≤ r.total_chunks)
      × (r.reused_tokens ≤ length r.completion_tokens)
unfolding check_draft
check_draft_metrics d limit [] = (refl, omega arith, omega arith)
check_draft_metrics d limit (t ∷ ts) =
    let (r, i) = chunks_walk d.chunks d.completion_tokens (t ∷ ts) limit (no_tokens d) 0 in
    let q : Counted (no_tokens d) r (length d.chunks) =
      chunks_walk-Counted d.chunks d.completion_tokens (t ∷ ts) limit (no_tokens d) 0 in
    (
      q.same_total,
      omega (arith, q.same_total, q.accepted),
      omega (arith, q.reused, length-le-extend limit (drop i (t ∷ ts)) r.completion_tokens),
    )

-- The metrics of `Validate`: it counts all chunks of the draft, accepts no more than these, and
-- reuses no more draft tokens than the completion has.
pub validate_metrics :
    (overridden generated : Option (List Token)) (d : Draft) (max_new : ℤ)
    → let r = validate overridden generated d max_new in
      (r.total_chunks ≡ length d.chunks)
      × (r.accepted_chunks ≤ r.total_chunks)
      × (r.reused_tokens ≤ length r.completion_tokens)
unfolding validate
validate_metrics overridden generated d max_new = elim (Bool-cases (leb_ℤ max_new (pos 0))) [
  | inl e ↦ rw e (refl, omega arith, omega arith)
  | inr e ↦ rw e (check_draft_metrics d (to_size max_new) (target_tokens overridden generated d))
]
