-- ===== src/Speculative/Validate.antt =====
-- What `Validate` returns.
use mathlib.Core.List.{append-nil, append_assoc}
use inferflux.Prelude.{
  ℕ, zero, suc, ◌+◌, ◌-◌, ◌≤◌, ◌<◌, ◌≡◌, refl, sym, ◌∙◌, ap, Bool, true, false, Option, none, some,
  List, [], ◌∷◌, ◌++◌, arith, ltb, leb, if◌then◌else◌, get_elem?, length, take, drop, length-take,
  length-append, Option-cases, Bool-cases, inl, inr, ==_iff, take-nil, take-cons, take-take-drop,
}
use inferflux.Prelude.Int.{ℤ, pos, negsuc}
use inferflux.Speculative.Defs.{
  Token, Chunk, Draft, Validation, to_size, match_token, chunk_walk, chunks_walk, extend,
  target_tokens, no_tokens, check_draft, validate,
}

take-suc :
    (xs : List Token) (i : ℕ) (t : Token)
    → get_elem? xs i ≡ some t
    → (take i xs ++ t ∷ [] ≡ take (suc i) xs) × (i < length xs)
take-suc [] i t e = cc
take-suc (x ∷ xs) zero t e = (ground arith, omega arith)
take-suc (x ∷ xs) (suc i) t e = let (p, q) = take-suc xs i t e in (ap (◌∷◌ x) p, omega arith)

-- The tokens accepted so far are the first ones of the target, no more than the limit.
record IsPrefix (target : List Token) (limit : ℕ) (out : List Token) (target_index : ℕ)
    : Type 0 where
  tokens : out ≡ take target_index target
  inside : target_index ≤ length target
  below : target_index ≤ limit

length-out :
    (target : List Token) (limit : ℕ) (out : List Token) (i : ℕ)
    → IsPrefix target limit out i
    → length out ≡ i
length-out target limit out i p = omega (arith, ap length p.tokens, length-take i target, p.inside)

match_token-some :
    (a b : Option Token) (d : Token) → match_token a b ≡ some d → (a ≡ some d) × (b ≡ some d)
unfolding match_token
match_token-some none b d e = cc
match_token-some (some x) none d e = cc
match_token-some (some x) (some y) d e = ground arith

IsPrefix-snoc :
    (target : List Token) (limit : ℕ) (base taken : List Token) (i : ℕ) (d : Token)
    → IsPrefix target limit (base ++ taken) i
    → get_elem? target i ≡ some d
    → i < limit
    → IsPrefix target limit (base ++ (taken ++ d ∷ [])) (i + 1)
IsPrefix-snoc target limit base taken i d p e lt = record {
  tokens =
      sym (append_assoc base taken (d ∷ []))
      ∙ ap (λ xs. xs ++ d ∷ []) p.tokens
      ∙ (take-suc target i d e).0
      ∙ ap (λ k. take k target) (let e : suc i ≡ i + 1 = omega arith in e);
  inside = omega (arith, (take-suc target i d e).1);
  below = omega arith;
}

below_limit :
    (target : List Token) (limit : ℕ) (base taken : List Token) (i : ℕ)
    → IsPrefix target limit (base ++ taken) i
    → leb limit (length base + length taken) ≡ false
    → i < limit
below_limit target limit base taken i p room =
    ground (arith, length-out target limit (base ++ taken) i p, length-append base taken)

chunk_walk-IsPrefix :
    (rounds : ℕ) (draft target : List Token) (limit : ℕ) (base : List Token) (idx : ℕ)
    (taken : List Token) (i : ℕ)
    → IsPrefix target limit (base ++ taken) i
    → let (taken', i', all_ok) = chunk_walk rounds draft target limit (length base) idx taken i in
      IsPrefix target limit (base ++ taken') i'
unfolding chunk_walk
chunk_walk-IsPrefix zero draft target limit base idx taken i p = p
chunk_walk-IsPrefix (suc rounds) draft target limit base idx taken i p =
    elim (Bool-cases (leb limit (length base + length taken))) [
      | inl full ↦ rw full p
      | inr room ↦ elim (Option-cases (match_token (get_elem? draft idx) (get_elem? target i))) [
        | inl e ↦ rw (room, e, chunk_walk) p
        | inr (d, e) ↦
            rw (room, e, chunk_walk)
              (chunk_walk-IsPrefix rounds draft target limit base (idx + 1) (taken ++ d ∷ [])
                (i + 1)
                (IsPrefix-snoc target limit base taken i d p
                  (match_token-some (get_elem? draft idx) (get_elem? target i) d e).1
                  (below_limit target limit base taken i p room)))
      ]
    ]

-- The four ways out of the loop body.
pub branch {ℓ κ} :
    {A : Type ℓ} (P : A → Type κ) (full empty_chunk complete : Bool) (x y z w : A)
    → P x
    → (empty_chunk ≡ true → P y)
    → P z
    → P w
    → P (if full then x else if empty_chunk then y else if complete then z else w)
branch P true b c x y z w p q r s = p
branch P false true c x y z w p q r s = q refl
branch P false false true x y z w p q r s = r
branch P false false false x y z w p q r s = s

none_taken :
    (target : List Token) (limit : ℕ) (base taken : List Token) (i : ℕ)
    → IsPrefix target limit (base ++ taken) i
    → length taken ≡ 0
    → IsPrefix target limit base i
none_taken target limit base [] i p e = record {
  tokens = sym (append-nil base) ∙ p.tokens;
  inside = p.inside;
  below = p.below;
}
none_taken target limit base (t ∷ ts) i p e = absurd (omega arith)

chunks_walk-IsPrefix :
    (cs : List Chunk) (draft target : List Token) (limit : ℕ) (r : Validation) (i : ℕ)
    → IsPrefix target limit r.completion_tokens i
    → let (r', i') = chunks_walk cs draft target limit r i in
      IsPrefix target limit r'.completion_tokens i'
unfolding chunks_walk
chunks_walk-IsPrefix [] draft target limit r i p = p
chunks_walk-IsPrefix (c ∷ cs) draft target limit r i p =
    let base = r.completion_tokens in
    let (taken, i', all_ok) =
      chunk_walk (c.end - c.start) draft target limit (length base) c.start [] i in
    let q : IsPrefix target limit (base ++ taken) i' =
      chunk_walk-IsPrefix (c.end - c.start) draft target limit base c.start [] i
        (record { tokens = append-nil base ∙ p.tokens; inside = p.inside; below = p.below }) in
    branch (λ (o : Validation × ℕ). IsPrefix target limit o.0.completion_tokens o.1) _ _ _ _ _ _ _ p
      (λ e. none_taken target limit base taken i' q ((==_iff _ _).0 e))
      (chunks_walk-IsPrefix cs draft target limit _ i' q) q

extend_lem :
    (limit : ℕ) (rest out : List Token)
    → extend rest limit out ≡ out ++ take (limit - length out) rest
unfolding extend
extend_lem limit [] out = sym (append-nil out) ∙ ap (◌++◌ out) (sym (take-nil Token _))
extend_lem limit (t ∷ ts) out = elim (Bool-cases (ltb (length out) limit)) [
  | inl e ↦
      let left : limit - length (out ++ t ∷ []) ≡ limit - length out - 1 =
        omega (arith, length-append out (t ∷ [])) in
      rw e (
        extend_lem limit ts (out ++ t ∷ [])
        ∙ append_assoc out (t ∷ []) _
        ∙ ap (λ k. out ++ t ∷ take k ts) left
        ∙ ap (◌++◌ out) (sym (take-cons (limit - length out) t ts (ground arith))))
  | inr e ↦
      let full : 0 ≡ limit - length out = ground arith in
      rw e (sym (append-nil out) ∙ ap (λ k. out ++ take k (t ∷ ts)) full)
]

-- The completion of a validated draft.
check_draft-completion :
    (d : Draft) (limit : ℕ) (target : List Token)
    → (check_draft d limit target).completion_tokens ≡ take limit target
unfolding check_draft
check_draft-completion d limit [] = sym (take-nil Token limit)
check_draft-completion d limit (t ∷ ts) =
    let target = t ∷ ts in
    let (r, i) = chunks_walk d.chunks d.completion_tokens target limit (no_tokens d) 0 in
    let p : IsPrefix target limit r.completion_tokens i =
      chunks_walk-IsPrefix d.chunks d.completion_tokens target limit (no_tokens d) 0
        (record { tokens = refl; inside = omega arith; below = omega arith }) in
    let whole : i + (limit - length r.completion_tokens) ≡ limit =
      omega (arith, length-out target limit r.completion_tokens i p, p.below) in
    extend_lem limit (drop i target) r.completion_tokens
    ∙ ap (λ xs. xs ++ take (limit - length r.completion_tokens) (drop i target)) p.tokens
    ∙ take-take-drop i (limit - length r.completion_tokens) target
    ∙ ap (λ k. take k target) whole

validate_positive :
    (overridden generated : Option (List Token)) (d : Draft) (n : ℕ)
    → validate overridden generated d (pos (suc n))
      ≡ check_draft d (suc n) (target_tokens overridden generated d)
unfolding validate
validate_positive overridden generated d n = ground arith

-- Speculation never changes the output: whatever tokens and chunks the draft has, the completion of
-- `Validate` is the first `max_new_tokens` of the tokens of the override or else of the target
-- backend (and no tokens if `max_new_tokens` is not positive).
pub validate-completion :
    (overridden generated : Option (List Token)) (d : Draft) (max_new : ℤ)
    → (validate overridden generated d max_new).completion_tokens
      ≡ take (to_size max_new) (target_tokens overridden generated d)
unfolding validate
validate-completion overridden generated d (pos zero) = ground arith
validate-completion overridden generated d (pos (suc n)) =
    ap (λ (r : Validation). r.completion_tokens) (validate_positive overridden generated d n)
    ∙ check_draft-completion d (suc n) (target_tokens overridden generated d)
validate-completion overridden generated d (negsuc n) = ground arith
