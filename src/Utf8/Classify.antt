-- ===== src/Utf8/Classify.antt =====
-- What the bytes that follow a lead byte do to the decision about it.
use inferflux.Prelude.{
  ℕ, zero, suc, ◌+◌, ◌-◌, ◌≤◌, ◌<◌, ◌≡◌, refl, ap, false, List, [], ◌∷◌, ◌++◌, arith, ltb, length,
  take, drop, length-append, Bool-cases, inl, inr, ◌⊎◌,
}
use inferflux.Utf8.Defs.{
  sequence_length, valid_tail, Action, copies, waits, classify, all_continuation,
  is_valid_second_byte,
}

-- How far a round goes.
abbrev pub FitsIn : ℕ → Action → Type 0
FitsIn n (copies k) = (0 < k) × (k ≤ n)
FitsIn n _ = Unit {0}

pub classify-FitsIn : (b : ℕ) (bs : List ℕ) → FitsIn (length bs + 1) (classify b bs)
unfolding classify
classify-FitsIn b bs = ground arith

-- More bytes change nothing, unless the round waits for them.
pub take-append : (k : ℕ) (xs ys : List ℕ) → k ≤ length xs → take k (xs ++ ys) ≡ take k xs
take-append zero xs ys h = refl
take-append (suc k) [] ys h = absurd (omega arith)
take-append (suc k) (x ∷ xs) ys h = ap (◌∷◌ x) (take-append k xs ys (omega arith))

pub drop-append : (k : ℕ) (xs ys : List ℕ) → k ≤ length xs → drop k (xs ++ ys) ≡ drop k xs ++ ys
drop-append zero xs ys h = refl
drop-append (suc k) [] ys h = absurd (omega arith)
drop-append (suc k) (x ∷ xs) ys h = drop-append k xs ys (omega arith)

all_continuation-append :
    (k : ℕ) (xs ys : List ℕ)
    → all_continuation (take k xs) ≡ false
    → all_continuation (take k (xs ++ ys)) ≡ false
unfolding all_continuation
all_continuation-append zero xs ys e = cc
all_continuation-append (suc k) [] ys e = cc
all_continuation-append (suc k) (x ∷ xs) ys e = ground (arith, all_continuation-append k xs ys)

valid_tail-append :
    (lead k : ℕ) (xs ys : List ℕ)
    → valid_tail lead (take k xs) ≡ false
    → valid_tail lead (take k (xs ++ ys)) ≡ false
unfolding valid_tail
valid_tail-append lead zero xs ys e = cc
valid_tail-append lead (suc k) [] ys e = cc
valid_tail-append lead (suc k) (x ∷ xs) ys e = elim (Bool-cases (is_valid_second_byte lead x)) [
  | inl v ↦ rw v (all_continuation-append k xs ys (rw v at e))
  | inr v ↦ rw v
]

pub classify-append :
    (b : ℕ) (bs ys : List ℕ) → (classify b bs ≡ waits) ⊎ (classify b (bs ++ ys) ≡ classify b bs)
unfolding classify
classify-append b bs ys =
    let n = sequence_length b in
    elim (Bool-cases (valid_tail b (take (n - 1) bs))) [
      | inl v ↦ elim (Bool-cases (ltb (length bs + 1) n)) [
        | inl short ↦ ground arith
        | inr long ↦
            let le : n - 1 ≤ length bs = ground arith in
            inr (rw (take-append (n - 1) bs ys le, v, long) (ground (arith, length-append bs ys)))
      ]
      | inr v ↦ inr (rw (v, valid_tail-append b (n - 1) bs ys v))
    ]
