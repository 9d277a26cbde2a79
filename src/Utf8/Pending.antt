-- ===== src/Utf8/Pending.antt =====
-- The bytes that the assembler holds back.
use inferflux.Prelude.{
  ℕ, zero, suc, ◌+◌, ◌≤◌, ◌≡◌, refl, Bool, true, false, List, [], ◌∷◌, ◌++◌, arith, if◌then◌else◌,
  length, drop, length-drop,
}
use inferflux.Utf8.Defs.{
  sequence_length, Action, copies, replaces, waits, classify, Assembly, consume, append, finish,
  perform,
}
use inferflux.Utf8.Classify.{FitsIn, classify-FitsIn}

waits-short : (b : ℕ) (bs : List ℕ) → classify b bs ≡ waits → length bs + 1 ≤ 3
unfolding classify sequence_length
waits-short b bs e = ground arith

length_zero : (xs : List ℕ) → length xs ≤ 0 → xs ≡ []
length_zero [] h = refl
length_zero (x ∷ xs) h = absurd (omega arith)

-- `HasPendingBytes` behind `Append`: at most three bytes, those of one unfinished sequence, wait.
perform-pending :
    (a : Action) (f : List ℕ → ℕ → List ℕ → Assembly) (fin : Bool) (text : List ℕ) (n b : ℕ)
    (bs : List ℕ)
    → classify b bs ≡ a
    → ((text' : List ℕ) (n' : ℕ) (rest : List ℕ)
        → length rest ≤ length bs
        → length (f text' n' rest).pending ≤ (if fin then 0 else 3))
    → FitsIn (length bs + 1) a
    → length (perform a f fin text n (b ∷ bs)).pending ≤ (if fin then 0 else 3)
unfolding perform
perform-pending (copies k) f fin text n b bs e h fits =
    h _ n (drop k (b ∷ bs)) (omega (arith, length-drop k (b ∷ bs), fits))
perform-pending replaces f fin text n b bs e h fits = h _ (n + 1) bs (omega arith)
perform-pending waits f true text n b bs e h fits = omega arith
perform-pending waits f false text n b bs e h fits = omega (arith, waits-short b bs e)

consume-pending :
    (fuel : ℕ) (fin : Bool) (text : List ℕ) (n : ℕ) (xs : List ℕ)
    → length xs ≤ fuel
    → length (consume fuel fin text n xs).pending ≤ (if fin then 0 else 3)
unfolding consume
consume-pending zero fin text n [] p = omega arith
consume-pending zero fin text n (x ∷ xs) p = absurd (omega arith)
consume-pending (suc f) fin text n [] p = omega arith
consume-pending (suc f) fin text n (x ∷ xs) p =
    perform-pending (classify x xs) (consume f fin) fin text n x xs refl
      (λ text' n' rest le. consume-pending f fin text' n' rest (omega arith)) (classify-FitsIn x xs)

-- `Append` leaves at most three bytes pending, and `Finish` none.
pub pending_bounds :
    (pending bytes : List ℕ)
    → (length (append pending bytes).pending ≤ 3) × ((finish pending).pending ≡ [])
unfolding append finish
pending_bounds pending bytes = (
  consume-pending _ false [] 0 (pending ++ bytes) (omega arith),
  length_zero _ (consume-pending _ true [] 0 pending (omega arith)),
)
