-- ===== src/Utf8/Wellformed.antt =====
-- The text that comes out of the assembler, against the table of well-formed byte sequences of the
-- Unicode standard (table 3-7).
use mathlib.Core.List.{append-nil, append_assoc}
use inferflux.Prelude.{
  ℕ, zero, suc, ◌+◌, ◌≤◌, ◌≡◌, refl, sym, ◌∙◌, ap, Bool, true, false, List, [], ◌∷◌, ◌++◌, arith,
  length, take, drop, length-append, length-drop, inr, ◌⊎◌,
}
use inferflux.Utf8.Defs.{
  sequence_length, valid_tail, Action, copies, replaces, waits, classify, replacement, Assembly,
  assembly, perform, consume, append, finish, feed, assemble,
}
use inferflux.Utf8.Classify.{FitsIn, classify-FitsIn}

abbrev Between : ℕ → ℕ → ℕ → Type 0
Between lo hi b = (lo ≤ b) × (b ≤ hi)

abbrev pub IsScalar : List ℕ → Type 0
IsScalar (a ∷ []) = a ≤ 0x7F
IsScalar (a ∷ b ∷ []) = Between 0xC2 0xDF a × Between 0x80 0xBF b
IsScalar (a ∷ b ∷ c ∷ []) =
    (((a ≡ 0xE0) × Between 0xA0 0xBF b)
      ⊎ (Between 0xE1 0xEC a × Between 0x80 0xBF b)
      ⊎ ((a ≡ 0xED) × Between 0x80 0x9F b)
      ⊎ (Between 0xEE 0xEF a × Between 0x80 0xBF b))
    × Between 0x80 0xBF c
IsScalar (a ∷ b ∷ c ∷ d ∷ []) =
    (((a ≡ 0xF0) × Between 0x90 0xBF b)
      ⊎ (Between 0xF1 0xF3 a × Between 0x80 0xBF b)
      ⊎ ((a ≡ 0xF4) × Between 0x80 0x8F b))
    × Between 0x80 0xBF c
    × Between 0x80 0xBF d
IsScalar _ = ⊥

pub data IsUtf8 : List ℕ → Type 0 where
  done : IsUtf8 []
  scalar : {xs : List ℕ} (s rest : List ℕ) → xs ≡ s ++ rest → IsScalar s → IsUtf8 rest → IsUtf8 xs

IsUtf8-append : {xs : List ℕ} (ys : List ℕ) → IsUtf8 xs → IsUtf8 ys → IsUtf8 (xs ++ ys)
IsUtf8-append ys done v = v
IsUtf8-append ys (scalar s rest e h u) v =
    scalar s (rest ++ ys) (ap (λ z. z ++ ys) e ∙ append_assoc s rest ys) h (IsUtf8-append ys u v)

IsUtf8-scalar : (s : List ℕ) → IsScalar s → IsUtf8 s
IsUtf8-scalar s h = scalar s [] (sym (append-nil s)) h done

-- What `Consume` copies is one well-formed sequence.
classify-IsScalar : (a k : ℕ) (bs : List ℕ) → classify a bs ≡ copies k → IsScalar (take k (a ∷ bs))
unfolding classify sequence_length valid_tail
classify-IsScalar a zero bs e = ground arith
classify-IsScalar a (suc zero) bs e = ground arith
classify-IsScalar a (suc (suc zero)) [] e = ground arith
classify-IsScalar a (suc (suc zero)) (b ∷ bs) e = ground arith
classify-IsScalar a (suc (suc (suc zero))) [] e = ground arith
classify-IsScalar a (suc (suc (suc zero))) (b ∷ []) e = ground arith
classify-IsScalar a (suc (suc (suc zero))) (b ∷ c ∷ bs) e = ground arith
classify-IsScalar a (suc (suc (suc (suc zero)))) [] e = ground arith
classify-IsScalar a (suc (suc (suc (suc zero)))) (b ∷ []) e = ground arith
classify-IsScalar a (suc (suc (suc (suc zero)))) (b ∷ c ∷ []) e = ground arith
classify-IsScalar a (suc (suc (suc (suc zero)))) (b ∷ c ∷ d ∷ bs) e = ground arith
classify-IsScalar a (suc (suc (suc (suc (suc k))))) bs e = ground arith

replacement-IsScalar : IsScalar replacement
replacement-IsScalar = (inr (inr (inr (omega arith, omega arith))), omega arith)

perform-IsUtf8 :
    (a : Action) (f : List ℕ → ℕ → List ℕ → Assembly) (fin : Bool) (text : List ℕ) (n b : ℕ)
    (bs : List ℕ)
    → classify b bs ≡ a
    → FitsIn (length bs + 1) a
    → IsUtf8 text
    → ((text' : List ℕ) (n' : ℕ) (rest : List ℕ)
        → length rest ≤ length bs
        → IsUtf8 text'
        → IsUtf8 (f text' n' rest).text)
    → IsUtf8 (perform a f fin text n (b ∷ bs)).text
unfolding perform
perform-IsUtf8 (copies k) f fin text n b bs e fits u h =
    h _ n (drop k (b ∷ bs)) (omega (arith, length-drop k (b ∷ bs), fits))
      (IsUtf8-append (take k (b ∷ bs)) u (IsUtf8-scalar _ (classify-IsScalar b k bs e)))
perform-IsUtf8 replaces f fin text n b bs e fits u h =
    h _ (n + 1) bs (omega arith)
      (IsUtf8-append replacement u (IsUtf8-scalar replacement replacement-IsScalar))
perform-IsUtf8 waits f true text n b bs e fits u h =
    IsUtf8-append replacement u (IsUtf8-scalar replacement replacement-IsScalar)
perform-IsUtf8 waits f false text n b bs e fits u h = u

consume-IsUtf8 :
    (fuel : ℕ) (fin : Bool) (text : List ℕ) (n : ℕ) (xs : List ℕ)
    → IsUtf8 text
    → IsUtf8 (consume fuel fin text n xs).text
unfolding consume
consume-IsUtf8 zero fin text n xs u = u
consume-IsUtf8 (suc f) fin text n [] u = u
consume-IsUtf8 (suc f) fin text n (x ∷ xs) u =
    perform-IsUtf8 (classify x xs) (consume f fin) fin text n x xs refl (classify-FitsIn x xs) u
      (λ text' n' rest le u'. consume-IsUtf8 f fin text' n' rest u')

feed-IsUtf8 : (pieces : List (List ℕ)) (a : Assembly) → IsUtf8 a.text → IsUtf8 (feed a pieces).text
unfolding feed append
feed-IsUtf8 [] a u = u
feed-IsUtf8 (piece ∷ pieces) a u =
    feed-IsUtf8 pieces _ (IsUtf8-append _ u (consume-IsUtf8 _ false [] 0 (a.pending ++ piece) done))

-- Whatever bytes come in, in whatever pieces, the assembled text is well-formed UTF-8.
pub assemble-IsUtf8 : (pieces : List (List ℕ)) → IsUtf8 (assemble pieces).text
unfolding assemble finish
assemble-IsUtf8 pieces =
    let a = feed (assembly [] 0 []) pieces in
    IsUtf8-append _ (feed-IsUtf8 pieces (assembly [] 0 []) done)
      (consume-IsUtf8 _ true [] 0 a.pending done)

-- A well-formed sequence is copied, whatever follows.
scalar-copies :
    (a : ℕ) (s rest : List ℕ) → IsScalar (a ∷ s) → classify a (s ++ rest) ≡ copies (suc (length s))
unfolding classify sequence_length valid_tail
scalar-copies a [] rest h = ground arith
scalar-copies a (b ∷ []) rest h = ground arith
scalar-copies a (b ∷ c ∷ []) rest h = ground arith
scalar-copies a (b ∷ c ∷ d ∷ []) rest h = ground arith
scalar-copies a (b ∷ c ∷ d ∷ e ∷ s) rest h = absurd h

take_front : (s rest : List ℕ) → take (length s) (s ++ rest) ≡ s
take_front [] rest = refl
take_front (x ∷ s) rest = ap (◌∷◌ x) (take_front s rest)

drop_front : (s rest : List ℕ) → drop (length s) (s ++ rest) ≡ rest
drop_front [] rest = refl
drop_front (x ∷ s) rest = drop_front s rest

nothing : (text : List ℕ) (n : ℕ) → assembly text n [] ≡ assembly (text ++ []) n []
nothing text n = ap (λ z. assembly z n []) (sym (append-nil text))

consume_wellformed :
    (fuel : ℕ) (fin : Bool) (text : List ℕ) (n : ℕ) {xs : List ℕ}
    → length xs ≤ fuel
    → IsUtf8 xs
    → consume fuel fin text n xs ≡ assembly (text ++ xs) n []
unfolding consume perform
consume_wellformed zero fin text n p done = nothing text n
consume_wellformed (suc f) fin text n p done = nothing text n
consume_wellformed zero fin text n p (scalar [] rest e h u) = absurd h
consume_wellformed zero fin text n p (scalar (a ∷ s) rest e h u) =
    absurd (omega (arith, ap length e))
consume_wellformed (suc f) fin text n p (scalar [] rest e h u) = absurd h
consume_wellformed (suc f) fin text n p (scalar (a ∷ s) rest e h u) =
    let shorter : length rest ≤ f = omega (arith, ap length e, length-append s rest) in
    rw (e, scalar-copies a s rest h, take_front s rest, drop_front s rest)
      (consume_wellformed f fin (text ++ a ∷ s) n shorter u
        ∙ ap (λ z. assembly z n []) (append_assoc text (a ∷ s) rest))

-- Well-formed text comes through `Append` at once, unchanged, with no replacement and with nothing
-- left pending.
pub append-IsUtf8 : (bytes : List ℕ) → IsUtf8 bytes → append [] bytes ≡ assembly bytes 0 []
unfolding append
append-IsUtf8 bytes u = consume_wellformed (length bytes) false [] 0 (omega arith) u
