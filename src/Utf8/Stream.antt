-- ===== src/Utf8/Stream.antt =====
-- The assembler over the pieces of a byte stream.
use mathlib.Core.List.{append-nil, append_assoc}
use inferflux.Prelude.{
  ℕ, zero, suc, ◌+◌, ◌≤◌, ◌≡◌, ◌≢◌, refl, sym, ◌∙◌, ap, Bool, true, false, List, [], ◌∷◌, ◌++◌,
  arith, length, take, drop, length-append, length-drop, inl, inr,
}
use inferflux.Utf8.Defs.{
  Action, copies, replaces, waits, classify, replacement, Assembly, assembly, consume, append,
  finish, perform, concat, feed, assemble,
}
use inferflux.Utf8.Classify.{FitsIn, classify-FitsIn, take-append, drop-append, classify-append}

-- Two ways to go on that agree on shorter lists make the same round.
perform-ext :
    (a : Action) (f g : List ℕ → ℕ → List ℕ → Assembly) (fin : Bool) (text : List ℕ) (n b : ℕ)
    (bs : List ℕ)
    → FitsIn (length bs + 1) a
    → ((text' : List ℕ) (n' : ℕ) (rest : List ℕ)
        → length rest ≤ length bs
        → f text' n' rest ≡ g text' n' rest)
    → perform a f fin text n (b ∷ bs) ≡ perform a g fin text n (b ∷ bs)
unfolding perform
perform-ext (copies k) f g fin text n b bs fits h =
    h _ n (drop k (b ∷ bs)) (omega (arith, length-drop k (b ∷ bs), fits))
perform-ext replaces f g fin text n b bs fits h = h _ (n + 1) bs (omega arith)
perform-ext waits f g fin text n b bs fits h = refl

-- Fuel beyond the number of bytes makes no difference.
consume-fuel :
    (f g : ℕ) (fin : Bool) (text : List ℕ) (n : ℕ) (xs : List ℕ)
    → length xs ≤ f
    → length xs ≤ g
    → consume f fin text n xs ≡ consume g fin text n xs
unfolding consume
consume-fuel zero zero fin text n xs p q = refl
consume-fuel zero (suc g) fin text n [] p q = refl
consume-fuel (suc f) zero fin text n [] p q = refl
consume-fuel zero (suc g) fin text n (x ∷ xs) p q = absurd (omega arith)
consume-fuel (suc f) zero fin text n (x ∷ xs) p q = absurd (omega arith)
consume-fuel (suc f) (suc g) fin text n [] p q = refl
consume-fuel (suc f) (suc g) fin text n (x ∷ xs) p q =
    perform-ext (classify x xs) (consume f fin) (consume g fin) fin text n x xs
      (classify-FitsIn x xs)
      (λ text' n' rest le. consume-fuel f g fin text' n' rest (omega arith) (omega arith))

pending_length : (xs ys : List ℕ) (k : ℕ) → length xs ≤ k → length (xs ++ ys) ≤ k + length ys
pending_length xs ys k h = omega (arith, length-append xs ys)

classify_more :
    (x : ℕ) (xs ys : List ℕ) (a : Action)
    → a ≢ waits
    → classify x xs ≡ a
    → classify x (xs ++ ys) ≡ a
classify_more x xs ys a moves e = elim (classify-append x xs ys) [
  | inl w ↦ absurd (moves (sym e ∙ w))
  | inr same ↦ same ∙ e
]

-- A run over the first part and one over what that leaves make a run over the whole.
consume-append :
    (f g h : ℕ) (fin : Bool) (text : List ℕ) (n : ℕ) (xs ys : List ℕ)
    → length xs ≤ f
    → length (xs ++ ys) ≤ g
    → length (xs ++ ys) ≤ h
    → let r = consume f false text n xs in
      consume h fin r.text r.replacements (r.pending ++ ys) ≡ consume g fin text n (xs ++ ys)
unfolding consume perform
consume-append zero g h fin text n [] ys p q s = consume-fuel h g fin text n ys s q
consume-append (suc f) g h fin text n [] ys p q s = consume-fuel h g fin text n ys s q
consume-append zero g h fin text n (x ∷ xs) ys p q s = absurd (omega arith)
consume-append (suc f) zero h fin text n (x ∷ xs) ys p q s = absurd (omega arith)
consume-append (suc f) (suc g) h fin text n (x ∷ xs) ys p q s =
    go (classify x xs) refl (classify-FitsIn x xs) (λ text' rest le sm.
      consume-append f g h fin text' _ rest ys (omega arith)
        (omega (arith, length-append rest ys, length-append xs ys))
        (omega (arith, length-append rest ys, length-append xs ys)))
  where
    go :
        (a : Action)
        → classify x xs ≡ a
        → FitsIn (length xs + 1) a
        → ((text' : List ℕ) (rest : List ℕ)
            → length rest ≤ length xs
            → (m : ℕ)
            → let r = consume f false text' m rest in
              consume h fin r.text r.replacements (r.pending ++ ys)
              ≡ consume g fin text' m (rest ++ ys))
        → let r = perform (classify x xs) (consume f false) false text n (x ∷ xs) in
          consume h fin r.text r.replacements (r.pending ++ ys)
          ≡ perform (classify x (xs ++ ys)) (consume g fin) fin text n (x ∷ (xs ++ ys))
    go (copies k) e fits ih =
        let le : k ≤ length (x ∷ xs) = omega (arith, fits) in
        let t : take k (x ∷ (xs ++ ys)) ≡ take k (x ∷ xs) = take-append k (x ∷ xs) ys le in
        let d : drop k (x ∷ (xs ++ ys)) ≡ drop k (x ∷ xs) ++ ys = drop-append k (x ∷ xs) ys le in
        rw (e, classify_more x xs ys (copies k) (λ w. cc) e)
          (ih (text ++ take k (x ∷ xs)) (drop k (x ∷ xs))
              (omega (arith, length-drop k (x ∷ xs), fits)) n
            ∙ rw (t, d))
    go replaces e fits ih =
        rw (e, classify_more x xs ys replaces (λ w. cc) e)
          (ih (text ++ replacement) xs (omega arith) (n + 1))
    go waits e fits ih = rw e (consume-fuel h (suc g) fin text n (x ∷ (xs ++ ys)) s q)

-- Text and replacements already there are only carried along.
after : List ℕ → ℕ → Assembly → Assembly
after text n a = assembly (text ++ a.text) (n + a.replacements) a.pending

assembly-eq :
    {s t : List ℕ} {m n : ℕ} (p : List ℕ) → s ≡ t → m ≡ n → assembly s m p ≡ assembly t n p
assembly-eq p e d = λ i. assembly (e i) (d i) p

perform-after :
    (a : Action) (f : List ℕ → ℕ → List ℕ → Assembly) (fin : Bool) (text : List ℕ) (n b : ℕ)
    (bs : List ℕ)
    → FitsIn (length bs + 1) a
    → ((text' : List ℕ) (n' : ℕ) (rest : List ℕ)
        → length rest ≤ length bs
        → f text' n' rest ≡ after text' n' (f [] 0 rest))
    → perform a f fin text n (b ∷ bs) ≡ after text n (perform a f fin [] 0 (b ∷ bs))
unfolding perform after
perform-after (copies k) f fin text n b bs fits h =
    let rest = drop k (b ∷ bs) in
    let le : length rest ≤ length bs = omega (arith, length-drop k (b ∷ bs), fits) in
    h _ n rest le
    ∙ assembly-eq _ (append_assoc text (take k (b ∷ bs)) (f [] 0 rest).text) (omega arith)
    ∙ sym (ap (after text n) (h (take k (b ∷ bs)) 0 rest le))
perform-after replaces f fin text n b bs fits h =
    let le : length bs ≤ length bs = omega arith in
    h _ (n + 1) bs le
    ∙ assembly-eq _ (append_assoc text replacement (f [] 0 bs).text) (omega arith)
    ∙ sym (ap (after text n) (h replacement (0 + 1) bs le))
perform-after waits f true text n b bs fits h = assembly-eq _ refl (omega arith)
perform-after waits f false text n b bs fits h = assembly-eq _ (sym (append-nil text)) (omega arith)

consume-after :
    (fuel : ℕ) (fin : Bool) (text : List ℕ) (n : ℕ) (xs : List ℕ)
    → length xs ≤ fuel
    → consume fuel fin text n xs ≡ after text n (consume fuel fin [] 0 xs)
unfolding consume after
consume-after zero fin text n xs p = assembly-eq _ (sym (append-nil text)) (omega arith)
consume-after (suc f) fin text n [] p = assembly-eq _ (sym (append-nil text)) (omega arith)
consume-after (suc f) fin text n (x ∷ xs) p =
    perform-after (classify x xs) (consume f fin) fin text n x xs (classify-FitsIn x xs)
      (λ text' n' rest le. consume-after f fin text' n' rest (omega arith))

-- The assembly of what is pending with a whole stream behind it.
abbrev pub whole : Bool → Assembly → List ℕ → Assembly
whole fin a bytes =
    let r = consume (length (a.pending ++ bytes)) fin [] 0 (a.pending ++ bytes) in
    assembly (a.text ++ r.text) (a.replacements + r.replacements) r.pending

run_joined :
    (fin : Bool) (p ys : List ℕ)
    → let r = consume (length p) false [] 0 p in
      consume (length (p ++ ys)) fin [] 0 (p ++ ys)
      ≡ after r.text r.replacements (consume (length (r.pending ++ ys)) fin [] 0 (r.pending ++ ys))
run_joined fin p ys =
    let r = consume (length p) false [] 0 p in
    let k = length (r.pending ++ ys) in
    let g = length (p ++ ys) in
    sym
      (consume-append (length p) g (k + g) fin [] 0 p ys (omega arith) (omega arith) (omega arith))
    ∙ consume-after (k + g) fin r.text r.replacements (r.pending ++ ys) (omega arith)
    ∙ ap (after r.text r.replacements)
        (consume-fuel (k + g) k fin [] 0 (r.pending ++ ys) (omega arith) (omega arith))

-- Appending two pieces one after the other gives, together, what appending them as one piece gives.
whole-append :
    (fin : Bool) (a : Assembly) (xs ys : List ℕ)
    → let r = append a.pending xs in
      whole fin (assembly (a.text ++ r.text) (a.replacements + r.replacements) r.pending) ys
      ≡ whole fin a (xs ++ ys)
unfolding append after
whole-append fin a xs ys =
    let p = a.pending ++ xs in
    let r = consume (length p) false [] 0 p in
    let q = consume (length (r.pending ++ ys)) fin [] 0 (r.pending ++ ys) in
    let shift : p ++ ys ≡ a.pending ++ (xs ++ ys) = append_assoc a.pending xs ys in
    assembly-eq q.pending (append_assoc a.text r.text q.text) (omega arith)
    ∙ ap (after a.text a.replacements)
        (sym (run_joined fin p ys) ∙ ap (λ z. consume (length z) fin [] 0 z) shift)

feed-whole :
    (fin : Bool) (pieces : List (List ℕ)) (a : Assembly) (last : List ℕ)
    → whole fin (feed a pieces) last ≡ whole fin a (concat pieces ++ last)
unfolding feed
feed-whole fin [] a last = refl
feed-whole fin (piece ∷ pieces) a last =
    feed-whole fin pieces _ last
    ∙ whole-append fin a piece (concat pieces ++ last)
    ∙ ap (whole fin a) (sym (append_assoc piece (concat pieces) last))

assemble-whole :
    (pieces : List (List ℕ)) → assemble pieces ≡ whole true (feed (assembly [] 0 []) pieces) []
unfolding assemble finish
assemble-whole pieces =
    let a = feed (assembly [] 0 []) pieces in
    ap
      (λ z.
        let r = consume (length z) true [] 0 z in
        assembly (a.text ++ r.text) (a.replacements + r.replacements) r.pending)
      (sym (append-nil a.pending))

-- However a byte stream is cut into pieces, appending them one after the other and finishing gives
-- the same text and the same number of replacements as appending the whole stream and finishing.
pub assemble-concat : (pieces : List (List ℕ)) → assemble pieces ≡ assemble (concat pieces ∷ [])
assemble-concat pieces =
    let none : Assembly = assembly [] 0 [] in
    assemble-whole pieces
    ∙ feed-whole true pieces none []
    ∙ ap (λ z. whole true none (z ++ [])) (sym (append-nil (concat pieces)))
    ∙ sym (feed-whole true (concat pieces ∷ []) none [])
    ∙ sym (assemble-whole (concat pieces ∷ []))
