-- ===== src/Reasoning/Tags.antt =====
-- Readings of a text, and the first tag in one.
use mathlib.Core.List.{append_assoc}
use inferflux.Prelude.{
  ℕ, zero, suc, ◌+◌, ◌≤◌, ◌≡◌, refl, sym, ap, ◌∙◌, inl, inr, Bool, true, false, none, some, List,
  [], ◌∷◌, ◌++◌, leb, length, take, drop, length-take, take-append-drop, arith, Bool-cases,
}
use inferflux.Prelude.Text.{Text, same_sound}
use inferflux.Reasoning.Defs.{open_tag, close_tag, starts_with_tag, find, Splitter}

-- A text read from the left: what of it is reasoning, what is content, and whether it ends in reasoning.
-- Tags are neither; the opening one starts the reasoning, and the closing one ends it, or stands alone. A
-- stretch of reasoning has no closing tag in it.
pub data Reads : Text → Bool → Text → Text → Type 0 where
  starts : Reads [] false [] []
  says : (x r c t : Text) → Reads x false r c → Reads (x ++ t) false r (c ++ t)
  opens : (x r c : Text) → Reads x false r c → Reads (x ++ open_tag) true r c
  strays : (x r c : Text) → Reads x false r c → Reads (x ++ close_tag) false r c
  thinks :
      (x r c t : Text) → Reads x true r c → find close_tag t ≡ none → Reads (x ++ t) true (r ++ t) c
  closes : (x r c : Text) → Reads x true r c → Reads (x ++ close_tag) false r c

-- The splitter has read a text, up to the bytes that are pending.
pub record IsRead (input : Text) (s : Splitter) : Type 0 where
  pub read : Text
  pub reads : Reads read s.in_think s.reasoning s.content
  pub whole : read ++ s.pending ≡ input

take-take_le {ℓ} : {A : Type ℓ} (k n : ℕ) (xs : List A) → k ≤ n → take k (take n xs) ≡ take k xs
take-take_le zero n xs l = refl
take-take_le (suc k) zero xs l = absurd (omega arith)
take-take_le (suc k) (suc n) [] l = refl
take-take_le (suc k) (suc n) (x ∷ xs) l = ap (◌∷◌ x) (take-take_le k n xs (omega arith))

starts_with_tag_sound :
    (text tag : Text) → starts_with_tag text tag ≡ true → take (length tag) text ≡ tag
unfolding starts_with_tag
starts_with_tag_sound text tag h = same_sound (take (length tag) text) tag (ground (arith, h))

-- A text without a tag has none in its first bytes.
starts_with_tag-take :
    (n : ℕ) (text tag : Text)
    → starts_with_tag text tag ≡ false
    → starts_with_tag (take n text) tag ≡ false
unfolding starts_with_tag
starts_with_tag-take n text tag h = elim (Bool-cases (leb (length tag) (length (take n text)))) [
  | inr short ↦ rw short refl
  | inl long ↦
      let e = take-take_le (length tag) n text (ground (arith, length-take n text, long)) in
      let long' : leb (length tag) (length text) ≡ true =
        ground (arith, length-take n text, long) in
      simp (long, e) (simp long' at h)
]

pub find-take : (n : ℕ) (tag text : Text) → find tag text ≡ none → find tag (take n text) ≡ none
unfolding find
find-take zero tag text h = refl
find-take (suc n) tag [] h = refl
find-take (suc n) tag (x ∷ xs) h =
    ground (arith, h, find-take n tag xs, starts_with_tag-take (suc n) (x ∷ xs) tag)

find-zero :
    (tag : Text) (x : ℕ) (xs : Text)
    → find tag (x ∷ xs) ≡ some 0
    → starts_with_tag (x ∷ xs) tag ≡ true
unfolding find
find-zero tag x xs h = ground (arith, h)

find-suc :
    (tag : Text) (x : ℕ) (xs : Text) (n : ℕ)
    → find tag (x ∷ xs) ≡ some (suc n)
    → (starts_with_tag (x ∷ xs) tag ≡ false) × (find tag xs ≡ some n)
unfolding find
find-suc tag x xs n h = (ground (arith, h), ground (arith, h))

-- The first tag in a text: the bytes before it have none, and it stands after them.
pub find_first :
    (tag text : Text) (n : ℕ)
    → find tag text ≡ some n
    → (find tag (take n text) ≡ none) × (take (length tag) (drop n text) ≡ tag)
unfolding find
find_first tag [] n h = cc
find_first tag (x ∷ xs) zero h = (refl, starts_with_tag_sound (x ∷ xs) tag (find-zero tag x xs h))
find_first tag (x ∷ xs) (suc n) h =
    let (other, later) = find-suc tag x xs n h in
    let (none_before, stands) = find_first tag xs n later in
    (simp (starts_with_tag-take (suc n) (x ∷ xs) tag other, none_before) refl, stands)

-- What the splitter has read, after a step from a state that it has read to.
pub read_on :
    (input : Text) (t rest pending : Text) (x : Text)
    → x ++ pending ≡ input
    → t ++ rest ≡ pending
    → (x ++ t) ++ rest ≡ input
read_on input t rest pending x whole e = append_assoc x t rest ∙ ap (λ q. x ++ q) e ∙ whole

pub tag_first :
    (tag text : Text) → starts_with_tag text tag ≡ true → tag ++ drop (length tag) text ≡ text
tag_first tag text h =
    ap (λ t. t ++ drop (length tag) text) (sym (starts_with_tag_sound text tag h))
    ∙ take-append-drop (length tag) text

drop-nil {ℓ} : {A : Type ℓ} (n : ℕ) → drop {A = A} n [] ≡ []
drop-nil zero = refl
drop-nil (suc n) = refl

pub drop-drop {ℓ} : {A : Type ℓ} (m n : ℕ) (xs : List A) → drop n (drop m xs) ≡ drop (m + n) xs
drop-drop zero n xs = ap (λ k. drop k xs) (omega arith)
drop-drop (suc m) n [] = drop-nil n ∙ sym (drop-nil (suc m + n))
drop-drop (suc m) n (x ∷ xs) =
    drop-drop m n xs ∙ ap (λ k. drop k (x ∷ xs)) {x = suc (m + n)} (omega arith)
