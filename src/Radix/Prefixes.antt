-- ===== src/Radix/Prefixes.antt =====
-- Where tokens part from an edge: `CommonPrefixLength`.
use mathlib.Core.List.{append-nil}
use inferflux.Prelude.{
  ℕ, zero, suc, ◌==◌, ◌≤◌, ◌<◌, ◌≡◌, refl, sym, ap, ap₂, ◌∙◌, Bool, true, false, List, [], ◌∷◌,
  ◌++◌, ltb, length, take, drop, take-append-drop, arith, Bool-cases, inl, inr, take_all,
}
use inferflux.Radix.Defs.{Token, Forest, leaf, tree, common_prefix, is_empty, first_token}

-- Whether an edge begins with the key that it stands under.
abbrev pub begins : Token → List Token → Bool
begins k [] = false
begins k (t ∷ ts) = k == t

-- Every edge begins with its key.
abbrev pub IsKeyed : Forest → Type 0
IsKeyed leaf = Unit {0}
IsKeyed (tree k i ch sib) = (begins k i.edge ≡ true) × IsKeyed ch × IsKeyed sib

pub common_prefix-le :
    (e ts : List Token) → (common_prefix e ts ≤ length e) × (common_prefix e ts ≤ length ts)
unfolding common_prefix
common_prefix-le [] ts = (omega arith, omega arith)
common_prefix-le (x ∷ e) [] = (omega arith, omega arith)
common_prefix-le (x ∷ e) (t ∷ ts) = ground (arith, common_prefix-le e ts)

pub common_prefix_pos :
    (k : Token) (e ts : List Token)
    → begins k e ≡ true
    → (k == first_token ts) ≡ true
    → 0 < length ts
    → 0 < common_prefix e ts
unfolding common_prefix
common_prefix_pos k [] ts b h l = cc
common_prefix_pos k (x ∷ e) [] b h l = absurd (omega arith)
common_prefix_pos k (x ∷ e) (t ∷ ts) b h l = ground arith

pub begins-drop :
    (c : ℕ) (e : List Token) → c < length e → begins (first_token (drop c e)) (drop c e) ≡ true
begins-drop zero [] h = absurd (omega arith)
begins-drop zero (x ∷ e) h = ground arith
begins-drop (suc c) [] h = absurd (omega arith)
begins-drop (suc c) (x ∷ e) h = begins-drop c e (omega arith)

pub begins-take :
    (k : Token) (c : ℕ) (e : List Token) → 0 < c → begins k e ≡ true → begins k (take c e) ≡ true
begins-take k c [] h b = cc
begins-take k zero (x ∷ e) h b = absurd (omega arith)
begins-take k (suc c) (x ∷ e) h b = b

pub is_empty-length {ℓ} : {A : Type ℓ} (xs : List A) → is_empty xs ≡ false → 0 < length xs
is_empty-length [] h = cc
is_empty-length (x ∷ xs) h = omega arith

pub is_empty-nil {ℓ} : {A : Type ℓ} (xs : List A) → is_empty xs ≡ true → xs ≡ []
is_empty-nil [] h = refl
is_empty-nil (x ∷ xs) h = cc

pub common_prefix-take :
    (e ts : List Token) → take (common_prefix e ts) e ≡ take (common_prefix e ts) ts
unfolding common_prefix
common_prefix-take [] ts = refl
common_prefix-take (x ∷ e) [] = refl
common_prefix-take (x ∷ e) (t ∷ ts) = elim (Bool-cases (x == t)) [
  | inl same ↦ let e' : x ≡ t = ground arith in rw same (ap₂ ◌∷◌ e' (common_prefix-take e ts))
  | inr differ ↦ rw differ refl
]

pub common_prefix-maximal :
    (e ts : List Token)
    → common_prefix e ts < length e
    → common_prefix e ts < length ts
    → (first_token (drop (common_prefix e ts) e) == first_token (drop (common_prefix e ts) ts))
      ≡ false
unfolding common_prefix
common_prefix-maximal [] ts h l = absurd (omega arith)
common_prefix-maximal (x ∷ e) [] h l = absurd (omega arith)
common_prefix-maximal (x ∷ e) (t ∷ ts) h l = ground (arith, common_prefix-maximal e ts)

-- The tokens up to where they part from an edge, and those from there on.
pub ended :
    (e ts : List Token) → drop (common_prefix e ts) ts ≡ [] → ts ≡ take (common_prefix e ts) e
ended e ts h =
    let c = common_prefix e ts in
    sym (take-append-drop c ts)
    ∙ ap (λ q. take c ts ++ q) h
    ∙ append-nil (take c ts)
    ∙ sym (common_prefix-take e ts)

pub parted : (e ts : List Token) → ts ≡ take (common_prefix e ts) e ++ drop (common_prefix e ts) ts
parted e ts =
    let c = common_prefix e ts in
    sym (take-append-drop c ts) ∙ ap (λ p. p ++ drop c ts) (sym (common_prefix-take e ts))

pub whole_edge : (c : ℕ) (e : List Token) → ltb c (length e) ≡ false → take c e ≡ e
whole_edge c e h = take_all c e (ground arith)
