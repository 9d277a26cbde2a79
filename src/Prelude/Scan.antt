-- ===== src/Prelude/Scan.antt =====
-- Searches that carry the best entry so far and its position through a list.
use inferflux.Prelude.{
  ℕ, suc, ◌+◌, ◌≡◌, sym, ap, ◌∙◌, Bool, true, false, some, List, ◌∷◌, if◌then◌else◌, arith,
  get_elem?, ◌⊎◌, inl, inr,
}

module _ {ℓ} {A : Type ℓ} where
  -- Where the result of a search stands: the best before it, or one of its entries.
  abbrev pub From : List A → ℕ → A → ℕ → ℕ × A → Type ℓ
  From es j best i r = (r ≡ (j, best)) ⊎ ((n : ℕ) × (r.0 ≡ i + n) × (get_elem? es n ≡ some r.1))

  pub From-cons :
      (es : List A) (j : ℕ) (best : A) (i : ℕ) (x : A) (b : Bool) (r : ℕ × A)
      → From es (if b then i else j) (if b then x else best) (i + 1) r
      → From (x ∷ es) j best i r
  From-cons es j best i x true r (inl e) =
      inr (0, ap (λ q. q.0) e ∙ omega arith, ap some (sym (ap (λ q. q.1) e)))
  From-cons es j best i x false r (inl e) = inl e
  From-cons es j best i x b r (inr (n, p, g)) = inr (suc n, omega arith, g)

  pub From-get_elem? :
      (x : A) (es : List A) (r : ℕ × A) → From es 0 x 1 r → get_elem? (x ∷ es) r.0 ≡ some r.1
  From-get_elem? x es r (inl f) = ap (λ q. get_elem? (x ∷ es) q.0) f ∙ ap (λ q. some q.1) (sym f)
  From-get_elem? x es r (inr (n, p, g)) =
      let later : r.0 ≡ suc n = omega arith in ap (get_elem? (x ∷ es)) later ∙ g
