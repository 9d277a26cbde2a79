-- ===== src/Selection/Fallback.antt =====
-- The fallback that is picked, against the candidates.
use inferflux.Prelude.{
  ℕ, zero, suc, ◌≡◌, refl, sym, ap, subst, ◌∙◌, ◌⊎◌, inl, inr, Bool, true, false, Option, none,
  some, List, [], ◌∷◌, get_elem?, Bool-cases,
}
use inferflux.Selection.Defs.{Requirements, Model, Router, Scope}
use inferflux.Selection.Ops.{
  Key, key_less, candidate_key, is_candidate, fallback_loop, pick_fallback,
}
use inferflux.Selection.Order.{key_less_trans, key_less_irrefl, key_less_cotrans}

-- A model is listed.
abbrev pub IsListed : List Model → Model → Type 0
IsListed ms m = (n : ℕ) × (get_elem? ms n ≡ some m)

module _ (admits : Model → Bool) where
  -- The models that a search may end with: the best so far, and the listed ones that are admitted.
  abbrev Considers : List Model → Option Model → Model → Type 0
  Considers ms best m = (best ≡ some m) ⊎ (IsListed ms m × (admits m ≡ true))

  -- The search ends with one of them that no other comes before, or there is none.
  pub record Picks (ms : List Model) (best r : Option Model) : Type 0 where
    pub from : (m : Model) → r ≡ some m → Considers ms best m
    pub first :
        (m m' : Model)
        → r ≡ some m
        → Considers ms best m'
        → key_less (candidate_key m') (candidate_key m) ≡ false
    pub no_other : (m : Model) → r ≡ none → Considers ms best m → ⊥

  -- The key that goes with the best so far.
  abbrev IsKeyOf : Option Model → Key → Type 0
  IsKeyOf none k = Unit {0}
  IsKeyOf (some b) k = k ≡ candidate_key b

  ends : (best : Option Model) → Picks [] best best
  ends best = record {
    from = λ m e. inl e;
    first = λ m m' e c. (elim c [
      | inl f ↦
          let k : candidate_key m' ≡ candidate_key m = ap (key_or m) (sym f ∙ e) in
          subst (λ q. key_less q (candidate_key m) ≡ false) (sym k)
            (key_less_irrefl (candidate_key m))
      | inr ((n, g), a) ↦ cc
    ]);
    no_other = λ m e c. (elim c [ inl f ↦ cc (e, f) | inr ((n, g), a) ↦ cc ]);
  }
    where
      key_or : Model → Option Model → Key
      key_or d none = candidate_key d
      key_or d (some m) = candidate_key m

  abbrev unwrap : Model → Option Model → Model
  unwrap d none = d
  unwrap d (some m) = m

  -- The model at hand becomes the best.
  takes :
      (m : Model) (ms : List Model) (best r : Option Model)
      → admits m ≡ true
      → ((b : Model) → best ≡ some b → key_less (candidate_key m) (candidate_key b) ≡ true)
      → Picks ms (some m) r
      → Picks (m ∷ ms) best r
  takes m ms best r ok beaten p = record {
    from = λ x e. source x (p.from x e);
    first = λ x m' e c. unbeaten x m' e c;
    no_other = λ x e c. p.no_other m e (inl refl);
  }
    where
      source : (x : Model) → Considers ms (some m) x → Considers (m ∷ ms) best x
      source x (inl e) = inr ((zero, e), subst (λ y. admits y ≡ true) (ap (unwrap m) e) ok)
      source x (inr ((n, g), a)) = inr ((suc n, g), a)

      unbeaten :
          (x m' : Model)
          → r ≡ some x
          → Considers (m ∷ ms) best m'
          → key_less (candidate_key m') (candidate_key x) ≡ false
      unbeaten x m' e (inr ((zero, g), a)) = p.first x m' e (inl g)
      unbeaten x m' e (inr ((suc n, g), a)) = p.first x m' e (inr ((n, g), a))
      unbeaten x m' e (inl f) = elim (Bool-cases (key_less (candidate_key m') (candidate_key x))) [
        | inr fine ↦ fine
        | inl less ↦
            let lt =
              key_less_trans (candidate_key m) (candidate_key m') (candidate_key x) (beaten m' f)
                less in
            cc (lt, p.first x m e (inl refl))
      ]

  -- The model at hand is passed over.
  passes :
      (m : Model) (ms : List Model) (best r : Option Model)
      → (admits m ≡ false)
        ⊎ ((b : Model) × (best ≡ some b) × (key_less (candidate_key m) (candidate_key b) ≡ false))
      → Picks ms best r
      → Picks (m ∷ ms) best r
  passes m ms best r no_good p = record {
    from = λ x e. source x (p.from x e);
    first = λ x m' e c. unbeaten x m' e c no_good;
    no_other = λ x e c. alone x e c no_good;
  }
    where
      Reason : Type 0
      Reason =
          (admits m ≡ false)
          ⊎ ((b : Model) × (best ≡ some b) × (key_less (candidate_key m) (candidate_key b) ≡ false))

      source : (x : Model) → Considers ms best x → Considers (m ∷ ms) best x
      source x (inl e) = inl e
      source x (inr ((n, g), a)) = inr ((suc n, g), a)

      unbeaten :
          (x m' : Model)
          → r ≡ some x
          → Considers (m ∷ ms) best m'
          → Reason
          → key_less (candidate_key m') (candidate_key x) ≡ false
      unbeaten x m' e (inl f) q = p.first x m' e (inl f)
      unbeaten x m' e (inr ((suc n, g), a)) q = p.first x m' e (inr ((n, g), a))
      unbeaten x m' e (inr ((zero, g), a)) (inl bad) =
          cc (subst (λ y. admits y ≡ false) (ap (unwrap m) g) bad, a)
      unbeaten x m' e (inr ((zero, g), a)) (inr (b, f, not_less)) =
          subst (λ y. key_less (candidate_key y) (candidate_key x) ≡ false) (ap (unwrap m) g)
            (elim (Bool-cases (key_less (candidate_key m) (candidate_key x))) [
              | inr fine ↦ fine
              | inl less ↦
                  let lt =
                    key_less_cotrans (candidate_key m) (candidate_key b) (candidate_key x) less
                      not_less in
                  cc (lt, p.first x b e (inl f))
            ])

      alone : (x : Model) → r ≡ none → Considers (m ∷ ms) best x → Reason → ⊥
      alone x e (inl f) q = p.no_other x e (inl f)
      alone x e (inr ((suc n, g), a)) q = p.no_other x e (inr ((n, g), a))
      alone x e (inr ((zero, g), a)) (inl bad) =
          cc (subst (λ y. admits y ≡ false) (ap (unwrap m) g) bad, a)
      alone x e (inr ((zero, g), a)) (inr (b, f, not_less)) = p.no_other b e (inl f)

  fallback_loop-Picks :
      (ms : List Model) (best : Option Model) (k : Key)
      → IsKeyOf best k
      → Picks ms best (fallback_loop admits ms best k)
  unfolding fallback_loop
  fallback_loop-Picks [] best k e = ends best
  fallback_loop-Picks (m ∷ ms) none k e = elim (Bool-cases (admits m)) [
    | inl ok ↦
        rw ok (
          takes m ms none _ ok (λ b f. cc) (fallback_loop-Picks ms (some m) (candidate_key m) refl))
    | inr bad ↦ rw bad (passes m ms none _ (inl bad) (fallback_loop-Picks ms none k e))
  ]
  fallback_loop-Picks (m ∷ ms) (some b) k e = elim (Bool-cases (admits m)) [
    | inr bad ↦ rw bad (passes m ms (some b) _ (inl bad) (fallback_loop-Picks ms (some b) k e))
    | inl ok ↦ rw ok (elim (Bool-cases (key_less (candidate_key m) k)) [
      | inl less ↦ rw less (
          takes m ms (some b) _ ok
            (λ c f.
              subst (λ y. key_less (candidate_key m) (candidate_key y) ≡ true) (ap (unwrap b) f)
                (subst (λ j. key_less (candidate_key m) j ≡ true) e less))
            (fallback_loop-Picks ms (some m) (candidate_key m) refl))
      | inr more ↦ rw more (
          passes m ms (some b) _
            (inr (b, refl, subst (λ j. key_less (candidate_key m) j ≡ false) e more))
            (fallback_loop-Picks ms (some b) k e))
    ])
  ]

-- PickFallbackCandidate returns a listed model that may stand in for the primary one, and none of the
-- others that may comes before it by the preference of its backend, then by whether its backend is itself
-- a fallback, then by its identifier; and it returns none only if no listed model may stand in.
pub pick_fallback-Picks :
    (router : Router) (primary : Model) (requirements : Requirements) (scope : Scope) (ready : Bool)
    → Picks
        (is_candidate router primary requirements scope ready)
        router.list_models
        none
        (pick_fallback router primary requirements scope ready)
unfolding pick_fallback
pick_fallback-Picks router primary requirements scope ready =
    fallback_loop-Picks (is_candidate router primary requirements scope ready) router.list_models
      none _ tt
