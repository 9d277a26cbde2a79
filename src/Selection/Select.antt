-- ===== src/Selection/Select.antt =====
-- What `SelectModelForRequest` promises.
use inferflux.Prelude.{
  ◌≡◌, refl, sym, ◌∙◌, ◌⊎◌, inl, inr, Bool, true, false, not, ◌&&◌, ◌||◌, Option, none, some, [],
  arith, Bool-cases, Option-cases,
}
use inferflux.Prelude.Text.{Text, codes}
use inferflux.Selection.Defs.{
  Capabilities, Requirements, check_capabilities, Model, Router, effective_capabilities, Options,
  Status, selected, not_found, unsupported, backend_unavailable, Selection,
}
use inferflux.Selection.Ops.{
  is_candidate, pick_fallback, chosen, failed, or_text, with_fallback, select_primary, is_explicit,
  resolved, is_backend_ready, select_model,
}
use inferflux.Selection.Fallback.{IsListed, Picks, pick_fallback-Picks}

-- Every feature that is needed is supported.
abbrev pub meets : Capabilities → Requirements → Bool
meets c r =
    (not r.needs_generation || c.supports_generation)
    && (not r.needs_streaming || c.supports_streaming)
    && (not r.needs_logprobs || c.supports_logprobs)
    && (not r.needs_structured_output || c.supports_structured_output)
    && (not r.needs_embeddings || c.supports_embeddings)
    && (not r.needs_vision || c.supports_vision)
    && (not r.needs_speculative_decoding || c.supports_speculative_decoding)
    && (not r.needs_fairness_preemption || c.supports_fairness_preemption)

check_capabilities-meets :
    (c : Capabilities) (r : Requirements) → (check_capabilities c r).supported ≡ meets c r
unfolding check_capabilities
check_capabilities-meets c r = ground arith

-- A selection serves a request: its model supports what the request needs, its backend is the router's
-- for the model, and it is ready if it has to be.
pub record Serves (router : Router) (requirements : Requirements) (options : Options)
    (s : Selection) : Type 0 where
  pub model : Model
  pub info : s.info ≡ some model
  pub backend : s.backend ≡ router.get_backend model.id
  pub meets_all : meets (effective_capabilities model) requirements ≡ true
  pub ready : options.require_ready_backend ≡ true → is_backend_ready router s.backend ≡ true

module _ (router : Router) (primary : Model) (requirements : Requirements) (options : Options) where
  abbrev stands_in : Model → Bool
  stands_in =
      is_candidate router primary requirements options.capability_fallback_scope
        options.require_ready_backend

  -- What becomes of a resolved request: it is served, by the primary model unless a fallback is allowed;
  -- or it fails on the primary model, and then no listed model could stand in where that is allowed.
  pub record Settles (allowed : Bool) (s : Selection) : Type 0 where
    pub serves : s.status ≡ selected → Serves router requirements options s
    pub keeps : allowed ≡ false → (s.info ≡ some primary) × (s.used_fallback ≡ false)
    pub gives_up :
        (m : Model)
        → allowed ≡ true
        → (s.status ≡ selected → ⊥)
        → IsListed router.list_models m
        → stands_in m ≡ true
        → ⊥
    pub found : s.status ≡ not_found → ⊥

  candidate_serves :
      (m : Model) (feature : Text)
      → stands_in m ≡ true
      → Serves router requirements options (chosen router primary feature m)
  unfolding is_candidate
  candidate_serves m feature ok = record {
    model = m;
    info = refl;
    backend = refl;
    meets_all =
        sym (check_capabilities-meets (effective_capabilities m) requirements) ∙ ground (arith, ok);
    ready = λ r. ground (arith, ok, r);
  }

  with_fallback-Settles :
      (allowed : Bool) (feature : Text) (status : Status) (missing_feature reason : Text)
      → (status ≡ selected → ⊥)
      → (status ≡ not_found → ⊥)
      → Settles allowed (
          with_fallback router primary requirements options allowed feature
            (failed status (some primary) missing_feature reason))
  with_fallback-Settles false feature status missing_feature reason bad found = record {
    serves = λ e. absurd (bad e);
    keeps = λ e. (refl, refl);
    gives_up = λ m a e l c. cc;
    found = found;
  }
  with_fallback-Settles true feature status missing_feature reason bad found =
      go
        (pick_fallback router primary requirements options.capability_fallback_scope
          options.require_ready_backend)
        refl
    where
      picks : Picks stands_in router.list_models none (
          pick_fallback router primary requirements options.capability_fallback_scope
            options.require_ready_backend)
      picks =
          pick_fallback-Picks router primary requirements options.capability_fallback_scope
            options.require_ready_backend

      go :
          (o : Option Model)
          → pick_fallback router primary requirements options.capability_fallback_scope
              options.require_ready_backend
            ≡ o
          → Settles true (
              with_fallback router primary requirements options true feature
                (failed status (some primary) missing_feature reason))
      go none e =
          rw (e, with_fallback)
            (record {
              serves = λ f. absurd (bad f);
              keeps = λ f. cc;
              gives_up = λ m a f l c. picks.no_other m e (inr (l, c));
              found = found;
            })
      go (some m) e =
          rw (e, with_fallback)
            (record {
              serves = λ f.
                  candidate_serves m feature
                    (elim (picks.from m e) [ inl g ↦ cc | inr (l, c) ↦ c ]);
              keeps = λ f. cc;
              gives_up = λ x a f l c. f refl;
              found = λ f. cc;
            })

  select_primary-Settles :
      (allowed : Bool)
      → Settles allowed (select_primary router primary requirements options allowed)
  unfolding select_primary
  select_primary-Settles allowed =
      let check = check_capabilities (effective_capabilities primary) requirements in
      let backend = router.get_backend primary.id in
      elim (Bool-cases check.supported) [
        | inr bad ↦ rw bad (
            with_fallback-Settles allowed
              (or_text check.missing_feature (codes "unsupported_feature")) unsupported
              check.missing_feature
              (or_text check.reason (codes "Selected model does not support requested features"))
              (λ e. cc) (λ e. cc))
        | inl ok ↦
            rw ok
              (elim (Bool-cases
                (options.require_ready_backend && not (is_backend_ready router backend))) [
                  | inl waits ↦ rw waits (
                      with_fallback-Settles allowed (codes "backend_unavailable")
                        backend_unavailable [] (codes "Selected model backend is not ready")
                        (λ e. cc) (λ e. cc))
                  | inr good ↦ rw good (record {
                    serves = λ e. record {
                      model = primary;
                      info = refl;
                      backend = refl;
                      meets_all =
                          sym
                            (check_capabilities-meets (effective_capabilities primary) requirements)
                          ∙ ok;
                      ready = λ r. ground (arith, good, r);
                    };
                    keeps = λ e. (refl, refl);
                    gives_up = λ m a f l c. f refl;
                    found = λ e. cc;
                  })
                ])
      ]

-- SelectModelForRequest with a router. If the request resolves to no model the status is not found. Else
-- it is another: if it is selected, the model's effective capabilities have every feature that is needed,
-- the backend is the router's for the model, and it is ready if that is required; where no fallback is
-- allowed, which is so for a model that is named, the result is about the resolved model and no fallback;
-- and where one is allowed, the selection fails only if no listed model could stand in.
pub select_model-Settles :
    (router : Router) (requested : Text) (requirements : Requirements) (options : Options)
    → let s = select_model (some router) requested requirements options in
      let allowed = options.allow_capability_fallback_for_default && not (is_explicit requested) in
      ((resolved router requested ≡ none) × (s.status ≡ not_found))
      ⊎ ((primary : Model) × (resolved router requested ≡ some primary)
          × Settles router primary requirements options allowed s)
unfolding select_model
select_model-Settles router requested requirements options =
    elim (Option-cases (resolved router requested)) [
      | inl e ↦ rw (e, select_model) (inl (refl, refl))
      | inr (primary, e) ↦
          rw (e, select_model)
            (inr (
              primary,
              refl,
              select_primary-Settles router primary requirements options
                  (options.allow_capability_fallback_for_default && not (is_explicit requested)),
            ))
    ]
