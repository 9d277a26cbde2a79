-- ===== src/Selection/Ops.antt =====
-- `SelectModelForRequest` and the choice of a fallback.
use inferflux.Prelude.{
  ℕ, ◌==◌, Bool, true, false, not, ◌&&◌, ◌||◌, Option, none, some, List, [], ◌∷◌, ltb,
  if◌then◌else◌,
}
use inferflux.Prelude.Text.{Text, codes, same, is_empty}
use inferflux.Selection.Defs.{
  Requirements, check_capabilities, Model, Router, is_default_alias, effective_capabilities,
  backend_preference_rank, Scope, is_same_path_only, Options, Status, selected, not_found,
  unsupported, backend_unavailable, Selection,
}

-- `<` of `std::string`.
unfoldable pub text_less : Text → Text → Bool
text_less [] [] = false
text_less [] (y ∷ ys) = true
text_less (x ∷ xs) [] = false
text_less (x ∷ xs) (y ∷ ys) = ltb x y || x == y && text_less xs ys

-- The tuple by which candidates are compared, and `<` of tuples.
pub record Key : Type 0 where
  pub rank : ℕ
  pub fallback : ℕ
  pub id : Text

abbrev pub key_less : Key → Key → Bool
key_less a b =
    ltb a.rank b.rank
    || a.rank == b.rank
      && (ltb a.fallback b.fallback || a.fallback == b.fallback && text_less a.id b.id)

abbrev pub candidate_key : Model → Key
candidate_key m = record {
  rank = backend_preference_rank m.backend;
  fallback = if m.backend_fallback then 1 else 0;
  id = m.id;
}

abbrev pub is_backend_ready : Router → Option ℕ → Bool
is_backend_ready router none = false
is_backend_ready router (some b) = router.is_ready b

-- Whether `PickFallbackCandidate` considers a model.
unfoldable pub is_candidate : Router → Model → Requirements → Scope → Bool → Model → Bool
is_candidate router primary requirements scope require_ready m =
    not (is_empty m.id || same m.id primary.id)
    && not
        (is_same_path_only scope && not (is_empty primary.path) && not (same m.path primary.path))
    && (check_capabilities (effective_capabilities m) requirements).supported
    && not (require_ready && not (is_backend_ready router (router.get_backend m.id)))

abbrev pub chosen : Router → Model → Text → Model → Selection
chosen router primary feature m = record {
  status = selected;
  info = some m;
  backend = router.get_backend m.id;
  used_fallback = true;
  fallback_from_backend = primary.backend;
  fallback_feature = feature;
  missing_feature = [];
  reason = [];
}

abbrev pub beats : Model → Option Model → Key → Bool
beats m none best_key = true
beats m (some b) best_key = key_less (candidate_key m) best_key

-- The loop of `PickFallbackCandidate`, with the best model so far and its key.
unfoldable pub fallback_loop : (Model → Bool) → List Model → Option Model → Key → Option Model
fallback_loop admits [] best best_key = best
fallback_loop admits (m ∷ ms) best best_key =
    let takes = admits m && beats m best best_key in
    fallback_loop admits ms (if takes then some m else best)
      (if takes then candidate_key m else best_key)

-- `PickFallbackCandidate`.
unfoldable pub pick_fallback : Router → Model → Requirements → Scope → Bool → Option Model
pick_fallback router primary requirements scope require_ready =
    fallback_loop (is_candidate router primary requirements scope require_ready) router.list_models
      none (record { rank = 999; fallback = 1; id = [] })

abbrev pub failed : Status → Option Model → Text → Text → Selection
failed status info missing_feature reason = record {
  status = status;
  info = info;
  backend = none;
  used_fallback = false;
  fallback_from_backend = [];
  fallback_feature = [];
  missing_feature = missing_feature;
  reason = reason;
}

abbrev pub or_text : Text → Text → Text
or_text text otherwise = if is_empty text then otherwise else text

-- The two places of `SelectModelForRequest` that try a fallback.
abbrev pub with_fallback :
    Router → Model → Requirements → Options → Bool → Text → Selection → Selection
with_fallback router primary requirements options allowed feature failure =
    if allowed
    then elim (pick_fallback router primary requirements options.capability_fallback_scope
        options.require_ready_backend) [ some m ↦ chosen router primary feature m | none ↦ failure ]
    else failure

-- What follows once the primary model is resolved.
unfoldable pub select_primary : Router → Model → Requirements → Options → Bool → Selection
select_primary router primary requirements options allowed =
    let check = check_capabilities (effective_capabilities primary) requirements in
    let backend = router.get_backend primary.id in
    if not check.supported
    then with_fallback router primary requirements options allowed
        (or_text check.missing_feature (codes "unsupported_feature"))
        (failed unsupported (some primary) check.missing_feature
          (or_text check.reason (codes "Selected model does not support requested features")))
    else if options.require_ready_backend && not (is_backend_ready router backend)
    then with_fallback router primary requirements options allowed (codes "backend_unavailable")
        (failed backend_unavailable (some primary) [] (codes "Selected model backend is not ready"))
    else record {
      status = selected;
      info = some primary;
      backend = backend;
      used_fallback = false;
      fallback_from_backend = [];
      fallback_feature = [];
      missing_feature = [];
      reason = [];
    }

abbrev pub is_explicit : Text → Bool
is_explicit requested = not (is_empty requested) && not (is_default_alias requested)

-- The model that the router resolves the request to.
abbrev pub resolved : Router → Text → Option Model
resolved router requested =
    if is_explicit requested then router.resolve_exact requested else router.resolve []

-- `SelectModelForRequest`, with no router for the null pointer.
unfoldable pub select_model : Option Router → Text → Requirements → Options → Selection
select_model none requested requirements options =
    failed not_found none [] (codes "router unavailable")
select_model (some router) requested requirements options = elim (resolved router requested) [
  | none ↦ failed not_found none [] (codes "model not found")
  | some primary ↦
      select_primary router primary requirements options
        (options.allow_capability_fallback_for_default && not (is_explicit requested))
]
