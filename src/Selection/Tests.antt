-- ===== src/Selection/Tests.antt =====
-- Runs of the selection on small inputs, and its theorems at such inputs.
use inferflux.Prelude.{◌≡◌, refl, ◌⊎◌, true, false, not, ◌&&◌, none, some, [], ◌∷◌, if◌then◌else◌}
use inferflux.Prelude.Text.{codes, same, is_empty}
use inferflux.Selection.Defs.{
  Capabilities, Requirements, build_generation_requirements, check_capabilities, Model, Router,
  any_compatible, Options, not_found, backend_preference_rank,
}
use inferflux.Selection.Ops.{
  is_candidate, pick_fallback, fallback_loop, select_model, select_primary, is_explicit, resolved,
  text_less,
}
use inferflux.Selection.Fallback.{Picks, pick_fallback-Picks}
use inferflux.Selection.Select.{Settles, select_model-Settles}

abbrev plain : Capabilities
plain = record {
  supports_generation = true;
  supports_streaming = true;
  supports_logprobs = true;
  supports_structured_output = true;
  supports_embeddings = true;
  supports_vision = false;
  supports_speculative_decoding = true;
  supports_fairness_preemption = true;
  supports_kv_prefix_transfer = true;
}

abbrev first_model : Model
first_model = record {
  id = codes "a";
  path = codes "m.gguf";
  backend = codes "cuda";
  backend_fallback = false;
  capabilities = plain;
  supports_structured_output = true;
}

abbrev seeing_model : Model
seeing_model = record first_model {
  id = codes "b";
  backend = codes "cpu";
  capabilities = record plain { supports_vision = true };
}

abbrev router : Router
router = record {
  list_models = first_model ∷ seeing_model ∷ [];
  resolve = λ t. some first_model;
  resolve_exact = λ t. if same t (codes "a") then some first_model else none;
  get_backend = λ t. if same t (codes "a") then some 1 else some 2;
  is_ready = λ b. true;
}

abbrev options : Options
options = record {
  allow_capability_fallback_for_default = true;
  require_ready_backend = true;
  capability_fallback_scope = any_compatible;
}

abbrev with_image : Requirements
with_image = build_generation_requirements false false false true false false

falls_back :
    (select_model (some router) (codes "Default") with_image options).info ≡ some seeing_model
unfolding select_model select_primary pick_fallback fallback_loop is_candidate check_capabilities
    build_generation_requirements same is_empty backend_preference_rank text_less
falls_back = refl

refuses_a_named_one :
    (select_model (some router) (codes "a") with_image options).info ≡ some first_model
unfolding select_model select_primary check_capabilities build_generation_requirements same is_empty
refuses_a_named_one = refl

-- The label of a backend in any case has its rank, and a canonical identifier has the last one.
cuda_is_first :
    (backend_preference_rank (codes "CUDA") ≡ 0)
    × (backend_preference_rank (codes "inferflux_cuda") ≡ 6)
unfolding backend_preference_rank same
cuda_is_first = (refl, refl)

pick_fallback-Picks_example :
    Picks
      (is_candidate router first_model with_image any_compatible true)
      router.list_models
      none
      (pick_fallback router first_model with_image any_compatible true)
pick_fallback-Picks_example = pick_fallback-Picks router first_model with_image any_compatible true

select_model-Settles_example :
    let s = select_model (some router) (codes "default") with_image options in
    ((resolved router (codes "default") ≡ none) × (s.status ≡ not_found))
    ⊎ ((primary : Model) × (resolved router (codes "default") ≡ some primary)
        × Settles router primary with_image options (true && not (is_explicit (codes "default"))) s)
select_model-Settles_example = select_model-Settles router (codes "default") with_image options
