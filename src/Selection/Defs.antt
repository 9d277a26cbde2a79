-- ===== src/Selection/Defs.antt =====
-- The selection of a model for a request.
use inferflux.Prelude.{
  ℕ, ◌+◌, Bool, true, false, not, ◌&&◌, ◌||◌, Option, List, [], leb, if◌then◌else◌, map,
}
use inferflux.Prelude.Text.{Text, codes, same}

-- `BackendCapabilities`.
pub record Capabilities : Type 0 where
  pub supports_generation : Bool
  pub supports_streaming : Bool
  pub supports_logprobs : Bool
  pub supports_structured_output : Bool
  pub supports_embeddings : Bool
  pub supports_vision : Bool
  pub supports_speculative_decoding : Bool
  pub supports_fairness_preemption : Bool
  pub supports_kv_prefix_transfer : Bool

-- `BackendFeatureRequirements`.
pub record Requirements : Type 0 where
  pub needs_generation : Bool
  pub needs_streaming : Bool
  pub needs_logprobs : Bool
  pub needs_structured_output : Bool
  pub needs_embeddings : Bool
  pub needs_vision : Bool
  pub needs_speculative_decoding : Bool
  pub needs_fairness_preemption : Bool

-- `CapabilityCheckResult`.
pub record Check : Type 0 where
  pub supported : Bool
  pub missing_feature : Text
  pub reason : Text

-- `Missing`.
abbrev pub missing : Text → Text → Check
missing feature reason = record { supported = false; missing_feature = feature; reason = reason }

abbrev pub passed : Check
passed = record { supported = true; missing_feature = []; reason = [] }

-- `BuildGenerationFeatureRequirements`.
unfoldable pub build_generation_requirements :
    Bool → Bool → Bool → Bool → Bool → Bool → Requirements
build_generation_requirements streaming logprobs structured_output vision speculative fairness =
    record {
      needs_generation = true;
      needs_streaming = streaming;
      needs_logprobs = logprobs;
      needs_structured_output = structured_output;
      needs_embeddings = false;
      needs_vision = vision;
      needs_speculative_decoding = speculative;
      needs_fairness_preemption = fairness;
    }

-- `BuildEmbeddingFeatureRequirements`.
unfoldable pub build_embedding_requirements : Requirements
build_embedding_requirements = record {
  needs_generation = false;
  needs_streaming = false;
  needs_logprobs = false;
  needs_structured_output = false;
  needs_embeddings = true;
  needs_vision = false;
  needs_speculative_decoding = false;
  needs_fairness_preemption = false;
}

-- `CheckBackendCapabilities`.
unfoldable pub check_capabilities : Capabilities → Requirements → Check
check_capabilities c r =
    if r.needs_generation && not c.supports_generation
    then missing (codes "generation") (codes "Selected model does not support text generation")
    else if r.needs_structured_output && not c.supports_structured_output
    then missing (codes "structured_output")
        (codes "Selected model/backend does not support response_format constraints")
    else if r.needs_logprobs && not c.supports_logprobs
    then missing (codes "logprobs") (codes "Selected model/backend does not support logprobs")
    else if r.needs_streaming && not c.supports_streaming
    then missing (codes "streaming") (codes "Selected model/backend does not support streaming")
    else if r.needs_embeddings && not c.supports_embeddings
    then missing (codes "embeddings") (codes "Selected model/backend does not support embeddings")
    else if r.needs_vision && not c.supports_vision
    then missing (codes "vision") (codes "Selected model/backend does not support image inputs")
    else if r.needs_speculative_decoding && not c.supports_speculative_decoding
    then missing (codes "speculative_decoding")
        (codes "Selected model/backend does not support speculative decoding")
    else if r.needs_fairness_preemption && not c.supports_fairness_preemption
    then missing (codes "fairness_preemption")
        (codes "Selected model/backend does not support fairness preemption")
    else passed

-- The fields of `ModelInfo` that the selection reads.
pub record Model : Type 0 where
  pub id : Text
  pub path : Text
  pub backend : Text
  pub backend_fallback : Bool
  pub capabilities : Capabilities
  pub supports_structured_output : Bool

-- `ModelResolver`: what the selection asks of it. A backend is an address.
pub record Router : Type 0 where
  pub list_models : List Model
  pub resolve : Text → Option Model
  pub resolve_exact : Text → Option Model
  pub get_backend : Text → Option ℕ
  pub is_ready : ℕ → Bool

-- `ToLower`, on the ASCII letters.
abbrev pub to_lower : Text → Text
to_lower = map (λ b. if leb 65 b && leb b 90 then b + 32 else b)

-- `IsDefaultModelAlias`.
abbrev pub is_default_alias : Text → Bool
is_default_alias value = same (to_lower value) (codes "default")

-- `EffectiveCapabilities`.
abbrev pub effective_capabilities : Model → Capabilities
effective_capabilities m =
    if m.supports_structured_output
    then m.capabilities
    else record m.capabilities { supports_structured_output = false }

-- `BackendPreferenceRank`.
unfoldable pub backend_preference_rank : Text → ℕ
backend_preference_rank label =
    let lowered = to_lower label in
    if same lowered (codes "cuda")
    then 0
    else if same lowered (codes "rocm")
    then 1
    else if same lowered (codes "mps")
    then 2
    else if same lowered (codes "mlx")
    then 3
    else if same lowered (codes "vulkan")
    then 4
    else if same lowered (codes "cpu")
    then 5
    else 6

-- `CapabilityFallbackScope`.
pub data Scope : Type 0 where
  any_compatible : Scope
  same_path_only : Scope

abbrev pub is_same_path_only : Scope → Bool
is_same_path_only any_compatible = false
is_same_path_only same_path_only = true

-- `CapabilityFallbackScopeToString`.
unfoldable pub scope_text : Scope → Text
scope_text same_path_only = codes "same_path_only"
scope_text any_compatible = codes "any_compatible"

-- `IsCapabilityFallbackScopeValue`.
unfoldable pub is_scope_value : Text → Bool
is_scope_value value =
    let normalized = to_lower value in
    same normalized (codes "same_path")
    || same normalized (codes "same_path_only")
    || same normalized (codes "any")
    || same normalized (codes "any_compatible")

-- `ParseCapabilityFallbackScope`.
unfoldable pub parse_scope : Text → Scope → Scope
parse_scope value default_scope =
    let normalized = to_lower value in
    if same normalized (codes "same_path") || same normalized (codes "same_path_only")
    then same_path_only
    else if same normalized (codes "any") || same normalized (codes "any_compatible")
    then any_compatible
    else default_scope

-- `ModelSelectionOptions`.
pub record Options : Type 0 where
  pub allow_capability_fallback_for_default : Bool
  pub require_ready_backend : Bool
  pub capability_fallback_scope : Scope

-- `ModelSelectionStatus`.
pub data Status : Type 0 where
  selected : Status
  not_found : Status
  unsupported : Status
  backend_unavailable : Status

-- `ModelSelectionResult`; without a model its `info` is the default one.
pub record Selection : Type 0 where
  pub status : Status
  pub info : Option Model
  pub backend : Option ℕ
  pub used_fallback : Bool
  pub fallback_from_backend : Text
  pub fallback_feature : Text
  pub missing_feature : Text
  pub reason : Text
