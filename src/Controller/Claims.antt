-- ===== src/Controller/Claims.antt =====
-- api/v1alpha1/types.go, with the helpers of internal/controller that only read a claim.
use gpuscale.Prelude.{
  ℕ, Bool, true, false, not, ◌&&◌, ◌||◌, if◌then◌else◌, List, [], ◌∷◌, Option, none, some, Text,
  text_eq, is_empty, contains_text, count, lookup,
}

-- `unset` is any other string, the empty one of a new claim above all.
pub data Phase : Type 0 where
  unset pending provisioning bootstrapping ready draining terminated hibernated : Phase

pub record ClaimRequirements : Type 0 where
  pub gpu_count : ℕ
  pub min_vram : ℕ
  pub max_vram : ℕ
  pub gpu_types : List Text
  pub max_price_per_gpu : ℕ
  pub min_disk : ℕ
  pub multi_gpu : Bool

pub record ClaimSpec : Type 0 where
  pub pool_ref : Text
  pub provider : Text
  pub node_type : Text
  pub model_id : Text
  pub model_ids : List Text
  pub model_source : Text
  pub requirements : ClaimRequirements

-- `conditions` holds the type and the reason of each condition, newest first.
pub record ClaimStatus : Type 0 where
  pub provider : Text
  pub instance_id : Text
  pub node_type : Text
  pub node_name : Text
  pub endpoint : Text
  pub gpu_type : Text
  pub gpu_count : ℕ
  pub price_per_hour : ℕ
  pub phase : Phase
  pub conditions : List (Text × Text)
  pub provisioned_at : Option ℕ
  pub ready_at : Option ℕ
  pub idle_since : Option ℕ
  pub retry_count : ℕ

pub record Claim : Type 0 where
  pub name : Text
  pub annotations : List (Text × Text)
  pub finalizers : List Text
  pub is_deleting : Bool
  pub spec : ClaimSpec
  pub status : ClaimStatus

pub record ProviderConfig : Type 0 where
  pub name : Text
  pub node_type : Text

pub record PoolLimits : Type 0 where
  pub max_gpus : ℕ
  pub max_cost_per_hour : ℕ

pub record Pool : Type 0 where
  pub name : Text
  pub providers : List ProviderConfig
  pub image : Text
  pub gpu_api_url : Text
  pub model_cache_url : Text
  pub has_token_secret : Bool
  pub max_nodes : ℕ
  pub min_nodes : ℕ
  pub billing_period : ℕ
  pub min_vram : ℕ
  pub min_disk : ℕ
  pub min_ram : ℕ
  pub gpu_types : List Text
  pub min_pcie_gen : ℕ
  pub limits : Option PoolLimits

abbrev pub same_phase : Phase → Phase → Bool
same_phase unset unset = true
same_phase pending pending = true
same_phase provisioning provisioning = true
same_phase bootstrapping bootstrapping = true
same_phase ready ready = true
same_phase draining draining = true
same_phase terminated terminated = true
same_phase hibernated hibernated = true
same_phase _ _ = false

-- `claim.Annotations[key]`, the empty string if the key is missing.
abbrev pub text_or_empty : Option Text → Text
text_or_empty none = []
text_or_empty (some t) = t

unfoldable pub annotation : Claim → Text → Text
annotation c key = text_or_empty (lookup key c.annotations)

unfoldable pub claim_model_ids : Claim → List Text
claim_model_ids c = elim c.spec.model_ids [
  | m ∷ ms ↦ m ∷ ms
  | [] ↦ if is_empty c.spec.model_id then [] else c.spec.model_id ∷ []
]

abbrev pub first_or_empty : List Text → Text
first_or_empty [] = []
first_or_empty (m ∷ ms) = m

unfoldable pub claim_primary_model : Claim → Text
unfolding claim_model_ids
claim_primary_model c = first_or_empty (claim_model_ids c)

unfoldable pub resolve_claim_provider : Claim → Text
resolve_claim_provider c = if is_empty c.spec.provider then c.status.provider else c.spec.provider

unfoldable pub resolve_claim_node_type : Claim → Text
resolve_claim_node_type c =
    if is_empty c.spec.node_type then c.status.node_type else c.spec.node_type

-- The claim serves the model, as its primary one or as a co-located one.
unfoldable pub serves : Text → Claim → Bool
serves model c = text_eq c.spec.model_id model || contains_text model c.spec.model_ids

-- The phases in which a claim does not count as a replica.
abbrev pub is_inactive : Phase → Bool
is_inactive terminated = true
is_inactive draining = true
is_inactive hibernated = true
is_inactive _ = false

unfoldable pub count_active_claims_for_model : List Claim → Text → ℕ
count_active_claims_for_model claims model =
    count (λ c. not (is_inactive c.status.phase) && serves model c) claims

-- The loop of `hasOtherReadyClaims`, over the listed claims.
unfoldable pub has_other_ready : List Claim → Text → Text → Bool
has_other_ready [] model exclude = false
has_other_ready (c ∷ cs) model exclude =
    if text_eq c.name exclude
    then has_other_ready cs model exclude
    else if not (same_phase c.status.phase ready)
    then has_other_ready cs model exclude
    else if serves model c
    then true
    else has_other_ready cs model exclude
