-- ===== src/Controller/Capacity.antt =====
-- internal/controller/binpacking.go, and the demand record of demandstore.go. The texts of the
-- reasons are constructors with the numbers that they print.
pub mod Decision
use gpuscale.Prelude.{
  ℕ, ◌+◌, ◌-◌, Bool, true, false, not, ◌&&◌, ◌||◌, ltb, leb, ◌==◌, if◌then◌else◌, List, [], ◌∷◌,
  ◌++◌, Text, contains_text, keep, map, length,
}
use gpuscale.Provider.{GpuRequirements}

pub record ModelDemand : Type 0 where
  pub model : Text
  pub queue_depth : ℕ
  pub active_demand : ℕ
  pub vram_required : ℕ
  pub always_active : Bool
  pub multi_gpu : Bool

pub record GpuNode : Type 0 where
  pub node_id : Text
  pub gpu_type : Text
  pub gpu_count : ℕ
  pub vram_per_gpu : ℕ
  pub total_vram : ℕ
  pub used_vram : ℕ
  pub free_vram : ℕ

pub record ClusterCapacity : Type 0 where
  pub nodes : List GpuNode
  pub total_gpus : ℕ
  pub total_vram : ℕ
  pub loaded_models : List Text
  pub used_vram : ℕ
  pub free_vram : ℕ

pub data Reason : Type 0 where
  no_demand nothing_needed : Reason
  cold_cluster : (needed models : ℕ) → Reason
  enough_free : (free needed models : ℕ) → Reason
  capacity_gap : (gap free needed models : ℕ) → Reason

pub record ProvisioningDecision : Type 0 where
  pub should_provision : Bool
  pub reason : Reason
  pub models : List Text
  pub required_vram : ℕ
  pub multi_gpu : Bool

abbrev hold : Reason → ProvisioningDecision
hold r = record {
  should_provision = false;
  reason = r;
  models = [];
  required_vram = 0;
  multi_gpu = false;
}

-- The test of the loop in `filterModelsNeedingCapacity`.
unfoldable pub needs_capacity : ClusterCapacity → ModelDemand → Bool
needs_capacity capacity d =
    (ltb 0 d.queue_depth || (ltb 0 d.active_demand || d.always_active))
    && not (contains_text d.model capacity.loaded_models)

unfoldable pub filter_models_needing_capacity :
    List ModelDemand → ClusterCapacity → List ModelDemand
filter_models_needing_capacity demands capacity = keep (needs_capacity capacity) demands

-- The totals of the loop over the models that need capacity.
unfoldable pub vram_needed : List ModelDemand → ℕ
vram_needed [] = 0
vram_needed (d ∷ ds) = d.vram_required + vram_needed ds

unfoldable pub any_multi_gpu : List ModelDemand → Bool
any_multi_gpu [] = false
any_multi_gpu (d ∷ ds) = d.multi_gpu || any_multi_gpu ds

abbrev pub model_names : List ModelDemand → List Text
model_names ds = map (λ d. d.model) ds

abbrev is_nil {ℓ} : {A : Type ℓ} → List A → Bool
is_nil [] = true
is_nil (x ∷ xs) = false

-- The decision once the models that need capacity are known.
unfoldable pub decide_for : List ModelDemand → ClusterCapacity → ProvisioningDecision
decide_for [] capacity = hold nothing_needed
decide_for (d ∷ ds) capacity =
    let needed = vram_needed (d ∷ ds) in
    let names = model_names (d ∷ ds) in
    if is_nil capacity.nodes || capacity.total_gpus == 0
    then record {
      should_provision = true;
      reason = cold_cluster needed (length names);
      models = names;
      required_vram = needed;
      multi_gpu = any_multi_gpu (d ∷ ds);
    }
    else if leb needed capacity.free_vram
    then hold (enough_free capacity.free_vram needed (length names))
    else record {
      should_provision = true;
      reason = capacity_gap (needed - capacity.free_vram) capacity.free_vram needed (length names);
      models = names;
      required_vram = needed - capacity.free_vram;
      multi_gpu = any_multi_gpu (d ∷ ds);
    }

unfoldable pub decide_provisioning : List ModelDemand → ClusterCapacity → ProvisioningDecision
decide_provisioning [] capacity = hold no_demand
decide_provisioning (d ∷ ds) capacity =
    decide_for (filter_models_needing_capacity (d ∷ ds) capacity) capacity

-- An unset number is zero, and an unset text empty.
unfoldable pub create_provisioning_requirements : ProvisioningDecision → GpuRequirements
create_provisioning_requirements d = record {
  gpu_count = 0;
  min_vram = d.required_vram;
  max_vram = 0;
  gpu_types = [];
  max_price_per_hour = 0;
  capacity_type = [];
  min_disk = 0;
  min_ram = 0;
  node_type = [];
  min_pcie_gen = 0;
  multi_gpu = d.multi_gpu;
}
