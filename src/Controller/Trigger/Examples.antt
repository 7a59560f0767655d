-- ===== src/Controller/Trigger/Examples.antt =====
-- internal/controller/provisiontrigger.go: the theorems at two models that fit one node.
mod Periodic
use gpuscale.Prelude.{◌≡◌, refl, false, [], ◌∷◌, none, some, Text, txt, text_eq}
use gpuscale.Provider.{ok}
use gpuscale.Demand.Json.{ModelConfig}
use gpuscale.Controller.Capacity.{ModelDemand}
use gpuscale.Controller.Claims.{Claim, Pool}
use gpuscale.Controller.Trigger.{World, aggregate_models_for_claim, trigger_claim}
use gpuscale.Controller.Trigger.Bundling.{IsBundle, demands_of, aggregate_models_for_claim-IsBundle}

abbrev pub config : ModelConfig
config = record {
  id = txt "m";
  always_active = false;
  min_replicas = 0;
  min_disk = 0;
  source = txt "hf:org/m";
  vram_required = 24;
  multi_gpu = false;
  max_replicas = 2;
  node_type = [];
  max_price_per_gpu = 0;
  max_vram_per_gpu = 0;
  preferred_gpus = [];
  pool = [];
}

abbrev pub demand_for : Text → ModelDemand
demand_for model = record {
  model = model;
  queue_depth = 1;
  active_demand = 0;
  vram_required = 24;
  always_active = false;
  multi_gpu = false;
}

abbrev pub pool : Pool
pool = record {
  name = txt "pool";
  providers = [];
  image = [];
  gpu_api_url = [];
  model_cache_url = [];
  has_token_secret = false;
  max_nodes = 1;
  min_nodes = 0;
  billing_period = 0;
  min_vram = 0;
  min_disk = 0;
  min_ram = 0;
  gpu_types = [];
  min_pcie_gen = 0;
  limits = none;
}

abbrev pub cluster : World
cluster = record {
  model_config = λ n m. ok (some config);
  list_claims = ok [];
  list_pools = ok (pool ∷ []);
  queue_depth = λ m. ok 1;
  all_demands = ok (demand_for (txt "a") ∷ demand_for (txt "b") ∷ []);
  claim_name = txt "claim-1";
  create_error = none;
}

aggregate_models_for_claim_example :
    IsBundle cluster
      (txt "a")
      config
      []
      (demands_of cluster (txt "a") config [] cluster.all_demands)
      (aggregate_models_for_claim cluster (txt "a") config [])
aggregate_models_for_claim_example = aggregate_models_for_claim-IsBundle cluster (txt "a") config []

-- Both models share the claim.
bundled : (aggregate_models_for_claim cluster (txt "a") config []).others ≡ txt "b" ∷ []
unfolding aggregate_models_for_claim text_eq
bundled = refl

abbrev triggered_claim : Claim
triggered_claim =
    trigger_claim (txt "claim-1") (txt "a") config pool
      (record { others = txt "b" ∷ []; vram = 48 }) 98
