-- ===== src/Controller/Trigger.antt =====
-- internal/controller/provisiontrigger.go: `handleTrigger` and `aggregateModelsForClaim`. A
-- capacity request for a model becomes a claim, in which other models that are asked for find
-- room. The texts of the errors, which are only logged, are left out.
pub mod Bundling
pub mod Consolidation
pub mod Debounce
pub mod Queues
pub mod Replicas
mod Examples
use gpuscale.Prelude.{
  ℕ, suc, ◌+◌, Bool, true, false, not, ◌&&◌, ◌||◌, ltb, leb, ◌==◌, if◌then◌else◌, List, [], ◌∷◌,
  ◌++◌, Option, none, some, Text, text_eq, is_empty, any, count,
}
use gpuscale.Provider.{Error, Result, ok, err}
use gpuscale.Demand.Json.{ModelConfig}
use gpuscale.Controller.Capacity.{ModelDemand}
use gpuscale.Controller.Claims.{Claim, Pool, is_inactive, serves, count_active_claims_for_model}
use gpuscale.Controller.Reconciler.Ending.{finalizer}
use gpuscale.Controller.Provisioner.{find_pool, new_status, pool_node_type}
use gpuscale.Controller.Provisioner.Counts.{of_pool}

pub record World : Type 0 where
  pub model_config : ℕ → Text → Result (Option ModelConfig)
  pub list_claims : Result (List Claim)
  pub list_pools : Result (List Pool)
  pub queue_depth : Text → Result ℕ
  pub all_demands : Result (List ModelDemand)
  pub claim_name : Text
  pub create_error : Option Error

-- What `handleTrigger` comes to: an error, nothing to do, or a claim.
pub data Triggered : Type 0 where
  refused skipped : Triggered
  created : Claim → Triggered

abbrev pub max_bundle_vram_gb : ℕ
max_bundle_vram_gb = 96

-- The models beside the primary one, and the VRAM of all.
pub record Bundle : Type 0 where
  pub others : List Text
  pub vram : ℕ

-- An active claim serves the model.
abbrev pub is_covered : List Claim → Text → Bool
is_covered claims model = any (λ c. not (is_inactive c.status.phase) && serves model c) claims

module _ (w : World) (primary : Text) (cfg : ModelConfig) (claims : List Claim) where
  -- The tests that need the config of the other model.
  unfoldable pub join_with : Result (Option ModelConfig) → Text → Bundle → Bundle
  join_with (err e) model b = b
  join_with (ok none) model b = b
  join_with (ok (some other)) model b =
      if not (text_eq other.node_type cfg.node_type)
      then b
      else if ltb max_bundle_vram_gb (b.vram + other.vram_required)
      then b
      else if is_covered claims model
      then b
      else record { others = b.others ++ (model ∷ []); vram = b.vram + other.vram_required }

  -- The body of the loop over the demands.
  unfoldable pub join : ℕ → ModelDemand → Bundle → Bundle
  unfolding join_with
  join n d b =
      if text_eq d.model primary
      then b
      else if d.queue_depth == 0 && d.active_demand == 0
      then b
      else join_with (w.model_config n d.model) d.model b

  unfoldable pub join_all : ℕ → List ModelDemand → Bundle → Bundle
  unfolding join
  join_all n [] b = b
  join_all n (d ∷ ds) b = join_all (suc n) ds (join n d b)

  abbrev pub alone : Bundle
  alone = record { others = []; vram = cfg.vram_required }

  abbrev pub bundle_of : Result (List ModelDemand) → Bundle
  bundle_of (err e) = alone
  bundle_of (ok demands) = join_all 1 demands alone

  unfoldable pub aggregate_models_for_claim : Bundle
  unfolding join_all
  aggregate_models_for_claim = bundle_of w.all_demands

-- The disk that the bundle needs, left at zero if the demands cannot be read.
abbrev pub disk_of : Result (List ModelDemand) → Bundle → ℕ
disk_of (err e) b = 0
disk_of (ok demands) b = b.vram + 50

abbrev pub or_one : ℕ → ℕ
or_one n = if ltb n 1 then 1 else n

abbrev if_alone {ℓ} : {A : Type ℓ} → List Text → A → A → A
if_alone [] a b = a
if_alone (t ∷ ts) a b = b

abbrev trigger_node_type : ModelConfig → Pool → Text
trigger_node_type cfg pool =
    if is_empty cfg.node_type then pool_node_type pool.providers else cfg.node_type

unfoldable pub trigger_claim : Text → Text → ModelConfig → Pool → Bundle → ℕ → Claim
trigger_claim name model cfg pool b disk = record {
  name = name;
  annotations = [];
  finalizers = finalizer ∷ [];
  is_deleting = false;
  spec = record {
    pool_ref = pool.name;
    provider = [];
    node_type = trigger_node_type cfg pool;
    model_id = model;
    model_ids = model ∷ b.others;
    model_source = cfg.source;
    requirements = record {
      gpu_count = 0;
      min_vram = b.vram;
      max_vram = if_alone b.others cfg.max_vram_per_gpu 0;
      gpu_types = if_alone b.others cfg.preferred_gpus [];
      max_price_per_gpu = cfg.max_price_per_gpu;
      min_disk = disk;
      multi_gpu = cfg.multi_gpu;
    };
  };
  status = new_status;
}

module _ (w : World) (model : Text) where
  -- `r.Create`
  abbrev pub create : Option Error → Claim → Triggered
  create (some e) c = refused
  create none c = created c

  -- The pool is known.
  abbrev pub trigger_in : ModelConfig → List Claim → Option Pool → Triggered
  trigger_in cfg claims none = refused
  trigger_in cfg claims (some pool) =
      if leb pool.max_nodes (count (λ c. true) (of_pool pool claims))
      then refused
      else (let b = aggregate_models_for_claim w model cfg claims in
          create w.create_error
            (trigger_claim w.claim_name model cfg pool b (disk_of w.all_demands b)))

  abbrev pub trigger_among : ModelConfig → List Claim → Result (List Pool) → Triggered
  trigger_among cfg claims (err e) = refused
  trigger_among cfg claims (ok pools) =
      trigger_in cfg claims (find_pool pools cfg.pool cfg.node_type)

  abbrev pub if_queued : Result ℕ → Triggered → Triggered
  if_queued (err e) t = refused
  if_queued (ok n) t = if n == 0 then skipped else t

  -- Another replica is only added while requests wait.
  abbrev pub scale_up : ℕ → Triggered → Triggered
  scale_up active t = if ltb 0 active then if_queued (w.queue_depth model) t else t

  abbrev pub trigger_with : ModelConfig → Result (List Claim) → Triggered
  trigger_with cfg (err e) = refused
  trigger_with cfg (ok claims) =
      let active = count_active_claims_for_model claims model in
      if leb (or_one cfg.max_replicas) active
      then skipped
      else scale_up active (trigger_among cfg claims w.list_pools)

  abbrev pub trigger_config : Result (Option ModelConfig) → Triggered
  trigger_config (err e) = refused
  trigger_config (ok none) = refused
  trigger_config (ok (some cfg)) = trigger_with cfg w.list_claims

  unfoldable pub handle_trigger : Triggered
  handle_trigger = trigger_config (w.model_config 0 model)
