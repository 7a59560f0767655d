-- ===== src/Controller/Trigger/Replicas.antt =====
-- internal/controller/provisiontrigger.go: when `handleTrigger` creates a claim.
use gpuscale.Prelude.{ℕ, ◌<◌, ◌≡◌, true, List, some, Text, count, In}
use gpuscale.Provider.{ok}
use gpuscale.Demand.Json.{ModelConfig}
use gpuscale.Controller.Claims.{Claim, Pool, count_active_claims_for_model}
use gpuscale.Controller.Provisioner.Counts.{of_pool}
use gpuscale.Controller.Trigger.{
  World, Triggered, refused, skipped, created, aggregate_models_for_claim, or_one, disk_of,
  trigger_claim,
}

module _ (w : World) (model : Text) where
  -- What makes a claim for the model warranted.
  pub record IsWarranted (c : Claim) : Type 0 where
    pub cfg : ModelConfig
    pub configured : w.model_config 0 model ≡ ok (some cfg)
    pub claims : List Claim
    pub listed : w.list_claims ≡ ok claims
    pub below_maximum : count_active_claims_for_model claims model < or_one cfg.max_replicas
    pub queued :
        0 < count_active_claims_for_model claims model
        → (n : ℕ) × (w.queue_depth model ≡ ok n) × (0 < n)
    pub pool : Pool
    pub pooled : (pools : List Pool) × (w.list_pools ≡ ok pools) × In pool pools
    pub room : count (λ (x : Claim). true) (of_pool pool claims) < pool.max_nodes
    pub bundled :
        c
        ≡ trigger_claim w.claim_name model cfg pool
            (aggregate_models_for_claim w model cfg claims)
            (disk_of w.all_demands (aggregate_models_for_claim w model cfg claims))

  -- How far the guards before the pool's have been passed.
  record Passed (cfg : ModelConfig) (claims : List Claim) : Type 0 where
    configured : w.model_config 0 model ≡ ok (some cfg)
    listed : w.list_claims ≡ ok claims
    below_maximum : count_active_claims_for_model claims model < or_one cfg.max_replicas
    queued :
        0 < count_active_claims_for_model claims model
        → (n : ℕ) × (w.queue_depth model ≡ ok n) × (0 < n)

  abbrev Right : Triggered → Type 0
  Right refused = Unit
  Right skipped = Unit
  Right (created c) = IsWarranted c
