-- ===== src/Controller/Provisioner/Counts.antt =====
-- internal/controller/provisioner.go: the state of the controller, and what it counts before it buys.
use gpuscale.Prelude.{
  ℕ, ◌+◌, Bool, true, false, not, ◌&&◌, ◌||◌, ltb, leb, List, [], ◌∷◌, Option, none, some, Text,
  text_eq, count, keep,
}
use gpuscale.Provider.{Error, Result, ok, err}
use gpuscale.Scheduler.{Pod, is_gpu_pod, is_unschedulable}
use gpuscale.Controller.Capacity.{ModelDemand}
use gpuscale.Controller.Claims.{Claim, Pool, PoolLimits, terminated, same_phase}

pub record ModelChoice : Type 0 where
  pub node_type : Text
  pub pool : Text

pub record World : Type 0 where
  pub list_claims : ℕ → Result (List Claim)
  pub list_pods : ℕ → Result (List Pod)
  pub list_pools : Result (List Pool)
  pub has_demand_store : Bool
  pub all_demands : Result (List ModelDemand)
  pub model_config : Text → Option ModelChoice
  pub claim_name : Text
  pub create_error : Option Error
  pub parse_price : Text → ℕ

pub record Provisioner : Type 0 where
  pub pending_batch : List Pod
  -- The UIDs of the pods that are provisioned for.
  pub provisioning_for : List Text
  pub has_timer : Bool

unfoldable pub count_active_claims : Result (List Claim) → ℕ
count_active_claims (err e) = 0
count_active_claims (ok claims) = count (λ c. not (same_phase c.status.phase terminated)) claims

unfoldable pub count_pending_gpu_pods : Result (List Pod) → ℕ
count_pending_gpu_pods (err e) = 0
count_pending_gpu_pods (ok pods) =
    count (λ p. p.is_pending && (is_gpu_pod p && is_unschedulable p)) pods

-- The claims that count against a pool's limits.
unfoldable pub of_pool : Pool → List Claim → List Claim
of_pool pool claims =
    keep (λ c. text_eq c.spec.pool_ref pool.name && not (same_phase c.status.phase terminated))
      claims

unfoldable pub gpus_used : List Claim → ℕ
gpus_used [] = 0
gpus_used (c ∷ cs) = c.status.gpu_count + gpus_used cs

unfoldable pub cost_used : List Claim → ℕ
cost_used [] = 0
cost_used (c ∷ cs) = c.status.price_per_hour + cost_used cs

-- A limit of zero is none.
abbrev pub is_reached : ℕ → ℕ → Bool
is_reached limit used = ltb 0 limit && leb limit used

abbrev pub limits_reached : Option PoolLimits → List Claim → Bool
limits_reached none claims = false
limits_reached (some l) claims =
    is_reached l.max_gpus (gpus_used claims) || is_reached l.max_cost_per_hour (cost_used claims)

-- `checkPoolLimits` returns no error.
unfoldable pub check_pool_limits : Result (List Claim) → Pool → Bool
unfolding of_pool gpus_used cost_used
check_pool_limits (err e) pool = false
check_pool_limits (ok claims) pool =
    let active = of_pool pool claims in
    not (leb pool.max_nodes (count (λ c. true) active)) && not (limits_reached pool.limits active)
