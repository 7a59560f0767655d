-- ===== src/Controller/Provisioner.antt =====
-- internal/controller/provisioner.go, with `findPool` of provisiontrigger.go: a batch of pending pods
-- becomes one claim. The mutex makes each of the two operations one step; the timer that calls
-- `process_batch` is the flag `has_timer`. What the API server and the demand store answer is the
-- `World`; the texts of the limit errors, which are only logged, are left out.
pub mod Counts
pub mod Limits
pub mod Locks
mod Examples
use gpuscale.Controller.Provisioner.Counts.{
  ModelChoice, World, Provisioner, count_active_claims, count_pending_gpu_pods, check_pool_limits,
}
use gpuscale.Prelude.{
  ℕ, ◌+◌, ◌*◌, Bool, true, false, not, ◌&&◌, ◌||◌, ltb, leb, ◌==◌, if◌then◌else◌, List, [], ◌∷◌,
  ◌++◌, map, Option, none, some, Text, txt, text_eq, is_empty, contains_text, any, keep,
}
use gpuscale.Provider.{Result, ok, err, GpuRequirements}
use gpuscale.Scheduler.{
  Pod, is_gpu_pod, is_unschedulable, extract_gpu_requirements, merge_requirements,
}
use gpuscale.Controller.Capacity.{ModelDemand}
use gpuscale.Controller.Claims.{Claim, ClaimStatus, Pool, ProviderConfig, unset}
use gpuscale.Controller.Effects.{Reply, done, after, second}
use gpuscale.Controller.Reconciler.Ending.{finalizer}

-- The loop over the demands: the last one that is above all before it, or is always active.
unfoldable pub pick_model : ℕ → Text → List ModelDemand → Text
pick_model best model [] = model
pick_model best model (d ∷ ds) =
    let total = d.queue_depth + d.active_demand in
    let taken = pick_model total d.model ds in
    let left = pick_model best model ds in if ltb best total || d.always_active then taken else left

abbrev pub model_from : Result (List ModelDemand) → Text
model_from (err e) = []
model_from (ok demands) = pick_model 0 [] demands

abbrev pub first_or : Option Pool → Option Pool → Option Pool
first_or none other = other
first_or (some p) other = some p

unfoldable pub first_pool : (Pool → Bool) → List Pool → Option Pool
first_pool test [] = none
first_pool test (p ∷ ps) = if test p then some p else first_pool test ps

abbrev or_standalone : Text → Text
or_standalone t = if is_empty t then txt "standalone" else t

unfoldable pub find_pool : List Pool → Text → Text → Option Pool
unfolding first_pool
find_pool [] name node_type = none
find_pool (p ∷ ps) name node_type =
    let named = if is_empty name then none else first_pool (λ q. text_eq q.name name) (p ∷ ps) in
    let typed =
      first_pool (λ q. any (λ c. text_eq c.node_type (or_standalone node_type)) q.providers)
        (p ∷ ps) in
    first_or named (first_or typed (some p))

abbrev or_zero : ℕ → ℕ → ℕ
or_zero own pools = if own == 0 then pools else own

abbrev or_types : List Text → List Text → List Text
or_types [] pools = pools
or_types (t ∷ ts) pools = t ∷ ts

-- The pool's constraints, where the pods state none.
unfoldable pub constrained : GpuRequirements → Pool → GpuRequirements
constrained r pool = record r {
  min_vram = or_zero r.min_vram pool.min_vram;
  min_disk = or_zero r.min_disk pool.min_disk;
  min_ram = or_zero r.min_ram pool.min_ram;
  gpu_types = or_types r.gpu_types pool.gpu_types;
}

abbrev pub pool_node_type : List ProviderConfig → Text
pool_node_type [] = txt "standalone"
pool_node_type (p ∷ ps) = or_standalone p.node_type

abbrev pub new_status : ClaimStatus
new_status = record {
  provider = [];
  instance_id = [];
  node_type = [];
  node_name = [];
  endpoint = [];
  gpu_type = [];
  gpu_count = 0;
  price_per_hour = 0;
  phase = unset;
  conditions = [];
  provisioned_at = none;
  ready_at = none;
  idle_since = none;
  retry_count = 0;
}

unfoldable pub new_claim : Text → Text → Pool → GpuRequirements → Claim
new_claim name model pool r = record {
  name = name;
  annotations = [];
  finalizers = finalizer ∷ [];
  is_deleting = false;
  spec = record {
    pool_ref = pool.name;
    provider = [];
    node_type = pool_node_type pool.providers;
    model_id = model;
    model_ids = [];
    model_source = [];
    requirements = record {
      gpu_count = r.gpu_count;
      min_vram = r.min_vram;
      max_vram = 0;
      gpu_types = r.gpu_types;
      max_price_per_gpu = r.max_price_per_hour;
      min_disk = 0;
      multi_gpu = false;
    };
  };
  status = new_status;
}

-- `releaseProvisioningLocks`
unfoldable pub release : List Pod → Provisioner → Provisioner
release batch p = record p {
  provisioning_for = keep (λ u. not (contains_text u (map (λ q. q.uid) batch))) p.provisioning_for;
}

module _ (w : World) where
  abbrev pub demanded_model : Text
  demanded_model = if w.has_demand_store then model_from w.all_demands else []

  abbrev pub choice_of : Option ModelChoice → ModelChoice
  choice_of none = record { node_type = txt "standalone"; pool = [] }
  choice_of (some m) = record { node_type = or_standalone m.node_type; pool = m.pool }

  abbrev pub chosen : Text → ModelChoice
  chosen model =
      if w.has_demand_store && not (is_empty model)
      then choice_of (w.model_config model)
      else choice_of none

  -- What a batch asks for.
  unfoldable pub batch_requirements : List Pod → Pool → GpuRequirements
  batch_requirements batch pool =
      constrained (merge_requirements (map (extract_gpu_requirements w.parse_price) batch)) pool

  abbrev pub create_in : List Pod → Option Pool → Provisioner → Provisioner × Option Claim
  create_in batch none p = (release batch p, none)
  create_in batch (some pool) p =
      if not (check_pool_limits (w.list_claims 1) pool)
      then (release batch p, none)
      else elim w.create_error [
        | some e ↦ (release batch p, none)
        | none ↦
            (p, some (new_claim w.claim_name demanded_model pool (batch_requirements batch pool)))
      ]

  abbrev pub create_among : List Pod → Result (List Pool) → Provisioner → Provisioner × Option Claim
  create_among batch (err e) p = (release batch p, none)
  create_among batch (ok pools) p =
      let m = chosen demanded_model in create_in batch (find_pool pools m.pool m.node_type) p

  abbrev pub process : List Pod → Provisioner → Provisioner × Option Claim
  process [] p = (p, none)
  process (q ∷ batch) p =
      if leb (count_pending_gpu_pods (w.list_pods 0)) (count_active_claims (w.list_claims 0))
      then (release (q ∷ batch) p, none)
      else create_among (q ∷ batch) w.list_pools p

  -- The provisioner after a batch, and the claim that was created.
  unfoldable pub process_batch : Provisioner → Provisioner × Option Claim
  unfolding release
  process_batch p = process p.pending_batch (record p { pending_batch = []; has_timer = false })

  -- `Reconcile`, of a pod that was found.
  unfoldable pub reconcile_pod : Pod → Provisioner → Provisioner × Reply
  reconcile_pod pod p =
      if not pod.is_pending
      then (p, done)
      else if not (is_gpu_pod pod)
      then (p, done)
      else if not (is_unschedulable pod)
      then (p, after (5 * second))
      else if leb (count_pending_gpu_pods (w.list_pods 0)) (count_active_claims (w.list_claims 0))
      then (p, after (30 * second))
      else if contains_text pod.uid p.provisioning_for
      then (p, done)
      else (
        record p {
          pending_batch = p.pending_batch ++ (pod ∷ []);
          provisioning_for = pod.uid ∷ p.provisioning_for;
          has_timer = true;
        },
        done,
      )
