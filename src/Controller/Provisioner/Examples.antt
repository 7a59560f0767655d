-- ===== src/Controller/Provisioner/Examples.antt =====
-- internal/controller/provisioner.go and internal/scheduler: the theorems at a batch of two pods.
use gpuscale.Prelude.{
  ◌≤◌, ◌≡◌, ◌↔◌, refl, inl, true, false, List, [], ◌∷◌, map, none, some, Text, txt, In, arith,
  text_eq,
}
use gpuscale.Provider.{GpuRequirements, Offer, ok}
use gpuscale.Coordinator.Filter.{filter_by_requirements}
use gpuscale.Scheduler.{
  Pod, extract_gpu_requirements, merge_requirements, is_gpu_pod, is_unschedulable, gpus_of,
}
use gpuscale.Scheduler.Merging.{Includes, IsAskedBy, total_gpus, merge_requirements-Includes}
use gpuscale.Controller.Claims.{Claim, Pool}
use gpuscale.Controller.Reconciler.Pending.Wants.{claim_requirements}
use gpuscale.Controller.Provisioner.{
  process_batch, reconcile_pod, new_claim, batch_requirements, find_pool,
}
use gpuscale.Controller.Provisioner.Counts.{
  World, Provisioner, count_active_claims, count_pending_gpu_pods, check_pool_limits,
}
use gpuscale.Controller.Provisioner.Limits.{Within, process_batch-Within, process_batch_unserved}
use gpuscale.Controller.Provisioner.Locks.{IsQueued, reconcile_pod-IsQueued}

abbrev pod_named : Text → Pod
pod_named uid = record {
  uid = uid;
  is_pending = true;
  annotations = (txt "gpuscale.io/gpu-vram", txt "24") ∷ [];
  containers = some 1 ∷ [];
  init_containers = [];
  conditions =
      record { type = txt "PodScheduled"; status = txt "False"; reason = txt "Unschedulable" } ∷ [];
}

abbrev batch : List Pod
batch = pod_named (txt "a") ∷ pod_named (txt "b") ∷ []

abbrev pool : Pool
pool = record {
  name = txt "pool";
  providers = record { name = txt "aws"; node_type = [] } ∷ [];
  image = txt "agent";
  gpu_api_url = [];
  model_cache_url = [];
  has_token_secret = false;
  max_nodes = 3;
  min_nodes = 0;
  billing_period = 0;
  min_vram = 0;
  min_disk = 0;
  min_ram = 0;
  gpu_types = [];
  min_pcie_gen = 0;
  limits = none;
}

abbrev cluster : World
cluster = record {
  list_claims = λ n. ok [];
  list_pods = λ n. ok batch;
  list_pools = ok (pool ∷ []);
  has_demand_store = false;
  all_demands = ok [];
  model_config = λ m. none;
  claim_name = txt "claim-1";
  create_error = none;
  parse_price = λ t. 0;
}

abbrev empty_queue : Provisioner
empty_queue = record { pending_batch = []; provisioning_for = []; has_timer = false }

abbrev queue : Provisioner
queue = record {
  pending_batch = batch;
  provisioning_for = txt "b" ∷ txt "a" ∷ [];
  has_timer = true;
}

abbrev pod_requirements : GpuRequirements
pod_requirements = extract_gpu_requirements (λ t. 0) (pod_named (txt "a"))

merge_requirements_example :
    ((r : GpuRequirements)
      → In r (pod_requirements ∷ pod_requirements ∷ [])
      → Includes r (merge_requirements (pod_requirements ∷ pod_requirements ∷ [])))
    × ((merge_requirements (pod_requirements ∷ pod_requirements ∷ [])).gpu_count
        ≡ total_gpus (pod_requirements ∷ pod_requirements ∷ []))
    × ((t : Text)
        → In t (merge_requirements (pod_requirements ∷ pod_requirements ∷ [])).gpu_types
          ↔ IsAskedBy (pod_requirements ∷ pod_requirements ∷ []) t)
merge_requirements_example = merge_requirements-Includes (pod_requirements ∷ pod_requirements ∷ [])

abbrev created_claim : Claim
created_claim = new_claim (txt "claim-1") [] pool (batch_requirements cluster batch pool)

creates : (process_batch cluster queue).1 ≡ some created_claim
unfolding process_batch count_active_claims count_pending_gpu_pods is_gpu_pod is_unschedulable
    text_eq check_pool_limits find_pool
creates = refl

process_batch-Within_example : Within cluster batch created_claim
process_batch-Within_example = process_batch-Within cluster queue created_claim creates

abbrev offer : Offer
offer = record {
  provider_name = txt "aws";
  offer_id = txt "o";
  gpu_type = txt "L4";
  gpu_count = 2;
  vram = 48;
  price_per_hour = 600;
  capacity_type = txt "spot";
  region = txt "eu";
  reliability = 99;
  disk_gb = 0;
  ram_gb = 0;
}

two_gpus : 2 ≤ total_gpus (map (extract_gpu_requirements (λ t. 0)) batch)
unfolding total_gpus extract_gpu_requirements gpus_of
two_gpus = omega arith

process_batch_unserved_example :
    ¬ In offer (filter_by_requirements (offer ∷ []) (claim_requirements created_claim pool))
process_batch_unserved_example =
    process_batch_unserved cluster queue created_claim pool (offer ∷ []) offer creates two_gpus

reconcile_pod_example : IsQueued (reconcile_pod cluster (pod_named (txt "a")) empty_queue).0
reconcile_pod_example =
    reconcile_pod-IsQueued cluster (pod_named (txt "a")) empty_queue
      (record { locked = tt; once = tt; timed = inl refl })
