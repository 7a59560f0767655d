-- ===== src/Controller/Examples.antt =====
-- internal/controller: the claim and the world that the examples of the controllers share.
use gpuscale.Prelude.{true, false, [], ◌∷◌, none, some, txt}
use gpuscale.Provider.{Error, instance_not_found, ok, err, Instance}
use gpuscale.Coordinator.Provision.State.{neither}
use gpuscale.Controller.Claims.{Claim, Phase}
use gpuscale.Controller.Effects.{World, Store}
use gpuscale.Controller.Reconciler.Ending.{finalizer}
mod Sizing
mod Reconciler
mod Sweeps
mod Disruptor
mod Interruption
mod Pods

abbrev pub claim_in : Phase → Claim
claim_in phase = record {
  name = txt "claim";
  annotations = [];
  finalizers = finalizer ∷ [];
  is_deleting = false;
  spec = record {
    pool_ref = txt "pool";
    provider = txt "aws";
    node_type = [];
    model_id = txt "m";
    model_ids = [];
    model_source = [];
    requirements = record {
      gpu_count = 1;
      min_vram = 24;
      max_vram = 0;
      gpu_types = [];
      max_price_per_gpu = 0;
      min_disk = 0;
      multi_gpu = false;
    };
  };
  status = record {
    provider = txt "aws";
    instance_id = txt "i-1";
    node_type = [];
    node_name = [];
    endpoint = [];
    gpu_type = txt "L4";
    gpu_count = 1;
    price_per_hour = 300;
    phase = phase;
    conditions = [];
    provisioned_at = some 1;
    ready_at = none;
    idle_since = none;
    retry_count = 0;
  };
}

abbrev pub store_in : Phase → Store
store_in phase = record { claim = claim_in phase; stored = claim_in phase; log = []; asked = 0 }

abbrev unknown : Error
unknown = record { wraps = instance_not_found ∷ []; message = txt "unknown" }

abbrev pub instance_up : Instance
instance_up = record {
  provider_name = txt "aws";
  instance_id = txt "i-1";
  ip = [];
  endpoint = [];
  status = txt "running";
  status_msg = [];
  gpu_type = txt "L4";
}

-- Every write succeeds, the agent is connected, and no store but the demand store is given.
abbrev pub quiet : World
quiet = record {
  clock = λ n. n;
  registered = λ p. true;
  has_worker_store = false;
  has_demand_store = true;
  has_claim_writer = false;
  has_coordinator = false;
  write_error = λ n. none;
  refetch = λ n c. ok c;
  list_claims = λ n. ok [];
  get_pool = λ n p. err unknown;
  find_pool = λ n p. ok none;
  min_replicas = λ n m. none;
  get_token = λ n p. ok [];
  find_node = λ n c. ok none;
  destroy_error = λ n p i. none;
  get_instance = λ n p i. ok instance_up;
  provision = λ n r c ps. neither;
  node_registered = λ n c. true;
  node_idle = λ n c. false;
  queue_depth = λ n m. ok 0;
  demand = λ n m. ok 0;
  always_active = λ n m. ok false;
  model_loaded = λ n m. true;
  model_source = λ n m. [];
  price_text = λ p. [];
  parse_price = λ t. 0;
}
