-- ===== src/Controller/Trigger/Examples/Periodic.antt =====
-- internal/controller/provisiontrigger.go: the theorems of the periodic work at two models.
use gpuscale.Prelude.{
  ℕ, ◌≡◌, refl, true, false, List, [], ◌∷◌, none, some, Text, txt, text_eq, lookup, insert,
  delete_if, contains_text, All, arith,
}
use gpuscale.Provider.{ok}
use gpuscale.Controller.Claims.{Claim, ready, claim_model_ids, count_active_claims_for_model}
use gpuscale.Controller.Provisioner.{find_pool, new_status}
use gpuscale.Controller.Provisioner.Counts.{of_pool}
use gpuscale.Controller.Trigger.{handle_trigger, aggregate_models_for_claim}
use gpuscale.Controller.Trigger.Consolidation
use gpuscale.Controller.Trigger.Consolidation.{created, check_consolidation}
use gpuscale.Controller.Trigger.Consolidation.Merges.{IsMerge, check_consolidation-IsMerge}
use gpuscale.Controller.Trigger.Debounce.{
  Message, Subscriber, at_start, on, on_message, new_subscriber,
}
use gpuscale.Controller.Trigger.Debounce.Spacing.{Spaced, Reaches-Spaced}
use gpuscale.Controller.Trigger.Queues
use gpuscale.Controller.Trigger.Queues.{reconcile_queues}
use gpuscale.Controller.Trigger.Queues.Once.{IsDemanded, InOrder, reconcile_queues-InOrder}
use gpuscale.Controller.Trigger.Examples.{config, demand_for, pool, cluster}

abbrev serving : Text → Claim
serving model = record {
  name = model;
  annotations = [];
  finalizers = [];
  is_deleting = false;
  spec = record {
    pool_ref = txt "pool";
    provider = [];
    node_type = [];
    model_id = model;
    model_ids = [];
    model_source = [];
    requirements = record {
      gpu_count = 0;
      min_vram = 24;
      max_vram = 0;
      gpu_types = [];
      max_price_per_gpu = 0;
      min_disk = 0;
      multi_gpu = false;
    };
  };
  status = record new_status { phase = ready };
}

abbrev idle_cluster : Consolidation.World
idle_cluster = record {
  model_config = λ n m. ok (some config);
  list_pools = ok (pool ∷ []);
  claim_name = txt "claim-2";
  create_error = none;
}

abbrev two_nodes : List Claim
two_nodes = serving (txt "a") ∷ serving (txt "b") ∷ []

abbrev merged : Claim
merged = record {
  name = txt "claim-2";
  annotations = (txt "gpuscale.io/consolidation", txt "true") ∷ [];
  finalizers = txt "gpuscale.io/instance-cleanup" ∷ [];
  is_deleting = false;
  spec = record {
    pool_ref = txt "pool";
    provider = [];
    node_type = [];
    model_id = txt "a";
    model_ids = txt "a" ∷ txt "b" ∷ [];
    model_source = txt "hf:org/m";
    requirements = record {
      gpu_count = 0;
      min_vram = 48;
      max_vram = 0;
      gpu_types = [];
      max_price_per_gpu = 0;
      min_disk = 98;
      multi_gpu = false;
    };
  };
  status = new_status;
}

merges : check_consolidation idle_cluster two_nodes ≡ created merged
unfolding check_consolidation text_eq lookup insert claim_model_ids find_pool contains_text
merges = refl

check_consolidation-IsMerge_example : IsMerge idle_cluster two_nodes merged
check_consolidation-IsMerge_example =
    check_consolidation-IsMerge idle_cluster two_nodes merged merges

-- Two replicas of one model are merged into a claim that names the model twice.
replicas : List Claim
replicas = serving (txt "a") ∷ serving (txt "a") ∷ []

merges_replicas :
    check_consolidation idle_cluster replicas
    ≡ created (record merged { spec = record merged.spec { model_ids = txt "a" ∷ txt "a" ∷ [] } })
unfolding check_consolidation text_eq lookup insert claim_model_ids find_pool contains_text replicas
merges_replicas = refl

abbrev pass : Queues.World
pass = record {
  all_demands = ok (demand_for (txt "a") ∷ demand_for (txt "b") ∷ []);
  list_claims = ok [];
  at_trigger = λ n. cluster;
  claims_after = λ n. ok (record merged { annotations = [] } ∷ []);
  at_consolidation = idle_cluster;
}

-- The claim that the first turn leaves serves both models: there is no second turn.
one_turn :
    (reconcile_queues pass).0
    ≡ record { number = 0; model = txt "a"; outcome = handle_trigger cluster (txt "a") } ∷ []
unfolding reconcile_queues contains_text text_eq handle_trigger aggregate_models_for_claim
    count_active_claims_for_model find_pool of_pool
one_turn = refl

reconcile_queues-InOrder_example :
    All
      (IsDemanded pass (demand_for (txt "a") ∷ demand_for (txt "b") ∷ []))
      (reconcile_queues pass).0
    × InOrder pass (reconcile_queues pass).0
reconcile_queues-InOrder_example =
    reconcile_queues-InOrder pass (demand_for (txt "a") ∷ demand_for (txt "b") ∷ []) refl

abbrev message : ℕ → Message
message at = record { model = txt "a"; succeeds = true; received = at; recorded = at; cleaned = at }

-- The second of three messages comes five seconds after the first, the third twelve.
abbrev third : Subscriber
third =
    on_message (message 12000000000)
      (on_message (message 5000000000) (on_message (message 0) new_subscriber))

handles_two : third.handled ≡ message 12000000000 ∷ message 0 ∷ []
unfolding on_message new_subscriber lookup insert text_eq delete_if
handles_two = refl

Reaches-Spaced_example : Spaced third.handled
Reaches-Spaced_example = Reaches-Spaced third 12000000000 (
    on (message 12000000000)
      (on (message 5000000000)
        (on (message 0) (at_start 0) (omega arith) (omega arith) (omega arith)) (omega arith)
        (omega arith) (omega arith))
      (omega arith) (omega arith) (omega arith))
