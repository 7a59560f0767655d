-- ===== src/Controller/Examples/Reconciler.antt =====
-- internal/controller/reconciler.go: the theorems of the claim reconciler at concrete inputs.
use gpuscale.Prelude.{
  ◌*◌, ◌⊎◌, lookup, ◌≡◌, refl, inl, inr, false, [], none, txt, In, text_eq, contains_text,
}
use gpuscale.Provider.{ok}
use gpuscale.Controller.Claims.{
  Pool, pending, bootstrapping, ready, draining, terminated, claim_model_ids, has_other_ready,
  annotation, resolve_claim_provider,
}
use gpuscale.Controller.Effects.{
  asked_coordinator, done, destroy, retrigger_if_demand_exists, remove_loaded_models,
  delete_node_if_exists, after, second, World, write_status, status_written,
}
use gpuscale.Controller.Reconciler.{reconcile, dispatch}
use gpuscale.Controller.Reconciler.Ending.{handle_draining, handle_deletion}
use gpuscale.Controller.Reconciler.Bootstrapping.{
  handle_bootstrapping, handle_standalone, instance_failed,
}
use gpuscale.Controller.Reconciler.Pending.{handle_pending, provision_new, take_outcome}
use gpuscale.Controller.Reconciler.Lifecycle.{MayAsk, reconcile-MayAsk, Follows, reconcile-Follows}
use gpuscale.Controller.Reconciler.Draining.{
  IsSettled, IsRefused, handle_draining-IsSettled, handle_draining-Ends,
}
use gpuscale.Controller.Reconciler.Deletion.{Attempted, LetGo, handle_deletion-LetGo}
use gpuscale.Controller.Examples.{claim_in, store_in, quiet}

connects : In (status_written ready) (reconcile quiet (store_in bootstrapping)).0.log
unfolding reconcile dispatch handle_bootstrapping handle_standalone instance_failed write_status
    contains_text text_eq claim_model_ids
connects = inr (inr (inl refl))

reconcile-Follows_example : Follows bootstrapping ready
reconcile-Follows_example =
    reconcile-Follows quiet (store_in bootstrapping) refl refl ready connects

abbrev some_pool : Pool
some_pool = record {
  name = txt "pool";
  providers = [];
  image = txt "agent";
  gpu_api_url = [];
  model_cache_url = [];
  has_token_secret = false;
  max_nodes = 1;
  min_nodes = 0;
  billing_period = 0;
  min_vram = 0;
  min_disk = 0;
  min_ram = 0;
  gpu_types = [];
  min_pcie_gen = 0;
  limits = none;
}

abbrev pooled : World
pooled = record quiet { get_pool = λ n p. ok some_pool }

asks : In asked_coordinator (reconcile pooled (store_in pending)).0.log
unfolding reconcile dispatch handle_pending provision_new take_outcome write_status contains_text
    text_eq annotation lookup
asks = inl refl

reconcile-MayAsk_example : MayAsk (claim_in pending)
reconcile-MayAsk_example = reconcile-MayAsk pooled (store_in pending) refl refl asks

drains : In (status_written terminated) (handle_draining quiet (store_in draining)).0.log
unfolding handle_draining write_status destroy retrigger_if_demand_exists claim_model_ids
    remove_loaded_models delete_node_if_exists has_other_ready
drains = inl refl

handle_draining-Ends_example :
    (IsSettled quiet (store_in draining)
      × ((handle_draining quiet (store_in draining)).0.stored.status.phase ≡ terminated)
      × ((handle_draining quiet (store_in draining)).1 ≡ done))
    ⊎ (IsRefused quiet (store_in draining)
        × ((handle_draining quiet (store_in draining)).0.stored ≡ (store_in draining).stored)
        × ((handle_draining quiet (store_in draining)).1 ≡ after (30 * second)))
handle_draining-Ends_example = handle_draining-Ends quiet (λ n. refl) (store_in draining)

handle_draining_example : IsSettled quiet (store_in draining)
handle_draining_example = handle_draining-IsSettled quiet (store_in draining) refl terminated drains

handle_deletion-LetGo_example :
    Attempted quiet (store_in ready) (handle_deletion quiet (store_in ready)).0
    × LetGo quiet (store_in ready) (handle_deletion quiet (store_in ready))
unfolding contains_text text_eq resolve_claim_provider
handle_deletion-LetGo_example =
    handle_deletion-LetGo quiet (store_in ready) refl refl refl refl refl
