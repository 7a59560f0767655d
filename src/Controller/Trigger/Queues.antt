-- ===== src/Controller/Trigger/Queues.antt =====
-- internal/controller/provisiontrigger.go: `reconcileQueues`. The demands are worked through in the
-- order in which `GetAllDemands` gives them; each trigger meets the cluster as it is then.
pub mod Once
use gpuscale.Prelude.{
  ℕ, suc, Bool, true, false, ◌&&◌, ◌||◌, ◌==◌, if◌then◌else◌, List, [], ◌∷◌, ◌++◌, Text,
  contains_text,
}
use gpuscale.Provider.{Result, ok, err}
use gpuscale.Controller.Capacity.{ModelDemand}
use gpuscale.Controller.Claims.{Claim}
use gpuscale.Controller.Trigger.{Triggered, refused, skipped, created, handle_trigger}
use gpuscale.Controller.Trigger
use gpuscale.Controller.Trigger.Consolidation.{Merged, nothing, is_going, check_consolidation}
use gpuscale.Controller.Trigger.Consolidation

pub record World : Type 0 where
  pub all_demands : Result (List ModelDemand)
  pub list_claims : Result (List Claim)
  -- The cluster at the trigger of that number, and the claims that are listed after it
  pub at_trigger : ℕ → Trigger.World
  pub claims_after : ℕ → Result (List Claim)
  pub at_consolidation : Consolidation.World

-- One turn that called `handleTrigger`: its number, the model and what came of it.
pub record Turn : Type 0 where
  pub number : ℕ
  pub model : Text
  pub outcome : Triggered

abbrev pub models_of_claim : Claim → List Text
models_of_claim c = c.spec.model_id ∷ c.spec.model_ids

module _ (w : World) where
  -- The loop over the listed claims that fills `handled`.
  unfoldable pub add_claims : List Claim → List Text → List Text
  add_claims [] handled = handled
  add_claims (c ∷ cs) handled =
      add_claims cs (
        if is_going w.at_consolidation c.status.phase
        then handled
        else models_of_claim c ++ handled)

  abbrev pub add_listed : Result (List Claim) → List Text → List Text
  add_listed (err e) handled = handled
  add_listed (ok cs) handled = add_claims cs handled

  -- `handled` after a turn: a trigger that fails leaves it as it is.
  abbrev pub handled_after : Triggered → ℕ → List Text → List Text
  handled_after refused n handled = handled
  handled_after skipped n handled = add_listed (w.claims_after n) handled
  handled_after (created c) n handled = add_listed (w.claims_after n) handled

  abbrev pub is_idle : ModelDemand → Bool
  is_idle d = d.queue_depth == 0 && d.active_demand == 0

  unfoldable pub turns : ℕ → List ModelDemand → List Text → List Turn
  unfolding add_claims
  turns n [] handled = []
  turns n (d ∷ ds) handled = elim (is_idle d || contains_text d.model handled) [
    | true ↦ turns n ds handled
    | false ↦
        let t = handle_trigger (w.at_trigger n) d.model in
        record { number = n; model = d.model; outcome = t }
        ∷ turns (suc n) ds (handled_after t n handled)
  ]

  -- The turns, and what the consolidation that follows them comes to.
  abbrev pub reconcile_listed : List ModelDemand → Result (List Claim) → List Turn × Merged
  reconcile_listed ds (err e) = ([], nothing)
  reconcile_listed ds (ok cs) = (turns 0 ds [], check_consolidation w.at_consolidation cs)

  abbrev pub reconcile_demands : Result (List ModelDemand) → List Turn × Merged
  reconcile_demands (err e) = ([], nothing)
  reconcile_demands (ok ds) = reconcile_listed ds w.list_claims

  unfoldable pub reconcile_queues : List Turn × Merged
  unfolding turns
  reconcile_queues = reconcile_demands w.all_demands
