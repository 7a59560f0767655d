-- ===== src/Controller/Interruption.antt =====
-- internal/controller/interruption.go. A poll looks at each claim once, so the `World` answers by the
-- claim's name. What a poll does is the list of its actions in order: the writes that succeed, and
-- the calls of the demand store, whose result is not used.
pub mod Lost
use gpuscale.Prelude.{
  ℕ, Bool, false, not, ◌&&◌, ◌||◌, ltb, if◌then◌else◌, List, [], ◌∷◌, ◌++◌, Option, none, some,
  Text, txt, text_eq, is_empty,
}
use gpuscale.Provider.{Error, Result, ok, err, Instance}
use gpuscale.Controller.Claims.{
  Claim, Phase, ready, bootstrapping, provisioning, terminated, same_phase,
}

pub record World : Type 0 where
  pub claims : Result (List Claim)
  -- `Registry.Get`
  pub registered : Text → Bool
  -- The claim, the provider and the instance id
  pub get_instance : Text → Text → Text → Result Instance
  -- The claim and the node: whether the node is unschedulable.
  pub get_node : Text → Text → Result Bool
  pub cordon_error : Text → Text → Option Error
  pub delete_error : Text → Text → Option Error
  -- `Status().Update` of the claim
  pub status_error : Text → Option Error
  pub has_demand_store : Bool
  -- The claim and the model: the values, which the code uses with the errors dropped.
  pub always_active : Text → Text → Bool
  pub queue_depth : Text → Text → ℕ
  pub active_demand : Text → Text → ℕ

pub data Action : Type 0 where
  cordoned node_deleted : Text → Action
  status_written : Claim → Action
  model_removed provision_triggered : Text → Action

module _ (w : World) where
  abbrev pub is_active : Phase → Bool
  is_active p = same_phase p ready || (same_phase p bootstrapping || same_phase p provisioning)

  -- The provider answers that the instance is neither running nor starting.
  abbrev pub is_lost : Result Instance → Bool
  is_lost (err e) = false
  is_lost (ok i) = not (text_eq i.status (txt "running") || text_eq i.status (txt "starting"))

  -- The guards of the loop of `checkForInterruptions`.
  unfoldable pub is_interrupted : Claim → Bool
  is_interrupted c =
      let id = c.status.instance_id in
      let provider = c.status.provider in
      if not (is_active c.status.phase)
      then false
      else if is_empty id || is_empty provider
      then false
      else if not (w.registered provider)
      then false
      else is_lost (w.get_instance c.name provider id)

  abbrev pub if_done : Option Error → Action → List Action
  if_done none a = a ∷ []
  if_done (some e) a = []

  abbrev pub cordon_and_delete : Claim → Result Bool → List Action
  cordon_and_delete c (err e) = []
  cordon_and_delete c (ok unschedulable) =
      let node = c.status.node_name in
      (if unschedulable then [] else if_done (w.cordon_error c.name node) (cordoned node))
      ++ if_done (w.delete_error c.name node) (node_deleted node)

  unfoldable pub drop_node : Claim → List Action
  drop_node c =
      if is_empty c.status.node_name
      then []
      else cordon_and_delete c (w.get_node c.name c.status.node_name)

  -- `maybeAutoReplace`
  unfoldable pub maybe_auto_replace : Claim → List Action
  maybe_auto_replace c =
      let m = c.spec.model_id in
      if not w.has_demand_store || is_empty m
      then []
      else if w.always_active c.name m
          || (ltb 0 (w.queue_depth c.name m) || ltb 0 (w.active_demand c.name m))
      then provision_triggered m ∷ []
      else []

  abbrev pub as_interrupted : Claim → Claim
  as_interrupted c = record c {
    status = record c.status {
      phase = terminated;
      conditions = (txt "Interrupted", txt "ProviderInterruption") ∷ c.status.conditions;
    };
  }

  -- The entry of the claim's own model in the registry of loaded models.
  unfoldable pub remove_own_model : Claim → List Action
  remove_own_model c =
      if not (is_empty c.spec.model_id) && w.has_demand_store
      then model_removed c.spec.model_id ∷ []
      else []

  unfoldable pub handle_interruption : Claim → List Action
  handle_interruption c =
      drop_node c
      ++ (if_done (w.status_error c.name) (status_written (as_interrupted c))
          ++ (remove_own_model c ++ maybe_auto_replace c))

  unfoldable pub check_claims : List Claim → List Action
  check_claims [] = []
  check_claims (c ∷ cs) =
      let rest = check_claims cs in if is_interrupted c then handle_interruption c ++ rest else rest

  -- `checkForInterruptions`
  unfoldable pub check_for_interruptions : List Action
  check_for_interruptions = elim w.claims [ err e ↦ [] | ok cs ↦ check_claims cs ]
