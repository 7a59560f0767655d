-- ===== src/Controller/Reconciler/Ready.antt =====
-- internal/controller/reconciler.go: `handleReady` and `triggerConsolidationDrain`.
use gpuscale.Prelude.{
  ℕ, suc, ◌*◌, Bool, true, not, ◌&&◌, ltb, ◌==◌, if◌then◌else◌, List, [], ◌∷◌, none, some, Text,
  txt, text_eq, is_empty, any, length,
}
use gpuscale.Provider.{Result, ok, err, Instance, is_error, instance_not_found}
use gpuscale.Controller.Claims.{
  Claim, terminated, annotation, claim_model_ids, resolve_claim_provider, serves, is_inactive,
}
use gpuscale.Controller.Effects.{
  World, Store, Reply, done, after, second, tick, emit, set_phase, add_condition, write_status,
  destroy, delete_node_if_exists, remove_worker, remove_loaded_models, retrigger_if_demand_exists,
  write_event, write_terminated_record, claim_annotated,
}
use gpuscale.Controller.Reconciler.Bootstrapping.{is_down}

abbrev pub drain_annotation : Text
drain_annotation = txt "gpuscale.io/consolidation-drain"

-- The claim `c` is annotated for replacement by `claim`.
unfoldable pub is_replaced : Claim → Claim → Bool
is_replaced claim c =
    not (text_eq c.name claim.name)
    && (not (is_inactive c.status.phase)
        && (length (claim_model_ids c) == 1
            && (any (λ m. serves m c) (claim_model_ids claim)
                && not (text_eq (annotation c drain_annotation) (txt "true")))))

module _ (w : World) where
  -- `_ = r.Status().Update(…)` after the phase and condition are set.
  abbrev pub lose : Text → Text → Store → Store
  lose type reason s = (write_status w (add_condition type reason (set_phase terminated s))).0

  abbrev pub log_terminated : Store → Store
  log_terminated s = write_terminated_record w (write_event w (txt "terminated") s)

  -- What follows the loss of an instance that was ready.
  abbrev pub clean_up : Store → Store × Reply
  clean_up s = (
    retrigger_if_demand_exists w
        (delete_node_if_exists w (remove_loaded_models w (remove_worker w s))),
    done,
  )

  unfoldable pub ready_gone : Store → Store × Reply
  ready_gone s = clean_up (log_terminated (lose (txt "InstanceLost") (txt "InstanceGone") s))

  unfoldable pub ready_died : Text → Store → Store × Reply
  ready_died provider s =
      let gone = (destroy w provider s.claim.status.instance_id s).0 in
      clean_up (log_terminated (lose (txt "InstanceLost") (txt "InstanceDied") gone))

  unfoldable pub agent_lost : Text → Store → Store × Reply
  agent_lost provider s =
      let gone = (destroy w provider s.claim.status.instance_id s).0 in
      let lost = lose (txt "AgentLost") (txt "TunnelDisconnected") (log_terminated gone) in
      (retrigger_if_demand_exists w (remove_loaded_models w (remove_worker w lost)), done)

  unfoldable pub annotate_replaced : List Claim → Store → Store
  annotate_replaced [] s = s
  annotate_replaced (c ∷ cs) s = annotate_replaced cs (
      if is_replaced s.claim c
      then elim (w.write_error s.asked) [ none ↦ emit (claim_annotated c.name) s | some e ↦ tick s ]
      else s)

  unfoldable pub all_loaded : ℕ → List Text → Bool
  all_loaded n [] = true
  all_loaded n (m ∷ ms) = (not (is_empty m) && w.model_loaded n m) && all_loaded (suc n) ms

  abbrev pub annotate_listed : Result (List Claim) → Store → Store
  annotate_listed (ok claims) s = annotate_replaced claims s
  annotate_listed (err e) s = s

  unfoldable pub trigger_consolidation_drain : Store → Store
  unfolding annotate_replaced all_loaded
  trigger_consolidation_drain s =
      if all_loaded s.asked (claim_model_ids s.claim)
      then annotate_listed (w.list_claims s.asked) (tick s)
      else s

  unfoldable pub stay_ready : Store → Store × Reply
  stay_ready s = (
    if ltb 1 (length (claim_model_ids s.claim)) && w.has_demand_store
        then trigger_consolidation_drain s
        else s,
    after (60 * second),
  )

  abbrev pub ready_with : Text → Result Instance → Store → Store × Reply
  ready_with provider (err e) s =
      if is_error e instance_not_found then ready_gone s else (s, after (30 * second))
  ready_with provider (ok i) s =
      if is_down w i
      then ready_died provider s
      else if w.has_demand_store && not (w.node_registered s.asked s.claim.name)
      then agent_lost provider (tick s)
      else stay_ready (tick s)

  unfoldable pub handle_ready : Store → Store × Reply
  handle_ready s =
      let provider = resolve_claim_provider s.claim in
      if w.registered provider
      then ready_with provider (w.get_instance s.asked provider s.claim.status.instance_id) (tick s)
      else (s, after (60 * second))
