-- ===== src/Controller/Reconciler/Writes/Ready.antt =====
-- internal/controller/reconciler.go: the statuses written while a claim is ready.
use gpuscale.Prelude.{refl, ◌&&◌, ltb, List, [], ◌∷◌, Option, none, some, Text, length}
use gpuscale.Provider.{Error, Result, ok, err, Instance}
use gpuscale.Controller.Claims.{Claim, Phase, terminated, claim_model_ids}
use gpuscale.Controller.Effects.{World, Effect, Store, tick, emit}
use gpuscale.Controller.Effects.Logged.{
  relog, Logs, choice-Logs, branch-Logs, emit_if-Logs, write_status-Logs, destroy-Logs,
  delete_node-Logs, remove_loaded_models-Logs, retrigger_if_demand_exists-Logs,
}
use gpuscale.Controller.Reconciler.Ready.{
  clean_up, log_terminated, ready_gone, ready_died, agent_lost, is_replaced, annotate_replaced,
  all_loaded, annotate_listed, trigger_consolidation_drain, stay_ready, ready_with, handle_ready,
}

module _ (w : World) (P : Phase → Type 0) (A : Type 0) where
  clean_up-Logs : (s : Store) → Logs P A s → Logs P A (clean_up w s).0
  clean_up-Logs s l = retrigger_if_demand_exists-Logs P A w _ (
      delete_node-Logs P A w _
        (remove_loaded_models-Logs P A w _ (emit_if-Logs P A w.has_worker_store _ s tt l)))

  log_terminated-Logs : (s : Store) → Logs P A s → Logs P A (log_terminated w s)
  log_terminated-Logs s l =
      emit_if-Logs P A w.has_claim_writer _ _ tt (emit_if-Logs P A w.has_claim_writer _ s tt l)

  ready_gone-Logs : P terminated → (s : Store) → Logs P A s → Logs P A (ready_gone w s).0
  unfolding ready_gone
  ready_gone-Logs a s l =
      clean_up-Logs _ (log_terminated-Logs _ (write_status-Logs P A w _ a refl l))

  ready_died-Logs :
      P terminated → (p : Text) (s : Store) → Logs P A s → Logs P A (ready_died w p s).0
  unfolding ready_died
  ready_died-Logs a p s l =
      clean_up-Logs _
        (log_terminated-Logs _ (write_status-Logs P A w _ a refl (destroy-Logs P A w p _ s l)))

  agent_lost-Logs :
      P terminated → (p : Text) (s : Store) → Logs P A s → Logs P A (agent_lost w p s).0
  unfolding agent_lost
  agent_lost-Logs a p s l = retrigger_if_demand_exists-Logs P A w _ (
      remove_loaded_models-Logs P A w _ (
        emit_if-Logs P A w.has_worker_store _ _ tt
          (write_status-Logs P A w _ a refl (log_terminated-Logs _ (destroy-Logs P A w p _ s l)))))

  annotate_replaced-Logs :
      (cs : List Claim) (s : Store) → Logs P A s → Logs P A (annotate_replaced w cs s)
  unfolding annotate_replaced
  annotate_replaced-Logs [] s l = l
  annotate_replaced-Logs (c ∷ cs) s l =
      annotate_replaced-Logs cs _
        (branch-Logs P A (is_replaced s.claim c) _ _ (written (w.write_error s.asked)) l)
    where
      written :
          (e : Option Error)
          → Logs P A (elim e as (λ x. Store) [
            | none ↦ emit (Effect.claim_annotated c.name) s
            | some x ↦ tick s
          ])
      written none = record { logged = (tt, l.logged) }
      written (some e) = relog refl l

  annotate_listed-Logs :
      (r : Result (List Claim)) (s : Store) → Logs P A s → Logs P A (annotate_listed w r s)
  annotate_listed-Logs (ok cs) s l = annotate_replaced-Logs cs s l
  annotate_listed-Logs (err e) s l = l

  drain-Logs : (s : Store) → Logs P A s → Logs P A (trigger_consolidation_drain w s)
  unfolding trigger_consolidation_drain
  drain-Logs s l =
      branch-Logs P A (all_loaded w s.asked (claim_model_ids s.claim)) _ _
        (annotate_listed-Logs (w.list_claims s.asked) (tick s) (relog refl l)) l

  stay_ready-Logs : (s : Store) → Logs P A s → Logs P A (stay_ready w s).0
  unfolding stay_ready
  stay_ready-Logs s l =
      branch-Logs P A (ltb 1 (length (claim_model_ids s.claim)) && w.has_demand_store) _ _
        (drain-Logs s l) l

  ready_with-Logs :
      P terminated
      → (p : Text) (r : Result Instance) (s : Store) → Logs P A s
      → Logs P A (ready_with w p r s).0
  ready_with-Logs a p (err e) s l = choice-Logs P A _ _ _ (ready_gone-Logs a s l) l
  ready_with-Logs a p (ok i) s l = choice-Logs P A _ _ _ (ready_died-Logs a p s l) (
      choice-Logs P A _ _ _ (agent_lost-Logs a p (tick s) (relog refl l))
        (stay_ready-Logs (tick s) (relog refl l)))

  pub handle_ready-Logs : P terminated → (s : Store) → Logs P A s → Logs P A (handle_ready w s).0
  unfolding handle_ready
  handle_ready-Logs a s l = choice-Logs P A _ _ _ (ready_with-Logs a _ _ (tick s) (relog refl l)) l
