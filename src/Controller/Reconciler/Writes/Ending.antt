-- ===== src/Controller/Reconciler/Writes/Ending.antt =====
-- internal/controller/reconciler.go: the statuses written where a claim ends.
use gpuscale.Prelude.{
  ◌≡◌, refl, inl, inr, Bool, true, false, not, ◌&&◌, if◌then◌else◌, Option, none, some, Text, txt,
  text_eq, Bool-cases, is_empty, contains_text,
}
use gpuscale.Provider.{Error}
use gpuscale.Controller.Claims.{Phase, terminated, resolve_claim_provider}
use gpuscale.Controller.Effects.{World, Store}
use gpuscale.Controller.Effects.Logged.{
  Logs, emit_if-Logs, write_status-Logs, write_claim-Logs, destroy-Logs, delete_node-Logs,
  remove_loaded_models-Logs, retrigger_if_demand_exists-Logs,
}
use gpuscale.Controller.Reconciler.Ending.{
  destroy_for_drain, draining_provider, finish_drain, terminate_drained, drain_further,
  handle_draining, destroy_if_known, finish_hibernated, handle_hibernated, terminate_timed_out,
  handle_deletion, destroy_on_deletion, finalizer, reply_to_write,
}

module _ (w : World) (P : Phase → Type 0) (A : Type 0) where
  finish_drain-Logs : (r : Store × Option Error) → Logs P A r.0 → Logs P A (finish_drain w r).0
  finish_drain-Logs (s, some e) l = l
  finish_drain-Logs (s, none) l =
      retrigger_if_demand_exists-Logs P A w _
        (emit_if-Logs P A w.has_claim_writer _ _ tt (emit_if-Logs P A w.has_claim_writer _ s tt l))

  terminate_drained-Logs :
      P terminated → (s : Store) → Logs P A s → Logs P A (terminate_drained w s).0
  terminate_drained-Logs a s l = finish_drain-Logs _ (
      write_status-Logs P A w _ a refl (
        remove_loaded_models-Logs P A w _
          (emit_if-Logs P A w.has_worker_store _ _ tt (delete_node-Logs P A w s l))))

  destroy_for_drain-Logs : (s : Store) → Logs P A s → Logs P A (destroy_for_drain w s).0
  unfolding destroy_for_drain
  destroy_for_drain-Logs s l = elim (Bool-cases (is_empty s.claim.status.instance_id)) [
    | inl e ↦ rw e l
    | inr e ↦ elim (Bool-cases (w.registered (draining_provider w s.claim))) [
      | inl f ↦ rw (e, f) (destroy-Logs P A w _ _ s l)
      | inr f ↦ rw (e, f) l
    ]
  ]

  drain_further-Logs :
      (r : Store × Option Error)
      → (r.1 ≡ none → P terminated)
      → Logs P A r.0
      → Logs P A (drain_further w r).0
  drain_further-Logs (s, some e) a l = l
  drain_further-Logs (s, none) a l = terminate_drained-Logs (a refl) s l

  pub handle_draining-Logs :
      (s : Store)
      → ((destroy_for_drain w s).1 ≡ none → P terminated)
      → Logs P A s
      → Logs P A (handle_draining w s).0
  unfolding handle_draining
  handle_draining-Logs s a l =
      drain_further-Logs (destroy_for_drain w s) a (destroy_for_drain-Logs s l)

  destroy_if_known-Logs :
      (p i : Text) (s : Store) → Logs P A s → Logs P A (destroy_if_known w p i s)
  destroy_if_known-Logs p i s l = elim (Bool-cases (w.registered p)) [
    | inl e ↦ rw e (destroy-Logs P A w p i s l)
    | inr e ↦ rw e l
  ]

  finish_hibernated-Logs :
      (r : Store × Option Error) → Logs P A r.0 → Logs P A (finish_hibernated w r).0
  finish_hibernated-Logs (s, some e) l = l
  finish_hibernated-Logs (s, none) l = l

  pub handle_hibernated-Logs :
      P terminated → (s : Store) → Logs P A s → Logs P A (handle_hibernated w s).0
  unfolding handle_hibernated
  handle_hibernated-Logs a s l = finish_hibernated-Logs _ (
      write_status-Logs P A w _ a refl (
        remove_loaded_models-Logs P A w _ (
          emit_if-Logs P A w.has_worker_store _ _ tt (
            guarded (
              not (is_empty s.claim.status.instance_id)
              && not (is_empty s.claim.status.provider))))))
    where
      guarded :
          (b : Bool)
          → Logs P A (
              if b
              then destroy_if_known w s.claim.status.provider s.claim.status.instance_id s
              else s)
      guarded true = destroy_if_known-Logs _ _ s l
      guarded false = l

  pub terminate_timed_out-Logs :
      P terminated → (p : Text) (s : Store) → Logs P A s → Logs P A (terminate_timed_out w p s).0
  unfolding terminate_timed_out
  terminate_timed_out-Logs a p s l = retrigger_if_demand_exists-Logs P A w _ (
      delete_node-Logs P A w _ (
        remove_loaded_models-Logs P A w _ (
          emit_if-Logs P A w.has_worker_store _ _ tt
            (destroy-Logs P A w p _ _ (write_status-Logs P A w _ a refl l)))))

  destroy_on_deletion-Logs : (s : Store) → Logs P A s → Logs P A (destroy_on_deletion w s)
  unfolding destroy_on_deletion
  destroy_on_deletion-Logs s l = guarded (
      not (is_empty s.claim.status.instance_id)
      && (not (text_eq s.claim.status.instance_id (txt "0"))
          && not (is_empty (resolve_claim_provider s.claim))))
    where
      guarded :
          (b : Bool)
          → Logs P A (
              if b
              then destroy_if_known w (resolve_claim_provider s.claim) s.claim.status.instance_id s
              else s)
      guarded true = destroy_if_known-Logs _ _ s l
      guarded false = l

  reply_to_write-Logs : (r : Store × Option Error) → Logs P A r.0 → Logs P A (reply_to_write w r).0
  reply_to_write-Logs (s, some e) l = l
  reply_to_write-Logs (s, none) l = l

  pub handle_deletion-Logs : (s : Store) → Logs P A s → Logs P A (handle_deletion w s).0
  unfolding handle_deletion
  handle_deletion-Logs s l = elim (Bool-cases (contains_text finalizer s.claim.finalizers)) [
    | inr e ↦ rw e l
    | inl e ↦ rw e (
        reply_to_write-Logs _ (
          write_claim-Logs P A w _ refl (
            remove_loaded_models-Logs P A w _
              (emit_if-Logs P A w.has_worker_store _ _ tt (destroy_on_deletion-Logs s l)))))
  ]
