-- ===== src/Controller/Reconciler/Writes/Bootstrapping.antt =====
-- internal/controller/reconciler.go: the statuses written during the bootstrap.
use gpuscale.Prelude.{
  refl, inl, inr, not, ◌&&◌, List, [], ◌∷◌, Option, none, some, Text, txt, Bool-cases, is_empty,
}
use gpuscale.Provider.{Error, Result, ok, err, Instance}
use gpuscale.Controller.Claims.{Phase, pending, bootstrapping, ready, terminated, annotation}
use gpuscale.Controller.Effects.{World, Store, Reply, tick}
use gpuscale.Controller.Effects.Logged.{
  relog, Logs, choice-Logs, branch-Logs, emit_if-Logs, write_status-Logs, destroy-Logs,
  delete_node-Logs, retrigger_if_demand_exists-Logs,
}
use gpuscale.Controller.Reconciler.Bootstrapping.{
  reply_after_write, handle_provisioning, finish_failed, bootstrap_gone, blacklist_if_known,
  handle_failed, publish_available, finish_ready, handle_standalone, bootstrap_with,
  handle_bootstrapping,
}
use gpuscale.Controller.Reconciler.Writes.Ending.{terminate_timed_out-Logs}

module _ (w : World) (P : Phase → Type 0) (A : Type 0) where
  pub reply_after_write-Logs :
      (reply : Reply) (r : Store × Option Error)
      → Logs P A r.0
      → Logs P A (reply_after_write w reply r).0
  reply_after_write-Logs reply (s, some e) l = l
  reply_after_write-Logs reply (s, none) l = l

  pub handle_provisioning-Logs :
      P bootstrapping → P pending → (s : Store) → Logs P A s → Logs P A (handle_provisioning w s).0
  unfolding handle_provisioning
  handle_provisioning-Logs a b s l = elim (Bool-cases (not (is_empty s.claim.status.instance_id))) [
    | inl e ↦ rw e (reply_after_write-Logs _ _ (write_status-Logs P A w _ a refl l))
    | inr e ↦
        elim (Bool-cases (not (is_empty (annotation s.claim (txt "gpuscale.io/instance-id"))))) [
          | inl f ↦ rw (e, f) (reply_after_write-Logs _ _ (write_status-Logs P A w _ b refl l))
          | inr f ↦ rw (e, f) (reply_after_write-Logs _ _ (write_status-Logs P A w _ b refl l))
        ]
  ]

  finish_failed-Logs : (r : Store × Option Error) → Logs P A r.0 → Logs P A (finish_failed w r).0
  finish_failed-Logs (s, some e) l = l
  finish_failed-Logs (s, none) l =
      retrigger_if_demand_exists-Logs P A w _
        (delete_node-Logs P A w _ (emit_if-Logs P A w.has_worker_store _ s tt l))

  bootstrap_gone-Logs : P terminated → (s : Store) → Logs P A s → Logs P A (bootstrap_gone w s).0
  unfolding bootstrap_gone
  bootstrap_gone-Logs a s l = finish_failed-Logs _ (write_status-Logs P A w _ a refl l)

  blacklist_if_known-Logs :
      (p : Text) (s : Store) → Logs P A s → Logs P A (blacklist_if_known w p s)
  blacklist_if_known-Logs p s l =
      elim (Bool-cases
        (not (is_empty (annotation s.claim (txt "gpuscale.io/offer-id"))) && w.has_coordinator)) [
          | inl e ↦ rw e record { logged = (tt, l.logged) }
          | inr e ↦ rw e l
        ]

  handle_failed-Logs :
      P terminated
      → (p : Text) (i : Instance) (s : Store) → Logs P A s
      → Logs P A (handle_failed w p i s).0
  unfolding handle_failed
  handle_failed-Logs a p i s l = choice-Logs P A _ _ _ l (
      finish_failed-Logs _ (
        write_status-Logs P A w _ a refl
          (blacklist_if_known-Logs p _ (destroy-Logs P A w p _ s l))))

  publish_available-Logs :
      (ms : List Text) (s : Store) → Logs P A s → Logs P A (publish_available w ms s)
  unfolding publish_available
  publish_available-Logs [] s l = l
  publish_available-Logs (m ∷ ms) s l =
      publish_available-Logs ms _ (emit_if-Logs P A (not (is_empty m)) _ s tt l)

  finish_ready-Logs : (r : Store × Option Error) → Logs P A r.0 → Logs P A (finish_ready w r).0
  finish_ready-Logs (s, some e) l = l
  finish_ready-Logs (s, none) l =
      let shown = emit_if-Logs P A w.has_worker_store _ s tt l in
      let marked = emit_if-Logs P A _ _ _ tt shown in
      emit_if-Logs P A w.has_claim_writer _ _ tt (
        emit_if-Logs P A w.has_claim_writer _ _ tt
          (branch-Logs P A w.has_demand_store _ _ (publish_available-Logs _ _ marked) marked))

  handle_standalone-Logs :
      P ready
      → P terminated
      → (p : Text) (s : Store) → Logs P A s
      → Logs P A (handle_standalone w p s).0
  unfolding handle_standalone
  handle_standalone-Logs a b p s l =
      choice-Logs P A _ _ _ (finish_ready-Logs _ (write_status-Logs P A w _ a refl l))
        (choice-Logs P A _ _ _ (terminate_timed_out-Logs w P A b p s l) l)

  bootstrap_with-Logs :
      P ready
      → P terminated
      → (p : Text) (r : Result Instance) (s : Store) → Logs P A s
      → Logs P A (bootstrap_with w p r s).0
  bootstrap_with-Logs a b p (err e) s l = choice-Logs P A _ _ _ (bootstrap_gone-Logs b s l) l
  bootstrap_with-Logs a b p (ok i) s l =
      choice-Logs P A _ _ _ (handle_failed-Logs b p i s l) (handle_standalone-Logs a b p s l)

  pub handle_bootstrapping-Logs :
      P ready → P terminated → (s : Store) → Logs P A s → Logs P A (handle_bootstrapping w s).0
  unfolding handle_bootstrapping
  handle_bootstrapping-Logs a b s l =
      choice-Logs P A _ _ _ (bootstrap_with-Logs a b _ _ (tick s) (relog refl l)) l
