-- ===== src/Controller/Reconciler/Lifecycle.antt =====
-- internal/controller/reconciler.go: the phases through which a claim goes,
-- Pending → Provisioning → Bootstrapping → Ready → Draining → Terminated.
use gpuscale.Prelude.{
  true, false, is_empty, txt, lookup, ◌≡◌, refl, sym, subst, ◌⊎◌, inl, inr, [], Option, none, some,
  Option-cases, contains_text, All, In, All-In,
}
use gpuscale.Provider.{Error}
use gpuscale.Controller.Claims.{
  Claim, annotation, text_or_empty, Phase, unset, pending, provisioning, bootstrapping, ready,
  draining, terminated, hibernated,
}
use gpuscale.Controller.Effects.{World, Store, status_written, asked_coordinator, write_claim}
use gpuscale.Controller.Effects.Logged.{
  Allows, Logs, choice-Logs, choose-Logs, write_status-Logs, write_claim-Logs,
}
use gpuscale.Controller.Reconciler.{dispatch, dispatch_written, add_finalizer, reconcile}
use gpuscale.Controller.Reconciler.Ending.{finalizer}
use gpuscale.Controller.Reconciler.Writes.Ending.{
  handle_draining-Logs, handle_hibernated-Logs, handle_deletion-Logs,
}
use gpuscale.Controller.Reconciler.Writes.Bootstrapping.{
  reply_after_write-Logs, handle_provisioning-Logs, handle_bootstrapping-Logs,
}
use gpuscale.Controller.Reconciler.Writes.Ready.{handle_ready-Logs}
use gpuscale.Controller.Reconciler.Writes.Pending.{handle_pending-Logs}

-- A status of the second phase may be written while a claim of the first one is reconciled.
pub data Follows : Phase → Phase → Type 0 where
  accepted : Follows unset pending
  started : Follows pending provisioning
  retried : Follows pending pending
  created : Follows pending bootstrapping
  resumed : Follows provisioning bootstrapping
  restarted : Follows provisioning pending
  connected : Follows bootstrapping ready
  not_connected : Follows bootstrapping terminated
  lost : Follows ready terminated
  drained : Follows draining terminated
  expired : Follows hibernated terminated

-- The coordinator may be asked for an instance: the claim is pending, is not being deleted, and no
-- instance is noted in its annotations.
pub record MayAsk (c : Claim) : Type 0 where
  pub is_pending : c.status.phase ≡ pending
  pub is_kept : c.is_deleting ≡ false
  pub is_unprovisioned : is_empty (annotation c (txt "gpuscale.io/instance-id")) ≡ true

module _ (w : World) where
  module _ (A : Type 0) where
    -- The claim that is dispatched, if it is pending, is one for which the coordinator may be asked.
    abbrev Lets : Phase → Claim → Type 0
    Lets p c = p ≡ pending → is_empty (annotation c (txt "gpuscale.io/instance-id")) ≡ true → A

    dispatch-Logs :
        (p : Phase) (s : Store)
        → Lets p s.claim
        → Logs (Follows p) A s
        → Logs (Follows p) A (dispatch w p s).0
    unfolding dispatch
    dispatch-Logs unset s may l =
        reply_after_write-Logs w (Follows unset) A _ _
          (write_status-Logs (Follows unset) A w _ accepted refl l)
    dispatch-Logs pending s may l =
        handle_pending-Logs w (Follows pending) A retried started created s (may refl) l
    dispatch-Logs provisioning s may l =
        handle_provisioning-Logs w (Follows provisioning) A resumed restarted s l
    dispatch-Logs bootstrapping s may l =
        handle_bootstrapping-Logs w (Follows bootstrapping) A connected not_connected s l
    dispatch-Logs ready s may l = handle_ready-Logs w (Follows ready) A lost s l
    dispatch-Logs draining s may l = handle_draining-Logs w (Follows draining) A s (λ e. drained) l
    dispatch-Logs hibernated s may l = handle_hibernated-Logs w (Follows hibernated) A expired s l
    dispatch-Logs terminated s may l = l

    -- Written without error, the claim has the server's phase and its own annotations.
    abbrev Written : Phase → Claim → Store × Option Error → Type 0
    Written p c r =
        ((e : Error) × (r.1 ≡ some e))
        ⊎ ((r.1 ≡ none) × (r.0.claim.status.phase ≡ p) × (r.0.claim.annotations ≡ c.annotations))

    write_claim-Written :
        (p : Phase) (s : Store) → s.stored.status.phase ≡ p → Written p s.claim (write_claim w s)
    unfolding write_claim
    write_claim-Written p s h = elim (Option-cases (w.write_error s.asked)) [
      | inl e ↦ rw (e, write_claim) (inr (refl, h, refl))
      | inr (x, e) ↦ rw (e, write_claim) (inl (x, refl))
    ]

    dispatch_written-Logs :
        (p : Phase) (c : Claim) (r : Store × Option Error)
        → Written p c r
        → Lets p c
        → Logs (Follows p) A r.0
        → Logs (Follows p) A (dispatch_written w r).0
    unfolding annotation
    dispatch_written-Logs p c (s, some e) g may l = l
    dispatch_written-Logs p c (s, none) (inr (n, e, a)) may l =
        subst (λ q. Logs (Follows p) A (dispatch w q s).0) (sym e)
          (dispatch-Logs p s
            (λ is_pending h. may is_pending (
              subst
                (λ m. is_empty (text_or_empty (lookup (txt "gpuscale.io/instance-id") m)) ≡ true) a
                h))
            l)
    dispatch_written-Logs p c (s, none) (inl (e, h)) may l = cc

  reconcile-Logs :
      (s : Store)
      → s.stored.status.phase ≡ s.claim.status.phase
      → Logs (Follows s.claim.status.phase) (MayAsk s.claim) s
      → Logs (Follows s.claim.status.phase) (MayAsk s.claim) (reconcile w s).0
  unfolding reconcile
  reconcile-Logs s e l =
      let P = Follows s.claim.status.phase in
      let A = MayAsk s.claim in
      choose-Logs P A s.claim.is_deleting _ _ (λ deleting. handle_deletion-Logs w P A s l)
        (λ kept.
          let may : Lets A s.claim.status.phase s.claim =
            λ p u. record { is_pending = p; is_kept = kept; is_unprovisioned = u } in
          choice-Logs P A (contains_text finalizer s.claim.finalizers) _ _
            (dispatch-Logs A s.claim.status.phase s may l)
            (dispatch_written-Logs A s.claim.status.phase s.claim
              (write_claim w (add_finalizer w s))
              (write_claim-Written A s.claim.status.phase (add_finalizer w s) e) may
              (write_claim-Logs P A w _ refl l)))

  start : (s : Store) → s.log ≡ [] → Logs (Follows s.claim.status.phase) (MayAsk s.claim) s
  start s n = record {
    logged = subst (All (Allows (Follows s.claim.status.phase) (MayAsk s.claim))) (sym n) tt;
  }

  -- Whatever the cluster, the providers and the stores answer, a reconciliation that starts from
  -- the stored phase writes only statuses whose phase follows it: each phase has one handler's
  -- transitions, and none leads out of Terminated.
  pub reconcile-Follows :
      (s : Store)
      → s.log ≡ []
      → s.stored.status.phase ≡ s.claim.status.phase
      → (q : Phase) → In (status_written q) (reconcile w s).0.log
      → Follows s.claim.status.phase q
  reconcile-Follows s n e q i =
      All-In (Allows (Follows s.claim.status.phase) (MayAsk s.claim)) (status_written q) _
        (reconcile-Logs s e (start s n)).logged i

  -- Starting from the stored phase, the coordinator is asked for an instance only for a pending claim
  -- that is not being deleted and has no instance noted in its annotations.
  pub reconcile-MayAsk :
      (s : Store)
      → s.log ≡ []
      → s.stored.status.phase ≡ s.claim.status.phase
      → In asked_coordinator (reconcile w s).0.log
      → MayAsk s.claim
  reconcile-MayAsk s n e i =
      All-In (Allows (Follows s.claim.status.phase) (MayAsk s.claim)) asked_coordinator _
        (reconcile-Logs s e (start s n)).logged i

  -- A claim that is Terminated gets no further status, from whatever answers.
  pub reconcile_terminated :
      (s : Store)
      → s.log ≡ []
      → s.stored.status.phase ≡ s.claim.status.phase
      → s.claim.status.phase ≡ terminated
      → (q : Phase) → ¬ In (status_written q) (reconcile w s).0.log
  reconcile_terminated s n e t q i =
      no_way q (subst (λ p. Follows p q) t (reconcile-Follows s n e q i))
    where
      no_way : (q : Phase) → ¬ Follows terminated q
      no_way q f = elim f [ ]
