-- ===== src/Controller/Reconciler/Writes/Pending.antt =====
-- internal/controller/reconciler.go: the statuses written while an instance is bought.
use gpuscale.Prelude.{
  is_empty, txt, true, ◌≡◌, refl, sym, subst, inl, inr, Bool, true, false, if◌then◌else◌, Option,
  none, some, Text, Option-cases,
}
use gpuscale.Provider.{Error, Result, ok, err, BootstrapConfig}
use gpuscale.Coordinator.Provision.State.{Outcome, ProvisionResult, provisioned, failed, neither}
use gpuscale.Controller.Claims.{
  annotation, Claim, Phase, Pool, pending, provisioning, bootstrapping,
}
use gpuscale.Controller.Effects.{World, Effect, Store, tick, emit_if}
use gpuscale.Controller.Effects.Logged.{
  relog, Logs, choice-Logs, choose-Logs, branch-Logs, emit_if-Logs, write_status-Logs,
  write_claim-Logs,
}
use gpuscale.Controller.Reconciler.Pending.{
  patch_annotations, take_fetched, fetch_again, reply_created, fill_status, fill_fetched,
  fetch_written, note_provider, back_to_pending, take_outcome, ask_coordinator, provision_new,
  with_token, with_pool, handle_pending, bootstrap_config,
}
use gpuscale.Controller.Reconciler.Pending.Wants.{Details}

module _ (w : World) (P : Phase → Type 0) (A : Type 0) where
  patch_annotations-Logs :
      (r : ProvisionResult) (s : Store) → Logs P A s → Logs P A (patch_annotations w r s)
  unfolding patch_annotations
  patch_annotations-Logs r s l = elim (Option-cases (w.write_error s.asked)) [
    | inl e ↦ rw (e, patch_annotations) record { logged = (tt, l.logged) }
    | inr (x, e) ↦ rw (e, patch_annotations) (relog refl l)
  ]

  take_fetched-Logs : (r : Result Claim) (s : Store) → Logs P A s → Logs P A (take_fetched w r s).0
  take_fetched-Logs (ok c) s l = relog refl l
  take_fetched-Logs (err e) s l = relog refl l

  fetch_again-Logs : (s : Store) → Logs P A s → Logs P A (fetch_again w s).0
  fetch_again-Logs s l = take_fetched-Logs (w.refetch s.asked s.stored) s l

  reply_created-Logs : (r : Store × Option Error) → Logs P A r.0 → Logs P A (reply_created w r).0
  reply_created-Logs (s, some e) l = l
  reply_created-Logs (s, none) l = l

  fill_status-Logs :
      P bootstrapping → (d : Details) (s : Store) → Logs P A s → Logs P A (fill_status w d s).0
  unfolding fill_status
  fill_status-Logs a d s l = reply_created-Logs _ (
      write_status-Logs P A w _ (subst P (sym (shown_phase d.is_new w.has_claim_writer _ _)) a) refl
        (branch-Logs P A d.is_new _ _ (emit_if-Logs P A w.has_claim_writer _ _ tt (relog refl l))
          (relog refl l)))
    where
      shown_phase :
          (b c : Bool) (e : Effect) (t : Store)
          → (if b then emit_if c e t else t).claim.status.phase ≡ t.claim.status.phase
      shown_phase true true e t = refl
      shown_phase true false e t = refl
      shown_phase false c e t = refl

  fill_fetched-Logs :
      P bootstrapping
      → (d : Details) (r : Store × Option Error) → Logs P A r.0
      → Logs P A (fill_fetched w d r).0
  fill_fetched-Logs a d (s, some e) l = l
  fill_fetched-Logs a d (s, none) l = fill_status-Logs a d s l

  fetch_written-Logs :
      P bootstrapping
      → (d : Details) (r : Store × Option Error) → Logs P A r.0
      → Logs P A (fetch_written w d r).0
  fetch_written-Logs a d (s, some e) l = l
  fetch_written-Logs a d (s, none) l =
      fill_fetched-Logs a d (fetch_again w s) (fetch_again-Logs s l)

  note_provider-Logs :
      P bootstrapping
      → (d : Details) (r : Store × Option Error) → Logs P A r.0
      → Logs P A (note_provider w d r).0
  unfolding note_provider
  note_provider-Logs a d (s, some e) l = l
  note_provider-Logs a d (s, none) l =
      choice-Logs P A _ _ _ (fetch_written-Logs a d _ (write_claim-Logs P A w _ refl l))
        (fill_status-Logs a d s l)

  back_to_pending-Logs :
      P pending → (r : Store × Option Error) → Logs P A r.0 → Logs P A (back_to_pending w r).0
  back_to_pending-Logs a (s, some e) l = l
  back_to_pending-Logs a (s, none) l = write_status-Logs P A w _ a refl l

  take_outcome-Logs :
      P pending
      → P bootstrapping
      → (o : Outcome) (s : Store) → Logs P A s
      → Logs P A (take_outcome w o s).0
  unfolding take_outcome
  take_outcome-Logs a b (failed e) s l =
      back_to_pending-Logs a (fetch_again w s) (fetch_again-Logs s l)
  take_outcome-Logs a b neither s l = l
  take_outcome-Logs a b (provisioned r) s l =
      note_provider-Logs b _ (fetch_again w _) (fetch_again-Logs _ (patch_annotations-Logs r s l))

  ask_coordinator-Logs :
      A
      → P pending
      → P bootstrapping
      → (pool : Pool) (config : BootstrapConfig) (r : Store × Option Error) → Logs P A r.0
      → Logs P A (ask_coordinator w pool config r).0
  ask_coordinator-Logs may a b pool config (s, some e) l = l
  ask_coordinator-Logs may a b pool config (s, none) l =
      take_outcome-Logs a b _ _
        record { logged = (may, (emit_if-Logs P A w.has_claim_writer _ s tt l).logged) }

  -- No instance is noted in the claim's annotations.
  abbrev pub IsUnprovisioned : Claim → Type 0
  IsUnprovisioned c = is_empty (annotation c (txt "gpuscale.io/instance-id")) ≡ true

  with_token-Logs :
      P pending
      → P provisioning
      → P bootstrapping
      → (pool : Pool) (r : Result Text) (s : Store) → (IsUnprovisioned s.claim → A)
      → Logs P A s
      → Logs P A (with_token w pool r s).0
  unfolding provision_new
  with_token-Logs a b c pool (err e) s may l = l
  with_token-Logs a b c pool (ok token) s may l =
      choose-Logs P A (is_empty (annotation s.claim (txt "gpuscale.io/instance-id"))) _ _
        (λ none_noted.
          ask_coordinator-Logs (may none_noted) a c pool (bootstrap_config w s pool token) _
            (write_status-Logs P A w _ b refl l))
        (λ noted.
          note_provider-Logs c _ (fetch_again w (tick s))
            (fetch_again-Logs (tick s) (relog refl l)))

  with_pool-Logs :
      P pending
      → P provisioning
      → P bootstrapping
      → (r : Result Pool) (s : Store) → (IsUnprovisioned s.claim → A)
      → Logs P A s
      → Logs P A (with_pool w r s).0
  with_pool-Logs a b c (err e) s may l = l
  with_pool-Logs a b c (ok pool) s may l = with_token-Logs a b c pool _ (tick s) may (relog refl l)

  pub handle_pending-Logs :
      P pending
      → P provisioning
      → P bootstrapping
      → (s : Store) → (IsUnprovisioned s.claim → A)
      → Logs P A s
      → Logs P A (handle_pending w s).0
  unfolding handle_pending
  handle_pending-Logs a b c s may l = with_pool-Logs a b c _ (tick s) may (relog refl l)
