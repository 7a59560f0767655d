-- ===== src/Controller/Reconciler/Draining.antt =====
-- internal/controller/reconciler.go: when a draining claim ends, `handleDraining`.
pub mod Stuck
use gpuscale.Prelude.{
  ℕ, Option, ◌*◌, ap, ◌∙◌, txt, ◌≡◌, refl, sym, subst, ◌⊎◌, inl, inr, true, false, [], none, some,
  Option-cases, Bool-cases, is_empty, All, In, All-In,
}
use gpuscale.Provider.{Error, is_error, instance_not_found}
use gpuscale.Controller.Claims.{Phase, terminated}
use gpuscale.Controller.Effects.Kept.{Keeps-trans, emit_if-Keeps, retrigger_if_demand_exists-Keeps}
use gpuscale.Controller.Effects.{
  Effect, Reply, write_status, write_event, write_terminated_record, retrigger_if_demand_exists,
  done, after, second, emit, World, Store, status_written, destroy,
}
use gpuscale.Controller.Effects.Logged.{Allows}
use gpuscale.Controller.Reconciler.Ending.{
  drain_further, finish_drain, handle_draining, destroy_for_drain, draining_provider,
}
use gpuscale.Controller.Reconciler.Writes.Ending.{handle_draining-Logs}

module _ (w : World) where
  -- No destroy call is left to wait for: the claim names no instance, its provider is not registered,
  -- so that none can be made, or the provider answers it by success or by an error that wraps
  -- instance_not_found.
  pub IsSettled : Store → Type 0
  IsSettled s =
      let provider = draining_provider w s.claim in
      let id = s.claim.status.instance_id in
      (is_empty id ≡ true)
      ⊎ ((w.registered provider ≡ false)
          ⊎ ((w.destroy_error s.asked provider id ≡ none)
              ⊎ ((e : Error) × (w.destroy_error s.asked provider id ≡ some e)
                  × (is_error e instance_not_found ≡ true))))

  -- The provider fails to destroy the instance, for another reason than that it is not there.
  pub IsRefused : Store → Type 0
  IsRefused s =
      let provider = draining_provider w s.claim in
      let id = s.claim.status.instance_id in
      (is_empty id ≡ false)
      × (w.registered provider ≡ true)
      × (e : Error) × (w.destroy_error s.asked provider id ≡ some e)
      × (is_error e instance_not_found ≡ false)

  Waits : Store → Type 0
  Waits s =
      IsRefused s
      × (e : Error) × (destroy_for_drain w s ≡ (
        emit (Effect.destroy_failed (draining_provider w s.claim) s.claim.status.instance_id) s,
        some e,
      ))

  destroy_for_drain-cases :
      (s : Store) → (IsSettled s × ((destroy_for_drain w s).1 ≡ none)) ⊎ Waits s
  unfolding destroy_for_drain destroy IsSettled IsRefused Waits
  destroy_for_drain-cases s = elim (Bool-cases (is_empty s.claim.status.instance_id)) [
    | inl e ↦ inl (inl e, rw e refl)
    | inr e ↦ elim (Bool-cases (w.registered (draining_provider w s.claim))) [
      | inr f ↦ inl (inr (inl f), rw (e, f) refl)
      | inl f ↦
          elim (Option-cases
            (w.destroy_error s.asked (draining_provider w s.claim) s.claim.status.instance_id)) [
              | inl g ↦ inl (inr (inr (inl g)), rw (e, f) (rw (g, destroy) refl))
              | inr (x, g) ↦ elim (Bool-cases (is_error x instance_not_found)) [
                | inl h ↦ inl (inr (inr (inr (x, g, h))), rw (e, f) (rw (g, destroy) (rw h refl)))
                | inr h ↦ inr ((e, f, x, g, h), x, rw (e, f) (rw (g, destroy) (rw h refl)))
              ]
            ]
    ]
  ]

  destroy_for_drain-IsSettled : (s : Store) → (destroy_for_drain w s).1 ≡ none → IsSettled s
  unfolding Waits
  destroy_for_drain-IsSettled s n = elim (destroy_for_drain-cases s) [
    | inl (settled, h) ↦ settled
    | inr (refused, e, h) ↦ absurd (cc (n, ap (λ r. r.1) h))
  ]

  -- A draining claim is written as Terminated, or gets any status at all, only where it names no
  -- instance, its provider is not registered, or the provider answers the destroy call by success or
  -- by an error that wraps instance_not_found: one that fails for another reason leaves the status as
  -- it is.
  pub handle_draining-IsSettled :
      (s : Store)
      → s.log ≡ []
      → (q : Phase) → In (status_written q) (handle_draining w s).0.log
      → IsSettled s
  handle_draining-IsSettled s n q i =
      All-In (Allows (λ p. IsSettled s) Unit) (status_written q) _
        (handle_draining-Logs w (λ p. IsSettled s) Unit s (destroy_for_drain-IsSettled s)
          (record { logged = subst (All (Allows (λ p. IsSettled s) Unit)) (sym n) tt })).logged
        i

  -- Every write succeeds.
  abbrev pub WritesSucceed : Type 0
  WritesSucceed = (n : ℕ) → w.write_error n ≡ none

  IsDrained : Store × Reply → Type 0
  IsDrained r = (r.0.stored.status.phase ≡ terminated) × (r.1 ≡ done)

  written : WritesSucceed → (s : Store) → (write_status w s).1 ≡ none
  unfolding write_status
  written ok s = rw (ok s.asked, write_status) refl

  stored_phase :
      WritesSucceed → (s : Store) → (write_status w s).0.stored.status.phase ≡ s.claim.status.phase
  unfolding write_status
  stored_phase ok s = rw (ok s.asked, write_status) refl

  finish_drain-IsDrained :
      (r : Store × Option Error)
      → r.1 ≡ none
      → r.0.stored.status.phase ≡ terminated
      → IsDrained (finish_drain w r)
  unfolding IsDrained
  finish_drain-IsDrained (s, some e) h t = absurd (cc h)
  finish_drain-IsDrained (s, none) h t =
      let shown = write_event w (txt "terminated") s in
      let recorded = write_terminated_record w shown in
      let kept =
        Keeps-trans s shown (retrigger_if_demand_exists w recorded)
          (emit_if-Keeps w.has_claim_writer (Effect.event_written (txt "terminated")) s)
          (Keeps-trans shown recorded (retrigger_if_demand_exists w recorded)
            (emit_if-Keeps w.has_claim_writer (Effect.record_written terminated) shown)
            (retrigger_if_demand_exists-Keeps w recorded)) in
      (ap (λ c. c.status.phase) kept.1 ∙ t, refl)

  drained : WritesSucceed → (r : Store × Option Error) → r.1 ≡ none → IsDrained (drain_further w r)
  drained ok (s, some e) h = absurd (cc h)
  drained ok (s, none) h = finish_drain-IsDrained _ (written ok _) (stored_phase ok _)

  -- Where the writes succeed, a drain ends in one of two ways. Where the claim names no instance, its
  -- provider is not registered, or the provider answers the destroy call by success or by an error
  -- that wraps instance_not_found, the stored claim is Terminated and nothing is left to do. Otherwise
  -- the call fails with another error, the stored claim is what it was, and the drain is tried again
  -- after thirty seconds.
  pub handle_draining-Ends :
      WritesSucceed
      → (s : Store)
      → (IsSettled s
          × ((handle_draining w s).0.stored.status.phase ≡ terminated)
          × ((handle_draining w s).1 ≡ done))
        ⊎ (IsRefused s
            × ((handle_draining w s).0.stored ≡ s.stored)
            × ((handle_draining w s).1 ≡ after (30 * second)))
  unfolding handle_draining IsDrained Waits
  handle_draining-Ends ok s = elim (destroy_for_drain-cases s) [
    | inl (settled, h) ↦
        let ended = drained ok (destroy_for_drain w s) h in inl (settled, ended.0, ended.1)
    | inr (refused, e, h) ↦
        inr (refused, ap (λ r. (drain_further w r).0.stored) h, ap (λ r. (drain_further w r).1) h)
  ]
