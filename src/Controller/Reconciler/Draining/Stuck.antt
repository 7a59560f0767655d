-- ===== src/Controller/Reconciler/Draining/Stuck.antt =====
-- internal/controller/reconciler.go: `handleDraining`, where the provider cannot destroy the instance.
use gpuscale.Prelude.{
  ℕ, zero, suc, ◌*◌, ◌≡◌, refl, sym, ap, subst, ◌∙◌, true, false, Text, Bool, is_empty, Option,
  none, some, contains_text, if◌then◌else◌,
}
use gpuscale.Provider.{Error, is_error, instance_not_found}
use gpuscale.Controller.Claims.{Claim, draining}
use gpuscale.Controller.Effects.{write_claim, World, Store, destroy, emit, Effect, after, second}
use gpuscale.Controller.Reconciler.Ending.{
  finalizer, draining_provider, unless_gone, destroy_for_drain, drain_further, handle_draining,
  handle_deletion,
}
use gpuscale.Controller.Reconciler.{dispatch, dispatch_written, add_finalizer, reconcile}

module _ (w : World) where
  -- That many reconciliations in a row, each of the claim as the server has it.
  pub reconciled : ℕ → Store → Store
  reconciled zero s = s
  reconciled (suc n) s = reconciled n (reconcile w (record s { claim = s.stored })).0

  -- A claim whose drain was begun.
  pub record IsDraining (provider id : Text) (c : Claim) : Type 0 where
    pub kept : c.is_deleting ≡ false
    pub guarded : contains_text finalizer c.finalizers ≡ true
    pub phase : c.status.phase ≡ draining
    pub bought_at : draining_provider w c ≡ provider
    pub bought_as : c.status.instance_id ≡ id

  -- Every destroy call for the instance fails, and none of them says that it is not there.
  abbrev pub NeverDestroyed : Text → Text → Type 0
  NeverDestroyed provider id =
      (n : ℕ)
      → (e : Error) × (w.destroy_error n provider id ≡ some e)
        × (is_error e instance_not_found ≡ false)

  module _ (provider id : Text) (known : w.registered provider ≡ true) (named : is_empty id ≡ false)
      (fails : NeverDestroyed provider id) where
    destroy-fails :
        (s : Store) (e : Error)
        → w.destroy_error s.asked provider id ≡ some e
        → is_error e instance_not_found ≡ false
        → ◌≡◌ {A = Store × Option Error}
            (let (t, x) = destroy w provider id s in (t, unless_gone w x))
            (emit (Effect.destroy_failed provider id) s, some e)
    unfolding destroy
    destroy-fails s e h k = rw (h, destroy) (rw k refl)

    destroy_for_drain-waits :
        (s : Store)
        → IsDraining provider id s.claim
        → (e : Error) × (destroy_for_drain w s
            ≡ (emit (Effect.destroy_failed provider id) s, some e))
    unfolding destroy_for_drain
    destroy_for_drain-waits s d =
        let (e, failed, other) = fails s.asked in
        let ask : Text → Text → Bool → Bool → Store × Option Error = λ p i b c.
          if b
          then (s, none)
          else if c
          then (let (t, x) = destroy w p i s in (t, unless_gone w x))
          else (s, none) in
        (
          e,
          ap
                (λ p.
                  ask p s.claim.status.instance_id (is_empty s.claim.status.instance_id)
                    (w.registered p))
                d.bought_at
              ∙ ap (λ i. ask provider i (is_empty i) (w.registered provider)) d.bought_as
              ∙ ap (λ b. ask provider id b (w.registered provider)) named
              ∙ ap (λ b. ask provider id false b) known
              ∙ destroy-fails s e failed other,
        )

    reconcile-waits :
        (s : Store)
        → IsDraining provider id s.claim
        → reconcile w s ≡ (emit (Effect.destroy_failed provider id) s, after (30 * second))
    unfolding reconcile dispatch handle_draining
    reconcile-waits s d =
        let kept = λ (b : Bool).
          if b
          then dispatch w s.claim.status.phase s
          else dispatch_written w (write_claim w (add_finalizer w s)) in
        ap
          (λ b.
            if b then handle_deletion w s else kept (contains_text finalizer s.claim.finalizers))
          d.kept
        ∙ ap kept d.guarded
        ∙ ap (λ p. dispatch w p s) d.phase
        ∙ ap (drain_further w) (destroy_for_drain-waits s d).1

    pub reconciled-stored :
        (n : ℕ) (s : Store) → IsDraining provider id s.stored → (reconciled n s).stored ≡ s.stored
    unfolding reconciled
    reconciled-stored zero s d = refl
    reconciled-stored (suc n) s d =
        let start = record s { claim = s.stored } in
        let kept = ap (λ r. r.0.stored) (reconcile-waits start d) in
        reconciled-stored n (reconcile w start).0 (subst (IsDraining provider id) (sym kept) d)
        ∙ kept
