-- ===== src/Controller/Disruptor/Justified.antt =====
-- internal/controller/disruptor.go: why a node is drained.
use gpuscale.Prelude.{
  ℕ, suc, ◌≡◌, refl, sym, subst, ◌⊎◌, inl, inr, true, false, not, ◌&&◌, ltb, List, [], ◌∷◌, Option,
  none, some, Option-cases, Bool-cases, Text, txt, text_eq, text_eq_iff, is_empty, All, In, All-In,
  arith,
}
use gpuscale.Provider.{Error, Result, ok, err, Instance}
use gpuscale.Controller.Claims.{
  Phase, Pool, ready, draining, terminated, same_phase, annotation, claim_model_ids,
}
use gpuscale.Controller.Effects.{World, Effect, Store, status_written}
use gpuscale.Controller.Effects.Logged.{
  Allows, Logs, relog, choice-Logs, branch-Logs, emit_if-Logs, write_status-Logs, destroy-Logs,
}
use gpuscale.Controller.Reconciler.Bootstrapping.{is_down}
use gpuscale.Controller.Reconciler.Ready.{drain_annotation}
use gpuscale.Controller.Disruptor.Reasons.{
  AllAt, IsNotKept, IsNotAsked, HasNodes, HasReplicas, IsOver, not_kept, not_asked, has_nodes,
  has_replicas, is_over,
}
use gpuscale.Controller.Disruptor.{
  fail_models, finish_destroy, destroy_drained, destroy_worker, clear_idle, billing_period,
  at_min_nodes, at_min_replicas, destroy_if_spare, idle_in, idle_with, handle_idle_claim, disrupt,
  standalone_with, reconcile_standalone, reconcile_idle, next_destroy_in,
  is_any_model_always_active, has_any_model_demand,
}

module _ (w : World) (P : Phase → Type 0) where
  fail_models-Logs : (ms : List Text) (s : Store) → Logs P Unit s → Logs P Unit (fail_models w ms s)
  unfolding fail_models
  fail_models-Logs [] s l = l
  fail_models-Logs (m ∷ ms) s l = fail_models-Logs ms _ (
      emit_if-Logs P Unit (not (is_empty m)) _ _ tt
        (emit_if-Logs P Unit (not (is_empty m)) _ s tt l))

  finish_destroy-Logs :
      (r : Store × Option Error) → Logs P Unit r.0 → Logs P Unit (finish_destroy w r).0
  finish_destroy-Logs (s, some e) l = l
  finish_destroy-Logs (s, none) l =
      let removed =
        emit_if-Logs P Unit w.has_worker_store (Effect.worker_removed s.claim.name) s tt l in
      emit_if-Logs P Unit w.has_claim_writer _ _ tt (
        branch-Logs P Unit w.has_demand_store _ _
          (fail_models-Logs (claim_model_ids s.claim) _ removed) removed)

  destroy_drained-Logs :
      P terminated
      → (r : Store × Option Error) → Logs P Unit r.0
      → Logs P Unit (destroy_drained w r).0
  destroy_drained-Logs a (s, some e) l = l
  destroy_drained-Logs a (s, none) l =
      choice-Logs P Unit (w.registered s.claim.status.provider) _ _
        (finish_destroy-Logs _
          (write_status-Logs P Unit w _ a refl (destroy-Logs P Unit w _ _ s l)))
        l

  destroy_worker-Logs :
      P draining → P terminated → (s : Store) → Logs P Unit s → Logs P Unit (destroy_worker w s).0
  unfolding destroy_worker
  destroy_worker-Logs d t s l = destroy_drained-Logs t _ (write_status-Logs P Unit w _ d refl l)

  clear_idle-Logs :
      (s : Store) → P s.claim.status.phase → Logs P Unit s → Logs P Unit (clear_idle w s)
  unfolding clear_idle
  clear_idle-Logs s a l = elim (Option-cases s.claim.status.idle_since) [
    | inl e ↦ rw (e, clear_idle) l
    | inr (since, e) ↦ rw (e, clear_idle) (write_status-Logs P Unit w _ a refl l)
  ]

module _ (w : World) (cooldown : ℕ) where
  -- Why the node of a claim may go: its instance is reported as stopped or failed, or none of its
  -- models is found to be always active and it is replaced, or besides none is found to be asked for,
  -- the node is idle and was noted as idle, the wait is over, and neither the pool nor the primary
  -- model would fall below its minimum, as far as that is known.
  pub data Justified (s : Store) : Type 0 where
    down :
        (i : Instance)
        → w.get_instance s.asked s.claim.status.provider s.claim.status.instance_id ≡ ok i
        → (i.status ≡ txt "stopped") ⊎ (i.status ≡ txt "error")
        → Justified s
    replaced :
        (n : ℕ)
        → AllAt (IsNotKept w) n (claim_model_ids s.claim)
        → annotation s.claim drain_annotation ≡ txt "true"
        → Justified s
    spare :
        (n since : ℕ) (pool : Option Pool)
        → AllAt (IsNotKept w) n (claim_model_ids s.claim)
        → AllAt (IsNotAsked w) n (claim_model_ids s.claim)
        → w.node_idle n s.claim.name ≡ true
        → s.claim.status.idle_since ≡ some since
        → w.find_pool (suc (suc n)) s.claim.spec.pool_ref ≡ ok pool
        → IsOver cooldown s.claim.status (w.clock (suc n)) since (billing_period w pool)
        → HasNodes w (suc (suc (suc n))) pool
        → HasReplicas w (suc (suc (suc (suc n)))) s.claim
        → Justified s

  -- Of the phases written while `s` is reconciled.
  abbrev Fine : Store → Phase → Type 0
  Fine s q = (q ≡ s.claim.status.phase) ⊎ Justified s

  destroyed-Logs :
      (s t : Store) → Justified s → Logs (Fine s) Unit t → Logs (Fine s) Unit (destroy_worker w t).0
  destroyed-Logs s t j l = destroy_worker-Logs w (Fine s) (inr j) (inr j) t l

  -- The store when that many questions have been asked.
  abbrev at : ℕ → Store → Store
  at n s = record s { asked = n }

  abbrev Unwanted : ℕ → Store → Type 0
  Unwanted n s =
      AllAt (IsNotKept w) n (claim_model_ids s.claim)
      × AllAt (IsNotAsked w) n (claim_model_ids s.claim)
      × (w.node_idle n s.claim.name ≡ true)

  destroy_if_spare-Logs :
      (n since : ℕ) (pool : Option Pool) (s : Store)
      → Unwanted n s
      → s.claim.status.idle_since ≡ some since
      → w.find_pool (suc (suc n)) s.claim.spec.pool_ref ≡ ok pool
      → IsOver cooldown s.claim.status (w.clock (suc n)) since (billing_period w pool)
      → Logs (Fine s) Unit s
      → Logs (Fine s) Unit (destroy_if_spare w cooldown pool (at (suc (suc (suc n))) s)).0
  unfolding destroy_if_spare
  destroy_if_spare-Logs n since pool s u e f over l =
      let m = suc (suc (suc n)) in
      elim (Bool-cases (at_min_nodes w m pool)) [
        | inl few ↦ rw few (relog refl l)
        | inr many ↦ elim (Bool-cases (at_min_replicas w (suc m) s.claim)) [
          | inl few ↦ rw (many, few) (relog refl l)
          | inr enough ↦
              rw (many, enough)
                (destroyed-Logs s _
                  (spare n since pool u.0 u.1 u.2 e f over (has_nodes w m pool many)
                    (has_replicas w (suc m) s.claim enough))
                  (relog refl l))
        ]
      ]

  is_zero : (n : ℕ) → ltb 0 n ≡ false → n ≡ 0
  is_zero n h = ground arith

  idle_with-Logs :
      (n : ℕ) (pool : Option Pool) (idle : Option ℕ) (s : Store)
      → Unwanted n s
      → w.find_pool (suc (suc n)) s.claim.spec.pool_ref ≡ ok pool
      → s.claim.status.idle_since ≡ idle
      → Logs (Fine s) Unit s
      → Logs
          (Fine s)
          Unit
          (idle_with w cooldown (w.clock (suc n)) pool idle (at (suc (suc (suc n))) s)).0
  idle_with-Logs n pool none s u f e l = write_status-Logs (Fine s) Unit w _ (inl refl) refl l
  idle_with-Logs n pool (some since) s u f e l =
      elim (Bool-cases (
        ltb 0
          (next_destroy_in cooldown s.claim.status (w.clock (suc n)) (billing_period w pool)))) [
            | inl early ↦ rw early (relog refl l)
            | inr over ↦ rw over (
                destroy_if_spare-Logs n since pool s u e f
                  (is_over cooldown (w.clock (suc n)) since (billing_period w pool) s.claim.status e
                    (is_zero _ over))
                  l)
          ]

  idle_in-Logs :
      (n : ℕ) (r : Result (Option Pool)) (s : Store)
      → Unwanted n s
      → w.find_pool (suc (suc n)) s.claim.spec.pool_ref ≡ r
      → Logs (Fine s) Unit s
      → Logs (Fine s) Unit (idle_in w cooldown (w.clock (suc n)) r (at (suc (suc (suc n))) s)).0
  idle_in-Logs n (err e) s u f l = relog refl l
  idle_in-Logs n (ok pool) s u f l = idle_with-Logs n pool s.claim.status.idle_since s u f refl l

  cleared-Logs :
      (n : ℕ) (s : Store) → Logs (Fine s) Unit s → Logs (Fine s) Unit (clear_idle w (at n s))
  cleared-Logs n s l = clear_idle-Logs w (Fine s) (at n s) (inl refl) (relog refl l)

  disrupt-Logs :
      (n : ℕ) (s : Store)
      → Logs (Fine s) Unit s
      → Logs (Fine s) Unit (disrupt w cooldown (at n s)).0
  unfolding disrupt handle_idle_claim
  disrupt-Logs n s l =
      elim (Bool-cases (is_any_model_always_active w n (claim_model_ids s.claim))) [
        | inl kept ↦ rw kept (cleared-Logs n s l)
        | inr free ↦
            elim (Bool-cases (text_eq (annotation s.claim drain_annotation) (txt "true"))) [
              | inl drain ↦
                  rw (free, drain)
                    (destroyed-Logs s (at n s)
                      (replaced n (not_kept w n (claim_model_ids s.claim) free)
                        ((text_eq_iff _ _).0 drain))
                      (relog refl l))
              | inr stay ↦ elim (Bool-cases (has_any_model_demand w n (claim_model_ids s.claim))) [
                | inl wanted ↦ rw (free, stay, wanted) (cleared-Logs n s l)
                | inr unwanted ↦
                    elim (Bool-cases (
                      w.has_demand_store
                      && (not (is_empty s.claim.name) && w.node_idle n s.claim.name))) [
                        | inr busy ↦ rw (free, stay, unwanted, busy) (cleared-Logs n s l)
                        | inl idle ↦
                            rw (free, stay, unwanted, idle)
                              (idle_in-Logs n _ s
                                (
                                  not_kept w n (claim_model_ids s.claim) free,
                                  not_asked w n (claim_model_ids s.claim) unwanted,
                                  ground arith,
                                )
                                refl l)
                      ]
              ]
            ]
      ]

  reported :
      (i : Instance) → is_down w i ≡ true → (i.status ≡ txt "stopped") ⊎ (i.status ≡ txt "error")
  reported i h = elim (Bool-cases (text_eq i.status (txt "stopped"))) [
    | inl e ↦ inl ((text_eq_iff _ _).0 e)
    | inr e ↦ inr ((text_eq_iff _ _).0 (rw e at h))
  ]

  standalone_with-Logs :
      (n : ℕ) (r : Result Instance) (s : Store)
      → w.get_instance s.asked s.claim.status.provider s.claim.status.instance_id ≡ r
      → Logs (Fine s) Unit s
      → Logs (Fine s) Unit (standalone_with w cooldown r (at n s)).0
  standalone_with-Logs n (err e) s h l = relog refl l
  standalone_with-Logs n (ok i) s h l = elim (Bool-cases (is_down w i)) [
    | inl dead ↦
        rw (dead, standalone_with)
          (destroyed-Logs s (at n s) (down i h (reported i dead)) (relog refl l))
    | inr up ↦ rw (up, standalone_with) (disrupt-Logs n s l)
  ]

  reconcile_idle-Logs :
      (s : Store) → Logs (Fine s) Unit s → Logs (Fine s) Unit (reconcile_idle w cooldown s).0
  unfolding reconcile_idle reconcile_standalone
  reconcile_idle-Logs s l =
      choice-Logs (Fine s) Unit (same_phase s.claim.status.phase ready) _ _
        (choice-Logs (Fine s) Unit (w.registered s.claim.status.provider) _ _
          (standalone_with-Logs (suc s.asked) _ s refl l) l)
        l

  -- Whatever answers, the disruption controller writes a phase that the claim did not have only if
  -- that is justified: the provider reports the instance as stopped or failed; or the store does not
  -- answer for any model of the claim that it is always active, and the claim is marked as replaced; or
  -- besides it does not answer for any that requests wait, the node reports that it is idle and was
  -- noted as idle before, and the wait is over: at most a minute is left of the billing cycle, or,
  -- without a billing period or a provisioning time, the cooldown is. Then the pool, if it exists, has
  -- more nodes than its minimum, and the primary model more replicas than its config asks for, if it
  -- asks for several and config and claims can be read.
  pub reconcile_idle-Justified :
      (s : Store)
      → s.log ≡ []
      → (q : Phase) → In (status_written q) (reconcile_idle w cooldown s).0.log
      → (q ≡ s.claim.status.phase) ⊎ Justified s
  reconcile_idle-Justified s n q i =
      All-In (Allows (Fine s) Unit) (status_written q) _
        (reconcile_idle-Logs s
          (record { logged = subst (All (Allows (Fine s) Unit)) (sym n) tt })).logged
        i
