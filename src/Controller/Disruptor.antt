-- ===== src/Controller/Disruptor.antt =====
-- internal/controller/disruptor.go: an idle node is destroyed late in the period that is paid for.
-- A store that the controller was not given answers as its methods do on a nil receiver.
pub mod Billing
pub mod Reasons
pub mod Justified
use gpuscale.Prelude.{
  ℕ, suc, ◌+◌, ◌-◌, ◌*◌, ◌/◌, Bool, true, false, not, ◌&&◌, ◌||◌, ltb, leb, if◌then◌else◌, List, [],
  ◌∷◌, ◌++◌, Option, none, some, Text, txt, text_eq, is_empty, count,
}
use gpuscale.Provider.{Error, Result, ok, err, Instance}
use gpuscale.Controller.Claims.{
  Claim, ClaimStatus, Pool, ready, draining, terminated, same_phase, annotation, claim_model_ids,
  count_active_claims_for_model,
}
use gpuscale.Controller.Effects.{
  World, Store, Reply, done, after, fault, second, minute, tick, emit_if, wrap_error, set_phase,
  set_status, write_status, destroy, remove_worker, model_removed, model_failed, record_written,
}
use gpuscale.Controller.Reconciler.Bootstrapping.{is_down}
use gpuscale.Controller.Reconciler.Ready.{drain_annotation}

-- The end of the billing cycle that `now` falls in: `nextTick`. Before the provisioning Go's
-- division rounds towards zero.
unfoldable pub next_tick : ℕ → ℕ → ℕ → ℕ
next_tick at now period =
    if ltb now at
    then at + period - (at - now) / period * period
    else at + ((now - at) / period + 1) * period

-- One minute before the end of the cycle, or now if that is over.
abbrev pub until_tick : ℕ → ℕ → ℕ
until_tick now tick_at = if ltb (now + minute) tick_at then tick_at - (now + minute) else 0

abbrev pub until_cooled : ℕ → ℕ → Option ℕ → ℕ
until_cooled cooldown now none = 0
until_cooled cooldown now (some since) =
    if ltb now (since + cooldown) then since + cooldown - now else 0

unfoldable pub next_destroy_in : ℕ → ClaimStatus → ℕ → ℕ → ℕ
unfolding next_tick
next_destroy_in cooldown st now period = elim st.provisioned_at [
  | none ↦ until_cooled cooldown now st.idle_since
  | some at ↦
      if ltb 0 period
      then until_tick now (next_tick at now period)
      else until_cooled cooldown now st.idle_since
]

unfoldable pub count_active_nodes : Result (List Claim) → Text → ℕ
count_active_nodes (err e) pool = 0
count_active_nodes (ok claims) pool =
    count (λ c. text_eq c.spec.pool_ref pool && not (same_phase c.status.phase terminated)) claims

module _ (w : World) where
  abbrev pub has_demand : Result ℕ → Bool
  has_demand (ok n) = ltb 0 n
  has_demand (err e) = false

  abbrev pub is_always_active : Result Bool → Bool
  is_always_active (ok b) = b
  is_always_active (err e) = false

  -- Which co-located models are asked for, and which are to be kept: the loops stop at the first.
  unfoldable pub has_any_model_demand : ℕ → List Text → Bool
  has_any_model_demand n [] = false
  has_any_model_demand n (m ∷ ms) =
      (w.has_demand_store && (not (is_empty m) && has_demand (w.demand n m)))
      || has_any_model_demand (suc n) ms

  unfoldable pub is_any_model_always_active : ℕ → List Text → Bool
  is_any_model_always_active n [] = false
  is_any_model_always_active n (m ∷ ms) =
      (w.has_demand_store && (not (is_empty m) && is_always_active (w.always_active n m)))
      || is_any_model_always_active (suc n) ms

  unfoldable pub fail_models : List Text → Store → Store
  fail_models [] s = s
  fail_models (m ∷ ms) s =
      fail_models ms (
        emit_if (not (is_empty m)) (model_failed m)
          (emit_if (not (is_empty m)) (model_removed m) s))

  -- What follows once the claim is written as Terminated.
  abbrev pub finish_destroy : Store × Option Error → Store × Reply
  finish_destroy (s, some e) =
      (s, fault (wrap_error (txt "updating claim phase to Terminated: ") e))
  finish_destroy (s, none) =
      let removed = remove_worker w s in
      let failed =
        if w.has_demand_store then fail_models (claim_model_ids s.claim) removed else removed in
      (emit_if w.has_claim_writer (record_written terminated) failed, done)

  abbrev pub unregistered : Text → Error
  unregistered p = record {
    wraps = [];
    message = txt "provider \"" ++ (p ++ txt "\" not found in registry");
  }

  -- `destroyWorker` after the claim is written as Draining.
  abbrev pub destroy_drained : Store × Option Error → Store × Reply
  destroy_drained (s, some e) = (s, fault (wrap_error (txt "updating claim phase to Draining: ") e))
  destroy_drained (s, none) =
      if w.registered s.claim.status.provider
      then finish_destroy (
          write_status w (
            set_phase terminated
              (destroy w s.claim.status.provider s.claim.status.instance_id s).0))
      else (s, fault (unregistered s.claim.status.provider))

  unfoldable pub destroy_worker : Store → Store × Reply
  unfolding fail_models
  destroy_worker s = destroy_drained (write_status w (set_phase draining s))

  abbrev pub set_idle : Option ℕ → Store → Store
  set_idle since s = set_status (λ st. record st { idle_since = since }) s

  -- `claim.Status.IdleSince = nil`, where it is not nil already.
  unfoldable pub clear_idle : Store → Store
  clear_idle s = elim s.claim.status.idle_since [
    | none ↦ s
    | some since ↦ (write_status w (set_idle none s)).0
  ]

  abbrev pub billing_period : Option Pool → ℕ
  billing_period none = 0
  billing_period (some pool) = pool.billing_period

  -- The pool would have too few nodes.
  unfoldable pub at_min_nodes : ℕ → Option Pool → Bool
  unfolding count_active_nodes
  at_min_nodes n none = false
  at_min_nodes n (some pool) = leb (count_active_nodes (w.list_claims n) pool.name) pool.min_nodes

  abbrev pub too_few : Option ℕ → Result (List Claim) → Text → Bool
  too_few none claims model = false
  too_few (some replicas) (err e) model = false
  too_few (some replicas) (ok claims) model =
      ltb 1 replicas && leb (count_active_claims_for_model claims model) replicas

  -- The primary model would have too few replicas.
  unfoldable pub at_min_replicas : ℕ → Claim → Bool
  at_min_replicas n c =
      (w.has_demand_store && not (is_empty c.spec.model_id))
      && too_few (w.min_replicas n c.spec.model_id) (w.list_claims (suc n)) c.spec.model_id

  module _ (cooldown : ℕ) where
    -- The end of `handleIdleClaim`, where the time has come.
    unfoldable pub destroy_if_spare : Option Pool → Store → Store × Reply
    unfolding at_min_nodes
    destroy_if_spare pool s =
        if at_min_nodes s.asked pool
        then (s, after (60 * second))
        else if at_min_replicas (suc s.asked) s.claim
        then (s, after (60 * second))
        else destroy_worker (tick (tick (tick s)))

    -- Given when the claim was noted as idle.
    abbrev pub idle_with : ℕ → Option Pool → Option ℕ → Store → Store × Reply
    idle_with now pool none s =
        let t = (write_status w (set_idle (some now) s)).0 in
        (t, after (next_destroy_in cooldown t.claim.status now (billing_period pool)))
    idle_with now pool (some since) s =
        let wait = next_destroy_in cooldown s.claim.status now (billing_period pool) in
        if ltb 0 wait then (s, after wait) else destroy_if_spare pool s

    abbrev pub idle_in : ℕ → Result (Option Pool) → Store → Store × Reply
    idle_in now (err e) s = (s, after (30 * second))
    idle_in now (ok pool) s = idle_with now pool s.claim.status.idle_since s

    unfoldable pub handle_idle_claim : Store → Store × Reply
    handle_idle_claim s =
        idle_in (w.clock s.asked) (w.find_pool (suc s.asked) s.claim.spec.pool_ref) (tick (tick s))

    -- `reconcileStandalone` once the instance is known to be up.
    unfoldable pub disrupt : Store → Store × Reply
    unfolding is_any_model_always_active has_any_model_demand
    disrupt s =
        let models = claim_model_ids s.claim in
        if is_any_model_always_active s.asked models
        then (clear_idle s, after (60 * second))
        else if text_eq (annotation s.claim drain_annotation) (txt "true")
        then destroy_worker s
        else if has_any_model_demand s.asked models
        then (clear_idle s, after (60 * second))
        else if not (
            w.has_demand_store && (not (is_empty s.claim.name) && w.node_idle s.asked s.claim.name))
        then (clear_idle s, after (60 * second))
        else handle_idle_claim (tick s)

    abbrev pub standalone_with : Result Instance → Store → Store × Reply
    standalone_with (err e) s = (s, after (30 * second))
    standalone_with (ok i) s = if is_down w i then destroy_worker s else disrupt s

    unfoldable pub reconcile_standalone : Store → Store × Reply
    reconcile_standalone s =
        let provider = s.claim.status.provider in
        if w.registered provider
        then standalone_with (w.get_instance s.asked provider s.claim.status.instance_id) (tick s)
        else (s, after (60 * second))

    -- `Reconcile`, of a claim that was found.
    unfoldable pub reconcile_idle : Store → Store × Reply
    reconcile_idle s =
        if same_phase s.claim.status.phase ready then reconcile_standalone s else (s, done)
