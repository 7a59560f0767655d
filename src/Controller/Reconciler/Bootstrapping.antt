-- ===== src/Controller/Reconciler/Bootstrapping.antt =====
-- internal/controller/reconciler.go: `handleProvisioning`, `handleBootstrapping` and
-- `handleBootstrappingStandalone`.
use gpuscale.Prelude.{
  ℕ, suc, ◌+◌, ◌*◌, Bool, false, not, ◌&&◌, ◌||◌, ltb, if◌then◌else◌, List, [], ◌∷◌, Option, none,
  some, Text, txt, text_eq, is_empty, contains,
}
use gpuscale.Provider.{Error, Result, ok, err, Instance, is_error, instance_not_found}
use gpuscale.Controller.Claims.{
  Claim, pending, bootstrapping, ready, terminated, annotation, claim_model_ids,
  resolve_claim_provider,
}
use gpuscale.Controller.Effects.{
  World, Store, Reply, done, requeue, after, fault, second, minute, tick, emit, emit_if, set_phase,
  set_status, add_condition, write_status, destroy, delete_node_if_exists, remove_worker,
  retrigger_if_demand_exists, write_event, worker_set, volume_ready, model_available,
  record_written, offer_blacklisted,
}
use gpuscale.Controller.Reconciler.Ending.{is_bootstrap_timed_out, terminate_timed_out}

module _ (w : World) where
  abbrev pub reply_after_write : Reply → Store × Option Error → Store × Reply
  reply_after_write r (s, some e) = (s, fault e)
  reply_after_write r (s, none) = (s, r)

  unfoldable pub handle_provisioning : Store → Store × Reply
  handle_provisioning s =
      if not (is_empty s.claim.status.instance_id)
      then reply_after_write requeue (write_status w (set_phase bootstrapping s))
      else if not (is_empty (annotation s.claim (txt "gpuscale.io/instance-id")))
      then reply_after_write requeue (write_status w (set_phase pending s))
      else reply_after_write (after (10 * second)) (write_status w (set_phase pending s))

  -- The end of a claim whose bootstrap failed, once its status is written.
  abbrev pub finish_failed : Store × Option Error → Store × Reply
  finish_failed (s, some e) = (s, after (5 * second))
  finish_failed (s, none) =
      (retrigger_if_demand_exists w (delete_node_if_exists w (remove_worker w s)), done)

  -- The instance is no longer known to the provider.
  unfoldable pub bootstrap_gone : Store → Store × Reply
  bootstrap_gone s = finish_failed (
      write_status w
        (add_condition (txt "BootstrapFailed") (txt "InstanceGone") (set_phase terminated s)))

  abbrev pub is_kvm : Claim → Bool
  is_kvm c = text_eq c.status.provider (txt "verda")

  abbrev pub is_down : Instance → Bool
  is_down i = text_eq i.status (txt "stopped") || text_eq i.status (txt "error")

  unfoldable pub instance_failed : Claim → Instance → Bool
  instance_failed c i =
      is_down i
      || (not (is_empty i.status_msg) && (contains i.status_msg (txt "Error") && not (is_kvm c)))

  unfoldable pub is_fatal : Instance → Bool
  is_fatal i =
      contains i.status_msg (txt "OCI runtime create failed")
      || contains i.status_msg (txt "CDI devices")

  abbrev pub grace_period : Claim → ℕ
  grace_period c = if is_kvm c then 8 * minute else 2 * minute

  -- `time.Since(provisionedAt) < gracePeriod`
  abbrev pub in_grace : ℕ → ℕ → Option ℕ → Bool
  in_grace now grace none = false
  in_grace now grace (some at) = ltb now (at + grace)

  abbrev pub blacklist_if_known : Text → Store → Store
  blacklist_if_known provider s =
      let offer = annotation s.claim (txt "gpuscale.io/offer-id") in
      if not (is_empty offer) && w.has_coordinator
      then emit (offer_blacklisted provider offer) s
      else s

  unfoldable pub handle_failed : Text → Instance → Store → Store × Reply
  unfolding is_fatal
  handle_failed provider i s =
      if not (is_fatal i)
        && in_grace (w.clock s.asked) (grace_period s.claim) s.claim.status.provisioned_at
      then (s, after (15 * second))
      else finish_failed (
          write_status w (
            add_condition (txt "BootstrapFailed") (txt "InstanceDied") (
              set_phase terminated
                (blacklist_if_known provider (destroy w provider s.claim.status.instance_id s).0))))

  unfoldable pub publish_available : List Text → Store → Store
  publish_available [] s = s
  publish_available (m ∷ ms) s =
      publish_available ms (emit_if (not (is_empty m)) (model_available m) s)

  -- The agent is connected and the status is written.
  abbrev pub finish_ready : Store × Option Error → Store × Reply
  finish_ready (s, some e) = (s, fault e)
  finish_ready (s, none) =
      let shown = emit_if w.has_worker_store (worker_set s.claim.name) s in
      let marked =
        emit_if (w.has_demand_store && not (is_empty s.claim.status.instance_id))
          (volume_ready s.claim.status.instance_id) shown in
      let announced =
        if w.has_demand_store then publish_available (claim_model_ids s.claim) marked else marked in
      (
        write_event w (txt "agent_connected")
            (emit_if w.has_claim_writer (record_written ready) announced),
        after (60 * second),
      )

  unfoldable pub handle_standalone : Text → Store → Store × Reply
  unfolding publish_available
  handle_standalone provider s =
      if w.has_demand_store && w.node_registered s.asked s.claim.name
      then (let now = w.clock (suc s.asked) in
          finish_ready (
            write_status w (
              add_condition (txt "AgentConnected") (txt "TunnelConnected") (
                set_status
                  (λ st. record st {
                    phase = ready;
                    node_type = txt "standalone";
                    ready_at = some now;
                  })
                  s))))
      else if is_bootstrap_timed_out w (w.clock (suc s.asked)) s.claim.status.provisioned_at
      then terminate_timed_out w provider s
      else (s, after (15 * second))

  abbrev pub bootstrap_with : Text → Result Instance → Store → Store × Reply
  bootstrap_with provider (err e) s =
      if is_error e instance_not_found then bootstrap_gone s else (s, after (15 * second))
  bootstrap_with provider (ok i) s =
      if instance_failed s.claim i then handle_failed provider i s else handle_standalone provider s

  unfoldable pub handle_bootstrapping : Store → Store × Reply
  handle_bootstrapping s =
      let provider = resolve_claim_provider s.claim in
      if w.registered provider
      then bootstrap_with provider (w.get_instance s.asked provider s.claim.status.instance_id)
          (tick s)
      else (s, after (30 * second))
