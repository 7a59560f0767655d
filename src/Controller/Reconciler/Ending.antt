-- ===== src/Controller/Reconciler/Ending.antt =====
-- internal/controller/reconciler.go: the handlers that end a claim: draining, hibernated, deletion,
-- and the bootstrap that takes too long.
use gpuscale.Prelude.{
  ℕ, ◌+◌, ◌*◌, Bool, false, not, ◌&&◌, ltb, if◌then◌else◌, Option, none, some, Text, txt, text_eq,
  is_empty, contains_text, keep,
}
use gpuscale.Provider.{Error, is_error, instance_not_found}
use gpuscale.Controller.Claims.{Claim, terminated, resolve_claim_provider}
use gpuscale.Controller.Effects.{
  World, Store, Reply, done, after, fault, second, minute, wrap_error, set_phase, add_condition,
  write_status, write_claim, destroy, delete_node_if_exists, remove_worker, remove_loaded_models,
  retrigger_if_demand_exists, write_event, write_terminated_record,
}

abbrev pub finalizer : Text
finalizer = txt "gpuscale.io/instance-cleanup"

module _ (w : World) where
  -- The provider of `handleDraining`: the status first.
  abbrev pub draining_provider : Claim → Text
  draining_provider c = if is_empty c.status.provider then c.spec.provider else c.status.provider

  -- The error on which the drain waits: a destroy call failed and the instance is not gone.
  abbrev pub unless_gone : Option Error → Option Error
  unless_gone none = none
  unless_gone (some e) = if is_error e instance_not_found then none else some e

  unfoldable pub destroy_for_drain : Store → Store × Option Error
  destroy_for_drain s =
      let provider = draining_provider s.claim in
      let id = s.claim.status.instance_id in
      if is_empty id
      then (s, none)
      else if w.registered provider
      then (let (t, e) = destroy w provider id s in (t, unless_gone e))
      else (s, none)

  -- After the status write of `handleDraining`.
  abbrev pub finish_drain : Store × Option Error → Store × Reply
  finish_drain (s, some e) =
      (s, fault (wrap_error (txt "setting Draining claim to Terminated: ") e))
  finish_drain (s, none) = (
    retrigger_if_demand_exists w (write_terminated_record w (write_event w (txt "terminated") s)),
    done,
  )

  -- What `handleDraining` does once the instance is gone.
  abbrev pub terminate_drained : Store → Store × Reply
  terminate_drained s = finish_drain (
      write_status w (
        add_condition (txt "DrainResumed") (txt "DrainResumedAfterRestart") (
          set_phase terminated
            (remove_loaded_models w (remove_worker w (delete_node_if_exists w s))))))

  abbrev pub drain_further : Store × Option Error → Store × Reply
  drain_further (s, some e) = (s, after (30 * second))
  drain_further (s, none) = terminate_drained s

  unfoldable pub handle_draining : Store → Store × Reply
  unfolding destroy_for_drain
  handle_draining s = drain_further (destroy_for_drain s)

  abbrev pub destroy_if_known : Text → Text → Store → Store
  destroy_if_known provider id s = if w.registered provider then (destroy w provider id s).0 else s

  abbrev pub finish_hibernated : Store × Option Error → Store × Reply
  finish_hibernated (s, some e) =
      (s, fault (wrap_error (txt "terminating expired hibernated claim: ") e))
  finish_hibernated (s, none) = (s, done)

  -- `handleHibernated`, which is `destroyHibernatedClaim`.
  unfoldable pub handle_hibernated : Store → Store × Reply
  handle_hibernated s =
      let provider = s.claim.status.provider in
      let id = s.claim.status.instance_id in
      let t =
        if not (is_empty id) && not (is_empty provider)
        then destroy_if_known provider id s
        else s in
      finish_hibernated (
        write_status w (
          add_condition (txt "HibernatedExpired") (txt "TTLExceeded")
            (set_phase terminated (remove_loaded_models w (remove_worker w t)))))

  -- `isBootstrapTimedOut`: more than ten minutes since the provisioning.
  unfoldable pub is_bootstrap_timed_out : ℕ → Option ℕ → Bool
  is_bootstrap_timed_out now none = false
  is_bootstrap_timed_out now (some at) = ltb (at + 10 * minute) now

  unfoldable pub terminate_timed_out : Text → Store → Store × Reply
  terminate_timed_out provider s =
      let written =
        (write_status w
          (add_condition (txt "BootstrapTimeout") (txt "Timeout") (set_phase terminated s))).0 in
      let gone = (destroy w provider written.claim.status.instance_id written).0 in
      (
        retrigger_if_demand_exists w
            (delete_node_if_exists w (remove_loaded_models w (remove_worker w gone))),
        done,
      )

  -- The destroy call of `handleDeletion`.
  unfoldable pub destroy_on_deletion : Store → Store
  destroy_on_deletion s =
      let id = s.claim.status.instance_id in
      let provider = resolve_claim_provider s.claim in
      if not (is_empty id) && (not (text_eq id (txt "0")) && not (is_empty provider))
      then destroy_if_known provider id s
      else s

  abbrev pub remove_finalizer : Store → Store
  remove_finalizer s = record s {
    claim = record s.claim {
      finalizers = keep (λ f. not (text_eq f finalizer)) s.claim.finalizers;
    };
  }

  abbrev pub reply_to_write : Store × Option Error → Store × Reply
  reply_to_write (s, some e) = (s, fault e)
  reply_to_write (s, none) = (s, done)

  unfoldable pub handle_deletion : Store → Store × Reply
  unfolding destroy_on_deletion
  handle_deletion s =
      if contains_text finalizer s.claim.finalizers
      then reply_to_write (
          write_claim w
            (remove_finalizer (remove_loaded_models w (remove_worker w (destroy_on_deletion s)))))
      else (s, done)
