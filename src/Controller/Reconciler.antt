-- ===== src/Controller/Reconciler.antt =====
-- internal/controller/reconciler.go: the claim's life, `ClaimReconciler`.
pub mod Ending
pub mod Bootstrapping
pub mod Ready
pub mod Pending
pub mod Writes
pub mod Lifecycle
pub mod Draining
pub mod Deletion
use gpuscale.Prelude.{if◌then◌else◌, [], ◌∷◌, ◌++◌, Option, none, some, contains_text}
use gpuscale.Provider.{Error}
use gpuscale.Controller.Claims.{
  Phase, unset, pending, provisioning, bootstrapping, ready, draining, terminated, hibernated,
}
use gpuscale.Controller.Effects.{
  World, Store, Reply, done, requeue, fault, set_phase, write_status, write_claim,
}
use Ending.{finalizer, handle_draining, handle_hibernated, handle_deletion}
use Bootstrapping.{handle_provisioning, handle_bootstrapping, reply_after_write}
use Ready.{handle_ready}
use Pending.{handle_pending}

module _ (w : World) where
  -- The `switch` on the phase.
  unfoldable pub dispatch : Phase → Store → Store × Reply
  dispatch pending s = handle_pending w s
  dispatch provisioning s = handle_provisioning w s
  dispatch bootstrapping s = handle_bootstrapping w s
  dispatch ready s = handle_ready w s
  dispatch hibernated s = handle_hibernated w s
  dispatch draining s = handle_draining w s
  dispatch terminated s = (s, done)
  dispatch unset s = reply_after_write w requeue (write_status w (set_phase pending s))

  abbrev pub add_finalizer : Store → Store
  add_finalizer s = record s {
    claim = record s.claim { finalizers = s.claim.finalizers ++ (finalizer ∷ []) };
  }

  abbrev pub dispatch_written : Store × Option Error → Store × Reply
  dispatch_written (s, some e) = (s, fault e)
  dispatch_written (s, none) = dispatch s.claim.status.phase s

  -- `Reconcile`, of a claim that was found.
  unfoldable pub reconcile : Store → Store × Reply
  reconcile s =
      if s.claim.is_deleting
      then handle_deletion w s
      else if contains_text finalizer s.claim.finalizers
      then dispatch s.claim.status.phase s
      else dispatch_written (write_claim w (add_finalizer s))
