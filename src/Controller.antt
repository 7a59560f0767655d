-- ===== src/Controller.antt =====
-- internal/controller: the controllers of the cluster, over the claim and pool types of
-- api/v1alpha1.
pub mod Claims
pub mod Backoff
pub mod Capacity
pub mod Gc
pub mod Interruption
pub mod Effects
pub mod Reconciler
pub mod Disruptor
pub mod Provisioner
pub mod Trigger
mod Examples
