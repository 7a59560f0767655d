-- ===== src/Controller/Reconciler/Writes.antt =====
-- internal/controller/reconciler.go: which statuses each handler writes.
pub mod Ending
pub mod Bootstrapping
pub mod Ready
pub mod Pending
