-- ===== src/Coordinator.antt =====
-- internal/coordinator: offers are gathered, filtered, ordered and tried.
pub mod Filter
pub mod Errors
pub mod Blacklist
pub mod Cache
pub mod Ranking
pub mod Provision
mod Examples
