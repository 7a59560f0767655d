-- ===== src/Demand.antt =====
-- internal/controller/demandstore.go: what the controllers and the GPU API leave for one another in
-- Dragonfly, a Redis.
pub mod Json
pub mod Redis
pub mod Configs
pub mod Registry
pub mod Volumes
mod Examples
