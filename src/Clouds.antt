-- ===== src/Clouds.antt =====
-- pkg/provider: the clouds. What their HTTP clients answer is each one's `World`.
pub mod Stores
pub mod Http
pub mod Fitting
pub mod Verda
pub mod Runpod
pub mod Gcp
pub mod Aws
mod Examples
