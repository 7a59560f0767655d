-- ===== src/Controller/Reconciler/Pending/Wants.antt =====
-- internal/controller/reconciler.go: what a pending claim asks the coordinator for.
use gpuscale.Prelude.{ℕ, suc, Bool, if◌then◌else◌, List, [], ◌∷◌, ◌++◌, map, Text, txt, is_empty}
use gpuscale.Provider.{GpuRequirements}
use gpuscale.Coordinator.Cache.{decimal}
use gpuscale.Controller.Claims.{Claim, Pool, resolve_claim_node_type}

-- What is known of the instance.
pub record Details : Type 0 where
  pub instance_id : Text
  pub provider : Text
  pub gpu_type : Text
  pub gpu_count : ℕ
  pub price_per_hour : ℕ
  pub endpoint : Text
  pub is_new : Bool

abbrev pub or_text : Text → Text → Text
or_text t default = if is_empty t then default else t

unfoldable pub provider_names : Claim → Pool → List Text
provider_names c pool =
    if is_empty c.spec.provider then map (λ p. p.name) pool.providers else c.spec.provider ∷ []

-- "model_id:port", from port 8000 upwards.
unfoldable pub model_pairs : ℕ → List Text → List Text
unfolding decimal
model_pairs port [] = []
model_pairs port (m ∷ ms) = (m ++ (txt ":" ++ decimal port)) ∷ model_pairs (suc port) ms

unfoldable pub claim_requirements : Claim → Pool → GpuRequirements
claim_requirements c pool = record {
  gpu_count = c.spec.requirements.gpu_count;
  min_vram = c.spec.requirements.min_vram;
  max_vram = c.spec.requirements.max_vram;
  gpu_types = c.spec.requirements.gpu_types;
  max_price_per_hour = c.spec.requirements.max_price_per_gpu;
  capacity_type = txt "spot";
  min_disk = 0;
  min_ram = 0;
  node_type = resolve_claim_node_type c;
  min_pcie_gen = pool.min_pcie_gen;
  multi_gpu = c.spec.requirements.multi_gpu;
}
