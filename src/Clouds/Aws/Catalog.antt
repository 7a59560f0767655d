-- ===== src/Clouds/Aws/Catalog.antt =====
-- pkg/provider/aws/provider.go: the instance types.
use gpuscale.Prelude.{ℕ, List, [], ◌∷◌, Text, txt}

-- The price is in tenths of a cent.
pub record InstanceSpec : Type 0 where
  pub instance_type : Text
  pub gpu_type : Text
  pub gpu_count : ℕ
  pub vram_per_gpu : ℕ
  pub ram_gb : ℕ
  pub on_demand_mills : ℕ

abbrev spec : Text → Text → ℕ → ℕ → ℕ → ℕ → InstanceSpec
spec name gpu count vram ram mills = record {
  instance_type = name;
  gpu_type = gpu;
  gpu_count = count;
  vram_per_gpu = vram;
  ram_gb = ram;
  on_demand_mills = mills;
}

unfoldable pub catalog : List InstanceSpec
catalog =
    spec (txt "g4dn.xlarge") (txt "Tesla T4") 1 16 16 526
    ∷ spec (txt "g4dn.2xlarge") (txt "Tesla T4") 1 16 32 752
    ∷ spec (txt "g4dn.4xlarge") (txt "Tesla T4") 1 16 64 1204
    ∷ spec (txt "g4dn.12xlarge") (txt "Tesla T4") 4 16 192 3912
    ∷ spec (txt "g5.xlarge") (txt "NVIDIA A10G") 1 24 16 1006
    ∷ spec (txt "g5.2xlarge") (txt "NVIDIA A10G") 1 24 32 1212
    ∷ spec (txt "g5.4xlarge") (txt "NVIDIA A10G") 1 24 64 1624
    ∷ spec (txt "g5.12xlarge") (txt "NVIDIA A10G") 4 24 192 5672
    ∷ spec (txt "p3.2xlarge") (txt "Tesla V100") 1 16 61 3060
    ∷ spec (txt "p3.8xlarge") (txt "Tesla V100") 4 16 244 12240
    ∷ spec (txt "p3.16xlarge") (txt "Tesla V100") 8 16 488 24480
    ∷ spec (txt "p4d.24xlarge") (txt "NVIDIA A100") 8 40 1152 32770
    ∷ spec (txt "p5.48xlarge") (txt "NVIDIA H100") 8 80 2048 98320
    ∷ []
