-- ===== src/Clouds/Gcp/Machines.antt =====
-- pkg/provider/gcp: the machine types, and what Compute Engine is asked and answers.
use gpuscale.Prelude.{ℕ, Bool, List, [], ◌∷◌, Option, Text, txt}
use gpuscale.Provider.{Error, Result}

-- The prices are in cents.
pub record MachineSpec : Type 0 where
  pub machine_type : Text
  pub accelerator_type : Text
  pub accelerator_count : ℕ
  pub gpu_type : Text
  pub gpu_count : ℕ
  pub vram_per_gpu : ℕ
  pub ram_gb : ℕ
  pub spot_price : ℕ
  pub on_demand_price : ℕ

abbrev pub spec : Text → Text → ℕ → Text → ℕ → ℕ → ℕ → ℕ → ℕ → MachineSpec
spec machine accelerator accelerators gpu count vram ram spot on_demand = record {
  machine_type = machine;
  accelerator_type = accelerator;
  accelerator_count = accelerators;
  gpu_type = gpu;
  gpu_count = count;
  vram_per_gpu = vram;
  ram_gb = ram;
  spot_price = spot;
  on_demand_price = on_demand;
}

unfoldable pub catalog : List MachineSpec
catalog =
    spec (txt "n1-standard-4") (txt "nvidia-tesla-t4") 1 (txt "Tesla T4") 1 16 15 11 35
    ∷ spec (txt "g2-standard-4") [] 0 (txt "NVIDIA L4") 1 24 16 21 70
    ∷ spec (txt "n1-standard-8") (txt "nvidia-tesla-v100") 1 (txt "Tesla V100") 1 16 30 22 74
    ∷ spec (txt "a2-highgpu-1g") [] 0 (txt "NVIDIA A100 40GB") 1 40 85 88 293
    ∷ spec (txt "a2-ultragpu-1g") [] 0 (txt "NVIDIA A100 80GB") 1 80 170 141 470
    ∷ spec (txt "a3-highgpu-1g") [] 0 (txt "NVIDIA H100 80GB") 1 80 234 300 1000
    ∷ spec (txt "n1-standard-16") (txt "nvidia-tesla-t4") 4 (txt "Tesla T4") 4 16 60 44 140
    ∷ spec (txt "g2-standard-8") [] 0 (txt "NVIDIA L4") 2 24 32 42 140
    ∷ []

pub record Accelerator : Type 0 where
  pub accelerator_type : Text
  pub accelerator_count : ℕ

pub record Scheduling : Type 0 where
  pub provisioning_model : Text
  pub on_host_maintenance : Text
  pub automatic_restart : Bool

-- The fields that do not depend on the offer or the config are left out.
pub record CreateInstanceReq : Type 0 where
  pub name : Text
  pub machine_type : Text
  pub disk_size_gb : Text
  pub scheduling : Scheduling
  pub model_label : Text
  pub startup_script : Text
  pub guest_accelerators : List Accelerator

-- The instance's name, status and, if it has one, external address
pub record GcpInstance : Type 0 where
  pub name : Text
  pub status : Text
  pub nat_ip : Option Text

pub record World : Type 0 where
  pub first_zone : Text
  pub other_zones : List Text
  -- Each with the zone first
  pub create_instance : Text → CreateInstanceReq → Option Error
  pub delete_instance : Text → Text → Option Error
  pub get_instance : Text → Text → Result (Option GcpInstance)
  pub list_instances : Text → Result (List GcpInstance)
  pub printed : ℕ → Text
  -- The whole numbers that stand for a cent and for 0.85.
  pub cent : ℕ
  pub usual_reliability : ℕ
