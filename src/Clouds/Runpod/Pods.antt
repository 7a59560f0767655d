-- ===== src/Clouds/Runpod/Pods.antt =====
-- pkg/provider/runpod: what the RunPod API is asked and answers.
use gpuscale.Prelude.{ℕ, List, Option, Text}
use gpuscale.Provider.{Error, Result}

pub record GpuType : Type 0 where
  pub id : Text
  pub display_name : Text
  pub memory_in_gb : ℕ
  pub secure_price : ℕ
  pub community_price : ℕ
  pub secure_spot_price : ℕ
  pub community_spot_price : ℕ

-- The fields that do not depend on the offer or the config are left out.
pub record CreatePodRequest : Type 0 where
  pub name : Text
  pub image_name : Text
  pub gpu_type_id : Text
  pub gpu_count : ℕ
  pub cloud_type : Text
  pub env : List (Text × Text)
  pub docker_args : Text

pub record Port : Type 0 where
  pub ip : Text
  pub public_port : ℕ
  pub private_port : ℕ

-- `gpus` holds the display names.
pub record Runtime : Type 0 where
  pub gpus : List Text
  pub ports : List Port

pub record PodResponse : Type 0 where
  pub id : Text
  pub desired_status : Text
  pub runtime : Option Runtime
  pub gpu_display_name : Text

pub record World : Type 0 where
  pub list_gpu_types : Result (List GpuType)
  pub create_pod : CreatePodRequest → Result PodResponse
  pub delete_pod : Text → Option Error
  pub get_pod : Text → Result (Option PodResponse)
  pub list_pods : Result (List PodResponse)
  pub quoted : Text → Text
  pub printed : ℕ → Text
  -- The whole number that stands for 0.90.
  pub nine_tenths : ℕ
