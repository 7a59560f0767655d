-- ===== src/Provider.antt =====
-- pkg/provider/interface.go. A price is a whole number of some fixed fraction of a dollar, and a
-- reliability a whole number of some fixed fraction of one; the counts are not negative.
use gpuscale.Prelude.{ℕ, Bool, true, false, Text, List, any, All, ◌≢◌, ◌≡◌, refl, ◌⊎◌, inl, inr}

pub record GpuRequirements : Type 0 where
  pub gpu_count : ℕ
  pub min_vram : ℕ
  pub max_vram : ℕ
  pub gpu_types : List Text
  pub max_price_per_hour : ℕ
  pub capacity_type : Text
  pub min_disk : ℕ
  pub min_ram : ℕ
  pub node_type : Text
  pub min_pcie_gen : ℕ
  pub multi_gpu : Bool

pub record Offer : Type 0 where
  pub provider_name : Text
  pub offer_id : Text
  pub gpu_type : Text
  pub gpu_count : ℕ
  pub vram : ℕ
  pub price_per_hour : ℕ
  pub capacity_type : Text
  pub region : Text
  pub reliability : ℕ
  pub disk_gb : ℕ
  pub ram_gb : ℕ

-- The package's sentinel errors.
pub data Sentinel : Type 0 where
  no_offers_available instance_not_found provider_api offer_expired : Sentinel

-- An error: the sentinels that it wraps, as `errors.Is` finds them, and its text.
pub record Error : Type 0 where
  pub wraps : List Sentinel
  pub message : Text

pub data Result {ℓ} (A : Type ℓ) : Type ℓ where
  ok : A → Result A
  err : Error → Result A

abbrev pub same_sentinel : Sentinel → Sentinel → Bool
same_sentinel no_offers_available no_offers_available = true
same_sentinel instance_not_found instance_not_found = true
same_sentinel provider_api provider_api = true
same_sentinel offer_expired offer_expired = true
same_sentinel _ _ = false

pub Result-cases :
    {A : Type 0} (r : Result A) → ((a : A) × (r ≡ ok a)) ⊎ ((e : Error) × (r ≡ err e))
Result-cases (ok a) = inl (a, refl)
Result-cases (err e) = inr (e, refl)

-- `errors.Is`.
unfoldable pub is_error : Error → Sentinel → Bool
is_error e s = any (same_sentinel s) e.wraps

-- A provider's name holds no colon, as those of the providers below pkg/provider.
abbrev pub NoColon : Text → Type 0
NoColon = All (λ (c : ℕ). c ≢ b':')

-- Of the fields that go to the node as they are, only those that the coordinator reads or sets.
pub record BootstrapConfig : Type 0 where
  pub node_type : Text
  pub image : Text
  pub gpu_api_url : Text
  pub gpu_api_token : Text
  pub models : Text
  pub model_sources : Text
  pub gpu_count : ℕ
  pub model_cache_url : Text
  pub model_id : Text
  pub instance_id : Text
  pub gpu_type : Text
  pub provider_name : Text
  pub min_disk : ℕ
  pub on_start_script : Text
  pub on_start_env : List (Text × Text)
  pub extra_env : List (Text × Text)

pub record Instance : Type 0 where
  pub provider_name : Text
  pub instance_id : Text
  pub ip : Text
  pub endpoint : Text
  pub status : Text
  pub status_msg : Text
  pub gpu_type : Text
