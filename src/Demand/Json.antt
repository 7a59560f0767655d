-- ===== src/Demand/Json.antt =====
-- internal/controller/demandstore.go: the records that are kept as JSON, by the names of their struct
-- tags. A JSON object holds a name once; names are compared as they are written.
pub mod RoundTrip
use gpuscale.Prelude.{ℕ, Bool, false, List, [], ◌∷◌, Option, none, some, Text, txt, lookup}

pub data Scalar : Type 0 where
  text : Text → Scalar
  number : ℕ → Scalar
  boolean : Bool → Scalar
  texts : List Text → Scalar
  null : Scalar

abbrev pub Fields : Type 0
Fields = List (Text × Scalar)

-- The value of a key: plain bytes, a decimal number, or a JSON object.
pub data Value : Type 0 where
  plain : Text → Value
  int : ℕ → Value
  object : Fields → Value

infixl 5 ◌>>=◌
abbrev pub ◌>>=◌ : {A B : Type 0} → Option A → (A → Option B) → Option B
none >>= f = none
some a >>= f = f a

-- `json.Unmarshal` into one field: its zero value where the name is missing or null, and an error
-- where the value is of another type.
abbrev text_of : Option Scalar → Option Text
text_of none = some []
text_of (some null) = some []
text_of (some (text t)) = some t
text_of (some _) = none

abbrev number_of : Option Scalar → Option ℕ
number_of none = some 0
number_of (some null) = some 0
number_of (some (number n)) = some n
number_of (some _) = none

abbrev boolean_of : Option Scalar → Option Bool
boolean_of none = some false
boolean_of (some null) = some false
boolean_of (some (boolean b)) = some b
boolean_of (some _) = none

abbrev texts_of : Option Scalar → Option (List Text)
texts_of none = some []
texts_of (some null) = some []
texts_of (some (texts ts)) = some ts
texts_of (some _) = none

pub record LoadedModelInfo : Type 0 where
  pub claim_name : Text
  pub provider : Text
  pub gpu_type : Text
  pub gpu_count : ℕ
  pub instance_id : Text
  pub ready_at : Text

pub record VolumeInfo : Type 0 where
  pub volume_id : Text
  pub model_id : Text
  pub instance_id : Text
  pub provider : Text
  pub created_at : Text
  pub size_gb : ℕ
  pub bootstrap_succeeded : Bool

pub record ModelConfig : Type 0 where
  pub id : Text
  pub source : Text
  pub vram_required : ℕ
  pub multi_gpu : Bool
  pub always_active : Bool
  pub min_replicas : ℕ
  pub max_replicas : ℕ
  pub node_type : Text
  pub max_price_per_gpu : ℕ
  pub max_vram_per_gpu : ℕ
  pub preferred_gpus : List Text
  pub min_disk : ℕ
  pub pool : Text

unfoldable pub marshal_loaded : LoadedModelInfo → Value
marshal_loaded i = object (
    (txt "claimName", text i.claim_name)
    ∷ (txt "provider", text i.provider)
    ∷ (txt "gpuType", text i.gpu_type)
    ∷ (txt "gpuCount", number i.gpu_count)
    ∷ (txt "instanceId", text i.instance_id)
    ∷ (txt "readyAt", text i.ready_at)
    ∷ [])

unfoldable pub marshal_volume : VolumeInfo → Value
marshal_volume v = object (
    (txt "volumeId", text v.volume_id)
    ∷ (txt "modelId", text v.model_id)
    ∷ (txt "instanceId", text v.instance_id)
    ∷ (txt "provider", text v.provider)
    ∷ (txt "createdAt", text v.created_at)
    ∷ (txt "sizeGb", number v.size_gb)
    ∷ (txt "bootstrapSucceeded", boolean v.bootstrap_succeeded)
    ∷ [])

unfoldable pub unmarshal_volume : Value → Option VolumeInfo
unmarshal_volume (plain t) = none
unmarshal_volume (int n) = none
unmarshal_volume (object fs) = do
  volume ← text_of (lookup (txt "volumeId") fs)
  model ← text_of (lookup (txt "modelId") fs)
  instance_of ← text_of (lookup (txt "instanceId") fs)
  provider ← text_of (lookup (txt "provider") fs)
  created ← text_of (lookup (txt "createdAt") fs)
  size ← number_of (lookup (txt "sizeGb") fs)
  ready ← boolean_of (lookup (txt "bootstrapSucceeded") fs)
  some (record {
    volume_id = volume;
    model_id = model;
    instance_id = instance_of;
    provider = provider;
    created_at = created;
    size_gb = size;
    bootstrap_succeeded = ready;
  })

unfoldable pub unmarshal_config : Value → Option ModelConfig
unmarshal_config (plain t) = none
unmarshal_config (int n) = none
unmarshal_config (object fs) = do
  id ← text_of (lookup (txt "id") fs)
  source ← text_of (lookup (txt "source") fs)
  vram ← number_of (lookup (txt "vramRequired") fs)
  multi ← boolean_of (lookup (txt "multiGpu") fs)
  always ← boolean_of (lookup (txt "alwaysActive") fs)
  least ← number_of (lookup (txt "minReplicas") fs)
  most ← number_of (lookup (txt "maxReplicas") fs)
  node ← text_of (lookup (txt "nodeType") fs)
  price ← number_of (lookup (txt "maxPricePerGPU") fs)
  gpu ← number_of (lookup (txt "maxVramPerGpu") fs)
  preferred ← texts_of (lookup (txt "preferredGpus") fs)
  disk ← number_of (lookup (txt "minDisk") fs)
  pool ← text_of (lookup (txt "pool") fs)
  some (record {
    id = id;
    source = source;
    vram_required = vram;
    multi_gpu = multi;
    always_active = always;
    min_replicas = least;
    max_replicas = most;
    node_type = node;
    max_price_per_gpu = price;
    max_vram_per_gpu = gpu;
    preferred_gpus = preferred;
    min_disk = disk;
    pool = pool;
  })

-- The anonymous structs of `IsAlwaysActive` and `GetGPUVRAM`.
unfoldable pub unmarshal_always_active : Value → Option Bool
unmarshal_always_active (plain t) = none
unmarshal_always_active (int n) = none
unmarshal_always_active (object fs) = boolean_of (lookup (txt "alwaysActive") fs)

unfoldable pub unmarshal_vram : Value → Option ℕ
unmarshal_vram (plain t) = none
unmarshal_vram (int n) = none
unmarshal_vram (object fs) = number_of (lookup (txt "vram_gb") fs)
