-- ===== src/Demand/Examples.antt =====
-- internal/controller/demandstore.go: the theorems at a small database.
use gpuscale.Prelude.{
  ◌≡◌, refl, inr, true, false, List, [], ◌∷◌, Option, none, some, Text, txt, text_eq, lookup,
  insert, delete_if, has_prefix, arith,
}
use gpuscale.Demand.Json.{
  plain, LoadedModelInfo, VolumeInfo, ModelConfig, marshal_volume, unmarshal_volume,
  unmarshal_config, object, text,
}
use gpuscale.Demand.Redis.{
  World, Db, Run, gave, ◌>>◌, get, set, del, keys, publish, for_each, hget_config, all_configs,
}
use gpuscale.Demand.Redis.Keyspace.{strip}
use gpuscale.Demand.Redis.Runs.{left}
use gpuscale.Demand.Registry.{sync_loaded_models}
use gpuscale.Demand.Registry.Synced.{IsSynced, sync_loaded_models-IsSynced}
use gpuscale.Demand.Configs.{get_model_config, with_source}
use gpuscale.Demand.Configs.Search.{IsConfigOf, get_model_config-IsConfigOf}
use gpuscale.Demand.Volumes.{register_volume, mark_volume_ready, find_volume_for_model, find_among}
use gpuscale.Demand.Volumes.Reuse.{Offered, find_volume_for_model-Offered}
use gpuscale.Demand.Volumes.Register.{find_volume_for_model-register}

abbrev up : World
up = record {
  connected = true;
  failure = λ n. none;
  clock = λ n. n;
  time_text = λ n. txt "now";
  bytes = λ v. [];
  parse_error = λ v. record { wraps = []; message = txt "not an object" };
}

abbrev ready_volume : VolumeInfo
ready_volume = record {
  volume_id = txt "v";
  model_id = txt "m";
  instance_id = txt "i";
  provider = [];
  created_at = txt "now";
  size_gb = 80;
  bootstrap_succeeded = true;
}

abbrev small : Db
small = record {
  strings =
      (txt "loaded_models:old", plain (txt "x"))
      ∷ (txt "gpuscale:volume:v", marshal_volume ready_volume)
      ∷ [];
  expiring = [];
  configs = (txt "m", object ((txt "source", text (txt "hf:org/m")) ∷ [])) ∷ [];
  specs = [];
  queues = [];
  published = [];
  asked = 0;
}

abbrev loaded : LoadedModelInfo
loaded = record {
  claim_name = txt "claim";
  provider = txt "aws";
  gpu_type = txt "L4";
  gpu_count = 1;
  instance_id = txt "i";
  ready_at = txt "now";
}

abbrev truth : List (Text × LoadedModelInfo)
truth = (txt "m", loaded) ∷ []

abbrev after : Db
after = left (sync_loaded_models up truth small)

syncs : sync_loaded_models up truth small ≡ gave tt after
unfolding sync_loaded_models for_each keys del set publish strip text_eq lookup insert delete_if
    has_prefix
syncs = refl

sync_loaded_models-IsSynced_example : IsSynced truth small after
unfolding text_eq
sync_loaded_models-IsSynced_example =
    sync_loaded_models-IsSynced up truth small after refl (tt, tt) ((refl, tt), (tt, tt)) syncs

finds :
    find_volume_for_model up (txt "m") 50 small
    ≡ gave (txt "v") (left (find_volume_for_model up (txt "m") 50 small))
unfolding find_volume_for_model find_among keys get text_eq lookup has_prefix unmarshal_volume
    marshal_volume
finds = refl

find_volume_for_model-Offered_example : Offered up (txt "m") 50 small.strings (txt "v")
find_volume_for_model-Offered_example =
    find_volume_for_model-Offered up (txt "m") 50 small
      (left (find_volume_for_model up (txt "m") 50 small)) (txt "v") finds refl

find_volume_for_model-register_example :
    (x y : Db) × (r : Text) × ((register_volume up (txt "n") (txt "m") (txt "j") 60
          >> mark_volume_ready up (txt "j"))
        small
      ≡ gave tt x)
    × (find_volume_for_model up (txt "m") 50 x ≡ gave r y)
    × Offered up (txt "m") 50 x.strings r
find_volume_for_model-register_example =
    find_volume_for_model-register up (λ n. refl) (txt "n") (txt "m") (txt "j") 60 50 small refl
      refl refl refl (inr (inr (omega arith)))

abbrev by_source : Run (Option ModelConfig)
by_source = get_model_config up (txt "org/m") small

abbrev config : ModelConfig
config = record {
  id = [];
  source = txt "hf:org/m";
  vram_required = 0;
  multi_gpu = false;
  always_active = false;
  min_replicas = 0;
  max_replicas = 0;
  node_type = [];
  max_price_per_gpu = 0;
  max_vram_per_gpu = 0;
  preferred_gpus = [];
  min_disk = 0;
  pool = [];
}

configured : by_source ≡ gave (some config) (left by_source)
unfolding get_model_config hget_config all_configs with_source unmarshal_config lookup text_eq
configured = refl

get_model_config-IsConfigOf_example : IsConfigOf (txt "org/m") small.configs (some config)
get_model_config-IsConfigOf_example =
    get_model_config-IsConfigOf up (txt "org/m") small (left by_source) (some config) refl
      configured
