-- ===== src/Demand/Registry.antt =====
-- internal/controller/demandstore.go: which models are loaded, and the channels that tell the GPU API.
pub mod Guards
pub mod Dropped
pub mod Filled
pub mod Synced
use gpuscale.Prelude.{
  Bool, true, false, ◌||◌, not, if◌then◌else◌, List, ◌∷◌, ◌++◌, Option, none, some, Text, txt,
  is_empty, lookup,
}
use gpuscale.Demand.Json.{LoadedModelInfo, marshal_loaded}
use gpuscale.Demand.Redis.{
  World, M, failed, return, ◌>>=◌, ◌>>◌, wrapped, or_else, for_each, set, del, exists, keys,
  publish,
}
use gpuscale.Demand.Redis.Keyspace.{strip}

abbrev pub loaded_model_prefix : Text
loaded_model_prefix = txt "loaded_models:"

abbrev pub loaded_key : Text → Text
loaded_key model = loaded_model_prefix ++ model

-- The keys that the GPU API writes for its nodes.
abbrev node_key : Text → Text
node_key node = txt "gpu_api:node:" ++ node

abbrev node_idle_key : Text → Text
node_idle_key node = txt "gpu_api:node_idle:" ++ node

abbrev pub listing : Text
listing = txt "listing existing loaded models: "

abbrev pub setting : Text → Text
setting model = txt "setting loaded_models:" ++ (model ++ txt ": ")

abbrev pub deleting : Text → Text
deleting model = txt "deleting stale loaded model " ++ (model ++ txt ": ")

abbrev pub updating : Text → Text
updating model = txt "updating loaded model " ++ (model ++ txt ": ")

-- The second result of `clusterTruth[model]`.
abbrev pub is_kept : {A : Type 0} → Option A → Bool
is_kept none = false
is_kept (some a) = true

module _ (w : World) where
  -- The guards of a method with a name: it does nothing without a client, or for an empty name.
  abbrev pub if_named : {A : Type 0} → A → Text → M A → M A
  if_named a name m = if not w.connected || is_empty name then return a else m

  -- `s.rdb.Publish(…)`, whose error is not looked at.
  abbrev pub announce : Text → Text → M (Unit {0})
  announce channel message = or_else tt (publish w channel message)

  unfoldable pub set_model_loaded : Text → LoadedModelInfo → M (Unit {0})
  set_model_loaded model info = if_named tt model (do
    wrapped (setting model) (set w (loaded_key model) (marshal_loaded info))
    announce (txt "gpuscale:model_loaded") model)

  unfoldable pub remove_model_loaded : Text → M (Unit {0})
  remove_model_loaded model = if_named tt model (del w (loaded_key model))

  unfoldable pub is_model_loaded : Text → M Bool
  is_model_loaded model = if_named false model (or_else false (exists w (loaded_key model)))

  unfoldable pub publish_model_available : Text → M (Unit {0})
  publish_model_available model = if_named tt model (announce (txt "gpuscale:model_loaded") model)

  unfoldable pub publish_model_failed : Text → M (Unit {0})
  publish_model_failed model =
      if_named tt model (announce (txt "gpuscale:model_failed:" ++ model) (txt "failed"))

  unfoldable pub publish_provision_trigger : Text → M (Unit {0})
  publish_provision_trigger model =
      if w.connected then publish w (txt "gpuscale:provision") model else return tt

  -- The first loop of `SyncLoadedModels`, for one key.
  unfoldable pub drop_stale : List (Text × LoadedModelInfo) → Text → M (Unit {0})
  drop_stale truth key =
      let model = strip loaded_model_prefix key in
      if is_kept (lookup model truth) then return tt else wrapped (deleting model) (del w key)

  -- The second loop, for one model.
  unfoldable pub upsert : Text × LoadedModelInfo → M (Unit {0})
  unfolding set_model_loaded
  upsert (model, info) = wrapped (updating model) (set_model_loaded model info)

  unfoldable pub sync_loaded_models : List (Text × LoadedModelInfo) → M (Unit {0})
  unfolding drop_stale upsert
  sync_loaded_models truth =
      if w.connected
      then (do
        existing ← wrapped listing (keys w loaded_model_prefix)
        for_each (drop_stale truth) existing
        for_each upsert truth)
      else return tt

  unfoldable pub is_node_registered : Text → M Bool
  is_node_registered node = if_named false node (or_else false (exists w (node_key node)))

  unfoldable pub is_node_idle : Text → M Bool
  is_node_idle node = if_named false node (or_else false (exists w (node_idle_key node)))
