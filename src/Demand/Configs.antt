-- ===== src/Demand/Configs.antt =====
-- internal/controller/demandstore.go: demand counters, queues and the model configs that the GPU API
-- publishes.
pub mod Search
use gpuscale.Prelude.{
  ℕ, Bool, true, false, ◌||◌, if◌then◌else◌, List, [], ◌∷◌, ◌++◌, Option, none, some, Text, txt,
  text_eq,
}
use gpuscale.Controller.Capacity.{ModelDemand}
use gpuscale.Demand.Json.{
  Value, plain, int, object, ModelConfig, unmarshal_config, unmarshal_always_active, unmarshal_vram,
}
use gpuscale.Demand.Redis.{
  World, M, return, raise, ◌>>=◌, wrapped, or_else, get, hget_config, hget_spec, all_configs, llen,
}

unfoldable pub demand_key : Text → Text
demand_key model = txt "demand:" ++ model

unfoldable pub queue_key : Text → Text
queue_key model = txt "chatqueue:" ++ model

-- `"reading model config for " + model + ": "`
abbrev pub about : Text → Text → Text
about what model = what ++ (model ++ txt ": ")

module _ (w : World) where
  -- `Int64()`
  abbrev int_of : Option Value → M ℕ
  int_of none = return 0
  int_of (some (int n)) = return n
  int_of (some (plain t)) = raise (w.parse_error (plain t))
  int_of (some (object fs)) = raise (w.parse_error (object fs))

  -- `json.Unmarshal`
  abbrev pub parsed : {A : Type 0} → (Value → Option A) → Value → M A
  parsed f v db = elim (f v) [ some a ↦ return a db | none ↦ raise (w.parse_error v) db ]

  unfoldable pub get_demand : Text → M ℕ
  unfolding demand_key get
  get_demand model = if w.connected then (get w (demand_key model) >>= λ v. int_of v) else return 0

  abbrev parse_always_active : Text → Option Value → M Bool
  parse_always_active model none = return false
  parse_always_active model (some v) =
      wrapped (about (txt "parsing model config for ") model) (parsed unmarshal_always_active v)

  unfoldable pub is_always_active : Text → M Bool
  is_always_active model =
      if w.connected
      then (wrapped (about (txt "reading model config for ") model) (hget_config w model) >>= λ v.
          parse_always_active model v)
      else return false

  -- The loop of `GetModelConfig` over the published configs.
  unfoldable pub with_source : Text → List (Text × Value) → Option ModelConfig
  with_source model [] = none
  with_source model ((k, raw) ∷ rest) = elim (unmarshal_config raw) [
    | none ↦ with_source model rest
    | some cfg ↦ elim (text_eq cfg.source model || text_eq cfg.source (txt "hf:" ++ model)) [
      | true ↦ some cfg
      | false ↦ with_source model rest
    ]
  ]

  abbrev pub by_id_or_source : Text → Option Value → M (Option ModelConfig)
  by_id_or_source model (some v) =
      wrapped (about (txt "parsing model config for ") model) (parsed unmarshal_config v) >>= λ cfg.
      return (some cfg)
  by_id_or_source model none =
      wrapped (about (txt "scanning model configs for ") model) (all_configs w) >>= λ all.
      return (with_source model all)

  -- None stands for a nil config.
  unfoldable pub get_model_config : Text → M (Option ModelConfig)
  get_model_config model =
      if w.connected
      then (wrapped (about (txt "reading model config for ") model) (hget_config w model) >>= λ v.
          by_id_or_source model v)
      else return none

  -- Configs that cannot be parsed are left out.
  unfoldable pub parse_configs : List (Text × Value) → List (Text × ModelConfig)
  parse_configs [] = []
  parse_configs ((k, raw) ∷ rest) =
      let others = parse_configs rest in
      elim (unmarshal_config raw) [ none ↦ others | some cfg ↦ (k, cfg) ∷ others ]

  unfoldable pub get_all_model_configs : M (List (Text × ModelConfig))
  unfolding parse_configs
  get_all_model_configs =
      if w.connected
      then (wrapped (txt "reading all model configs: ") (all_configs w) >>= λ all.
          return (parse_configs all))
      else return []

  unfoldable pub get_queue_depth : Text → M ℕ
  unfolding queue_key
  get_queue_depth model = if w.connected then llen w (queue_key model) else return 0

  abbrev demand_record : Text → ModelConfig → ℕ → ℕ → ModelDemand
  demand_record model cfg queued active = record {
    model = model;
    queue_depth = queued;
    active_demand = active;
    vram_required = cfg.vram_required;
    always_active = cfg.always_active;
    multi_gpu = cfg.multi_gpu;
  }

  abbrev demand_with : Text → Option ModelConfig → M (Option ModelDemand)
  demand_with model none = return none
  demand_with model (some cfg) = do
    queued ← wrapped (about (txt "getting queue depth for ") model) (get_queue_depth model)
    active ← wrapped (about (txt "getting active demand for ") model) (get_demand model)
    return (some (demand_record model cfg queued active))

  unfoldable pub get_model_demand : Text → M (Option ModelDemand)
  unfolding get_model_config get_queue_depth get_demand
  get_model_demand model =
      if w.connected
      then (wrapped (about (txt "getting config for ") model) (get_model_config model) >>= λ cfg.
          demand_with model cfg)
      else return none

  -- The errors of the two readings are dropped.
  unfoldable pub demands_for : List (Text × ModelConfig) → M (List ModelDemand)
  unfolding get_queue_depth get_demand
  demands_for [] = return []
  demands_for ((model, cfg) ∷ rest) = do
    queued ← or_else 0 (get_queue_depth model)
    active ← or_else 0 (get_demand model)
    others ← demands_for rest
    return (demand_record model cfg queued active ∷ others)

  unfoldable pub get_all_demands : M (List ModelDemand)
  unfolding get_all_model_configs demands_for
  get_all_demands =
      if w.connected then (get_all_model_configs >>= λ all. demands_for all) else return []

  abbrev parse_vram : Text → Option Value → M ℕ
  parse_vram gpu none = return 0
  parse_vram gpu (some v) =
      wrapped (about (txt "parsing GPU spec for ") gpu) (parsed unmarshal_vram v)

  unfoldable pub get_gpu_vram : Text → M ℕ
  get_gpu_vram gpu =
      if w.connected
      then (wrapped (about (txt "reading GPU spec for ") gpu) (hget_spec w gpu) >>= λ v.
          parse_vram gpu v)
      else return 0
