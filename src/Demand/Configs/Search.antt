-- ===== src/Demand/Configs/Search.antt =====
-- internal/controller/demandstore.go: which config `GetModelConfig` gives.
use gpuscale.Prelude.{
  ◌≡◌, refl, sym, ap, subst, ◌∙◌, ◌⊎◌, inl, inr, Bool, true, false, ◌||◌, List, [], ◌∷◌, ◌++◌,
  Option, none, some, Text, txt, text_eq, text_eq_iff, In, lookup, Bool-cases, Option-cases,
}
use gpuscale.Demand.Json.{Value, ModelConfig, unmarshal_config}
use gpuscale.Demand.Redis.{World, Db, M, gave, return, ◌>>=◌, wrapped, hget_config, all_configs}
use gpuscale.Demand.Redis.Runs.{>>=-gave, wrapped-gave, call-gave}
use gpuscale.Demand.Registry.Guards.{if_true}
use gpuscale.Demand.Configs.{about, parsed, with_source, by_id_or_source, get_model_config}

-- The model's source is the text, as it is or behind `hf:`.
abbrev pub HasSource : Text → ModelConfig → Type 0
HasSource model cfg = (cfg.source ≡ model) ⊎ (cfg.source ≡ txt "hf:" ++ model)

-- The config under the model's name, or, where there is none, one whose source is the model; no
-- config is given only where there is neither.
abbrev pub IsConfigOf : Text → List (Text × Value) → Option ModelConfig → Type 0
IsConfigOf model configs (some cfg) =
    ((v : Value) × (lookup model configs ≡ some v) × (unmarshal_config v ≡ some cfg))
    ⊎ ((lookup model configs ≡ none)
        × ((k : Text) × (v : Value) × In (k, v) configs
            × (unmarshal_config v ≡ some cfg)
            × HasSource model cfg))
IsConfigOf model configs none =
    (lookup model configs ≡ none)
    × ((k : Text) (v : Value) (cfg : ModelConfig)
        → In (k, v) configs
        → unmarshal_config v ≡ some cfg
        → ¬ HasSource model cfg)

module _ (w : World) (model : Text) where
  abbrev has_source : (cfg : ModelConfig) → Bool
  has_source cfg = text_eq cfg.source model || text_eq cfg.source (txt "hf:" ++ model)

  has_source-HasSource : (cfg : ModelConfig) → has_source cfg ≡ true → HasSource model cfg
  has_source-HasSource cfg h = elim (Bool-cases (text_eq cfg.source model)) [
    | inl e ↦ inl ((text_eq_iff cfg.source model).0 e)
    | inr e ↦ inr ((text_eq_iff cfg.source (txt "hf:" ++ model)).0 (rw e at h))
  ]

  has_source-not : (cfg : ModelConfig) → has_source cfg ≡ false → ¬ HasSource model cfg
  has_source-not cfg h (inl e) = cc (rw ((text_eq_iff cfg.source model).1 e) at h)
  has_source-not cfg h (inr e) = elim (Bool-cases (text_eq cfg.source model)) [
    | inl f ↦ cc (rw f at h)
    | inr f ↦ cc (rw ((text_eq_iff cfg.source (txt "hf:" ++ model)).1 e) at (rw f at h))
  ]

  -- What the scan over the configs finds.
  Scanned : List (Text × Value) → Option ModelConfig → Type 0
  Scanned configs (some cfg) =
      (k : Text) × (v : Value) × In (k, v) configs
      × (unmarshal_config v ≡ some cfg)
      × HasSource model cfg
  Scanned configs none =
      (k : Text) (v : Value) (cfg : ModelConfig)
      → In (k, v) configs
      → unmarshal_config v ≡ some cfg
      → ¬ HasSource model cfg

  further :
      (k : Text) (raw : Value) (rest : List (Text × Value)) (o : Option ModelConfig)
      → ((cfg : ModelConfig) → unmarshal_config raw ≡ some cfg → ¬ HasSource model cfg)
      → Scanned rest o
      → Scanned ((k, raw) ∷ rest) o
  unfolding Scanned
  further k raw rest (some cfg) n (j, v, i, u, s) = (j, v, inr i, u, s)
  further k raw rest none n g = λ j v cfg i u s. elim i [
    | inl e ↦ n cfg (ap (λ x. unmarshal_config x.1) e ∙ u) s
    | inr t ↦ g j v cfg t u s
  ]

  with_source-Scanned :
      (configs : List (Text × Value)) → Scanned configs (with_source w model configs)
  unfolding with_source Scanned
  with_source-Scanned [] = λ k v cfg i. absurd i
  with_source-Scanned ((k, raw) ∷ rest) =
      let ih = with_source-Scanned rest in
      elim (Option-cases (unmarshal_config raw)) [
        | inl bad ↦
            rw (bad, with_source)
              (further k raw rest (with_source w model rest) (λ cfg u. cc (bad, u)) ih)
        | inr (cfg, good) ↦ elim (Bool-cases (has_source cfg)) [
          | inl e ↦
              rw (good, with_source)
                (rw (e, with_source) (k, raw, inl refl, good, has_source-HasSource cfg e))
          | inr e ↦
              rw (good, with_source)
                (rw (e, with_source)
                  (further k raw rest (with_source w model rest)
                    (λ c u.
                      let same : cfg ≡ c = cc (good, u) in
                      subst (λ x. ¬ HasSource model x) same (has_source-not cfg e))
                    ih))
        ]
      ]

  hget_config-gave :
      (d d' : Db) (v : Option Value)
      → hget_config w model d ≡ gave v d'
      → (d'.configs ≡ d.configs) × (v ≡ lookup model d.configs)
  unfolding hget_config
  hget_config-gave d d' v h =
      let (e, q) = call-gave w (λ db. lookup model db.configs) (λ db. db) d d' v h in
      (ap (λ db. db.configs) e, q)

  all_configs-gave :
      (d d' : Db) (all : List (Text × Value)) → all_configs w d ≡ gave all d' → all ≡ d.configs
  unfolding all_configs
  all_configs-gave d d' all h = (call-gave w (λ db. db.configs) (λ db. db) d d' all h).1

  -- What is given after the lookup by id.
  by_id_or_source-gave :
      (found : Option Value) (d d' : Db) (o : Option ModelConfig)
      → found ≡ lookup model d.configs
      → by_id_or_source w model found d ≡ gave o d'
      → IsConfigOf model d.configs o
  unfolding Scanned
  by_id_or_source-gave (some v) d d' o e h =
      let parse = parsed w unmarshal_config v in
      let (cfg, x, p, q) =
        >>=-gave (wrapped (about (txt "parsing model config for ") model) parse)
          (λ (c : ModelConfig). return (some c)) d d' o h in
      let given : some cfg ≡ o = cc q in
      let good = wrapped-gave (about (txt "parsing model config for ") model) parse d x cfg p in
      subst (IsConfigOf model d.configs) given (inl (v, sym e, parsed-gave v cfg x good))
    where
      parsed-gave :
          (v : Value) (cfg : ModelConfig) (x : Db)
          → parsed w unmarshal_config v d ≡ gave cfg x
          → unmarshal_config v ≡ some cfg
      parsed-gave v cfg x g = elim (Option-cases (unmarshal_config v)) [
        | inl bad ↦ absurd (cc (rw (bad, parsed) at g))
        | inr (c, good) ↦ let same : c ≡ cfg = cc (rw (good, parsed) at g) in good ∙ ap some same
      ]
  by_id_or_source-gave none d d' o e h =
      let (all, x, p, q) =
        >>=-gave (wrapped (about (txt "scanning model configs for ") model) (all_configs w))
          (λ (a : List (Text × Value)). return (with_source w model a)) d d' o h in
      let given : with_source w model all ≡ o = cc q in
      let same = all_configs-gave d x all (
        wrapped-gave (about (txt "scanning model configs for ") model) (all_configs w) d x all p) in
      scanned o (
        subst (λ a. Scanned d.configs a) (ap (with_source w model) (sym same) ∙ given)
          (with_source-Scanned d.configs))
    where
      scanned : (o : Option ModelConfig) → Scanned d.configs o → IsConfigOf model d.configs o
      scanned (some cfg) s = inr (sym e, s)
      scanned none s = (sym e, s)

  -- A lookup that succeeds gives the config under the model's name, or else one with the model as its
  -- source; it gives none only where there is neither.
  pub get_model_config-IsConfigOf :
      (d d' : Db) (o : Option ModelConfig)
      → w.connected ≡ true
      → get_model_config w model d ≡ gave o d'
      → IsConfigOf model d.configs o
  unfolding get_model_config
  get_model_config-IsConfigOf d d' o c h =
      let read = wrapped (about (txt "reading model config for ") model) (hget_config w model) in
      let (v, x, p, q) =
        >>=-gave read (λ v. by_id_or_source w model v) d d' o
          (subst (λ (m : M (Option ModelConfig)). m d ≡ gave o d')
            (if_true w.connected (read >>= λ v. by_id_or_source w model v) (return none) c) h) in
      let (same, found) = hget_config-gave d x v (
        wrapped-gave (about (txt "reading model config for ") model) (hget_config w model) d x v
          p) in
      subst (λ cs. IsConfigOf model cs o) same
        (by_id_or_source-gave v x d' o (found ∙ ap (lookup model) (sym same)) q)
