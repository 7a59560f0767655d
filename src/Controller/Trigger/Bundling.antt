-- ===== src/Controller/Trigger/Bundling.antt =====
-- internal/controller/provisiontrigger.go: which claims a trigger creates.
use gpuscale.Prelude.{
  ℕ, suc, ◌+◌, ◌≤◌, ◌<◌, ◌≡◌, refl, ◌⊎◌, inl, inr, true, false, ◌&&◌, ltb, ◌==◌, List, [], ◌∷◌,
  ◌++◌, Option, none, some, Text, text_eq, All, All-append_one, In, Bool-cases, arith,
}
use gpuscale.Provider.{Result, ok, err}
use gpuscale.Demand.Json.{ModelConfig}
use gpuscale.Controller.Capacity.{ModelDemand}
use gpuscale.Controller.Claims.{Claim}
use gpuscale.Controller.Trigger.{
  World, max_bundle_vram_gb, Bundle, is_covered, join_with, join, join_all, bundle_of,
  aggregate_models_for_claim,
}

module _ (w : World) (primary : Text) (cfg : ModelConfig) (claims : List Claim) where
  -- Another model may share the node: it is asked for, no active claim serves it, and its config
  -- names the same type of node.
  pub record Joins (demands : List ModelDemand) (model : Text) : Type 0 where
    pub demand : ModelDemand
    pub demanded : In demand demands × (demand.model ≡ model)
    pub wanted : (0 < demand.queue_depth) ⊎ (0 < demand.active_demand)
    pub other : text_eq model primary ≡ false
    pub uncovered : is_covered claims model ≡ false
    pub same_type :
        (n : ℕ) × (c : ModelConfig) × (w.model_config n model ≡ ok (some c))
        × (text_eq c.node_type cfg.node_type ≡ true)

  -- These are configs of the models, in order.
  abbrev pub Configs : List Text → List ModelConfig → Type 0
  Configs [] [] = Unit
  Configs [] (c ∷ cs) = ⊥
  Configs (m ∷ ms) [] = ⊥
  Configs (m ∷ ms) (c ∷ cs) = ((n : ℕ) × (w.model_config n m ≡ ok (some c))) × Configs ms cs

  abbrev pub vram_sum : List ModelConfig → ℕ
  vram_sum [] = 0
  vram_sum (c ∷ cs) = c.vram_required + vram_sum cs

  -- The VRAM is that of all the models, of the primary one alone or fitting one node.
  pub record IsBundle (demands : List ModelDemand) (b : Bundle) : Type 0 where
    pub joined : All (Joins demands) b.others
    pub summed :
        (cs : List ModelConfig) × Configs b.others cs × (b.vram ≡ cfg.vram_required + vram_sum cs)
    pub fits : ((b.others ≡ []) × (b.vram ≡ cfg.vram_required)) ⊎ (b.vram ≤ max_bundle_vram_gb)

  Configs-append :
      (ms : List Text) (cs : List ModelConfig) (m : Text) (c : ModelConfig)
      → Configs ms cs
      → (n : ℕ) × (w.model_config n m ≡ ok (some c))
      → Configs (ms ++ (m ∷ [])) (cs ++ (c ∷ []))
  Configs-append [] [] m c a r = (r, tt)
  Configs-append [] (d ∷ cs) m c a r = absurd a
  Configs-append (k ∷ ms) [] m c a r = absurd a
  Configs-append (k ∷ ms) (d ∷ cs) m c a r = (a.0, Configs-append ms cs m c a.1 r)

  vram_sum-append :
      (cs : List ModelConfig) (c : ModelConfig)
      → vram_sum (cs ++ (c ∷ [])) ≡ vram_sum cs + c.vram_required
  vram_sum-append [] c = omega arith
  vram_sum-append (d ∷ cs) c = omega (arith, vram_sum-append cs c)

  join_with-IsBundle :
      (n : ℕ) (r : Result (Option ModelConfig)) (d : ModelDemand) (demands : List ModelDemand)
      (b : Bundle)
      → w.model_config n d.model ≡ r
      → In d demands
      → (0 < d.queue_depth) ⊎ (0 < d.active_demand)
      → text_eq d.model primary ≡ false
      → IsBundle demands b
      → IsBundle demands (join_with w primary cfg claims r d.model b)
  unfolding join_with
  join_with-IsBundle n (err e) d demands b h i want other g = g
  join_with-IsBundle n (ok none) d demands b h i want other g = g
  join_with-IsBundle n (ok (some c)) d demands b h i want other g =
      elim (Bool-cases (text_eq c.node_type cfg.node_type)) [
        | inr unlike ↦ rw unlike g
        | inl alike ↦ elim (Bool-cases (ltb max_bundle_vram_gb (b.vram + c.vram_required))) [
          | inl big ↦ rw (alike, big) g
          | inr small ↦ elim (Bool-cases (is_covered claims d.model)) [
            | inl covered ↦ rw (alike, small, covered) g
            | inr uncovered ↦
                rw (alike, small, uncovered)
                  (record {
                    joined = All-append_one (Joins demands) b.others d.model g.joined (record {
                      demand = d;
                      demanded = (i, refl);
                      wanted = want;
                      other = other;
                      uncovered = uncovered;
                      same_type = (n, c, h, alike);
                    });
                    summed =
                        let (cs, configs, sum) = g.summed in
                        (
                          cs ++ (c ∷ []),
                          Configs-append b.others cs d.model c configs (n, h),
                          omega (arith, sum, vram_sum-append cs c),
                        );
                    fits = inr (ground arith);
                  })
          ]
        ]
      ]

  join-IsBundle :
      (n : ℕ) (d : ModelDemand) (demands : List ModelDemand) (b : Bundle)
      → In d demands
      → IsBundle demands b
      → IsBundle demands (join w primary cfg claims n d b)
  unfolding join
  join-IsBundle n d demands b i g = elim (Bool-cases (text_eq d.model primary)) [
    | inl same ↦ rw same g
    | inr other ↦ elim (Bool-cases (d.queue_depth == 0 && d.active_demand == 0)) [
      | inl idle ↦ rw (other, idle) g
      | inr wanted ↦
          rw (other, wanted)
            (join_with-IsBundle n (w.model_config n d.model) d demands b refl i (ground arith) other
              g)
    ]
  ]

  join_all-IsBundle :
      (n : ℕ) (ds demands : List ModelDemand) (b : Bundle)
      → ((d : ModelDemand) → In d ds → In d demands)
      → IsBundle demands b
      → IsBundle demands (join_all w primary cfg claims n ds b)
  unfolding join_all
  join_all-IsBundle n [] demands b i g = g
  join_all-IsBundle n (d ∷ ds) demands b i g =
      join_all-IsBundle (suc n) ds demands (join w primary cfg claims n d b) (λ x h. i x (inr h))
        (join-IsBundle n d demands b (i d (inl refl)) g)

  -- The demands as far as they can be read.
  abbrev pub demands_of : Result (List ModelDemand) → List ModelDemand
  demands_of (err e) = []
  demands_of (ok ds) = ds

  no_others :
      {demands : List ModelDemand}
      → IsBundle demands (record { others = []; vram = cfg.vram_required })
  no_others = record { joined = tt; summed = ([], tt, omega arith); fits = inl (refl, refl) }

  bundle_of-IsBundle :
      (r : Result (List ModelDemand)) → IsBundle (demands_of r) (bundle_of w primary cfg claims r)
  bundle_of-IsBundle (err e) = no_others
  bundle_of-IsBundle (ok ds) = join_all-IsBundle 1 ds ds _ (λ d i. i) (no_others)

  -- The models that share a claim with the primary one are asked for, are served by no active claim
  -- and name the same type of node; the VRAM of the claim is that of all these models
  -- together, by their configs, and fits the largest single node unless the primary model is alone.
  pub aggregate_models_for_claim-IsBundle :
      IsBundle (demands_of w.all_demands) (aggregate_models_for_claim w primary cfg claims)
  unfolding aggregate_models_for_claim
  aggregate_models_for_claim-IsBundle = bundle_of-IsBundle w.all_demands
