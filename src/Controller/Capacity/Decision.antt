-- ===== src/Controller/Capacity/Decision.antt =====
-- internal/controller/binpacking.go: when a node is bought, and how large.
use gpuscale.Prelude.{
  ◌≢◌, keep, leb, Bool, Bool-cases, Text, ◌||◌, ℕ, ◌+◌, ◌≤◌, ◌<◌, ◌≡◌, refl, ◌↔◌, ◌⊎◌, inl, inr,
  true, false, ◌==◌, List, [], ◌∷◌, contains_text, arith,
}
use gpuscale.Controller.Capacity.{
  ModelDemand, GpuNode, is_nil, ClusterCapacity, ProvisioningDecision, needs_capacity,
  filter_models_needing_capacity, vram_needed, any_multi_gpu, model_names, decide_for,
  decide_provisioning,
}

-- A model is queued, active or always active, and no node has it loaded.
abbrev pub IsNeeded : ClusterCapacity → ModelDemand → Type 0
IsNeeded capacity d =
    ((0 < d.queue_depth) ⊎ ((0 < d.active_demand) ⊎ (d.always_active ≡ true)))
    × (contains_text d.model capacity.loaded_models ≡ false)

-- The demands need capacity for the models of these names, for that much VRAM together, and for a node
-- with several GPUs or not.
pub data Needs (capacity : ClusterCapacity) : List ModelDemand → List Text → ℕ → Bool → Type 0 where
  nothing : Needs capacity [] [] 0 false
  counted :
      (d : ModelDemand) (ds : List ModelDemand) (names : List Text) (vram : ℕ) (multi : Bool)
      → IsNeeded capacity d
      → Needs capacity ds names vram multi
      → Needs capacity (d ∷ ds) (d.model ∷ names) (d.vram_required + vram) (d.multi_gpu || multi)
  passed :
      (d : ModelDemand) (ds : List ModelDemand) (names : List Text) (vram : ℕ) (multi : Bool)
      → ¬ IsNeeded capacity d
      → Needs capacity ds names vram multi
      → Needs capacity (d ∷ ds) names vram multi

-- A cluster without GPUs.
abbrev pub IsCold : ClusterCapacity → Type 0
IsCold capacity = (capacity.nodes ≡ []) ⊎ (capacity.total_gpus ≡ 0)

-- The VRAM that is bought: all of it in a cold cluster, else what is not free.
abbrev pub Buys : ClusterCapacity → ℕ → ProvisioningDecision → Type 0
Buys capacity vram d =
    (IsCold capacity × (d.required_vram ≡ vram))
    ⊎ ((¬ IsCold capacity)
        × (capacity.free_vram < vram)
        × (d.required_vram + capacity.free_vram ≡ vram))

abbrev pub Covers : ClusterCapacity → List Text → ℕ → Bool → ProvisioningDecision → Type 0
Covers capacity names vram multi d =
    ((d.should_provision ≡ true)
      × (names ≢ [])
      × Buys capacity vram d
      × (d.models ≡ names)
      × (d.multi_gpu ≡ multi))
    ⊎ ((d.should_provision ≡ false)
        × (d.models ≡ [])
        × ((names ≡ []) ⊎ ((¬ IsCold capacity) × (vram ≤ capacity.free_vram))))

keep-Needs :
    (capacity : ClusterCapacity) (demands : List ModelDemand)
    → let needed = keep (needs_capacity capacity) demands in
      Needs capacity demands (model_names needed) (vram_needed needed) (any_multi_gpu needed)
unfolding needs_capacity vram_needed any_multi_gpu
keep-Needs capacity [] = nothing
keep-Needs capacity (d ∷ ds) = elim (Bool-cases (needs_capacity capacity d)) [
  | inl e ↦ rw e (counted d ds _ _ _ (ground arith, ground arith) (keep-Needs capacity ds))
  | inr e ↦ rw e (passed d ds _ _ _ (λ h. ground arith) (keep-Needs capacity ds))
]

abbrev has_no_gpus : ClusterCapacity → Bool
has_no_gpus capacity = is_nil capacity.nodes || capacity.total_gpus == 0

is_nil_iff : (ns : List GpuNode) → (is_nil ns ≡ true) ↔ (ns ≡ [])
is_nil_iff [] = (λ h. refl, λ h. refl)
is_nil_iff (n ∷ ns) = (λ h. absurd (cc h), λ h. absurd (cc h))

has_no_gpus-IsCold : (capacity : ClusterCapacity) → has_no_gpus capacity ≡ true → IsCold capacity
has_no_gpus-IsCold capacity h = elim (Bool-cases (is_nil capacity.nodes)) [
  | inl e ↦ inl ((is_nil_iff capacity.nodes).0 e)
  | inr e ↦ inr (ground (arith, rw e at h))
]

has_no_gpus-warm : (capacity : ClusterCapacity) → has_no_gpus capacity ≡ false → ¬ IsCold capacity
has_no_gpus-warm capacity h (inl e) = absurd (cc (rw ((is_nil_iff capacity.nodes).1 e) at h))
has_no_gpus-warm capacity h (inr e) = ground arith

decide_for-Covers :
    (needed : List ModelDemand) (capacity : ClusterCapacity)
    → Covers capacity
        (model_names needed)
        (vram_needed needed)
        (any_multi_gpu needed)
        (decide_for needed capacity)
unfolding decide_for
decide_for-Covers [] capacity = inr (refl, refl, inl refl)
decide_for-Covers (d ∷ ds) capacity = elim (Bool-cases (has_no_gpus capacity)) [
  | inl cold ↦
      rw cold
        (inl (refl, (λ e. absurd (cc e)), inl (has_no_gpus-IsCold capacity cold, refl), refl, refl))
  | inr warm ↦ elim (Bool-cases (leb (vram_needed (d ∷ ds)) capacity.free_vram)) [
    | inl enough ↦
        rw (warm, enough)
          (inr (refl, refl, inr (has_no_gpus-warm capacity warm, ground (arith, enough))))
    | inr short ↦
        rw (warm, short)
          (inl (
            refl,
            (λ e. absurd (cc e)),
            inr (has_no_gpus-warm capacity warm, ground (arith, short), ground (arith, short)),
            refl,
            refl,
          ))
  ]
]

-- The demands need capacity for the models that are queued, active or always active and not loaded:
-- for their names in order, the sum of their VRAM, and several GPUs where one of them needs these. What
-- is bought is for just these models: all their VRAM in a cluster without GPUs, and otherwise what
-- their VRAM exceeds the free VRAM by, which is more than zero. Nothing is bought only where no model
-- needs capacity or the cluster has GPUs and the free VRAM covers them.
pub decide_provisioning-Covers :
    (demands : List ModelDemand) (capacity : ClusterCapacity)
    → (names : List Text) × (vram : ℕ) × (multi : Bool) × Needs capacity demands names vram multi
      × Covers capacity names vram multi (decide_provisioning demands capacity)
unfolding decide_provisioning filter_models_needing_capacity
decide_provisioning-Covers [] capacity = ([], 0, false, nothing, inr (refl, refl, inl refl))
decide_provisioning-Covers (d ∷ ds) capacity =
    let needed = keep (needs_capacity capacity) (d ∷ ds) in
    (
      model_names needed,
      vram_needed needed,
      any_multi_gpu needed,
      keep-Needs capacity (d ∷ ds),
      decide_for-Covers needed capacity,
    )
