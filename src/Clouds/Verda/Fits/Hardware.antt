-- ===== src/Clouds/Verda/Fits/Hardware.antt =====
-- pkg/provider/verda/provider.go: which instance types `SearchOffers` keeps.
use gpuscale.Prelude.{
  ℕ, ◌*◌, ◌≤◌, ◌≡◌, ◌≢◌, refl, sym, subst, ◌⊎◌, inl, inr, true, false, not, ◌&&◌, ltb, List, [],
  ◌∷◌, some, Text, txt, contains_text, In, Bool-cases, Option-cases, arith,
}
use gpuscale.Provider.{GpuRequirements, Offer, ok}
use gpuscale.Clouds.Fitting.{Meets}
use gpuscale.Clouds.Verda.Search.{
  World, InstanceType, TypeInfo, or_any, value_or_zero, distinct_codes, region_codes, parse_price,
  eligible_type, eligible_types,
}

distinct_codes-In : (c : Text) (seen cs : List Text) → In c (distinct_codes seen cs) → In c cs
unfolding distinct_codes
distinct_codes-In c seen [] i = absurd i
distinct_codes-In c seen (d ∷ cs) i = elim (Bool-cases (contains_text d seen)) [
  | inl e ↦ inr (distinct_codes-In c seen cs (rw (e, In) at i))
  | inr e ↦ elim (rw (e, In) at i) [
    | inl same ↦ inl same
    | inr later ↦ inr (distinct_codes-In c (d ∷ seen) cs later)
  ]
]

-- A place that offers are asked for: a listed one, or none where there are no locations.
abbrev pub Place : List Text → Text → Type 0
Place codes region = In region codes ⊎ (region ≡ [])

pub region_codes-Place : (codes : List Text) (c : Text) → In c (region_codes codes) → Place codes c
unfolding region_codes
region_codes-Place codes c i =
    from (distinct_codes [] codes) (λ j. distinct_codes-In c [] codes j) i
  where
    from : (ds : List Text) → (In c ds → In c codes) → In c (or_any ds) → Place codes c
    from [] g (inl e) = inr (sym e)
    from [] g (inr x) = absurd x
    from (d ∷ ds) g j = inl (g j)

module _ (w : World) (req : GpuRequirements) where
  -- Spot where Verda says that it has some and on-demand capacity alone is not asked for; on-demand
  -- unless Verda says that it has none or spot capacity alone is asked for.
  abbrev pub Capacity : InstanceType → Offer → Type 0
  Capacity t o =
      ((o.capacity_type ≡ txt "spot")
        × (req.capacity_type ≢ txt "on-demand")
        × (w.available t.instance_type true o.region ≡ ok true))
      ⊎ ((o.capacity_type ≡ txt "on-demand")
          × (req.capacity_type ≢ txt "spot")
          × (w.available t.instance_type false o.region ≢ ok false))

  pub record Fits (t : InstanceType) (o : Offer) : Type 0 where
    pub type_name : o.offer_id ≡ t.instance_type
    pub counted : o.gpu_count ≡ t.number_of_gpus
    pub memory : o.vram ≡ t.number_of_gpus * t.gpu_memory
    pub meets : Meets req o
    pub capacity : Capacity t o

  -- What the first loop keeps of an instance type.
  pub record Eligible (t : InstanceType) (ti : TypeInfo) : Type 0 where
    pub same : ti.type_of ≡ t
    pub counted : ti.gpu_count ≡ t.number_of_gpus
    pub memory : ti.total_vram ≡ t.number_of_gpus * t.gpu_memory
    pub single : (req.multi_gpu ≡ true) ⊎ (ti.gpu_count ≤ 1)
    pub enough_vram : req.min_vram ≤ ti.total_vram
    pub enough_ram : req.min_ram ≤ ti.ram_gb

  eligible_type-Eligible :
      (t : InstanceType) (ti : TypeInfo) → eligible_type w req t ≡ some ti → Eligible t ti
  unfolding eligible_type
  eligible_type-Eligible t ti h = elim (Bool-cases (not req.multi_gpu && ltb 1 t.number_of_gpus)) [
    | inl a ↦ absurd (cc (rw a at h))
    | inr a ↦
        elim (Bool-cases
          (ltb 0 req.min_vram && ltb (t.number_of_gpus * t.gpu_memory) req.min_vram)) [
            | inl b ↦ absurd (cc (rw (a, b) at h))
            | inr b ↦ elim (Bool-cases (ltb 0 req.min_ram && ltb t.memory req.min_ram)) [
              | inl c ↦ absurd (cc (rw (a, b, c) at h))
              | inr c ↦ elim (Option-cases (parse_price w req t.price_per_hour)) [
                | inl d ↦ absurd (cc (rw (a, b, c, d) at h))
                | inr (p, d) ↦ kept a b c p (rw (a, b, c, d) at h)
              ]
            ]
          ]
  ]
    where
      info : ℕ → TypeInfo
      info p = record {
        type_of = t;
        gpu_count = t.number_of_gpus;
        total_vram = t.number_of_gpus * t.gpu_memory;
        ram_gb = t.memory;
        on_demand_price = p;
        spot_price = value_or_zero w req (parse_price w req t.spot_price);
      }

      kept :
          not req.multi_gpu && ltb 1 t.number_of_gpus ≡ false
          → ltb 0 req.min_vram && ltb (t.number_of_gpus * t.gpu_memory) req.min_vram ≡ false
          → ltb 0 req.min_ram && ltb t.memory req.min_ram ≡ false
          → (p : ℕ) → some (info p) ≡ some ti
          → Eligible t ti
      kept a b c p e =
          let q : info p ≡ ti = cc e in
          subst (Eligible t) q (record {
            same = refl;
            counted = refl;
            memory = refl;
            single = ground (arith, a);
            enough_vram = ground (arith, b);
            enough_ram = ground (arith, c);
          })

  pub eligible_types-In :
      (ti : TypeInfo) (ts : List InstanceType)
      → In ti (eligible_types w req ts)
      → (t : InstanceType) × In t ts × Eligible t ti
  unfolding eligible_types
  eligible_types-In ti [] i = absurd i
  eligible_types-In ti (t ∷ ts) i = elim (Option-cases (eligible_type w req t)) [
    | inl e ↦ later (eligible_types-In ti ts (rw e at i))
    | inr (x, e) ↦ elim (rw e at i) [
      | inr j ↦ later (eligible_types-In ti ts j)
      | inl q ↦ (t, inl refl, subst (Eligible t) q (eligible_type-Eligible t x e))
    ]
  ]
    where
      later :
          (u : InstanceType) × In u ts × Eligible u ti
          → (u : InstanceType) × In u (t ∷ ts) × Eligible u ti
      later (u, j, g) = (u, inr j, g)
