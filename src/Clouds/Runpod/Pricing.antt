-- ===== src/Clouds/Runpod/Pricing.antt =====
-- pkg/provider/runpod/provider.go: at which price a pod is offered, and in which cloud it is bought.
use gpuscale.Prelude.{
  ℕ, zero, suc, ◌*◌, ◌≤◌, ◌<◌, ◌≡◌, refl, sym, subst, ◌⊎◌, inl, inr, false, not, ◌&&◌, ltb, ◌==◌,
  List, [], ◌∷◌, some, Text, txt, text_eq, In, Bool-cases, Option-cases, arith,
}
use gpuscale.Provider.{GpuRequirements, Offer, BootstrapConfig, ok}
use gpuscale.Clouds.Runpod.{
  price_of, count_for, runpod_offer, priced, offer_of, offers_of, is_unwanted, search_offers,
  create_request,
}
use gpuscale.Clouds.Runpod.Pods.{World, GpuType}

module _ (w : World) (req : GpuRequirements) (c : BootstrapConfig) where
  -- The first price, where there is one, is the price of each GPU, and the second one otherwise.
  abbrev pub First : ℕ → ℕ → Offer → Type 0
  First p q o =
      ((0 < p) × (o.price_per_hour ≡ p * o.gpu_count))
      ⊎ ((p ≡ 0) × (o.price_per_hour ≡ q * o.gpu_count))

  -- A spot offer is bought in the community cloud and an on-demand offer in the secure cloud, each at
  -- the price in the community cloud, where there is one, and in the secure cloud otherwise.
  abbrev pub Bought : GpuType → Offer → Type 0
  Bought t o =
      ((o.capacity_type ≡ txt "spot")
        × ((create_request w o c).cloud_type ≡ txt "COMMUNITY")
        × First t.community_spot_price t.secure_spot_price o)
      ⊎ ((o.capacity_type ≡ txt "on-demand")
          × ((create_request w o c).cloud_type ≡ txt "SECURE")
          × First t.community_price t.secure_price o)

  pub record IsPod (t : GpuType) (o : Offer) : Type 0 where
    pub named : (o.offer_id ≡ t.id) × (o.gpu_type ≡ t.display_name)
    pub counted :
        ((0 < req.gpu_count) × (o.gpu_count ≡ req.gpu_count))
        ⊎ ((req.gpu_count ≡ 0) × (o.gpu_count ≡ 1))
    pub requested :
        ((create_request w o c).gpu_type_id ≡ t.id)
        × ((create_request w o c).gpu_count ≡ o.gpu_count)
    pub memory : o.vram ≡ t.memory_in_gb * o.gpu_count
    pub enough_vram : req.min_vram ≤ o.vram
    pub paid : 0 < o.price_per_hour
    pub cheap : (req.max_price_per_hour ≡ 0) ⊎ (o.price_per_hour ≤ req.max_price_per_hour)
    pub bought : Bought t o

  abbrev Priced : GpuType → ℕ × Text → Type 0
  Priced t (price, capacity) =
      0 < price * count_for w req
      → Bought t (runpod_offer w req t (price * count_for w req) capacity)

  price_of-Priced : (t : GpuType) → Priced t (price_of w req t)
  unfolding price_of runpod_offer create_request text_eq
  price_of-Priced t = elim (Bool-cases (text_eq req.capacity_type (txt "spot"))) [
    | inl s ↦ elim (Bool-cases (ltb 0 t.community_spot_price)) [
      | inl e ↦ rw (s, e) (λ p. inl (refl, refl, inl (ground (arith, e), refl)))
      | inr e ↦ elim (Bool-cases (ltb 0 t.secure_spot_price)) [
        | inl f ↦ rw (s, e, f) (λ p. inl (refl, refl, inr (ground (arith, e), refl)))
        | inr f ↦
            rw (s, e, f)
              (λ p. inr (refl, refl, inl (positive t.community_price (count_for w req) p, refl)))
      ]
    ]
    | inr s ↦ elim (Bool-cases (ltb 0 t.community_price)) [
      | inl e ↦ rw (s, e) (λ p. inr (refl, refl, inl (ground (arith, e), refl)))
      | inr e ↦ rw (s, e) (λ p. inr (refl, refl, inr (ground (arith, e), refl)))
    ]
  ]
    where
      positive : (p n : ℕ) → 0 < p * n → 0 < p
      positive zero n h = omega arith
      positive (suc p) n h = omega arith

  offer_of-IsPod : (t : GpuType) (o : Offer) → offer_of w req t ≡ some o → IsPod t o
  unfolding offer_of runpod_offer create_request count_for
  offer_of-IsPod t o h = elim (Bool-cases (is_unwanted w req t.display_name req.gpu_types)) [
    | inl a ↦ absurd (cc (rw a at h))
    | inr a ↦ elim (Bool-cases (not req.multi_gpu && ltb 1 req.gpu_count)) [
      | inl b ↦ absurd (cc (rw (a, b) at h))
      | inr b ↦
          elim (Bool-cases
            (ltb 0 req.min_vram && ltb (t.memory_in_gb * count_for w req) req.min_vram)) [
              | inl d ↦ absurd (cc (rw (a, b, d) at h))
              | inr d ↦ of_price (price_of w req t) d (price_of-Priced t) (rw (a, b, d) at h)
            ]
    ]
  ]
    where
      of_price :
          (p : ℕ × Text)
          → ltb 0 req.min_vram && ltb (t.memory_in_gb * count_for w req) req.min_vram ≡ false
          → Priced t p
          → priced w req t (p.0 * count_for w req) p.1 ≡ some o
          → IsPod t o
      of_price (price, capacity) d g h =
          let n = price * count_for w req in
          elim (Bool-cases (n == 0)) [
            | inl e ↦ absurd (cc (rw e at h))
            | inr e ↦
                elim (Bool-cases (ltb 0 req.max_price_per_hour && ltb req.max_price_per_hour n)) [
                  | inl f ↦ absurd (cc (rw (e, f) at h))
                  | inr f ↦
                      let q : runpod_offer w req t n capacity ≡ o = cc (rw (e, f) at h) in
                      subst (IsPod t) q (record {
                        named = (refl, refl);
                        counted = ground (arith);
                        requested = (refl, refl);
                        memory = refl;
                        enough_vram = ground (arith, d);
                        paid = ground (arith, e);
                        cheap = ground (arith, f);
                        bought = g (ground (arith, e));
                      })
                ]
          ]

  abbrev pub IsFound : List GpuType → Offer → Type 0
  IsFound ts o = (t : GpuType) × In t ts × IsPod t o

  offers_of-IsFound : (ts : List GpuType) (o : Offer) → In o (offers_of w req ts) → IsFound ts o
  unfolding offers_of
  offers_of-IsFound [] o i = absurd i
  offers_of-IsFound (t ∷ ts) o i = elim (Option-cases (offer_of w req t)) [
    | inl e ↦ later (offers_of-IsFound ts o (rw e at i))
    | inr (x, e) ↦ elim (rw e at i) [
      | inr j ↦ later (offers_of-IsFound ts o j)
      | inl q ↦ (t, inl refl, subst (IsPod t) q (offer_of-IsPod t x e))
    ]
  ]
    where
      later : IsFound ts o → IsFound (t ∷ ts) o
      later (u, j, g) = (u, inr j, g)

  -- Every offer of a search has the id and the name of a listed GPU type, the number of GPUs that
  -- is asked for, or one where none is, and enough memory, and its price is positive and within
  -- the cap, if there is one. If it is bought, that type and number are requested, a spot offer is
  -- requested in the community cloud and an on-demand offer in the secure cloud, while its price
  -- is the one in the community cloud, where there is one, and the one in the secure cloud
  -- otherwise.
  pub search_offers-IsPod :
      (ts : List GpuType) (os : List Offer) (o : Offer)
      → w.list_gpu_types ≡ ok ts
      → search_offers w req ≡ ok os
      → In o os
      → IsFound ts o
  unfolding search_offers
  search_offers-IsPod ts os o listed h i =
      let q : offers_of w req ts ≡ os = cc (rw listed at h) in
      offers_of-IsFound ts o (subst (In o) (sym q) i)
