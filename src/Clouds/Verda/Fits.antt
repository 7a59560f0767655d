-- ===== src/Clouds/Verda/Fits.antt =====
-- pkg/provider/verda/provider.go: what `SearchOffers` may offer.
pub mod Hardware
use gpuscale.Prelude.{
  ℕ, ◌*◌, ◌≤◌, ◌≡◌, refl, sym, ap, subst, ◌⊎◌, inl, inr, true, false, not, ◌≢◌, ◌||◌, text_eq, ◌&&◌,
  ltb, Bool, List, [], ◌∷◌, some, Text, txt, In, In-append, Bool-cases, Option-cases, arith,
}
use gpuscale.Provider.{GpuRequirements, Offer, Result, ok, err}
use gpuscale.Clouds.Verda.Search.{
  World, InstanceType, TypeInfo, is_too_dear, region_codes, check_spot, check_on_demand,
  fail_closed, eligible_types, fail_open, has_on_demand, has_spot, choose_capacity, verda_offer,
  offer_at, offers_in, offers_for, search_offers,
}
use gpuscale.Clouds.Verda.Fits.Hardware.{
  Place, region_codes-Place, Capacity, Fits, Eligible, eligible_types-In,
}

module _ (w : World) (req : GpuRequirements) where
  -- Which capacity an offer of a type in a region has, and at which price.
  abbrev Chosen : TypeInfo → Text → ℕ × Text → Type 0
  Chosen ti region (price, capacity) =
      Capacity w req ti.type_of (verda_offer w req ti region price capacity)

  fail_closed-ok : (a : Result Bool) → fail_closed w req a ≡ true → a ≡ ok true
  fail_closed-ok (err e) h = absurd (cc h)
  fail_closed-ok (ok b) h = ap ok h

  fail_open-not : (a : Result Bool) → fail_open w req a ≡ true → a ≢ ok false
  fail_open-not (err e) h q = absurd (cc)
  fail_open-not (ok b) h q = absurd (cc)

  -- The two checks, by what is asked for.
  asked_spot : check_spot w req ≡ true → req.capacity_type ≢ txt "on-demand"
  unfolding text_eq
  asked_spot h e =
      differ (subst (λ t. (text_eq t (txt "spot") || not (text_eq t (txt "on-demand"))) ≡ true) e h)
    where
      differ :
          (text_eq (txt "on-demand") (txt "spot")
              || not (text_eq (txt "on-demand") (txt "on-demand")))
            ≡ true
          → ⊥
      differ k = absurd (cc k)

  asked_on_demand : check_on_demand w req ≡ true → req.capacity_type ≢ txt "spot"
  unfolding text_eq
  asked_on_demand h e =
      differ (subst (λ t. (text_eq t (txt "on-demand") || not (text_eq t (txt "spot"))) ≡ true) e h)
    where
      differ :
          (text_eq (txt "spot") (txt "on-demand") || not (text_eq (txt "spot") (txt "spot"))) ≡ true
          → ⊥
      differ k = absurd (cc k)

  choose_capacity-Chosen :
      (ti : TypeInfo) (region : Text) (c : ℕ × Text)
      → choose_capacity w req ti region ≡ some c
      → Chosen ti region c
  unfolding choose_capacity verda_offer has_spot has_on_demand
  choose_capacity-Chosen ti region c h = elim (Bool-cases spot) [
    | inl e ↦
        let q : (ti.spot_price, txt "spot") ≡ c = cc (rw e at h) in
        subst (Chosen ti region) q (
          inl (
            refl,
            asked_spot (ground (arith, e)),
            fail_closed-ok available_spot (ground (arith, e)),
          ))
    | inr e ↦ elim (Bool-cases on_demand) [
      | inl f ↦
          let q : (ti.on_demand_price, txt "on-demand") ≡ c = cc (rw (e, f) at h) in
          subst (Chosen ti region) q (
            inr (
              refl,
              asked_on_demand (ground (arith, f)),
              fail_open-not available_on_demand (ground (arith, f)),
            ))
      | inr f ↦ absurd (cc (rw (e, f) at h))
    ]
  ]
    where
      available_spot : Result Bool
      available_spot = w.available ti.type_of.instance_type true region

      available_on_demand : Result Bool
      available_on_demand = w.available ti.type_of.instance_type false region

      spot : Bool
      spot = check_spot w req && (fail_closed w req available_spot && ltb 0 ti.spot_price)

      on_demand : Bool
      on_demand = check_on_demand w req && fail_open w req available_on_demand

  offer_at-Fits :
      (t : InstanceType) (ti : TypeInfo) (region : Text) (o : Offer)
      → Eligible w req t ti
      → offer_at w req ti region ≡ some o
      → Fits w req t o × (o.region ≡ region)
  unfolding offer_at verda_offer
  offer_at-Fits t ti region o g h = elim (Option-cases (choose_capacity w req ti region)) [
    | inl e ↦ absurd (cc (rw e at h))
    | inr ((price, capacity), e) ↦ elim (Bool-cases (is_too_dear w req ti price)) [
      | inl f ↦ absurd (cc (rw (e, f) at h))
      | inr f ↦
          let q : verda_offer w req ti region price capacity ≡ o = cc (rw (e, f) at h) in
          subst (λ x. Fits w req t x × (x.region ≡ region)) q
            (
              record {
                type_name = ap (λ x. x.instance_type) g.same;
                counted = g.counted;
                memory = g.memory;
                meets = record {
                  single = g.single;
                  enough_vram = g.enough_vram;
                  enough_ram = g.enough_ram;
                  cheap = ground (arith, f);
                };
                capacity =
                    subst (λ x. Capacity w req x (verda_offer w req ti region price capacity))
                      g.same (choose_capacity-Chosen ti region (price, capacity) e);
              },
              refl,
            )
    ]
  ]

  module _ (types : List InstanceType) (codes : List Text) where
    abbrev pub IsFound : Offer → Type 0
    IsFound o = (t : InstanceType) × In t types × Fits w req t o × Place codes o.region

    offers_in-IsFound :
        (t : InstanceType) (ti : TypeInfo) (rs : List Text) (o : Offer)
        → In t types
        → Eligible w req t ti
        → ((r : Text) → In r rs → Place codes r)
        → In o (offers_in w req ti rs)
        → IsFound o
    unfolding offers_in
    offers_in-IsFound t ti [] o l g p i = absurd i
    offers_in-IsFound t ti (r ∷ rs) o l g p i = elim (Option-cases (offer_at w req ti r)) [
      | inl e ↦ offers_in-IsFound t ti rs o l g (λ x j. p x (inr j)) (rw e at i)
      | inr (x, e) ↦ elim (rw e at i) [
        | inr j ↦ offers_in-IsFound t ti rs o l g (λ x j. p x (inr j)) j
        | inl q ↦
            let (fits, place) = offer_at-Fits t ti r x g e in
            subst IsFound q (t, l, fits, subst (Place codes) (sym place) (p r (inl refl)))
      ]
    ]

    offers_for-IsFound :
        (tis : List TypeInfo) (rs : List Text) (o : Offer)
        → ((ti : TypeInfo) → In ti tis → (t : InstanceType) × In t types × Eligible w req t ti)
        → ((r : Text) → In r rs → Place codes r)
        → In o (offers_for w req tis rs)
        → IsFound o
    unfolding offers_for
    offers_for-IsFound [] rs o k p i = absurd i
    offers_for-IsFound (ti ∷ tis) rs o k p i =
        elim (In-append o (offers_in w req ti rs) (offers_for w req tis rs) i) [
          | inl here ↦ let (t, l, g) = k ti (inl refl) in offers_in-IsFound t ti rs o l g p here
          | inr there ↦ offers_for-IsFound tis rs o (λ x j. k x (inr j)) p there
        ]

  -- Every offer of a search is for a listed instance type in a listed place, with the type's GPUs and
  -- memory. It has one GPU at most, unless several are allowed, enough memory of both kinds, and a
  -- price for each GPU within the cap, if there is one. It is a spot offer only where Verda says that it
  -- has spot there and on-demand capacity alone is not asked for, and an on-demand offer only where
  -- Verda does not say that it has none and spot capacity alone is not asked for.
  pub search_offers-IsFound :
      (types : List InstanceType) (codes : List Text) (os : List Offer) (o : Offer)
      → w.list_instance_types ≡ ok types
      → w.list_locations ≡ ok codes
      → search_offers w req ≡ ok os
      → In o os
      → IsFound types codes o
  unfolding search_offers
  search_offers-IsFound types codes os o listed located h i =
      let q : offers_for w req (eligible_types w req types) (region_codes codes) ≡ os =
        cc (rw (listed, located) at h) in
      offers_for-IsFound types codes (eligible_types w req types) (region_codes codes) o
        (λ ti j. eligible_types-In w req ti types j) (λ r j. region_codes-Place codes r j)
        (subst (In o) (sym q) i)
