-- ===== src/Clouds/Aws/Market.antt =====
-- pkg/provider/aws/provider.go: what `SearchOffers` may offer, and in which market it is bought.
use gpuscale.Prelude.{
  ℕ, ◌*◌, ◌≤◌, ◌≡◌, ◌≢◌, refl, ap, subst, ◌∙◌, ◌⊎◌, inl, inr, true, List, [], ◌∷◌, map, Option,
  none, some, Text, txt, text_eq_iff, In, lookup, Bool-cases, lt→ltb,
}
use gpuscale.Provider.{GpuRequirements, Offer, BootstrapConfig, ok}
use gpuscale.Clouds.Fitting.{Meets, passes-Meets, passes-small}
use gpuscale.Clouds.Aws.Catalog.{InstanceSpec, catalog}
use gpuscale.Clouds.Aws.Prices.{lowest_prices, IsLowest, lowest_prices-IsLowest}
use gpuscale.Clouds.Aws.{
  get_spot_prices, cached_or_fetched, kept_or_filled, is_spot, on_demand_price, fallback_price,
  positive_or, price_of, is_wanted, aws_offer, offers_among, search_offers, run_request,
}
use gpuscale.Clouds.Aws.Requests.{World, SpotPriceCache}

module _ (w : World) (req : GpuRequirements) (c : BootstrapConfig) (ami : Text) where
  module _ (items : List (Text × ℕ)) where
    abbrev lowest : List (Text × ℕ)
    lowest = lowest_prices items []

    -- The lowest positive price in the answer, or, if there is none, 30% of the on-demand price.
    abbrev pub SpotPrice : InstanceSpec → ℕ → Type 0
    SpotPrice s price =
        IsLowest s.instance_type items (some price)
        ⊎ (IsLowest s.instance_type items none × (price ≡ fallback_price w req items s))

    abbrev pub Priced : InstanceSpec → Offer → Type 0
    Priced s o =
        ((req.capacity_type ≡ txt "spot")
          × (o.capacity_type ≡ txt "spot")
          × SpotPrice s o.price_per_hour)
        ⊎ ((req.capacity_type ≢ txt "spot")
            × (o.capacity_type ≡ txt "on-demand")
            × (o.price_per_hour ≡ on_demand_price w req items s))

    pub record IsBought (s : InstanceSpec) (o : Offer) : Type 0 where
      listed : In s catalog
      counted : o.gpu_count ≡ s.gpu_count
      memory : o.vram ≡ s.gpu_count * s.vram_per_gpu
      meets : Meets req o
      small_gpus : (req.max_vram ≡ 0) ⊎ (s.vram_per_gpu ≤ req.max_vram)
      priced : Priced s o
      requested : (run_request w o c ami).instance_type ≡ s.instance_type
      market : (run_request w o c ami).market_type ≡ txt "spot"

    positive_or-SpotPrice :
        (s : InstanceSpec) (found : Option ℕ)
        → IsLowest s.instance_type items found
        → SpotPrice s (positive_or w req lowest (fallback_price w req lowest s) found)
    positive_or-SpotPrice s none h = inr (h, refl)
    positive_or-SpotPrice s (some p) h = rw (lt→ltb 0 p h.0) (inl h)

    aws_offer-Priced : (s : InstanceSpec) → Priced s (aws_offer w req lowest s)
    unfolding aws_offer price_of
    aws_offer-Priced s = elim (Bool-cases (is_spot w req lowest)) [
      | inl e ↦ rw e (
          inl (
            (text_eq_iff req.capacity_type (txt "spot")).0 e,
            refl,
            positive_or-SpotPrice s (lookup s.instance_type lowest)
                (lowest_prices-IsLowest s.instance_type items),
          ))
      | inr e ↦
          rw e (inr (λ q. cc (e, (text_eq_iff req.capacity_type (txt "spot")).1 q), refl, refl))
    ]

    aws_offer-IsBought :
        (s : InstanceSpec)
        → In s catalog
        → is_wanted w req lowest s ≡ true
        → IsBought s (aws_offer w req lowest s)
    unfolding is_wanted aws_offer run_request
    aws_offer-IsBought s l h = record {
      listed = l;
      counted = refl;
      memory = refl;
      meets = passes-Meets req s.vram_per_gpu (aws_offer w req lowest s) h;
      small_gpus = passes-small req s.vram_per_gpu (aws_offer w req lowest s) h;
      priced = aws_offer-Priced s;
      requested = refl;
      market = refl;
    }

    offers_among-IsBought :
        (ss : List InstanceSpec) (o : Offer)
        → ((s : InstanceSpec) → In s ss → In s catalog)
        → In o (offers_among w req lowest ss)
        → (s : InstanceSpec) × IsBought s o
    unfolding offers_among
    offers_among-IsBought [] o l i = absurd i
    offers_among-IsBought (s ∷ ss) o l i = elim (Bool-cases (is_wanted w req lowest s)) [
      | inr e ↦ offers_among-IsBought ss o (λ x j. l x (inr j)) (rw e at i)
      | inl e ↦ elim (rw e at i) [
        | inl q ↦ (s, subst (IsBought s) q (aws_offer-IsBought s (l s (inl refl)) e))
        | inr j ↦ offers_among-IsBought ss o (λ x k. l x (inr k)) j
      ]
    ]

  -- Every offer of a search with an empty cache, where AWS answers with its history of spot prices, is
  -- for a type of the catalog that meets the requirements, at a price for each GPU within the cap, if
  -- there is one. If spot capacity is asked for, its price is the lowest one in the history, or 30% of
  -- the on-demand price where the history has none; if not, it is the on-demand price. If it is bought,
  -- the type is requested in the spot market, whatever capacity the offer has.
  pub search_offers-IsBought :
      (items : List (Text × ℕ)) (cache : SpotPriceCache) (o : Offer)
      → cache.prices ≡ none
      → w.describe_spot_prices (map (λ s. s.instance_type) catalog) ≡ ok items
      → In o (search_offers w req cache).1
      → (s : InstanceSpec) × IsBought items s o
  unfolding search_offers get_spot_prices
  search_offers-IsBought items cache o empty answered i =
      offers_among-IsBought items catalog o (λ s j. j)
        (subst (λ x. In o (offers_among w req x.1 catalog))
          (ap (cached_or_fetched w cache) empty ∙ ap (kept_or_filled w cache) answered) i)
