-- ===== src/Coordinator/Cache/Hits.antt =====
-- internal/coordinator/cache.go: what a cached search answers, and for whom.
use gpuscale.Prelude.{
  ℕ, ◌+◌, ◌<◌, ◌≡◌, refl, ap, ◌∙◌, Bool, false, lt→ltb, List, none, some, Text, text_eq_self,
  lookup, insert, lookup-insert, Option-cases, inl, inr, arith,
}
use gpuscale.Provider.{GpuRequirements, Offer, Error, ok, err}
use gpuscale.Coordinator.Cache.{
  CacheEntry, OfferCache, Search, cache_key, search_and_store, get_offers, is_fresh,
}

module _ (price : ℕ → Text) where
  -- While an entry is fresh, every request with its key gets its offers, with no search: the
  -- answers of limiter and provider do not matter, and the cache stays as it is.
  get_offers_fresh :
      (c : OfferCache) (now : ℕ) (p : Text) (req : GpuRequirements) (s : Search) (e : CacheEntry)
      → lookup (cache_key price p req) c.entries ≡ some e
      → now < e.fetched_at + c.ttl
      → get_offers price c now p req s ≡ (c, ok e.offers)
  unfolding get_offers
  get_offers_fresh c now p req s e found h =
      rw (found, get_offers) (rw (lt→ltb now (e.fetched_at + c.ttl) h))

  -- No fresh entry stands under the key.
  abbrev pub Misses : OfferCache → ℕ → Text → Type 0
  Misses c now key = (e : CacheEntry) → lookup key c.entries ≡ some e → is_fresh c now e ≡ false

  get_offers_miss :
      (c : OfferCache) (now : ℕ) (p : Text) (req : GpuRequirements) (s : Search)
      → Misses c now (cache_key price p req)
      → get_offers price c now p req s ≡ search_and_store c (cache_key price p req) s
  unfolding get_offers
  get_offers_miss c now p req s miss =
      elim (Option-cases (lookup (cache_key price p req) c.entries)) [
        | inl absent ↦ rw (absent, get_offers)
        | inr (e, found) ↦ rw (found, get_offers) (rw (miss e found))
      ]

  stored : OfferCache → Text → Search → List Offer → OfferCache
  stored c key s offers = record c {
    entries = insert key (record { offers = offers; fetched_at = s.done_at }) c.entries;
  }

  get_offers_stored :
      (c : OfferCache) (now : ℕ) (p : Text) (req : GpuRequirements) (s : Search)
      (offers : List Offer)
      → Misses c now (cache_key price p req)
      → s.waited ≡ none
      → s.found ≡ ok offers
      → get_offers price c now p req s ≡ (stored c (cache_key price p req) s offers, ok offers)
  unfolding stored
  get_offers_stored c now p req s offers miss waited found =
      get_offers_miss c now p req s miss ∙ (ground arith)

  lookup-stored :
      (c : OfferCache) (key : Text) (s : Search) (offers : List Offer)
      → lookup key (stored c key s offers).entries
        ≡ some (record { offers = offers; fetched_at = s.done_at })
  unfolding stored
  lookup-stored c key s offers = rw (lookup-insert key key _ c.entries) (rw (text_eq_self key))

  fresh_until :
      (c : OfferCache) (key : Text) (s : Search) (offers : List Offer) (later : ℕ)
      → later < s.done_at + c.ttl
      → later < s.done_at + (stored c key s offers).ttl
  unfolding stored
  fresh_until c key s offers later h = h

  -- A search that fails, at the limiter or at the provider, leaves the cache as it was and hands
  -- the error on; one that succeeds stores exactly the offers that it returns.
  pub get_offers_search :
      (c : OfferCache) (now : ℕ) (p : Text) (req : GpuRequirements) (s : Search)
      → Misses c now (cache_key price p req)
      → ((e : Error) → s.waited ≡ some e → get_offers price c now p req s ≡ (c, err e))
        × ((e : Error)
            → s.waited ≡ none
            → s.found ≡ err e
            → get_offers price c now p req s ≡ (c, err e))
        × ((offers : List Offer)
            → s.waited ≡ none
            → s.found ≡ ok offers
            → ((get_offers price c now p req s).1 ≡ ok offers)
              × (lookup (cache_key price p req) (get_offers price c now p req s).0.entries
                  ≡ some (record { offers = offers; fetched_at = s.done_at })))
  get_offers_search c now p req s miss = (
    λ e w. get_offers_miss c now p req s miss ∙ (ground arith),
    λ e w f. get_offers_miss c now p req s miss ∙ (ground arith),
    λ offers w f.
        rw (get_offers_stored c now p req s offers miss w f)
          (refl, lookup-stored c (cache_key price p req) s offers),
  )

  -- After a search that succeeds, the provider is not asked again by a request with the same key
  -- until the lifetime is over, whatever it would answer: the same offers come back.
  pub get_offers_twice :
      (c : OfferCache) (now later : ℕ) (p : Text) (req req' : GpuRequirements) (s s' : Search)
      (offers : List Offer)
      → Misses c now (cache_key price p req)
      → s.waited ≡ none
      → s.found ≡ ok offers
      → cache_key price p req' ≡ cache_key price p req
      → later < s.done_at + c.ttl
      → let c' = (get_offers price c now p req s).0 in
        get_offers price c' later p req' s' ≡ (c', ok offers)
  get_offers_twice c now later p req req' s s' offers miss waited found same h =
      rw (get_offers_stored c now p req s offers miss waited found) (
        get_offers_fresh (stored c (cache_key price p req) s offers) later p req' s'
          (record { offers = offers; fetched_at = s.done_at })
          (rw same (lookup-stored c (cache_key price p req) s offers))
          (fresh_until c (cache_key price p req) s offers later h))

  -- The key holds neither the VRAM cap, the node type, the PCIe generation nor whether several
  -- GPUs are allowed: within the lifetime of a search that succeeds, a request that differs from it
  -- in these alone gets the offers that were found for the other request.
  pub get_offers_shared :
      (c : OfferCache) (now later : ℕ) (p : Text) (req : GpuRequirements)
      (max_vram min_pcie_gen : ℕ) (node_type : Text) (multi_gpu : Bool) (s s' : Search)
      (offers : List Offer)
      → Misses c now (cache_key price p req)
      → s.waited ≡ none
      → s.found ≡ ok offers
      → later < s.done_at + c.ttl
      → (get_offers price
          (get_offers price c now p req s).0
          later
          p
          (record req {
            max_vram = max_vram;
            min_pcie_gen = min_pcie_gen;
            node_type = node_type;
            multi_gpu = multi_gpu;
          })
          s').1
        ≡ ok offers
  unfolding cache_key
  get_offers_shared c now later p req v g t m s s' offers miss waited found h =
      ap (λ r. r.1)
        (get_offers_twice c now later p req
          (record req { max_vram = v; min_pcie_gen = g; node_type = t; multi_gpu = m }) s s' offers
          miss waited found refl h)
