-- ===== src/Coordinator/Cache.antt =====
-- internal/coordinator/cache.go. One caller at a time: `singleflight` merges concurrent searches
-- for one key into one call, and each of these is such a call. The printed price, `%.2f`, is a
-- parameter, since prices are numbers of an unnamed fraction of a dollar.
pub mod Invalidation
pub mod Hits
use gpuscale.Prelude.{
  ℕ, zero, suc, ◌+◌, ◌/◌, ◌%◌, ◌<◌, ◌≡◌, Bool, ltb, if◌then◌else◌, List, [], ◌∷◌, ◌++◌, Option,
  none, some, Text, txt, has_prefix, lookup, insert, delete_if,
}
use gpuscale.Provider.{GpuRequirements, Offer, Error, Result, ok, err}

pub record CacheEntry : Type 0 where
  pub offers : List Offer
  pub fetched_at : ℕ

pub record OfferCache : Type 0 where
  pub entries : List (Text × CacheEntry)
  pub ttl : ℕ

unfoldable pub new_offer_cache : ℕ → OfferCache
new_offer_cache ttl = record { entries = []; ttl = ttl }

-- `%d`, with the digits in front of `rest`; the fuel bounds the number of digits.
decimal_onto : ℕ → ℕ → Text → Text
decimal_onto zero n rest = rest
decimal_onto (suc fuel) n rest =
    let digit = (48 + n % 10) ∷ rest in
    let more = decimal_onto fuel (n / 10) digit in if ltb n 10 then digit else more

unfoldable pub decimal : ℕ → Text
unfolding decimal_onto
decimal n = decimal_onto (suc n) n []

-- `strings.Join(parts, ",")`.
unfoldable pub join : List Text → Text
join [] = []
join (t ∷ []) = t
join (t ∷ u ∷ ts) = t ++ (txt "," ++ join (u ∷ ts))

abbrev any_or_joined : List Text → Text
any_or_joined [] = txt "any"
any_or_joined (t ∷ ts) = join (t ∷ ts)

unfoldable pub cache_key : (ℕ → Text) → Text → GpuRequirements → Text
unfolding decimal join
cache_key price provider_name req =
    provider_name
    ++ (txt ":"
        ++ (decimal req.gpu_count
            ++ (txt ":"
                ++ (decimal req.min_vram
                    ++ (txt ":"
                        ++ (price req.max_price_per_hour
                            ++ (txt ":"
                                ++ (req.capacity_type
                                    ++ (txt ":"
                                        ++ (any_or_joined req.gpu_types
                                            ++ (txt ":"
                                                ++ (decimal req.min_disk
                                                    ++ (txt ":" ++ decimal req.min_ram)))))))))))))

-- What a search meets: the limiter's answer, the provider's, and the clock when it is done.
pub record Search : Type 0 where
  pub waited : Option Error
  pub found : Result (List Offer)
  pub done_at : ℕ

abbrev store_found : OfferCache → Text → ℕ → Result (List Offer) → OfferCache
store_found c key done_at (ok offers) = record c {
  entries = insert key (record { offers = offers; fetched_at = done_at }) c.entries;
}
store_found c key done_at (err e) = c

abbrev search_and_store : OfferCache → Text → Search → OfferCache × Result (List Offer)
search_and_store c key s = elim s.waited [
  | some e ↦ (c, err e)
  | none ↦ (store_found c key s.done_at s.found, s.found)
]

-- `time.Since(fetchedAt) < ttl`
abbrev is_fresh : OfferCache → ℕ → CacheEntry → Bool
is_fresh c now entry = ltb now (entry.fetched_at + c.ttl)

unfoldable pub get_offers :
    (ℕ → Text) → OfferCache → ℕ → Text → GpuRequirements → Search → OfferCache × Result (List Offer)
get_offers price c now provider_name req s =
    let key = cache_key price provider_name req in
    elim (lookup key c.entries) [
      | some entry ↦ if is_fresh c now entry then (c, ok entry.offers) else search_and_store c key s
      | none ↦ search_and_store c key s
    ]

unfoldable pub invalidate : OfferCache → Text → OfferCache
invalidate c provider_name = record c {
  entries = delete_if (λ key entry. has_prefix key (provider_name ++ txt ":")) c.entries;
}
