-- ===== src/Selector.antt =====
-- pkg/provider/selector.go: the best offers of all providers. The providers are asked one after the
-- other where the source asks them at once, and each answers once; the logger is left out.
pub mod Cheapest
mod Examples
use gpuscale.Prelude.{
  ℕ, ◌+◌, Bool, false, not, ◌&&◌, ◌||◌, ltb, ◌==◌, if◌then◌else◌, List, [], ◌∷◌, ◌++◌, Text, txt,
  text_eq, is_empty, contains_text, contains, to_lower, any, keep, take, length,
}
use gpuscale.Provider.{GpuRequirements, Offer, Error, Result, ok, err, no_offers_available}
use gpuscale.Coordinator.Ranking.{sort}

-- `matchesAnyGPUType` of the selector.
unfoldable pub matches_wanted : Text → List Text → Bool
unfolding to_lower contains
matches_wanted gpu_type wanted =
    let gpu_lower = to_lower gpu_type in
    any (λ w. let w_lower = to_lower w in text_eq gpu_lower w_lower || contains gpu_lower w_lower)
      wanted

-- A bound of zero is none.
abbrev pub is_short : ℕ → ℕ → Bool
is_short bound value = ltb 0 bound && ltb value bound

-- A size of zero is unknown.
abbrev pub is_known_short : ℕ → ℕ → Bool
is_known_short bound value = ltb 0 bound && (ltb 0 value && ltb value bound)

abbrev pub is_unwanted : Text → List Text → Bool
is_unwanted gpu_type [] = false
is_unwanted gpu_type (t ∷ ts) = not (matches_wanted gpu_type (t ∷ ts))

-- The tests of the selector's `filterByRequirements`, none of which drops the offer.
unfoldable pub suits : GpuRequirements → Offer → Bool
unfolding matches_wanted
suits req o =
    not (is_short req.gpu_count o.gpu_count)
    && (not (is_short req.min_vram o.vram)
        && (not (ltb 0 req.max_price_per_hour && ltb req.max_price_per_hour o.price_per_hour)
            && (not (not req.multi_gpu && ltb 1 o.gpu_count)
                && (not (
                      not (is_empty req.capacity_type)
                      && not (text_eq o.capacity_type req.capacity_type))
                    && (not (is_unwanted o.gpu_type req.gpu_types)
                        && (not (is_known_short req.min_disk o.disk_gb)
                            && not (is_known_short req.min_ram o.ram_gb)))))))

unfoldable pub cheaper : Offer → Offer → Bool
cheaper a b =
    if not (a.price_per_hour == b.price_per_hour)
    then ltb a.price_per_hour b.price_per_hour
    else ltb b.reliability a.reliability

abbrev or_all : List Text → List Text → List Text
or_all [] providers = providers
or_all (p ∷ ps) providers = p ∷ ps

-- The providers that are asked: the preferred ones, or all if none of those is registered.
unfoldable pub chosen_providers : List Text → List Text → List Text
chosen_providers registry [] = registry
chosen_providers registry (n ∷ names) =
    or_all (keep (λ p. contains_text p (n ∷ names)) registry) registry

module _ (search : Text → Result (List Offer)) where
  abbrev found_by : Result (List Offer) → List Offer
  found_by (ok offers) = offers
  found_by (err e) = []

  unfoldable pub search_all : List Text → List Offer
  search_all [] = []
  search_all (p ∷ ps) = found_by (search p) ++ search_all ps

  abbrev pub no_offers : Error
  no_offers = record {
    wraps = no_offers_available ∷ [];
    message = txt "no offers matching requirements are available";
  }

  abbrev pub cut : ℕ → List Offer → List Offer
  cut limit offers = if ltb 0 limit && ltb limit (length offers) then take limit offers else offers

  abbrev pub top_of : ℕ → List Offer → Result (List Offer)
  top_of limit [] = err no_offers
  top_of limit (o ∷ os) = ok (cut limit (sort cheaper (o ∷ os)))

  unfoldable pub select_top_offers :
      List Text → GpuRequirements → List Text → ℕ → Result (List Offer)
  unfolding search_all suits
  select_top_offers [] req preferred limit =
      err (record { wraps = []; message = txt "no providers registered" })
  select_top_offers (p ∷ ps) req preferred limit =
      top_of limit (keep (suits req) (search_all (chosen_providers (p ∷ ps) preferred)))

  abbrev pub best_of : Result (List Offer) → Result Offer
  best_of (err e) = err e
  best_of (ok []) = err no_offers
  best_of (ok (o ∷ os)) = ok o

  unfoldable pub select_best_offer : List Text → GpuRequirements → List Text → Result Offer
  unfolding select_top_offers
  select_best_offer registry req preferred = best_of (select_top_offers registry req preferred 1)
