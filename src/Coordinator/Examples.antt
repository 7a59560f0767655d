-- ===== src/Coordinator/Examples.antt =====
-- internal/coordinator: the coordinator's theorems at concrete inputs.
use mathlib.Core.List.{Perm}
use gpuscale.Prelude.{
  ℕ, ◌≡◌, refl, inl, inr, true, false, if◌then◌else◌, List, [], ◌∷◌, none, some, Text, txt, In,
  lookup, delete_if, arith, contains_text, text_eq,
}
use gpuscale.Provider.{
  is_error, GpuRequirements, Offer, Error, offer_expired, ok, err, Instance, BootstrapConfig,
}
use gpuscale.Coordinator.Filter.{
  filter_by_requirements, filter_by_requirements_iff, admits, is_preferred_gpu,
}
use gpuscale.Coordinator.Errors.{classify_error}
use gpuscale.Coordinator.Blacklist.{
  OfferBlacklist, new_offer_blacklist, blacklist_key, add, is_blocked, filter,
}
use gpuscale.Coordinator.Blacklist.Expiry.{filter-add}
use gpuscale.Coordinator.Cache.{OfferCache, Search, new_offer_cache, cache_key, get_offers}
use gpuscale.Coordinator.Cache.Hits.{get_offers_shared, Misses}
use gpuscale.Coordinator.Ranking.{rank, less}
use gpuscale.Coordinator.Ranking.Sorted.{BestFirst, rank_lem}
use gpuscale.Coordinator.Provision.{
  provision_instance, rounds, candidates, gather_offers, resolve_providers, try_offers,
}
use gpuscale.Coordinator.Provision.State.{World, Coordinator, new_coordinator, provisioned}
use gpuscale.Coordinator.Provision.Soundness.{Explained, provision_instance-Explained}
use gpuscale.Coordinator.Provision.Soundness.Log.{Accounted}

abbrev request : GpuRequirements
request = record {
  gpu_count = 1;
  min_vram = 24;
  max_vram = 0;
  gpu_types = [];
  max_price_per_hour = 900;
  capacity_type = [];
  min_disk = 0;
  min_ram = 0;
  node_type = [];
  min_pcie_gen = 0;
  multi_gpu = false;
}

abbrev offer_named : Text → ℕ → Offer
offer_named id price = record {
  provider_name = txt "aws";
  offer_id = id;
  gpu_type = txt "L4";
  gpu_count = 1;
  vram = 24;
  price_per_hour = price;
  capacity_type = txt "spot";
  region = txt "eu";
  reliability = 99;
  disk_gb = 0;
  ram_gb = 0;
}

abbrev cheap : Offer
cheap = offer_named (txt "a") 300

abbrev dear : Offer
dear = offer_named (txt "b") 800

abbrev offers : List Offer
offers = dear ∷ cheap ∷ []

filter_by_requirements_example : In cheap (filter_by_requirements offers request)
filter_by_requirements_example = (filter_by_requirements_iff offers request cheap).1 (
  inr (inl refl),
  record {
    enough_gpus = omega arith;
    enough_vram = omega arith;
    vram_capped = λ h k. omega arith;
    price_capped = λ h. omega arith;
    capacity = inl refl;
    single_gpu = λ h. omega arith;
    enough_disk = λ h. omega arith;
    enough_ram = λ h. omega arith;
  },
)

rank_example : Perm (rank request offers) offers × BestFirst request (rank request offers)
rank_example = rank_lem request offers

abbrev refusal : Error
refusal = record { wraps = []; message = txt "403 Unauthorized" }

abbrev gone : Error
gone = record { wraps = offer_expired ∷ []; message = txt "gone" }

abbrev barred : OfferBlacklist
barred = record { entries = (txt "aws:b", 160) ∷ []; ttl = 60 }

filter-add_example : In cheap (filter (add barred 100 (txt "aws") (txt "a")) 160 offers).1
unfolding text_eq blacklist_key
filter-add_example =
    (filter-add barred 100 160 (txt "aws") (txt "a") offers cheap (tt, tt)).1 (inr (inl refl), refl)

abbrev price : ℕ → Text
price n = txt "9.00"

abbrev empty_cache : OfferCache
empty_cache = record { entries = []; ttl = 7 }

abbrev limit : Error
limit = record { wraps = []; message = txt "context canceled" }

abbrev limited : Search
limited = record { waited = some limit; found = ok []; done_at = 101 }

abbrev successful : Search
successful = record { waited = none; found = ok offers; done_at = 101 }

empty_Misses : Misses price empty_cache 100 (cache_key price (txt "aws") request)
unfolding lookup
empty_Misses e h = absurd (cc h)

abbrev searched : OfferCache
searched = (get_offers price empty_cache 100 (txt "aws") request successful).0

get_offers_shared_example :
    (get_offers price searched 105
      (txt "aws")
      (record request { max_vram = 16; min_pcie_gen = 4; node_type = txt "vm"; multi_gpu = true })
      limited).1
    ≡ ok offers
get_offers_shared_example =
    get_offers_shared price empty_cache 100 105 (txt "aws") request 16 4 (txt "vm") true successful
      limited offers empty_Misses refl refl (omega arith)

abbrev config : BootstrapConfig
config = record {
  node_type = [];
  image = txt "agent";
  gpu_api_url = [];
  gpu_api_token = [];
  models = [];
  model_sources = [];
  gpu_count = 1;
  model_cache_url = [];
  model_id = [];
  instance_id = txt "claim";
  gpu_type = [];
  provider_name = [];
  min_disk = 0;
  on_start_script = [];
  on_start_env = [];
  extra_env = [];
}

abbrev bought : Instance
bought = record {
  provider_name = txt "aws";
  instance_id = txt "i-1";
  ip = [];
  endpoint = [];
  status = txt "running";
  status_msg = [];
  gpu_type = txt "L4";
}

-- Each search finds the two offers, and the second create call succeeds.
abbrev market : World
market = record {
  price_text = price;
  script = λ c. [];
  clock = λ n. n;
  ctx_err = λ n. none;
  wait_fails = λ n p. false;
  search = λ n p r. successful;
  create = λ n o c. if text_eq o.offer_id (txt "a") then err gone else ok bought;
}

abbrev coordinator : Coordinator
coordinator =
    new_coordinator (txt "aws" ∷ [])
      (record { cache_ttl = 0; blacklist_ttl = 0; max_attempts = 0; offers_per_attempt = 0 })

provision_instance_example :
    Explained market config request [] coordinator
      (provision_instance market config request [] coordinator).1
    × Accounted market config coordinator.tried
        (provision_instance market config request [] coordinator).0.tried
        (provision_instance market config request [] coordinator).1
unfolding new_coordinator
provision_instance_example = provision_instance-Explained market config request [] coordinator

-- The cheaper offer is gone, the dearer one is bought.
bought_second :
    (provision_instance market config request [] coordinator).1
    ≡ provisioned (record { instance_created = bought; offer = dear; attempts = 1 })
unfolding new_coordinator provision_instance rounds candidates gather_offers get_offers filter rank
    try_offers classify_error resolve_providers filter_by_requirements contains_text lookup
    new_offer_cache admits is_blocked delete_if new_offer_blacklist less is_preferred_gpu text_eq
    is_error
bought_second = refl
