-- ===== src/Clouds/Aws.antt =====
-- pkg/provider/aws/provider.go, with `RunInstances` of client.go. Base64 and the printing of numbers are
-- parameters. The mutex of the cache makes each use of it one step.
pub mod Requests
pub mod Catalog
pub mod Prices
pub mod Market
use gpuscale.Clouds.Aws.Requests.{SpotPriceCache, RunRequest, Ec2Instance, World}
use gpuscale.Prelude.{
  ℕ, ◌+◌, ◌*◌, Bool, not, ◌&&◌, ◌||◌, ltb, if◌then◌else◌, List, [], ◌∷◌, ◌++◌, map, Option, none,
  some, Text, txt, text_eq, is_empty, contains_text, to_lower, lookup,
}
use gpuscale.Provider.{
  GpuRequirements, Offer, BootstrapConfig, Instance, Error, Result, ok, err, instance_not_found,
}
use gpuscale.Clouds.Aws.Catalog.{InstanceSpec, catalog}
use gpuscale.Clouds.Aws.Prices.{lowest_prices}

unfoldable pub normalize_status : Text → Text
normalize_status s =
    let l = to_lower s in
    if text_eq l (txt "running")
    then txt "running"
    else if text_eq l (txt "pending")
    then txt "starting"
    else if contains_text l
        (txt "stopping" ∷ txt "stopped" ∷ txt "terminated" ∷ txt "shutting-down" ∷ [])
    then txt "stopped"
    else txt "error"

abbrev failure : Text → Error
failure text = record { wraps = []; message = text }

-- `5 * time.Minute`
abbrev pub lifetime : ℕ
lifetime = 300000000000

module _ (w : World) where
  abbrev or_empty : Option (List (Text × ℕ)) → List (Text × ℕ)
  or_empty none = []
  or_empty (some prices) = prices

  -- Where the prices cannot be fetched, the old ones stay.
  abbrev pub kept_or_filled :
      SpotPriceCache → Result (List (Text × ℕ)) → SpotPriceCache × List (Text × ℕ)
  kept_or_filled cache (err e) = (cache, or_empty cache.prices)
  kept_or_filled cache (ok items) =
      let lowest = lowest_prices items [] in
      (record { prices = some lowest; expiry = w.filled_at + lifetime }, lowest)

  abbrev pub refreshed : SpotPriceCache → SpotPriceCache × List (Text × ℕ)
  refreshed cache =
      kept_or_filled cache (w.describe_spot_prices (map (λ s. s.instance_type) catalog))

  abbrev pub cached_or_fetched :
      SpotPriceCache → Option (List (Text × ℕ)) → SpotPriceCache × List (Text × ℕ)
  cached_or_fetched cache none = refreshed cache
  cached_or_fetched cache (some prices) =
      if ltb w.now cache.expiry then (cache, prices) else refreshed cache

  unfoldable pub get_spot_prices : SpotPriceCache → SpotPriceCache × List (Text × ℕ)
  unfolding catalog lowest_prices
  get_spot_prices cache = cached_or_fetched cache cache.prices

  module _ (req : GpuRequirements) (spot_prices : List (Text × ℕ)) where
    abbrev pub is_spot : Bool
    is_spot = text_eq req.capacity_type (txt "spot")

    abbrev pub on_demand_price : InstanceSpec → ℕ
    on_demand_price s = s.on_demand_mills * 10 * w.unit

    -- The price times 0.30.
    abbrev pub fallback_price : InstanceSpec → ℕ
    fallback_price s = s.on_demand_mills * 3 * w.unit

    abbrev pub positive_or : ℕ → Option ℕ → ℕ
    positive_or fallback none = fallback
    positive_or fallback (some price) = if ltb 0 price then price else fallback

    unfoldable pub price_of : InstanceSpec → ℕ
    price_of s =
        if is_spot
        then positive_or (fallback_price s) (lookup s.instance_type spot_prices)
        else on_demand_price s

    unfoldable pub is_wanted : InstanceSpec → Bool
    unfolding price_of
    is_wanted s =
        not (not req.multi_gpu && ltb 1 s.gpu_count)
        && (not (ltb 0 req.min_vram && ltb (s.gpu_count * s.vram_per_gpu) req.min_vram)
            && (not (ltb 0 req.max_vram && ltb req.max_vram s.vram_per_gpu)
                && (not (ltb 0 req.min_ram && ltb s.ram_gb req.min_ram)
                    && not (
                        ltb 0 req.max_price_per_hour
                        && (ltb 0 s.gpu_count
                            && ltb (req.max_price_per_hour * s.gpu_count) (price_of s))))))

    unfoldable pub aws_offer : InstanceSpec → Offer
    unfolding price_of
    aws_offer s = record {
      provider_name = txt "aws";
      offer_id = s.instance_type;
      gpu_type = s.gpu_type;
      gpu_count = s.gpu_count;
      vram = s.gpu_count * s.vram_per_gpu;
      price_per_hour = price_of s;
      capacity_type = if is_spot then txt "spot" else txt "on-demand";
      region = w.region;
      reliability = w.usual_reliability;
      disk_gb = 0;
      ram_gb = s.ram_gb;
    }

    unfoldable pub offers_among : List InstanceSpec → List Offer
    unfolding is_wanted aws_offer
    offers_among [] = []
    offers_among (s ∷ ss) =
        let rest = offers_among ss in if is_wanted s then aws_offer s ∷ rest else rest

  -- The prices are fetched whatever capacity is asked for.
  unfoldable pub search_offers : GpuRequirements → SpotPriceCache → SpotPriceCache × List Offer
  unfolding get_spot_prices offers_among catalog
  search_offers req cache =
      let (after, prices) = get_spot_prices cache in (after, offers_among req prices catalog)

  abbrev unless_empty : Text → Option Text
  unless_empty [] = none
  unless_empty (c ∷ t) = some (c ∷ t)

  abbrev disk_size : ℕ → ℕ
  disk_size n = if ltb 0 n then n else 100

  unfoldable pub run_request : Offer → BootstrapConfig → Text → RunRequest
  run_request o c ami = record {
    image_id = ami;
    instance_type = o.offer_id;
    user_data = w.base64 c.on_start_script;
    market_type = txt "spot";
    name_tag = txt "gpuscale-" ++ c.instance_id;
    volume_size = w.printed (disk_size c.min_disk);
    subnet_id = unless_empty w.subnet_id;
    security_group_id = unless_empty w.security_group_id;
  }

  abbrev first_id : Result (List Text) → Result Text
  first_id (err e) = err e
  first_id (ok []) = err (failure (txt "RunInstances returned no instances"))
  first_id (ok (id ∷ ids)) = ok id

  -- The GPU of the first entry of the catalog with the type, or else the offer's.
  unfoldable pub gpu_type_among : Text → Text → List InstanceSpec → Text
  gpu_type_among offered type_name [] = offered
  gpu_type_among offered type_name (s ∷ ss) =
      let rest = gpu_type_among offered type_name ss in
      if text_eq s.instance_type type_name then s.gpu_type else rest

  abbrev created_as : Offer → Result Text → Result Instance
  created_as o (err e) = err e
  created_as o (ok id) = ok (record {
    provider_name = txt "aws";
    instance_id = id;
    ip = [];
    endpoint = [];
    status = txt "starting";
    status_msg = [];
    gpu_type = gpu_type_among o.gpu_type o.offer_id catalog;
  })

  abbrev with_ami : Offer → BootstrapConfig → Result Text → Result Instance
  with_ami o c (err e) = err (record e { message = txt "getting Ubuntu AMI: " ++ e.message })
  with_ami o c (ok ami) = created_as o (first_id (w.run_instances (run_request o c ami)))

  unfoldable pub create_instance : Offer → BootstrapConfig → Result Instance
  unfolding run_request gpu_type_among catalog
  create_instance o c =
      if is_empty c.on_start_script
      then err (failure (txt "aws provider requires OnStartScript (full-node bootstrap)"))
      else with_ami o c w.get_latest_ubuntu_ami

  unfoldable pub destroy_instance : Text → Option Error
  destroy_instance id = w.terminate_instance id

  abbrev missing : Error
  missing = record { wraps = instance_not_found ∷ []; message = txt "instance not found" }

  abbrev described : Text → Ec2Instance → Instance
  described id i = record {
    provider_name = txt "aws";
    instance_id = id;
    ip = i.public_ip_address;
    endpoint = [];
    status = normalize_status i.state_name;
    status_msg = [];
    gpu_type = [];
  }

  abbrev is_over : Ec2Instance → Bool
  is_over i =
      let s = to_lower i.state_name in
      text_eq s (txt "terminated") || text_eq s (txt "shutting-down")

  abbrev found_as : Text → Result (Option Ec2Instance) → Result Instance
  found_as id (err e) = err e
  found_as id (ok none) = err missing
  found_as id (ok (some i)) = if is_over i then err missing else ok (described id i)

  unfoldable pub get_instance : Text → Result Instance
  unfolding normalize_status
  get_instance id = found_as id (w.get_instance id)

  abbrev listed_as : Result (List Ec2Instance) → Result (List Instance)
  listed_as (err e) = err e
  listed_as (ok is) = ok (map (λ i. described i.instance_id i) is)

  unfoldable pub list_instances : Result (List Instance)
  unfolding normalize_status
  list_instances = listed_as w.list_instances
