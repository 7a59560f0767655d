-- ===== src/Clouds/Runpod.antt =====
-- pkg/provider/runpod/provider.go. How `%q` quotes a text and `%d` prints a port is a parameter.
pub mod Pods
pub mod Pricing
pub mod Client
pub mod Gone
use gpuscale.Bootstrap.Env.{merge_env}
use gpuscale.Clouds.Runpod.Pods.{GpuType, CreatePodRequest, Port, Runtime, PodResponse, World}
use gpuscale.Prelude.{
  ℕ, ◌*◌, Bool, false, not, ◌&&◌, ◌||◌, ltb, ◌==◌, if◌then◌else◌, List, [], ◌∷◌, ◌++◌, map, Option,
  none, some, Text, txt, text_eq, is_empty, contains_text, contains, to_lower, any,
}
use gpuscale.Provider.{
  GpuRequirements, Offer, BootstrapConfig, Instance, Error, Result, ok, err, instance_not_found,
}

unfoldable pub normalize_status : Text → Text
normalize_status s =
    let l = to_lower s in
    if text_eq l (txt "running")
    then txt "running"
    else if contains_text l (txt "created" ∷ txt "starting" ∷ txt "restarting" ∷ [])
    then txt "starting"
    else if contains_text l (txt "exited" ∷ txt "stopped" ∷ txt "terminated" ∷ [])
    then txt "stopped"
    else txt "error"

unfoldable pub matches_gpu_type : Text → List Text → Bool
matches_gpu_type gpu_type wanted =
    let gpu_lower = to_lower gpu_type in
    any (λ w. text_eq (to_lower w) gpu_lower || contains gpu_lower (to_lower w)) wanted

abbrev pub wrap_error : Text → Error → Error
wrap_error text e = record e { message = text ++ e.message }

module _ (w : World) where
  module _ (req : GpuRequirements) where
    abbrev pub is_unwanted : Text → List Text → Bool
    is_unwanted gpu_type [] = false
    is_unwanted gpu_type (t ∷ ts) = not (matches_gpu_type gpu_type (t ∷ ts))

    unfoldable pub count_for : ℕ
    count_for = if ltb 0 req.gpu_count then req.gpu_count else 1

    -- The price of one GPU, and the capacity type.
    unfoldable pub price_of : GpuType → ℕ × Text
    price_of t =
        if text_eq req.capacity_type (txt "spot")
        then (if ltb 0 t.community_spot_price
            then (t.community_spot_price, txt "spot")
            else if ltb 0 t.secure_spot_price
            then (t.secure_spot_price, txt "spot")
            else (t.community_price, txt "on-demand"))
        else (if ltb 0 t.community_price
            then (t.community_price, txt "on-demand")
            else (t.secure_price, txt "on-demand"))

    unfoldable pub runpod_offer : GpuType → ℕ → Text → Offer
    unfolding count_for
    runpod_offer t price capacity = record {
      provider_name = txt "runpod";
      offer_id = t.id;
      gpu_type = t.display_name;
      gpu_count = count_for;
      vram = t.memory_in_gb * count_for;
      price_per_hour = price;
      capacity_type = capacity;
      region = [];
      reliability = w.nine_tenths;
      disk_gb = 50;
      ram_gb = 0;
    }

    abbrev pub priced : GpuType → ℕ → Text → Option Offer
    priced t price capacity =
        if price == 0
        then none
        else if ltb 0 req.max_price_per_hour && ltb req.max_price_per_hour price
        then none
        else some (runpod_offer t price capacity)

    -- The body of the loop of `SearchOffers`.
    unfoldable pub offer_of : GpuType → Option Offer
    unfolding matches_gpu_type count_for price_of runpod_offer
    offer_of t =
        if is_unwanted t.display_name req.gpu_types
        then none
        else if not req.multi_gpu && ltb 1 req.gpu_count
        then none
        else if ltb 0 req.min_vram && ltb (t.memory_in_gb * count_for) req.min_vram
        then none
        else (let (price, capacity) = price_of t in priced t (price * count_for) capacity)

    abbrev with_offer : Option Offer → List Offer → List Offer
    with_offer none rest = rest
    with_offer (some o) rest = o ∷ rest

    unfoldable pub offers_of : List GpuType → List Offer
    unfolding offer_of
    offers_of [] = []
    offers_of (t ∷ ts) = with_offer (offer_of t) (offers_of ts)

    abbrev pub with_types : Result (List GpuType) → Result (List Offer)
    with_types (err e) = err (wrap_error (txt "listing runpod GPU types: ") e)
    with_types (ok ts) = ok (offers_of ts)

    unfoldable pub search_offers : Result (List Offer)
    unfolding offers_of
    search_offers = with_types w.list_gpu_types

  abbrev image_of : Text → Text
  image_of [] = txt "vllm/vllm-openai:latest"
  image_of (c ∷ t) = c ∷ t

  unfoldable pub create_request : Offer → BootstrapConfig → CreatePodRequest
  unfolding merge_env
  create_request o c = record {
    name = txt "gpuscale-" ++ c.instance_id;
    image_name = image_of c.image;
    gpu_type_id = o.offer_id;
    gpu_count = o.gpu_count;
    cloud_type =
        if text_eq o.capacity_type (txt "on-demand") then txt "SECURE" else txt "COMMUNITY";
    env = merge_env c.extra_env c.on_start_env;
    docker_args = txt "bash -c " ++ w.quoted c.on_start_script;
  }

  abbrev created_as : Offer → Result PodResponse → Result Instance
  created_as o (err e) = err (wrap_error (txt "creating runpod pod: ") e)
  created_as o (ok pod) = ok (record {
    provider_name = txt "runpod";
    instance_id = pod.id;
    ip = [];
    endpoint = [];
    status = normalize_status pod.desired_status;
    status_msg = [];
    gpu_type = o.gpu_type;
  })

  unfoldable pub create_instance : Offer → BootstrapConfig → Result Instance
  unfolding create_request normalize_status
  create_instance o c =
      if is_empty c.on_start_script
      then err
          (record { wraps = []; message = txt "OnStartScript is required for standalone nodes" })
      else created_as o (w.create_pod (create_request o c))

  unfoldable pub destroy_instance : Text → Option Error
  destroy_instance id = w.delete_pod id

  abbrev first_gpu : List Text → Text → Text
  first_gpu [] name = name
  first_gpu (g ∷ gs) [] = g
  first_gpu (g ∷ gs) (c ∷ name) = c ∷ name

  abbrev gpu_type_of : Text → Option Runtime → Text
  gpu_type_of name none = name
  gpu_type_of name (some r) = first_gpu r.gpus name

  -- The loop over the ports, with the address and the endpoint found so far.
  unfoldable pub addresses : List Port → Text × Text → Text × Text
  addresses [] found = found
  addresses (p ∷ ps) (ip, endpoint) = addresses ps (
    (if p.private_port == 22 && is_empty ip then p.ip else ip),
    (if p.private_port == 8000 && not (is_empty p.ip)
        then txt "http://" ++ (p.ip ++ (txt ":" ++ w.printed p.public_port))
        else endpoint),
  )

  abbrev addresses_of : Option Runtime → Text × Text
  addresses_of none = ([], [])
  addresses_of (some r) = addresses r.ports ([], [])

  abbrev pod_at : PodResponse → Text × Text → Instance
  pod_at pod (ip, endpoint) = record {
    provider_name = txt "runpod";
    instance_id = pod.id;
    ip = ip;
    endpoint = endpoint;
    status = normalize_status pod.desired_status;
    status_msg = [];
    gpu_type = gpu_type_of pod.gpu_display_name pod.runtime;
  }

  abbrev pub found_as : Result (Option PodResponse) → Result Instance
  found_as (err e) = err e
  found_as (ok none) =
      err (record { wraps = instance_not_found ∷ []; message = txt "instance not found" })
  found_as (ok (some pod)) = ok (pod_at pod (addresses_of pod.runtime))

  unfoldable pub get_instance : Text → Result Instance
  unfolding addresses normalize_status
  get_instance id = found_as (w.get_pod id)

  abbrev listed : PodResponse → Instance
  listed pod = record {
    provider_name = txt "runpod";
    instance_id = pod.id;
    ip = [];
    endpoint = [];
    status = normalize_status pod.desired_status;
    status_msg = [];
    gpu_type = pod.gpu_display_name;
  }

  abbrev listed_as : Result (List PodResponse) → Result (List Instance)
  listed_as (err e) = err e
  listed_as (ok pods) = ok (map listed pods)

  unfoldable pub list_instances : Result (List Instance)
  unfolding normalize_status
  list_instances = listed_as w.list_pods
