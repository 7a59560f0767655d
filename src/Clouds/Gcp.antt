-- ===== src/Clouds/Gcp.antt =====
-- pkg/provider/gcp/provider.go. A text is valid UTF-8, of which only the ASCII part has upper and lower
-- case. `New` gives a provider at least one zone.
pub mod Machines
pub mod Names
pub mod Buying
pub mod Offers
use gpuscale.Clouds.Gcp.Machines.{
  MachineSpec, catalog, Accelerator, Scheduling, CreateInstanceReq, GcpInstance, World,
}
use gpuscale.Prelude.{
  ℕ, ◌*◌, Bool, true, false, not, ◌&&◌, ◌||◌, ltb, ◌==◌, if◌then◌else◌, List, [], ◌∷◌, ◌++◌, map,
  Option, none, some, Text, txt, text_eq, is_empty, contains_text,
}
use gpuscale.Provider.{
  GpuRequirements, Offer, BootstrapConfig, Instance, Error, Result, ok, err, instance_not_found,
}
use gpuscale.Clouds.Gcp.Names.{to_upper, split_offer_id, sanitize_name, gcp_label, cut_at_63}

unfoldable pub normalize_status : Text → Text
unfolding to_upper
normalize_status s =
    let u = to_upper s in
    if text_eq u (txt "RUNNING")
    then txt "running"
    else if contains_text u (txt "PROVISIONING" ∷ txt "STAGING" ∷ [])
    then txt "starting"
    else if contains_text u (txt "STOPPING" ∷ txt "STOPPED" ∷ txt "TERMINATED" ∷ [])
    then txt "stopped"
    else txt "error"

-- The first entry of the catalog with the machine type.
unfoldable pub spec_among : Text → List MachineSpec → Option MachineSpec
spec_among machine [] = none
spec_among machine (s ∷ ss) =
    let rest = spec_among machine ss in if text_eq s.machine_type machine then some s else rest

abbrev pub failure : Text → Error
failure text = record { wraps = []; message = text }

module _ (w : World) where
  module _ (req : GpuRequirements) where
    abbrev pub is_spot : Bool
    is_spot = text_eq req.capacity_type (txt "spot")

    abbrev pub total_vram : MachineSpec → ℕ
    total_vram s = s.gpu_count * s.vram_per_gpu

    abbrev pub price_of : MachineSpec → ℕ
    price_of s = (if is_spot then s.spot_price else s.on_demand_price) * w.cent

    -- The tests of the loop over the catalog; the price of one GPU is compared without division.
    unfoldable pub is_wanted : MachineSpec → Bool
    is_wanted s =
        not (not req.multi_gpu && ltb 1 s.gpu_count)
        && (not (ltb 0 req.min_vram && ltb (total_vram s) req.min_vram)
            && (not (ltb 0 req.max_vram && ltb req.max_vram s.vram_per_gpu)
                && (not (ltb 0 req.min_ram && ltb s.ram_gb req.min_ram)
                    && not (
                        ltb 0 req.max_price_per_hour
                        && (ltb 0 s.gpu_count
                            && ltb (req.max_price_per_hour * s.gpu_count) (price_of s))))))

    unfoldable pub gcp_offer : MachineSpec → Text → Offer
    gcp_offer s zone = record {
      provider_name = txt "gcp";
      offer_id = s.machine_type ++ (txt "@" ++ zone);
      gpu_type = s.gpu_type;
      gpu_count = s.gpu_count;
      vram = total_vram s;
      price_per_hour = price_of s;
      capacity_type = if is_spot then txt "spot" else txt "on-demand";
      region = zone;
      reliability = w.usual_reliability;
      disk_gb = 0;
      ram_gb = s.ram_gb;
    }

    unfoldable pub offers_among : List MachineSpec → List Offer
    unfolding is_wanted gcp_offer
    offers_among [] = []
    offers_among (s ∷ ss) =
        let rest = offers_among ss in
        if is_wanted s
        then map (λ zone. gcp_offer s zone) (w.first_zone ∷ w.other_zones) ++ rest
        else rest

    unfoldable pub search_offers : List Offer
    unfolding catalog offers_among
    search_offers = offers_among catalog

  abbrev pub zone_or_first : Text → Text
  zone_or_first [] = w.first_zone
  zone_or_first (c ∷ zone) = c ∷ zone

  abbrev disk_size : ℕ → ℕ
  disk_size n = if ltb 0 n then n else 100

  abbrev pub schedule : Text → Scheduling
  schedule capacity =
      if text_eq capacity (txt "spot")
      then record {
        provisioning_model = txt "SPOT";
        on_host_maintenance = txt "TERMINATE";
        automatic_restart = false;
      }
      else record {
        provisioning_model = txt "STANDARD";
        on_host_maintenance = txt "MIGRATE";
        automatic_restart = true;
      }

  abbrev pub accelerators : Text → MachineSpec → List Accelerator
  accelerators zone s =
      if is_empty s.accelerator_type
      then []
      else record {
        accelerator_type =
            txt "zones/" ++ (zone ++ (txt "/acceleratorTypes/" ++ s.accelerator_type));
        accelerator_count = s.accelerator_count;
      }
        ∷ []

  unfoldable pub create_request :
      Text → Text → MachineSpec → Offer → BootstrapConfig → CreateInstanceReq
  unfolding sanitize_name gcp_label
  create_request machine zone s o c = record {
    name = cut_at_63 (sanitize_name (txt "gpuscale-" ++ c.instance_id));
    machine_type = txt "zones/" ++ (zone ++ (txt "/machineTypes/" ++ machine));
    disk_size_gb = w.printed (disk_size c.min_disk);
    scheduling = schedule o.capacity_type;
    model_label = gcp_label c.model_id;
    startup_script = c.on_start_script;
    guest_accelerators = accelerators zone s;
  }

  abbrev pub request_with :
      Text
      → Text
      → Offer
      → BootstrapConfig
      → Option MachineSpec
      → Result (MachineSpec × (Text × CreateInstanceReq))
  request_with machine zone o c none = err (failure (txt "unknown GCP machine type: " ++ machine))
  request_with machine zone o c (some s) = ok (s, (zone, create_request machine zone s o c))

  abbrev pub request_at :
      Offer → BootstrapConfig → Text × Text → Result (MachineSpec × (Text × CreateInstanceReq))
  request_at o c (machine, zone) =
      request_with machine (zone_or_first zone) o c (spec_among machine catalog)

  -- What `CreateInstance` does before the call: the zone and the request.
  unfoldable pub prepare :
      Offer → BootstrapConfig → Result (MachineSpec × (Text × CreateInstanceReq))
  unfolding split_offer_id spec_among catalog create_request
  prepare o c =
      if is_empty c.on_start_script
      then err (failure (txt "gcp provider requires OnStartScript (full-node bootstrap)"))
      else request_at o c (split_offer_id o.offer_id)

  abbrev pub created : MachineSpec → Text → Text → Option Error → Result Instance
  created s zone name (some e) = err e
  created s zone name none = ok (record {
    provider_name = txt "gcp";
    instance_id = name ++ (txt "@" ++ zone);
    ip = [];
    endpoint = [];
    status = txt "starting";
    status_msg = [];
    gpu_type = s.gpu_type;
  })

  abbrev pub submit : Result (MachineSpec × (Text × CreateInstanceReq)) → Result Instance
  submit (err e) = err e
  submit (ok (s, (zone, q))) = created s zone q.name (w.create_instance zone q)

  unfoldable pub create_instance : Offer → BootstrapConfig → Result Instance
  unfolding prepare
  create_instance o c = submit (prepare o c)

  abbrev pub delete_at : Text × Text → Option Error
  delete_at (name, zone) = w.delete_instance (zone_or_first zone) name

  unfoldable pub destroy_instance : Text → Option Error
  unfolding split_offer_id
  destroy_instance id = delete_at (split_offer_id id)

  abbrev ip_of : Option Text → Text
  ip_of none = []
  ip_of (some ip) = ip

  abbrev pub described : Text → GcpInstance → Instance
  described id i = record {
    provider_name = txt "gcp";
    instance_id = id;
    ip = ip_of i.nat_ip;
    endpoint = [];
    status = normalize_status i.status;
    status_msg = [];
    gpu_type = [];
  }

  abbrev pub found_as : Text → Result (Option GcpInstance) → Result Instance
  found_as id (err e) = err e
  found_as id (ok none) =
      err (record { wraps = instance_not_found ∷ []; message = txt "instance not found" })
  found_as id (ok (some i)) = ok (described id i)

  abbrev pub get_at : Text → Text × Text → Result Instance
  get_at id (name, zone) = found_as id (w.get_instance (zone_or_first zone) name)

  unfoldable pub get_instance : Text → Result Instance
  unfolding split_offer_id normalize_status
  get_instance id = get_at id (split_offer_id id)

  -- A zone that cannot be listed is passed over.
  abbrev pub listed_in : Text → Result (List GcpInstance) → List Instance
  listed_in zone (err e) = []
  listed_in zone (ok is) = map (λ i. described (i.name ++ (txt "@" ++ zone)) i) is

  unfoldable pub listed_over : List Text → List Instance
  unfolding normalize_status
  listed_over [] = []
  listed_over (zone ∷ zones) = listed_in zone (w.list_instances zone) ++ listed_over zones

  unfoldable pub list_instances : Result (List Instance)
  unfolding listed_over
  list_instances = ok (listed_over (w.first_zone ∷ w.other_zones))
