-- ===== src/Clouds/Examples.antt =====
-- pkg/provider: the theorems on the clouds at small inputs.
mod Volumes
mod Ec2
mod Tokens
use gpuscale.Prelude.{
  ◌≡◌, ◌≤◌, refl, inl, true, false, List, [], ◌∷◌, none, some, txt, text_eq, to_lower,
  contains_text,
}
use gpuscale.Provider.{GpuRequirements, Offer, BootstrapConfig, Instance, ok, err}
use gpuscale.Clouds.Verda.Search as Verda
use gpuscale.Clouds.Verda.Fits.{IsFound, search_offers-IsFound}
use gpuscale.Clouds.Runpod as Runpod
use gpuscale.Clouds.Runpod.Pricing.{search_offers-IsPod}
use gpuscale.Clouds.Runpod.Pricing as Pricing
use gpuscale.Clouds.Gcp as Gcp
use gpuscale.Clouds.Gcp.Machines as Machines
use gpuscale.Clouds.Runpod.Pods as Pods
use gpuscale.Clouds.Gcp.Names as Names
use gpuscale.Clouds.Gcp.Buying.{Bought, create_instance-Bought}
use gpuscale.Clouds.Gcp.Offers.{IsAsked, search_offers-IsAsked}

abbrev one_gpu : GpuRequirements
one_gpu = record {
  gpu_count = 1;
  min_vram = 40;
  max_vram = 0;
  gpu_types = [];
  max_price_per_hour = 2000;
  capacity_type = txt "any";
  min_disk = 0;
  min_ram = 16;
  node_type = [];
  min_pcie_gen = 0;
  multi_gpu = false;
}

abbrev config : BootstrapConfig
config = record {
  node_type = txt "standalone";
  image = [];
  gpu_api_url = [];
  gpu_api_token = [];
  models = [];
  model_sources = [];
  gpu_count = 1;
  model_cache_url = [];
  model_id = txt "m";
  instance_id = txt "c";
  gpu_type = [];
  provider_name = txt "gcp";
  min_disk = 80;
  on_start_script = txt "go";
  on_start_env = [];
  extra_env = [];
}

abbrev a100 : Verda.InstanceType
a100 = record {
  instance_type = txt "1A100";
  model = txt "A100";
  number_of_gpus = 1;
  gpu_memory = 80;
  memory = 120;
  price_per_hour = txt "1.29";
  spot_price = [];
}

abbrev verda : Verda.World
verda = record {
  list_instance_types = ok (a100 ∷ []);
  list_locations = ok (txt "FIN-01" ∷ []);
  available = λ t spot region. ok true;
  parse_float = λ t. some 1290;
  one = 100;
}

abbrev fin_offer : Offer
fin_offer = record {
  provider_name = txt "verda";
  offer_id = txt "1A100";
  gpu_type = txt "A100";
  gpu_count = 1;
  vram = 80;
  price_per_hour = 1290;
  capacity_type = txt "on-demand";
  region = txt "FIN-01";
  reliability = 100;
  disk_gb = 0;
  ram_gb = 120;
}

verda_finds : Verda.search_offers verda one_gpu ≡ ok (fin_offer ∷ [])
unfolding Verda.search_offers Verda.eligible_types Verda.eligible_type Verda.parse_price
    Verda.region_codes Verda.distinct_codes Verda.offers_for Verda.offers_in Verda.offer_at
    Verda.choose_capacity Verda.verda_offer Verda.has_spot Verda.has_on_demand text_eq contains_text
verda_finds = refl

search_offers-IsFound_example : IsFound verda one_gpu (a100 ∷ []) (txt "FIN-01" ∷ []) fin_offer
search_offers-IsFound_example =
    search_offers-IsFound verda one_gpu (a100 ∷ []) (txt "FIN-01" ∷ []) (fin_offer ∷ []) fin_offer
      refl refl verda_finds (inl refl)

abbrev l40 : Pods.GpuType
l40 = record {
  id = txt "L40";
  display_name = txt "NVIDIA L40";
  memory_in_gb = 48;
  secure_price = 990;
  community_price = 690;
  secure_spot_price = 0;
  community_spot_price = 0;
}

abbrev runpod : Pods.World
runpod = record {
  list_gpu_types = ok (l40 ∷ []);
  create_pod = λ q. err (record { wraps = []; message = [] });
  delete_pod = λ id. none;
  get_pod = λ id. ok none;
  list_pods = ok [];
  quoted = λ t. t;
  printed = λ n. [];
  nine_tenths = 90;
}

abbrev pod_offer : Offer
pod_offer = record {
  provider_name = txt "runpod";
  offer_id = txt "L40";
  gpu_type = txt "NVIDIA L40";
  gpu_count = 1;
  vram = 48;
  price_per_hour = 690;
  capacity_type = txt "on-demand";
  region = [];
  reliability = 90;
  disk_gb = 50;
  ram_gb = 0;
}

runpod_finds : Runpod.search_offers runpod one_gpu ≡ ok (pod_offer ∷ [])
unfolding Runpod.search_offers Runpod.offers_of Runpod.offer_of Runpod.price_of Runpod.count_for
    Runpod.runpod_offer text_eq
runpod_finds = refl

search_offers-IsPod_example : Pricing.IsFound runpod one_gpu config (l40 ∷ []) pod_offer
search_offers-IsPod_example =
    search_offers-IsPod runpod one_gpu config (l40 ∷ []) (pod_offer ∷ []) pod_offer refl
      runpod_finds (inl refl)

abbrev gcp : Machines.World
gcp = record {
  first_zone = txt "z-a";
  other_zones = [];
  create_instance = λ zone q. none;
  delete_instance = λ zone name. none;
  get_instance = λ zone name. ok none;
  list_instances = λ zone. ok [];
  printed = λ n. [];
  cent = 10;
  usual_reliability = 85;
}

abbrev a2_ultra : Machines.MachineSpec
a2_ultra = record {
  machine_type = txt "a2-ultragpu-1g";
  accelerator_type = [];
  accelerator_count = 0;
  gpu_type = txt "NVIDIA A100 80GB";
  gpu_count = 1;
  vram_per_gpu = 80;
  ram_gb = 170;
  spot_price = 141;
  on_demand_price = 470;
}

abbrev wide : GpuRequirements
wide = record one_gpu { max_price_per_hour = 9000; min_vram = 80; capacity_type = txt "spot" }

abbrev gcp_a100 : Offer
gcp_a100 = record {
  provider_name = txt "gcp";
  offer_id = txt "a2-ultragpu-1g@z-a";
  gpu_type = txt "NVIDIA A100 80GB";
  gpu_count = 1;
  vram = 80;
  price_per_hour = 1410;
  capacity_type = txt "spot";
  region = txt "z-a";
  reliability = 85;
  disk_gb = 0;
  ram_gb = 170;
}

gcp_finds : (rest : List Offer) × (Gcp.search_offers gcp wide ≡ gcp_a100 ∷ rest)
unfolding Gcp.search_offers Gcp.offers_among Gcp.is_wanted Gcp.gcp_offer Machines.catalog text_eq
gcp_finds = (_, refl)

search_offers-IsAsked_example : IsAsked gcp wide config gcp_a100
unfolding Gcp.search_offers Gcp.offers_among Gcp.is_wanted Gcp.gcp_offer Machines.catalog text_eq
search_offers-IsAsked_example = search_offers-IsAsked gcp wide config gcp_a100 refl (inl refl)

abbrev bought : Instance
bought = record {
  provider_name = txt "gcp";
  instance_id = txt "gpuscale-c@z-a";
  ip = [];
  endpoint = [];
  status = txt "starting";
  status_msg = [];
  gpu_type = txt "NVIDIA A100 80GB";
}

gcp_buys : Gcp.create_instance gcp gcp_a100 config ≡ ok bought
unfolding Gcp.create_instance Gcp.prepare Gcp.create_request Gcp.spec_among Machines.catalog
    Names.split_offer_id Names.sanitize_name Names.dashed Names.gcp_label text_eq to_lower
gcp_buys = refl

create_instance-Bought_example : Bought gcp gcp_a100 config bought
create_instance-Bought_example = create_instance-Bought gcp gcp_a100 config bought gcp_buys
