-- ===== src/Clouds/Examples/Ec2.antt =====
-- pkg/provider/aws/provider.go: a search at a small input.
use gpuscale.Prelude.{refl, inl, [], ◌∷◌, none, txt, text_eq, lookup, insert}
use gpuscale.Provider.{GpuRequirements, Offer, ok}
use gpuscale.Clouds.Aws.{
  search_offers, get_spot_prices, offers_among, is_wanted, aws_offer, price_of,
}
use gpuscale.Clouds.Aws.Requests.{World, SpotPriceCache}
use gpuscale.Clouds.Aws.Catalog.{InstanceSpec, catalog}
use gpuscale.Clouds.Aws.Prices.{lowest_prices}
use gpuscale.Clouds.Aws.Market.{IsBought, search_offers-IsBought}
use gpuscale.Clouds.Examples.{one_gpu, config}

abbrev aws : World
aws = record {
  region = txt "r";
  subnet_id = [];
  security_group_id = [];
  now = 0;
  filled_at = 1;
  describe_spot_prices = λ types. ok ((txt "g5.xlarge", 4100) ∷ (txt "g5.xlarge", 3900) ∷ []);
  get_latest_ubuntu_ami = ok (txt "ami");
  run_instances = λ q. ok [];
  terminate_instance = λ id. none;
  get_instance = λ id. ok none;
  list_instances = ok [];
  base64 = λ t. t;
  printed = λ n. [];
  unit = 1;
  usual_reliability = 90;
}

abbrev cold : SpotPriceCache
cold = record { prices = none; expiry = 0 }

abbrev spot_gpu : GpuRequirements
spot_gpu = record one_gpu { min_vram = 20; capacity_type = txt "spot" }

abbrev a10g : Offer
a10g = record {
  provider_name = txt "aws";
  offer_id = txt "g5.xlarge";
  gpu_type = txt "NVIDIA A10G";
  gpu_count = 1;
  vram = 24;
  price_per_hour = 3900;
  capacity_type = txt "spot";
  region = txt "r";
  reliability = 90;
  disk_gb = 0;
  ram_gb = 16;
}

search_offers-IsBought_example :
    (s : InstanceSpec) × IsBought aws
      (record spot_gpu { max_price_per_hour = 0 })
      config
      (txt "ami")
      ((txt "g5.xlarge", 4100) ∷ (txt "g5.xlarge", 3900) ∷ [])
      s
      a10g
unfolding search_offers get_spot_prices offers_among is_wanted aws_offer price_of catalog
    lowest_prices text_eq lookup insert
search_offers-IsBought_example =
    search_offers-IsBought aws (record spot_gpu { max_price_per_hour = 0 }) config (txt "ami")
      ((txt "g5.xlarge", 4100) ∷ (txt "g5.xlarge", 3900) ∷ []) cold a10g refl refl (inl refl)
