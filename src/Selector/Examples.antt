-- ===== src/Selector/Examples.antt =====
-- pkg/provider/selector.go: the theorem at two providers.
use gpuscale.Prelude.{◌≡◌, refl, false, if◌then◌else◌, List, [], ◌∷◌, Text, txt, text_eq}
use gpuscale.Provider.{GpuRequirements, Offer, Result, ok}
use gpuscale.Selector.{
  suits, cheaper, chosen_providers, search_all, select_top_offers, select_best_offer,
}
use gpuscale.Selector.Cheapest.{Answers, select_best_offer-Answers}
use gpuscale.Coordinator.Ranking.{sort}

abbrev request : GpuRequirements
request = record {
  gpu_count = 1;
  min_vram = 24;
  max_vram = 0;
  gpu_types = [];
  max_price_per_hour = 900;
  capacity_type = [];
  min_disk = 0;
  min_ram = 0;
  node_type = [];
  min_pcie_gen = 0;
  multi_gpu = false;
}

abbrev offer_at : Text → Offer
offer_at p = record {
  provider_name = p;
  offer_id = txt "o";
  gpu_type = txt "L4";
  gpu_count = 1;
  vram = 24;
  price_per_hour = if text_eq p (txt "aws") then 800 else 300;
  capacity_type = txt "spot";
  region = txt "eu";
  reliability = 99;
  disk_gb = 0;
  ram_gb = 0;
}

abbrev search : Text → Result (List Offer)
search p = ok (offer_at p ∷ [])

abbrev registry : List Text
registry = txt "aws" ∷ txt "gcp" ∷ []

select_best_offer_example :
    Answers search request registry
      (chosen_providers registry [])
      (select_best_offer search registry request [])
select_best_offer_example = select_best_offer-Answers search request registry []

-- The cheaper of the two is selected.
selects : select_best_offer search registry request [] ≡ ok (offer_at (txt "gcp"))
unfolding select_best_offer select_top_offers search_all suits cheaper chosen_providers sort text_eq
selects = refl
