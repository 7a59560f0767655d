-- ===== src/Clouds/Verda/Search.antt =====
-- pkg/provider/verda/provider.go: `SearchOffers`. The parallel availability calls are answered by what
-- they ask, since each writes its own entry of the map.
use gpuscale.Prelude.{
  ℕ, ◌*◌, Bool, true, false, not, ◌&&◌, ◌||◌, ltb, if◌then◌else◌, List, [], ◌∷◌, ◌++◌, Option, none,
  some, Text, txt, text_eq, contains_text,
}
use gpuscale.Provider.{GpuRequirements, Offer, Result, ok, err}

pub record InstanceType : Type 0 where
  pub instance_type : Text
  pub model : Text
  pub number_of_gpus : ℕ
  pub gpu_memory : ℕ
  pub memory : ℕ
  pub price_per_hour : Text
  pub spot_price : Text

pub record World : Type 0 where
  pub list_instance_types : Result (List InstanceType)
  -- The codes of the listed locations
  pub list_locations : Result (List Text)
  -- `CheckAvailabilityInLocation`
  pub available : Text → Bool → Text → Result Bool
  -- `strconv.ParseFloat` of the trimmed text
  pub parse_float : Text → Option ℕ
  -- The whole number that stands for 1.0.
  pub one : ℕ

pub record TypeInfo : Type 0 where
  pub type_of : InstanceType
  pub gpu_count : ℕ
  pub total_vram : ℕ
  pub ram_gb : ℕ
  pub on_demand_price : ℕ
  pub spot_price : ℕ

-- The loop over the locations: each code once, in the order of its first place.
unfoldable pub distinct_codes : List Text → List Text → List Text
distinct_codes seen [] = []
distinct_codes seen (c ∷ cs) = elim (contains_text c seen) [
  | true ↦ distinct_codes seen cs
  | false ↦ c ∷ distinct_codes (c ∷ seen) cs
]

abbrev pub or_any : List Text → List Text
or_any [] = [] ∷ []
or_any (c ∷ cs) = c ∷ cs

unfoldable pub region_codes : List Text → List Text
unfolding distinct_codes
region_codes codes = or_any (distinct_codes [] codes)

module _ (w : World) (req : GpuRequirements) where
  abbrev pub is_spot_only : Bool
  is_spot_only = text_eq req.capacity_type (txt "spot")

  abbrev pub is_on_demand_only : Bool
  is_on_demand_only = text_eq req.capacity_type (txt "on-demand")

  abbrev pub check_spot : Bool
  check_spot = is_spot_only || not is_on_demand_only

  abbrev pub check_on_demand : Bool
  check_on_demand = is_on_demand_only || not is_spot_only

  unfoldable pub parse_price : Text → Option ℕ
  parse_price [] = some 0
  parse_price (c ∷ t) = w.parse_float (c ∷ t)

  abbrev pub value_or_zero : Option ℕ → ℕ
  value_or_zero none = 0
  value_or_zero (some n) = n

  abbrev info_with : InstanceType → Option ℕ → Option TypeInfo
  info_with t none = none
  info_with t (some price) = some (record {
    type_of = t;
    gpu_count = t.number_of_gpus;
    total_vram = t.number_of_gpus * t.gpu_memory;
    ram_gb = t.memory;
    on_demand_price = price;
    spot_price = value_or_zero (parse_price t.spot_price);
  })

  -- The body of the loop that filters by hardware.
  unfoldable pub eligible_type : InstanceType → Option TypeInfo
  unfolding parse_price
  eligible_type t =
      if not req.multi_gpu && ltb 1 t.number_of_gpus
      then none
      else if ltb 0 req.min_vram && ltb (t.number_of_gpus * t.gpu_memory) req.min_vram
      then none
      else if ltb 0 req.min_ram && ltb t.memory req.min_ram
      then none
      else info_with t (parse_price t.price_per_hour)

  abbrev with_info : Option TypeInfo → List TypeInfo → List TypeInfo
  with_info none rest = rest
  with_info (some ti) rest = ti ∷ rest

  unfoldable pub eligible_types : List InstanceType → List TypeInfo
  unfolding eligible_type
  eligible_types [] = []
  eligible_types (t ∷ ts) = with_info (eligible_type t) (eligible_types ts)

  -- On-demand checks fail open, spot checks fail closed.
  abbrev pub fail_open : Result Bool → Bool
  fail_open (err e) = true
  fail_open (ok b) = b

  abbrev pub fail_closed : Result Bool → Bool
  fail_closed (err e) = false
  fail_closed (ok b) = b

  unfoldable pub has_on_demand : TypeInfo → Text → Bool
  has_on_demand ti region = fail_open (w.available ti.type_of.instance_type false region)

  unfoldable pub has_spot : TypeInfo → Text → Bool
  has_spot ti region = fail_closed (w.available ti.type_of.instance_type true region)

  -- The price and the capacity type of an offer.
  unfoldable pub choose_capacity : TypeInfo → Text → Option (ℕ × Text)
  unfolding has_on_demand has_spot
  choose_capacity ti region =
      if check_spot && (has_spot ti region && ltb 0 ti.spot_price)
      then some (ti.spot_price, txt "spot")
      else if check_on_demand && has_on_demand ti region
      then some (ti.on_demand_price, txt "on-demand")
      else none

  unfoldable pub verda_offer : TypeInfo → Text → ℕ → Text → Offer
  verda_offer ti region price capacity = record {
    provider_name = txt "verda";
    offer_id = ti.type_of.instance_type;
    gpu_type = ti.type_of.model;
    gpu_count = ti.gpu_count;
    vram = ti.total_vram;
    price_per_hour = price;
    capacity_type = capacity;
    region = region;
    reliability = w.one;
    disk_gb = 0;
    ram_gb = ti.ram_gb;
  }

  -- The price of one GPU is above the cap: `price / count > cap`, written without the division.
  abbrev pub is_too_dear : TypeInfo → ℕ → Bool
  is_too_dear ti price =
      ltb 0 req.max_price_per_hour
      && (ltb 0 ti.gpu_count && ltb (req.max_price_per_hour * ti.gpu_count) price)

  abbrev pub priced : TypeInfo → Text → Option (ℕ × Text) → Option Offer
  priced ti region none = none
  priced ti region (some (price, capacity)) =
      if is_too_dear ti price then none else some (verda_offer ti region price capacity)

  unfoldable pub offer_at : TypeInfo → Text → Option Offer
  unfolding choose_capacity verda_offer
  offer_at ti region = priced ti region (choose_capacity ti region)

  abbrev with_offer : Option Offer → List Offer → List Offer
  with_offer none rest = rest
  with_offer (some o) rest = o ∷ rest

  unfoldable pub offers_in : TypeInfo → List Text → List Offer
  unfolding offer_at
  offers_in ti [] = []
  offers_in ti (r ∷ rs) = with_offer (offer_at ti r) (offers_in ti rs)

  unfoldable pub offers_for : List TypeInfo → List Text → List Offer
  unfolding offers_in
  offers_for [] regions = []
  offers_for (ti ∷ tis) regions = offers_in ti regions ++ offers_for tis regions

  abbrev pub with_locations : List InstanceType → Result (List Text) → Result (List Offer)
  with_locations types (err e) =
      err (record e { message = txt "listing verda locations: " ++ e.message })
  with_locations types (ok codes) = ok (offers_for (eligible_types types) (region_codes codes))

  abbrev pub with_types : Result (List InstanceType) → Result (List Offer)
  with_types (err e) =
      err (record e { message = txt "listing verda instance types: " ++ e.message })
  with_types (ok types) = with_locations types w.list_locations

  unfoldable pub search_offers : Result (List Offer)
  unfolding region_codes eligible_types offers_for
  search_offers = with_types w.list_instance_types
