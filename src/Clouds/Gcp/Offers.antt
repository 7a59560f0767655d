-- ===== src/Clouds/Gcp/Offers.antt =====
-- pkg/provider/gcp/provider.go: what `SearchOffers` may offer, and that it can be bought.
use gpuscale.Prelude.{
  ◌*◌, ◌≤◌, ◌≡◌, refl, sym, ap, subst, ◌∙◌, ◌⊎◌, inl, inr, true, false, ◌==◌, List, [], ◌∷◌, ◌++◌,
  map, some, Text, txt, text_eq, text_eq_iff, ◌≢◌, is_empty, any, All, All-In, In, In-append,
  Bool-cases,
}
use gpuscale.Provider.{GpuRequirements, Offer, BootstrapConfig, ok}
use gpuscale.Clouds.Fitting.{Meets, passes-Meets, passes-small}
use gpuscale.Clouds.Gcp.Names.{NoAt, split_offer_id-join}
use gpuscale.Clouds.Gcp.{
  spec_among, is_spot, is_wanted, gcp_offer, offers_among, search_offers, zone_or_first, schedule,
  create_request, request_with, request_at, prepare,
}
use gpuscale.Clouds.Gcp.Machines.{World, CreateInstanceReq, Scheduling, MachineSpec, catalog}

-- A machine type is found in the catalog under its own name, which holds no @.
abbrev Findable : MachineSpec → Type 0
Findable s = (spec_among s.machine_type catalog ≡ some s) × NoAt s.machine_type

no_at : (s : Text) → any (λ c. c == b'@') s ≡ false → NoAt s
no_at [] h = tt
no_at (c ∷ s) h = elim (Bool-cases (c == b'@')) [
  | inl e ↦ absurd (cc (rw e at h))
  | inr e ↦ (e, no_at s (rw e at h))
]

findable :
    (s : MachineSpec)
    → spec_among s.machine_type catalog ≡ some s
    → any (λ c. c == b'@') s.machine_type ≡ false
    → Findable s
findable s e a = (e, no_at s.machine_type a)

catalog-Findable : All Findable catalog
unfolding catalog spec_among text_eq
catalog-Findable = (
  findable _ refl refl,
  (
    findable _ refl refl,
    (
      findable _ refl refl,
      (
        findable _ refl refl,
        (
          findable _ refl refl,
          (findable _ refl refl, (findable _ refl refl, (findable _ refl refl, tt))),
        ),
      ),
    ),
  ),
)

abbrev pub spot : Scheduling
spot = record {
  provisioning_model = txt "SPOT";
  on_host_maintenance = txt "TERMINATE";
  automatic_restart = false;
}

abbrev pub standard : Scheduling
standard = record {
  provisioning_model = txt "STANDARD";
  on_host_maintenance = txt "MIGRATE";
  automatic_restart = true;
}

module _ (w : World) where
  module _ (req : GpuRequirements) where
    pub record Serves (s : MachineSpec) (o : Offer) : Type 0 where
      zone : In o.region (w.first_zone ∷ w.other_zones)
      counted : o.gpu_count ≡ s.gpu_count
      memory : o.vram ≡ s.gpu_count * s.vram_per_gpu
      meets : Meets req o
      small_gpus : (req.max_vram ≡ 0) ⊎ (s.vram_per_gpu ≤ req.max_vram)
      capacity :
          ((req.capacity_type ≡ txt "spot") × (o.capacity_type ≡ txt "spot"))
          ⊎ ((req.capacity_type ≢ txt "spot") × (o.capacity_type ≡ txt "on-demand"))

    gcp_offer-Serves :
        (s : MachineSpec) (zone : Text)
        → In zone (w.first_zone ∷ w.other_zones)
        → is_wanted w req s ≡ true
        → Serves s (gcp_offer w req s zone)
    unfolding is_wanted gcp_offer text_eq
    gcp_offer-Serves s zone i h = record {
      zone = i;
      counted = refl;
      memory = refl;
      meets = passes-Meets req s.vram_per_gpu (gcp_offer w req s zone) h;
      small_gpus = passes-small req s.vram_per_gpu (gcp_offer w req s zone) h;
      capacity = elim (Bool-cases (is_spot w req)) [
        | inl e ↦ rw e (inl ((text_eq_iff req.capacity_type (txt "spot")).0 e, refl))
        | inr e ↦ rw e (inr (λ q. cc (e, (text_eq_iff req.capacity_type (txt "spot")).1 q), refl))
      ];
    }

    abbrev pub IsServed : Offer → Type 0
    IsServed o =
        (s : MachineSpec) × (zone : Text) × In s catalog × (o ≡ gcp_offer w req s zone) × Serves s o

    map-IsServed :
        (s : MachineSpec) (zones : List Text) (o : Offer)
        → In s catalog
        → is_wanted w req s ≡ true
        → ((z : Text) → In z zones → In z (w.first_zone ∷ w.other_zones))
        → In o (map (λ zone. gcp_offer w req s zone) zones)
        → IsServed o
    map-IsServed s [] o l g p i = absurd i
    map-IsServed s (z ∷ zones) o l g p (inr i) = map-IsServed s zones o l g (λ x j. p x (inr j)) i
    map-IsServed s (z ∷ zones) o l g p (inl e) =
        (s, z, l, sym e, subst (Serves s) e (gcp_offer-Serves s z (p z (inl refl)) g))

    offers_among-IsServed :
        (ss : List MachineSpec) (o : Offer)
        → ((s : MachineSpec) → In s ss → In s catalog)
        → In o (offers_among w req ss)
        → IsServed o
    unfolding offers_among
    offers_among-IsServed [] o l i = absurd i
    offers_among-IsServed (s ∷ ss) o l i = elim (Bool-cases (is_wanted w req s)) [
      | inr e ↦ offers_among-IsServed ss o (λ x j. l x (inr j)) (rw e at i)
      | inl e ↦
          elim (In-append o (map (λ zone. gcp_offer w req s zone) (w.first_zone ∷ w.other_zones))
            (offers_among w req ss) (rw e at i)) [
              | inl here ↦
                  map-IsServed s (w.first_zone ∷ w.other_zones) o (l s (inl refl)) e (λ z j. j) here
              | inr there ↦ offers_among-IsServed ss o (λ x j. l x (inr j)) there
            ]
    ]

    -- The request for a machine in a zone, spot or not as the requirements say.
    pub record Requests (s : MachineSpec) (zone : Text) (c : BootstrapConfig)
        (q : CreateInstanceReq) : Type 0 where
      machine_type :
          q.machine_type ≡ txt "zones/" ++ (zone ++ (txt "/machineTypes/" ++ s.machine_type))
      market :
          ((req.capacity_type ≡ txt "spot") × (q.scheduling ≡ spot))
          ⊎ ((req.capacity_type ≢ txt "spot") × (q.scheduling ≡ standard))
      script : q.startup_script ≡ c.on_start_script

    -- What is asked for when an offer is bought.
    pub record IsAsked (c : BootstrapConfig) (o : Offer) : Type 0 where
      machine : MachineSpec
      listed : In machine catalog
      serves : Serves machine o
      zone : Text
      placed : (zone ≡ o.region) ⊎ ((o.region ≡ []) × (zone ≡ w.first_zone))
      request : CreateInstanceReq
      prepared : prepare w o c ≡ ok (machine, (zone, request))
      requests : Requests machine zone c request

    placed_in :
        (zone : Text)
        → (zone_or_first w zone ≡ zone) ⊎ ((zone ≡ []) × (zone_or_first w zone ≡ w.first_zone))
    placed_in [] = inr (refl, refl)
    placed_in (c ∷ zone) = inl refl

    create_request-Requests :
        (c : BootstrapConfig) (s : MachineSpec) (zone : Text) (o : Offer)
        → Serves s o
        → Requests s zone c (create_request w s.machine_type zone s o c)
    unfolding create_request text_eq
    create_request-Requests c s zone o g = record {
      machine_type = refl;
      market = elim g.capacity [
        | inl (asked, offered) ↦ inl (asked, ap (schedule w) offered)
        | inr (other, offered) ↦ inr (other, ap (schedule w) offered)
      ];
      script = refl;
    }

    prepare-offer :
        (c : BootstrapConfig) (s : MachineSpec) (zone : Text)
        → Findable s
        → is_empty c.on_start_script ≡ false
        → prepare w (gcp_offer w req s zone) c
          ≡ ok (
            s,
            (
              zone_or_first w zone,
              create_request w s.machine_type (zone_or_first w zone) s (gcp_offer w req s zone) c,
            ),
          )
    unfolding prepare gcp_offer
    prepare-offer c s zone (found, named) n =
        let o = gcp_offer w req s zone in
        rw n (
          ap (request_at w o c) (split_offer_id-join s.machine_type zone named)
          ∙ ap (request_with w s.machine_type (zone_or_first w zone) o c) found)

    -- Every offer of a search is for a machine of the catalog in one of the provider's zones, with the
    -- machine's GPUs and memory. It has one GPU at most, unless several are allowed, enough memory of
    -- both kinds, no GPU with more memory than allowed, and a price for each GPU within the cap, if
    -- there is one. If it is bought with a script, the machine is found in the catalog again and
    -- requested by its own type in the offer's zone, with this script, as a spot machine exactly where
    -- spot capacity was asked for.
    pub search_offers-IsAsked :
        (c : BootstrapConfig) (o : Offer)
        → is_empty c.on_start_script ≡ false
        → In o (search_offers w req)
        → IsAsked c o
    unfolding search_offers gcp_offer
    search_offers-IsAsked c o n i =
        let (s, zone, listed, e, g) = offers_among-IsServed catalog o (λ x j. j) i in
        record {
          machine = s;
          listed = listed;
          serves = g;
          zone = zone_or_first w o.region;
          placed = placed_in o.region;
          request = create_request w s.machine_type (zone_or_first w o.region) s o c;
          requests = create_request-Requests c s (zone_or_first w o.region) o g;
          prepared =
              subst
                (λ x.
                  prepare w x c
                  ≡ ok (
                    s,
                    (
                      zone_or_first w x.region,
                      create_request w s.machine_type (zone_or_first w x.region) s x c,
                    ),
                  ))
                (sym e)
                (prepare-offer c s zone (All-In Findable s catalog catalog-Findable listed) n);
        }
