-- ===== src/Clouds/Gcp/Buying.antt =====
-- pkg/provider/gcp/provider.go: by which name an instance is found again.
use gpuscale.Prelude.{
  ◌≡◌, refl, ap, subst, ◌∙◌, inl, inr, [], ◌∷◌, ◌++◌, Option, none, some, Text, txt, is_empty,
  Bool-cases, Option-cases,
}
use gpuscale.Provider.{Offer, BootstrapConfig, Instance, Result-cases, ok}
use gpuscale.Clouds.Gcp.Names.{NoAt, split_offer_id, split_offer_id-join, sanitize_name-NoAt}
use gpuscale.Clouds.Gcp.{
  spec_among, zone_or_first, create_request, request_with, prepare, create_instance, delete_at,
  destroy_instance, found_as, get_at, get_instance,
}
use gpuscale.Clouds.Gcp.Machines.{World, MachineSpec, CreateInstanceReq, catalog}

module _ (w : World) where
  zone_or_first-again : (z : Text) → zone_or_first w (zone_or_first w z) ≡ zone_or_first w z
  zone_or_first-again (c ∷ z) = refl
  zone_or_first-again [] = twice w.first_zone refl
    where
      twice : (f : Text) → w.first_zone ≡ f → zone_or_first w f ≡ f
      twice [] q = q
      twice (c ∷ f) q = refl

  -- The instance is deleted and asked for by this name in this zone.
  pub record Found (id zone name : Text) : Type 0 where
    destroyed : destroy_instance w id ≡ w.delete_instance zone name
    asked : get_instance w id ≡ found_as w id (w.get_instance zone name)

  id-Found :
      (name zone : Text)
      → NoAt name
      → zone_or_first w zone ≡ zone
      → Found (name ++ (txt "@" ++ zone)) zone name
  unfolding destroy_instance get_instance
  id-Found name zone a z = record {
    destroyed =
        ap (delete_at w) (split_offer_id-join name zone a) ∙ ap (λ x. w.delete_instance x name) z;
    asked =
        ap (get_at w (name ++ (txt "@" ++ zone))) (split_offer_id-join name zone a)
        ∙ ap (λ x. found_as w (name ++ (txt "@" ++ zone)) (w.get_instance x name)) z;
  }

  -- The call that bought an instance, and the name and zone by which it is found again.
  pub record Bought (o : Offer) (c : BootstrapConfig) (i : Instance) : Type 0 where
    machine : MachineSpec
    zone : Text
    request : CreateInstanceReq
    prepared : prepare w o c ≡ ok (machine, (zone, request))
    accepted : w.create_instance zone request ≡ none
    found : Found i.instance_id zone request.name

  -- What a request that was prepared asks for.
  record Prepared (zone : Text) (q : CreateInstanceReq) : Type 0 where
    named : NoAt q.name
    placed : zone_or_first w zone ≡ zone

  request_with-Prepared :
      (machine zone : Text) (o : Offer) (c : BootstrapConfig) (m : Option MachineSpec)
      (s : MachineSpec) (z : Text) (q : CreateInstanceReq)
      → zone_or_first w zone ≡ zone
      → request_with w machine zone o c m ≡ ok (s, (z, q))
      → Prepared z q
  unfolding create_request
  request_with-Prepared machine zone o c none s z q at h = absurd (cc h)
  request_with-Prepared machine zone o c (some m) s z q at h =
      let e : ◌≡◌ {A = Text × CreateInstanceReq} (zone, create_request w machine zone m o c)
          (z, q) =
        cc h in
      subst (λ x. Prepared x.0 x.1) e
        (record { named = sanitize_name-NoAt (txt "gpuscale-" ++ c.instance_id); placed = at })

  prepare-Prepared :
      (o : Offer) (c : BootstrapConfig) (s : MachineSpec) (z : Text) (q : CreateInstanceReq)
      → prepare w o c ≡ ok (s, (z, q))
      → Prepared z q
  unfolding prepare
  prepare-Prepared o c s z q h = elim (Bool-cases (is_empty c.on_start_script)) [
    | inl e ↦ absurd (cc (rw e at h))
    | inr e ↦
        let (machine, zone) = split_offer_id o.offer_id in
        request_with-Prepared machine (zone_or_first w zone) o c (spec_among machine catalog) s z q
          (zone_or_first-again zone) (rw e at h)
  ]

  -- Every instance that `CreateInstance` returns was asked for by a request that was accepted, and its
  -- id leads back: `DestroyInstance` deletes, and `GetInstance` asks for, the instance that has the
  -- request's name in the request's zone.
  pub create_instance-Bought :
      (o : Offer) (c : BootstrapConfig) (i : Instance) → create_instance w o c ≡ ok i → Bought o c i
  unfolding create_instance
  create_instance-Bought o c i h = elim (Result-cases (prepare w o c)) [
    | inr (e, q) ↦ absurd (cc (rw q at h))
    | inl ((m, (zone, r)), q) ↦ elim (Option-cases (w.create_instance zone r)) [
      | inr (e, refused) ↦ absurd (cc (rw (q, refused) at h))
      | inl accepted ↦
          let p = prepare-Prepared o c m zone r q in
          let same : r.name ++ (txt "@" ++ zone) ≡ i.instance_id = cc (rw (q, accepted) at h) in
          record {
            machine = m;
            zone = zone;
            request = r;
            prepared = q;
            accepted = accepted;
            found = subst (λ id. Found id zone r.name) same (id-Found r.name zone p.named p.placed);
          }
    ]
  ]
