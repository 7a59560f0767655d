-- ===== src/Controller/Reconciler/Pending.antt =====
-- internal/controller/reconciler.go: `handlePending`, which has an instance created, or finds the
-- one that an earlier attempt noted in the claim's annotations.
pub mod Wants
use gpuscale.Controller.Reconciler.Pending.Wants.{
  Details, or_text, provider_names, model_pairs, claim_requirements,
}
use gpuscale.Prelude.{
  atoi_positive, ℕ, suc, ◌+◌, ◌*◌, true, false, ltb, ◌==◌, if◌then◌else◌, List, [], ◌∷◌, ◌++◌,
  Option, none, some, Text, txt, is_empty, insert,
}
use gpuscale.Provider.{Error, Result, ok, err, Instance, BootstrapConfig}
use gpuscale.Coordinator.Cache.{decimal, join}
use gpuscale.Coordinator.Provision.State.{Outcome, ProvisionResult, provisioned, failed, neither}
use gpuscale.Controller.Claims.{
  Claim, ClaimStatus, Pool, pending, provisioning, bootstrapping, annotation, claim_model_ids,
  first_or_empty, resolve_claim_node_type,
}
use gpuscale.Controller.Backoff.{backoff_duration}
use gpuscale.Controller.Effects.{
  World, Store, Reply, after, fault, panic, second, tick, emit, set_phase, set_status,
  add_condition, write_status, write_claim, write_event, asked_coordinator, annotation_patched,
}

module _ (w : World) where
  -- The sources of the models that have one.
  unfoldable pub model_sources : ℕ → List Text → List Text
  model_sources n [] = []
  model_sources n (m ∷ ms) =
      let rest = model_sources (suc n) ms in
      if is_empty (w.model_source n m) then rest else w.model_source n m ∷ rest

  unfoldable pub bootstrap_config : Store → Pool → Text → BootstrapConfig
  unfolding model_pairs model_sources
  bootstrap_config s pool token =
      let c = s.claim in
      let ids = claim_model_ids c in
      record {
        node_type = resolve_claim_node_type c;
        image = pool.image;
        gpu_api_url = pool.gpu_api_url;
        gpu_api_token = token;
        models = if w.has_demand_store then join (model_pairs 8000 ids) else [];
        model_sources = if w.has_demand_store then join (model_sources s.asked ids) else [];
        gpu_count = if c.spec.requirements.gpu_count == 0 then 1 else c.spec.requirements.gpu_count;
        model_cache_url = pool.model_cache_url;
        model_id = or_text c.spec.model_id (first_or_empty ids);
        instance_id = c.name;
        gpu_type = c.status.gpu_type;
        provider_name = [];
        min_disk = c.spec.requirements.min_disk;
        on_start_script = [];
        on_start_env = [];
        extra_env = [];
      }

  abbrev recovered_endpoint : Result Instance → Text
  recovered_endpoint (ok i) = i.ip
  recovered_endpoint (err e) = []

  -- The details that the annotations of an earlier attempt hold.
  unfoldable pub recover : Store → Details
  unfolding atoi_positive
  recover s =
      let provider = annotation s.claim (txt "gpuscale.io/provider") in
      let id = annotation s.claim (txt "gpuscale.io/instance-id") in
      let price = annotation s.claim (txt "gpuscale.io/price-per-hour") in
      record {
        instance_id = id;
        provider = provider;
        gpu_type = annotation s.claim (txt "gpuscale.io/gpu-type");
        gpu_count = atoi_positive (annotation s.claim (txt "gpuscale.io/gpu-count"));
        price_per_hour = if is_empty price then 0 else w.parse_price price;
        endpoint =
            if w.registered provider
            then recovered_endpoint (w.get_instance s.asked provider id)
            else [];
        is_new = false;
      }

  abbrev bought_details : ProvisionResult → Details
  bought_details r = record {
    instance_id = r.instance_created.instance_id;
    provider = r.instance_created.provider_name;
    gpu_type = r.offer.gpu_type;
    gpu_count = r.offer.gpu_count;
    price_per_hour = r.offer.price_per_hour;
    endpoint = r.instance_created.endpoint;
    is_new = true;
  }

  -- The annotations that note a new instance.
  unfoldable pub noted : ProvisionResult → List (Text × Text) → List (Text × Text)
  noted r notes =
      let d = bought_details r in
      let basic = insert (txt "gpuscale.io/offer-id") r.offer.offer_id (
        insert (txt "gpuscale.io/provider") d.provider
          (insert (txt "gpuscale.io/instance-id") d.instance_id notes)) in
      let typed =
        if is_empty d.gpu_type
        then basic
        else insert (txt "gpuscale.io/gpu-type") d.gpu_type basic in
      let counted =
        if ltb 0 d.gpu_count
        then insert (txt "gpuscale.io/gpu-count") (decimal d.gpu_count) typed
        else typed in
      if ltb 0 d.price_per_hour
      then insert (txt "gpuscale.io/price-per-hour") (w.price_text d.price_per_hour) counted
      else counted

  -- The merge patch: the server's copy takes the annotations, unless the patch fails.
  unfoldable pub patch_annotations : ProvisionResult → Store → Store
  unfolding noted
  patch_annotations r s =
      let notes = noted r s.claim.annotations in
      let c = record s.claim { annotations = notes } in
      elim (w.write_error s.asked) [
        | some e ↦ tick (record s { claim = c })
        | none ↦
            emit (annotation_patched r.instance_created.instance_id)
              (record s { claim = c; stored = record s.stored { annotations = notes } })
      ]

  -- `r.Get` of the claim in hand.
  abbrev pub take_fetched : Result Claim → Store → Store × Option Error
  take_fetched (ok c) s = (record s { claim = c; stored = c; asked = suc s.asked }, none)
  take_fetched (err e) s = (tick s, some e)

  abbrev pub fetch_again : Store → Store × Option Error
  fetch_again s = take_fetched (w.refetch s.asked s.stored) s

  abbrev filled : Details → ℕ → ClaimStatus → ClaimStatus
  filled d now st = record st {
    provider = d.provider;
    gpu_type = or_text d.gpu_type st.gpu_type;
    gpu_count = if ltb 0 d.gpu_count then d.gpu_count else st.gpu_count;
    price_per_hour = if ltb 0 d.price_per_hour then d.price_per_hour else st.price_per_hour;
    instance_id = d.instance_id;
    phase = bootstrapping;
    retry_count = 0;
    endpoint = or_text d.endpoint st.endpoint;
    provisioned_at = elim st.provisioned_at [ none ↦ some now | some at ↦ some at ];
  }

  abbrev pub reply_created : Store × Option Error → Store × Reply
  reply_created (s, some e) = (s, fault e)
  reply_created (s, none) = (s, after (10 * second))

  -- The last part: the status takes the details.
  unfoldable pub fill_status : Details → Store → Store × Reply
  fill_status d s =
      let now = w.clock s.asked in
      let t = set_status (filled d now) (tick s) in
      let u = if d.is_new then write_event w (txt "bootstrapping") t else t in
      reply_created
        (write_status w (add_condition (txt "InstanceCreated") (txt "InstanceCreated") u))

  abbrev pub fill_fetched : Details → Store × Option Error → Store × Reply
  fill_fetched d (s, some e) = (s, fault e)
  fill_fetched d (s, none) = fill_status d s

  abbrev pub fetch_written : Details → Store × Option Error → Store × Reply
  fetch_written d (s, some e) = (s, fault e)
  fetch_written d (s, none) = fill_fetched d (fetch_again s)

  abbrev pub set_provider : Text → Store → Store
  set_provider p s = record s {
    claim = record s.claim { spec = record s.claim.spec { provider = p } };
  }

  -- The spec takes the provider, if it has none.
  unfoldable pub note_provider : Details → Store × Option Error → Store × Reply
  note_provider d (s, some e) = (s, fault e)
  note_provider d (s, none) =
      if is_empty s.claim.spec.provider
      then fetch_written d (write_claim w (set_provider d.provider s))
      else fill_status d s

  abbrev pub back_to_pending : Store × Option Error → Store × Reply
  back_to_pending (s, some e) = (s, fault e)
  back_to_pending (s, none) =
      let retries = s.claim.status.retry_count + 1 in
      (
        (write_status w (
            set_status (λ st. record st { retry_count = retries })
              (add_condition (txt "ProvisionFailed") (txt "CreateInstanceFailed")
                (set_phase pending s)))).0,
        after (backoff_duration retries),
      )

  unfoldable pub take_outcome : Outcome → Store → Store × Reply
  take_outcome (failed e) s = back_to_pending (fetch_again s)
  take_outcome neither s = (s, panic)
  take_outcome (provisioned r) s =
      note_provider (bought_details r) (fetch_again (patch_annotations r s))

  abbrev pub ask_coordinator : Pool → BootstrapConfig → Store × Option Error → Store × Reply
  ask_coordinator pool config (s, some e) = (s, fault e)
  ask_coordinator pool config (s, none) =
      let t = write_event w (txt "provisioning") s in
      take_outcome
        (w.provision t.asked (claim_requirements t.claim pool) config (provider_names t.claim pool))
        (emit asked_coordinator t)

  unfoldable pub provision_new : Pool → BootstrapConfig → Store → Store × Reply
  provision_new pool config s =
      let now = w.clock s.asked in
      ask_coordinator pool config (
        write_status w (
          set_status (λ st. record st { phase = provisioning; provisioned_at = some now })
            (tick s)))

  abbrev pub with_token : Pool → Result Text → Store → Store × Reply
  with_token pool (err e) s = (s, after (10 * second))
  with_token pool (ok token) s =
      if is_empty (annotation s.claim (txt "gpuscale.io/instance-id"))
      then provision_new pool (bootstrap_config s pool token) s
      else note_provider (recover s) (fetch_again (tick s))

  abbrev pub with_pool : Result Pool → Store → Store × Reply
  with_pool (err e) s = (s, after (10 * second))
  with_pool (ok pool) s =
      with_token pool (if pool.has_token_secret then w.get_token s.asked pool else ok []) (tick s)

  unfoldable pub handle_pending : Store → Store × Reply
  handle_pending s = with_pool (w.get_pool s.asked s.claim.spec.pool_ref) (tick s)
