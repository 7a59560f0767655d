-- ===== src/Controller/Effects.antt =====
-- internal/controller: what a reconciliation asks of the cluster, the providers and the stores, and
-- what it does there. The `World` holds the answers, each question moves its counter on; the effects
-- that succeed, and the calls whose result is ignored, go into a log, newest first.
pub mod Kept
pub mod Grown
pub mod Logged
use gpuscale.Prelude.{
  ℕ, suc, ◌+◌, ◌*◌, Bool, false, ◌||◌, ltb, if◌then◌else◌, List, [], ◌∷◌, ◌++◌, Option, none, some,
  Text, is_empty,
}
use gpuscale.Provider.{Error, Result, ok, err, Instance, GpuRequirements, BootstrapConfig}
use gpuscale.Coordinator.Provision.State.{Outcome}
use gpuscale.Controller.Claims.{
  Claim, ClaimStatus, Phase, terminated, claim_model_ids, has_other_ready, Pool,
}

pub record World : Type 0 where
  pub clock : ℕ → ℕ
  -- `Registry.Get`
  pub registered : Text → Bool
  -- Which of the optional stores the controller was given.
  pub has_worker_store : Bool
  pub has_demand_store : Bool
  pub has_claim_writer : Bool
  pub has_coordinator : Bool
  -- `Update`, `Status().Update`, `Patch` and `Delete` at the API server
  pub write_error : ℕ → Option Error
  -- The server's copy now, given the copy that the last write or read left there.
  pub refetch : ℕ → Claim → Result Claim
  pub list_claims : ℕ → Result (List Claim)
  pub get_pool : ℕ → Text → Result Pool
  -- The same, with none for a pool that the server does not have.
  pub find_pool : ℕ → Text → Result (Option Pool)
  pub get_token : ℕ → Pool → Result Text
  -- The name of the node labelled with the claim's name.
  pub find_node : ℕ → Text → Result (Option Text)
  -- The providers
  pub destroy_error : ℕ → Text → Text → Option Error
  pub get_instance : ℕ → Text → Text → Result Instance
  pub provision : ℕ → GpuRequirements → BootstrapConfig → List Text → Outcome
  -- Dragonfly, as DemandStore reads it
  pub node_registered : ℕ → Text → Bool
  pub node_idle : ℕ → Text → Bool
  pub queue_depth : ℕ → Text → Result ℕ
  pub demand : ℕ → Text → Result ℕ
  pub always_active : ℕ → Text → Result Bool
  pub model_loaded : ℕ → Text → Bool
  -- The source of the model's config, empty if there is none.
  pub model_source : ℕ → Text → Text
  -- The replicas that the model's config asks for, if it can be read.
  pub min_replicas : ℕ → Text → Option ℕ
  -- How a price is printed into an annotation and read back.
  pub price_text : ℕ → Text
  pub parse_price : Text → ℕ

pub data Effect : Type 0 where
  status_written : Phase → Effect
  claim_written : Effect
  annotation_patched : Text → Effect
  claim_annotated : Text → Effect
  destroyed destroy_failed : (provider instance_id : Text) → Effect
  asked_coordinator : Effect
  offer_blacklisted : (provider offer_id : Text) → Effect
  node_deleted : Text → Effect
  worker_set worker_removed : Text → Effect
  model_removed model_available model_failed : Text → Effect
  provision_triggered : Text → Effect
  volume_ready : Text → Effect
  event_written : Text → Effect
  record_written : Phase → Effect

-- The claim in the handler's hands, and the one that the API server holds.
pub record Store : Type 0 where
  pub claim : Claim
  pub stored : Claim
  pub log : List Effect
  pub asked : ℕ

pub data Reply : Type 0 where
  done requeue : Reply
  after : ℕ → Reply
  fault : Error → Reply
  -- A nil dereference.
  panic : Reply

abbrev pub second : ℕ
second = 1000000000

abbrev pub minute : ℕ
minute = 60000000000

abbrev pub tick : Store → Store
tick s = record s { asked = suc s.asked }

abbrev pub emit : Effect → Store → Store
emit e s = record s { log = e ∷ s.log; asked = suc s.asked }

abbrev pub emit_if : Bool → Effect → Store → Store
emit_if b e s = if b then emit e s else s

-- `fmt.Errorf("text: %w", err)`
abbrev pub wrap_error : Text → Error → Error
wrap_error text e = record e { message = text ++ e.message }

abbrev pub set_status : (ClaimStatus → ClaimStatus) → Store → Store
set_status f s = record s { claim = record s.claim { status = f s.claim.status } }

abbrev pub set_phase : Phase → Store → Store
set_phase p s = set_status (λ st. record st { phase = p }) s

-- `append(claim.Status.Conditions, …)` with the type and the reason.
abbrev pub add_condition : Text → Text → Store → Store
add_condition type reason s =
    set_status (λ st. record st { conditions = (type, reason) ∷ st.conditions }) s

module _ (w : World) where
  -- `r.Status().Update`: the server takes the status alone.
  unfoldable pub write_status : Store → Store × Option Error
  write_status s = elim (w.write_error s.asked) [
    | some e ↦ (tick s, some e)
    | none ↦ (
      record s {
        stored = record s.stored { status = s.claim.status };
        log = status_written s.claim.status.phase ∷ s.log;
        asked = suc s.asked;
      },
      none,
    )
  ]

  -- `r.Update`: the server takes all but the status, and hands its own status back.
  unfoldable pub write_claim : Store → Store × Option Error
  write_claim s = elim (w.write_error s.asked) [
    | some e ↦ (tick s, some e)
    | none ↦
        let kept = record s.claim { status = s.stored.status } in
        (
          record s {
            claim = kept;
            stored = kept;
            log = claim_written ∷ s.log;
            asked = suc s.asked;
          },
          none,
        )
  ]

  -- `DestroyInstance`, with what it returns.
  unfoldable pub destroy : Text → Text → Store → Store × Option Error
  destroy provider id s = elim (w.destroy_error s.asked provider id) [
    | none ↦ (emit (destroyed provider id) s, none)
    | some e ↦ (emit (destroy_failed provider id) s, some e)
  ]

  unfoldable pub delete_node_if_exists : Store → Store
  delete_node_if_exists s = elim (w.find_node s.asked s.claim.name) [
    | err e ↦ tick s
    | ok none ↦ tick s
    | ok (some node) ↦ elim (w.write_error (suc s.asked)) [
      | some e ↦ tick (tick s)
      | none ↦ tick (emit (node_deleted node) s)
    ]
  ]

  abbrev pub remove_worker : Store → Store
  remove_worker s = emit_if w.has_worker_store (worker_removed s.claim.name) s

  -- `hasOtherReadyClaims`: false if the claims cannot be listed.
  abbrev pub other_ready : Result (List Claim) → Text → Text → Bool
  other_ready (ok claims) model name = has_other_ready claims model name
  other_ready (err e) model name = false

  unfoldable pub remove_loaded : List Text → Store → Store
  remove_loaded [] s = s
  remove_loaded (m ∷ ms) s = remove_loaded ms (record s {
    log =
        if other_ready (w.list_claims s.asked) m s.claim.name || is_empty m
        then s.log
        else model_removed m ∷ s.log;
    asked = suc s.asked;
  })

  -- Every co-located model that no other Ready claim serves is dropped from the registry.
  unfoldable pub remove_loaded_models : Store → Store
  unfolding remove_loaded
  remove_loaded_models s =
      if w.has_demand_store then remove_loaded (claim_model_ids s.claim) s else s

  -- The body of the loop of `retriggerIfDemandExists`: some demand is known for the model.
  abbrev pub is_wanted : Result ℕ → Result ℕ → Bool
  is_wanted (ok queued) (ok active) = ltb 0 queued || ltb 0 active
  is_wanted (ok queued) (err e) = false
  is_wanted (err e) (ok active) = false
  is_wanted (err e) (err f) = false

  unfoldable pub retrigger : List Text → Store → Store
  retrigger [] s = s
  retrigger (m ∷ ms) s =
      let rest = retrigger ms (tick (tick s)) in
      if is_wanted (w.queue_depth s.asked m) (w.demand (suc s.asked) m)
      then tick (tick (emit (provision_triggered m) s))
      else rest

  unfoldable pub retrigger_if_demand_exists : Store → Store
  unfolding retrigger
  retrigger_if_demand_exists s =
      if w.has_demand_store then retrigger (claim_model_ids s.claim) s else s

  abbrev pub write_event : Text → Store → Store
  write_event step s = emit_if w.has_claim_writer (event_written step) s

  -- `writeTerminatedRecord`
  abbrev pub write_terminated_record : Store → Store
  write_terminated_record s = emit_if w.has_claim_writer (record_written terminated) s
