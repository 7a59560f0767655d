-- ===== src/Controller/Trigger/Consolidation.antt =====
-- internal/controller/provisiontrigger.go: `checkConsolidation`, which looks for two Ready claims of one
-- model each that fit one node, with `binPackedClaimExists` and `createBinPackedClaim`. The groups are
-- an association list, whose order stands for any order in which Go ranges over the map.
pub mod Grouping
pub mod Order
pub mod Merges
use gpuscale.Prelude.{
  ℕ, suc, ◌+◌, Bool, true, false, not, ◌&&◌, ◌||◌, ltb, if◌then◌else◌, List, [], ◌∷◌, ◌++◌, map,
  Option, none, some, Text, txt, is_empty, contains_text, any, length, lookup, insert,
}
use gpuscale.Provider.{Error, Result, ok, err}
use gpuscale.Demand.Json.{ModelConfig}
use gpuscale.Controller.Claims.{
  Claim, Pool, Phase, ready, terminated, draining, same_phase, claim_model_ids,
}
use gpuscale.Controller.Reconciler.Ending.{finalizer}
use gpuscale.Controller.Provisioner.{find_pool, new_status}
use gpuscale.Controller.Trigger.{max_bundle_vram_gb}

pub record World : Type 0 where
  -- `GetModelConfig` for the claim of that place in the list
  pub model_config : ℕ → Text → Result (Option ModelConfig)
  pub list_pools : Result (List Pool)
  pub claim_name : Text
  pub create_error : Option Error

pub record Candidate : Type 0 where
  pub claim : Claim
  pub cfg : ModelConfig

abbrev pub Groups : Type 0
Groups = List (Text × List Candidate)

-- What a check comes to. `panicked` is a nil dereference.
pub data Merged : Type 0 where
  nothing refused panicked : Merged
  created : Claim → Merged

-- `fmt.Sprintf("%s/%s", …)`
abbrev pub group_key : Claim → Text
group_key c = c.spec.pool_ref ++ (txt "/" ++ c.status.node_type)

abbrev with_config : Claim → Result (Option ModelConfig) → Option Candidate
with_config c (err e) = none
with_config c (ok none) = none
with_config c (ok (some cfg)) = some (record { claim = c; cfg = cfg })

module _ (w : World) where
  abbrev pub of_single : ℕ → Claim → List Text → Option Candidate
  of_single n c [] = none
  of_single n c (m ∷ []) = with_config c (w.model_config n m)
  of_single n c (m ∷ k ∷ ms) = none

  unfoldable pub candidate : ℕ → Claim → Option Candidate
  candidate n c =
      if not (same_phase c.status.phase ready) then none else of_single n c (claim_model_ids c)

  abbrev pub members : Option (List Candidate) → List Candidate
  members none = []
  members (some ks) = ks

  unfoldable pub add_to_group : Option Candidate → Groups → Groups
  add_to_group none g = g
  add_to_group (some k) g =
      let key = group_key k.claim in insert key (members (lookup key g) ++ (k ∷ [])) g

  unfoldable pub group_claims : ℕ → List Claim → Groups → Groups
  unfolding candidate add_to_group
  group_claims n [] g = g
  group_claims n (c ∷ cs) g = group_claims (suc n) cs (add_to_group (candidate n c) g)

  abbrev pub is_going : Phase → Bool
  is_going p = same_phase p terminated || same_phase p draining

  abbrev pub covers_both : Text → Text → Claim → Bool
  covers_both a b c =
      not (is_going c.status.phase)
      && (not (ltb (length c.spec.model_ids) 2)
          && (contains_text a c.spec.model_ids && contains_text b c.spec.model_ids))

  unfoldable pub bin_packed_claim_exists : List Claim → Text → Text → Bool
  bin_packed_claim_exists claims a b = any (covers_both a b) claims

  -- The tests of the inner loop.
  unfoldable pub can_merge : List Claim → Candidate → Candidate → Bool
  unfolding bin_packed_claim_exists
  can_merge claims a b =
      if ltb max_bundle_vram_gb (a.cfg.vram_required + b.cfg.vram_required)
      then false
      else not (bin_packed_claim_exists claims a.claim.spec.model_id b.claim.spec.model_id)

  unfoldable pub first_partner : List Claim → Candidate → List Candidate → Option Candidate
  unfolding can_merge
  first_partner claims a [] = none
  first_partner claims a (b ∷ bs) =
      let rest = first_partner claims a bs in if can_merge claims a b then some b else rest

  abbrev pub or_pair :
      Candidate → Option Candidate → Option (Candidate × Candidate) → Option (Candidate × Candidate)
  or_pair a (some b) rest = some (a, b)
  or_pair a none rest = rest

  -- The first pair of a group, by the place of its first member, then of its second.
  unfoldable pub first_pair : List Claim → List Candidate → Option (Candidate × Candidate)
  unfolding first_partner
  first_pair claims [] = none
  first_pair claims (a ∷ bs) = or_pair a (first_partner claims a bs) (first_pair claims bs)

  abbrev pub or_group :
      Option (Candidate × Candidate)
      → Option (Candidate × Candidate)
      → Option (Candidate × Candidate)
  or_group (some p) rest = some p
  or_group none rest = rest

  unfoldable pub first_in_groups : List Claim → Groups → Option (Candidate × Candidate)
  unfolding first_pair
  first_in_groups claims [] = none
  first_in_groups claims ((key, ks) ∷ g) =
      or_group (first_pair claims ks) (first_in_groups claims g)

  unfoldable pub total_vram : List Candidate → ℕ
  total_vram [] = 0
  total_vram (k ∷ ks) = k.cfg.vram_required + total_vram ks

  abbrev pub models_of : List Candidate → List Text
  models_of ks = map (λ k. k.claim.spec.model_id) ks

  -- The claim for the candidates, of which `primary` is the first. The dearest price of the configs,
  -- which the code works out and does not use, is left out.
  unfoldable pub bin_packed_claim : Pool → Candidate → List Candidate → Claim
  unfolding total_vram
  bin_packed_claim pool primary ks = record {
    name = w.claim_name;
    annotations = (txt "gpuscale.io/consolidation", txt "true") ∷ [];
    finalizers = finalizer ∷ [];
    is_deleting = false;
    spec = record {
      pool_ref = pool.name;
      provider = [];
      node_type =
          if is_empty primary.cfg.node_type
          then primary.claim.status.node_type
          else primary.cfg.node_type;
      model_id = primary.claim.spec.model_id;
      model_ids = models_of ks;
      model_source = primary.cfg.source;
      requirements = record {
        gpu_count = 0;
        min_vram = total_vram ks;
        max_vram = 0;
        gpu_types = [];
        max_price_per_gpu = 0;
        min_disk = total_vram ks + 50;
        multi_gpu = false;
      };
    };
    status = new_status;
  }

  abbrev pub create_claim : Option Error → Claim → Merged
  create_claim none c = created c
  create_claim (some e) c = refused

  abbrev pub packed_in : Candidate → List Candidate → Option Pool → Merged
  packed_in primary ks none = panicked
  packed_in primary ks (some pool) = create_claim w.create_error (bin_packed_claim pool primary ks)

  abbrev pub packed_among : Candidate → List Candidate → Result (List Pool) → Merged
  packed_among primary ks (err e) = refused
  packed_among primary ks (ok pools) =
      packed_in primary ks (find_pool pools primary.cfg.pool primary.cfg.node_type)

  unfoldable pub create_bin_packed_claim : List Candidate → Merged
  unfolding bin_packed_claim
  create_bin_packed_claim [] = nothing
  create_bin_packed_claim (primary ∷ ks) = packed_among primary (primary ∷ ks) w.list_pools

  abbrev pub merge_pair : Option (Candidate × Candidate) → Merged
  merge_pair none = nothing
  merge_pair (some (a, b)) = create_bin_packed_claim (a ∷ b ∷ [])

  unfoldable pub check_consolidation : List Claim → Merged
  unfolding group_claims first_in_groups create_bin_packed_claim
  check_consolidation claims = merge_pair (first_in_groups claims (group_claims 0 claims []))
