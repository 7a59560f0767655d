-- ===== src/Controller/Provisioner/Limits.antt =====
-- internal/controller/provisioner.go: which claims a batch may create.
use gpuscale.Prelude.{
  ◌≤◌, ◌<◌, ◌≡◌, refl, subst, inl, inr, Bool, true, false, not, ◌&&◌, leb, if◌then◌else◌, List, [],
  ◌∷◌, map, Option, none, some, Text, is_empty, text_eq, any, count, In, Bool-cases, Option-cases,
  arith,
}
use gpuscale.Provider.{Result, ok, err, Offer}
use gpuscale.Scheduler.{Pod, is_gpu_pod, is_unschedulable, extract_gpu_requirements}
use gpuscale.Scheduler.Merging.{total_gpus, merge_requirements-total}
use gpuscale.Coordinator.Filter.{filter_by_requirements, filter_by_requirements_iff}
use gpuscale.Controller.Claims.{Claim, Pool, PoolLimits, same_phase, terminated}
use gpuscale.Controller.Reconciler.Pending.Wants.{claim_requirements}
use gpuscale.Controller.Provisioner.{
  or_standalone, first_or, first_pool, find_pool, constrained, new_claim, batch_requirements,
  create_in, create_among, process, process_batch, demanded_model, chosen,
}
use gpuscale.Controller.Provisioner.Counts.{
  World, Provisioner, count_active_claims, count_pending_gpu_pods, of_pool, gpus_used, cost_used,
  check_pool_limits, limits_reached,
}

-- What the pool's limits leave room for.
pub data InLimits (claims : List Claim) : Option PoolLimits → Type 0 where
  unlimited : InLimits claims none
  limited :
      (l : PoolLimits)
      → (0 < l.max_gpus → gpus_used claims < l.max_gpus)
      → (0 < l.max_cost_per_hour → cost_used claims < l.max_cost_per_hour)
      → InLimits claims (some l)

pub record HasRoom (claims : List Claim) (pool : Pool) : Type 0 where
  pub nodes : count (λ (c : Claim). true) (of_pool pool claims) < pool.max_nodes
  pub limits : InLimits (of_pool pool claims) pool.limits

limits_reached-InLimits :
    (limits : Option PoolLimits) (claims : List Claim)
    → limits_reached limits claims ≡ false
    → InLimits claims limits
limits_reached-InLimits none claims h = unlimited
limits_reached-InLimits (some l) claims h = limited l (λ p. ground arith) (λ p. ground arith)

check_pool_limits-HasRoom :
    (r : Result (List Claim)) (pool : Pool)
    → check_pool_limits r pool ≡ true
    → (claims : List Claim) × (r ≡ ok claims) × HasRoom claims pool
unfolding check_pool_limits
check_pool_limits-HasRoom (err e) pool h = absurd (cc h)
check_pool_limits-HasRoom (ok claims) pool h = (
  claims,
  refl,
  record {
    nodes = ground arith;
    limits = limits_reached-InLimits pool.limits (of_pool pool claims) (ground arith);
  },
)

first_pool-In :
    (test : Pool → Bool) (ps : List Pool) (p : Pool) → first_pool test ps ≡ some p → In p ps
unfolding first_pool
first_pool-In test [] p h = absurd (cc h)
first_pool-In test (q ∷ ps) p h = elim (Bool-cases (test q)) [
  | inl yes_q ↦ inl (let found : some q ≡ some p = rw yes_q at h in cc)
  | inr no_q ↦ inr (first_pool-In test ps p (rw no_q at h))
]

named_or_typed :
    (a b : Option Pool) (ps : List Pool) (p q : Pool)
    → ((x : Pool) → a ≡ some x → In x ps)
    → ((x : Pool) → b ≡ some x → In x ps)
    → In p ps
    → first_or a (first_or b (some p)) ≡ some q
    → In q ps
named_or_typed (some x) b ps p q ha hb i e = ha q e
named_or_typed none (some x) ps p q ha hb i e = hb q e
named_or_typed none none ps p q ha hb i e = let same : p ≡ q = cc in subst (λ y. In y ps) same i

none-In : (ps : List Pool) (x : Pool) → none ≡ some x → In x ps
none-In ps x h = absurd (cc h)

named_In :
    (b : Bool) (test : Pool → Bool) (ps : List Pool) (x : Pool)
    → (if b then none else first_pool test ps) ≡ some x
    → In x ps
named_In true test ps x h = none-In ps x h
named_In false test ps x h = first_pool-In test ps x h

pub find_pool-In :
    (ps : List Pool) (name node_type : Text) (q : Pool)
    → find_pool ps name node_type ≡ some q
    → In q ps
unfolding find_pool
find_pool-In [] name node_type q h = absurd (cc h)
find_pool-In (p ∷ ps) name node_type q h =
    let typed =
      λ (x : Pool). any (λ c. text_eq c.node_type (or_standalone node_type)) x.providers in
    named_or_typed _ _ (p ∷ ps) p q (named_In (is_empty name) (λ x. text_eq x.name name) (p ∷ ps))
      (first_pool-In typed (p ∷ ps)) (inl refl) h

-- More listed pods wait for a GPU than listed claims are not Terminated, or one waits where the claims
-- cannot be listed.
abbrev pub IsWanted : Result (List Claim) → Result (List Pod) → Type 0
IsWanted r (err e) = ⊥
IsWanted (err e) (ok pods) =
    0 < count (λ p. p.is_pending && (is_gpu_pod p && is_unschedulable p)) pods
IsWanted (ok claims) (ok pods) =
    count (λ (c : Claim). not (same_phase c.status.phase terminated)) claims
    < count (λ p. p.is_pending && (is_gpu_pod p && is_unschedulable p)) pods

counts-IsWanted :
    (r : Result (List Claim)) (q : Result (List Pod))
    → count_active_claims r < count_pending_gpu_pods q
    → IsWanted r q
unfolding count_active_claims count_pending_gpu_pods
counts-IsWanted (err e) (err x) h = absurd (omega (arith, h))
counts-IsWanted (ok claims) (err x) h = absurd (omega (arith, h))
counts-IsWanted (err e) (ok pods) h = h
counts-IsWanted (ok claims) (ok pods) h = h

module _ (w : World) where
  -- What is promised of the claim that a batch creates.
  pub record Within (batch : List Pod) (c : Claim) : Type 0 where
    pub wanted : IsWanted (w.list_claims 0) (w.list_pods 0)
    pub pool : Pool
    pub listed : (pools : List Pool) × (w.list_pools ≡ ok pools) × In pool pools
    pub room : (claims : List Claim) × (w.list_claims 1 ≡ ok claims) × HasRoom claims pool
    pub claimed : c.spec.pool_ref ≡ pool.name
    pub gpus :
        c.spec.requirements.gpu_count
        ≡ total_gpus (map (extract_gpu_requirements w.parse_price) batch)
    pub single : c.spec.requirements.multi_gpu ≡ false

  abbrev Created : List Pod → Option Claim → Type 0
  Created batch none = Unit
  Created batch (some c) = Within batch c

  new_claim_lem :
      (batch : List Pod) (pool : Pool)
      → let c = new_claim w.claim_name (demanded_model w) pool (batch_requirements w batch pool) in
        (c.spec.pool_ref ≡ pool.name)
        × (c.spec.requirements.gpu_count
            ≡ total_gpus (map (extract_gpu_requirements w.parse_price) batch))
        × (c.spec.requirements.multi_gpu ≡ false)
  unfolding new_claim batch_requirements constrained
  new_claim_lem batch pool =
      (refl, merge_requirements-total (map (extract_gpu_requirements w.parse_price) batch), refl)

  create_in-Created :
      (q : Pod) (batch : List Pod) (pools : List Pool) (found : Option Pool) (p : Provisioner)
      → count_active_claims (w.list_claims 0) < count_pending_gpu_pods (w.list_pods 0)
      → w.list_pools ≡ ok pools
      → ((x : Pool) → found ≡ some x → In x pools)
      → Created (q ∷ batch) (create_in w (q ∷ batch) found p).1
  create_in-Created q batch pools none p want l i = tt
  create_in-Created q batch pools (some pool) p want l i =
      elim (Bool-cases (check_pool_limits (w.list_claims 1) pool)) [
        | inr full ↦ rw (full, create_in) tt
        | inl room ↦ elim (Option-cases w.create_error) [
          | inr (e, h) ↦ rw (room, create_in) (rw (h, create_in) tt)
          | inl h ↦
              rw (room, create_in)
                (rw (h, create_in)
                  (record {
                    wanted = counts-IsWanted (w.list_claims 0) (w.list_pods 0) want;
                    pool = pool;
                    listed = (pools, l, i pool refl);
                    room = check_pool_limits-HasRoom (w.list_claims 1) pool room;
                    claimed = (new_claim_lem (q ∷ batch) pool).0;
                    gpus = (new_claim_lem (q ∷ batch) pool).1;
                    single = (new_claim_lem (q ∷ batch) pool).2;
                  }))
        ]
      ]

  create_among-Created :
      (q : Pod) (batch : List Pod) (r : Result (List Pool)) (p : Provisioner)
      → count_active_claims (w.list_claims 0) < count_pending_gpu_pods (w.list_pods 0)
      → w.list_pools ≡ r
      → Created (q ∷ batch) (create_among w (q ∷ batch) r p).1
  create_among-Created q batch (err e) p want l = tt
  create_among-Created q batch (ok pools) p want l =
      let m = chosen w (demanded_model w) in
      create_in-Created q batch pools (find_pool pools m.pool m.node_type) p want l
        (find_pool-In pools m.pool m.node_type)

  process-Created : (batch : List Pod) (p : Provisioner) → Created batch (process w batch p).1
  process-Created [] p = tt
  process-Created (q ∷ batch) p =
      elim (Bool-cases
        (leb (count_pending_gpu_pods (w.list_pods 0)) (count_active_claims (w.list_claims 0)))) [
          | inl enough ↦ rw (enough, process) tt
          | inr few ↦
              rw (few, process) (create_among-Created q batch w.list_pools p (ground arith) refl)
        ]

  -- A batch creates a claim only where the pods can be listed and either fewer listed claims are not
  -- Terminated than pods wait for a GPU, or the first list of claims fails and a pod waits; only at a
  -- listed pool whose limits on nodes, GPUs and cost leave room by the second list of claims, which
  -- succeeds; and the claim asks for as many GPUs as the pods together.
  pub process_batch-Within :
      (p : Provisioner) (c : Claim) → (process_batch w p).1 ≡ some c → Within p.pending_batch c
  unfolding process_batch
  process_batch-Within p c e =
      subst (Created p.pending_batch) e
        (process-Created p.pending_batch (record p { pending_batch = []; has_timer = false }))

  -- Where the pods of a batch ask for two GPUs or more together, the coordinator's filter drops every
  -- offer for the claim that the batch creates, whatever the pool is: the claim asks for so many
  -- GPUs and allows one.
  pub process_batch_unserved :
      (p : Provisioner) (c : Claim) (pool : Pool) (offers : List Offer) (o : Offer)
      → (process_batch w p).1 ≡ some c
      → 2 ≤ total_gpus (map (extract_gpu_requirements w.parse_price) p.pending_batch)
      → ¬ In o (filter_by_requirements offers (claim_requirements c pool))
  unfolding claim_requirements
  process_batch_unserved p c pool offers o e many i =
      let within = process_batch-Within p c e in
      let meets = ((filter_by_requirements_iff offers (claim_requirements c pool) o).0 i).1 in
      absurd (omega (arith, meets.enough_gpus, meets.single_gpu within.single, within.gpus, many))
