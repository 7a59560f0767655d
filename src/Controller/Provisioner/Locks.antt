-- ===== src/Controller/Provisioner/Locks.antt =====
-- internal/controller/provisioner.go: the pods that are provisioned for, `provisioningFor`.
use gpuscale.Prelude.{
  ◌⊎◌, ◌≡◌, refl, sym, subst, ◌∙◌, inl, inr, Bool, true, false, not, ◌&&◌, leb, if◌then◌else◌, List,
  [], ◌∷◌, ◌++◌, map, Option, none, some, Text, text_eq, text_eq_iff, text_eq_self, contains_text,
  keep, All, Bool-cases, Option-cases, arith,
}
use gpuscale.Provider.{Result, ok, err}
use gpuscale.Controller.Effects.{Reply}
use gpuscale.Scheduler.{Pod, is_gpu_pod, is_unschedulable}
use gpuscale.Controller.Claims.{Claim, Pool}
use gpuscale.Controller.Provisioner.{
  release, create_in, create_among, process, process_batch, reconcile_pod,
}
use gpuscale.Controller.Provisioner.Counts.{
  World, Provisioner, count_active_claims, count_pending_gpu_pods, check_pool_limits,
}

abbrev pub uids : List Pod → List Text
uids batch = map (λ q. q.uid) batch

-- No pod waits twice.
abbrev pub Once : List Pod → Type 0
Once [] = Unit
Once (q ∷ qs) = (contains_text q.uid (uids qs) ≡ false) × Once qs

-- The pods that wait are locked, each waits once, and the timer runs while any waits.
pub record IsQueued (p : Provisioner) : Type 0 where
  pub locked : All (λ (q : Pod). contains_text q.uid p.provisioning_for ≡ true) p.pending_batch
  pub once : Once p.pending_batch
  pub timed : (p.pending_batch ≡ []) ⊎ (p.has_timer ≡ true)

All-append : (P : Pod → Type 0) (qs : List Pod) (q : Pod) → All P qs → P q → All P (qs ++ (q ∷ []))
All-append P [] q a b = (b, tt)
All-append P (x ∷ qs) q a b = (a.0, All-append P qs q a.1 b)

All-weaken :
    (u : Text) (us : List Text) (qs : List Pod)
    → All (λ (q : Pod). contains_text q.uid us ≡ true) qs
    → All (λ (q : Pod). contains_text q.uid (u ∷ us) ≡ true) qs
unfolding contains_text
All-weaken u us [] a = tt
All-weaken u us (q ∷ qs) a = (ground (arith, a.0), All-weaken u us qs a.1)

contains-append :
    (t : Text) (qs : List Pod) (q : Pod)
    → contains_text t (uids qs) ≡ false
    → text_eq q.uid t ≡ false
    → contains_text t (uids (qs ++ (q ∷ []))) ≡ false
unfolding contains_text
contains-append t [] q a b = rw b refl
contains-append t (x ∷ qs) q a b = elim (Bool-cases (text_eq x.uid t)) [
  | inl same ↦ absurd (cc (rw same at a))
  | inr other ↦ rw other (contains-append t qs q (rw other at a) b)
]

-- A pod that is not locked is none of those that are.
other_uid :
    (us : List Text) (p q : Text)
    → contains_text p us ≡ true
    → contains_text q us ≡ false
    → text_eq q p ≡ false
other_uid us p q a b = elim (Bool-cases (text_eq q p)) [
  | inr other ↦ other
  | inl same ↦
      let e : q ≡ p = (text_eq_iff q p).0 same in
      absurd (cc (subst (λ x. contains_text x us ≡ false) e b))
]

Once-append :
    (us : List Text) (qs : List Pod) (q : Pod)
    → All (λ (x : Pod). contains_text x.uid us ≡ true) qs
    → contains_text q.uid us ≡ false
    → Once qs
    → Once (qs ++ (q ∷ []))
unfolding contains_text
Once-append us [] q a b o = (refl, tt)
Once-append us (x ∷ qs) q a b o =
    (contains-append x.uid qs q o.0 (other_uid us x.uid q.uid a.0 b), Once-append us qs q a.1 b o.1)

contains-keep :
    (f : Text → Bool) (u : Text) (us : List Text)
    → contains_text u (keep f us) ≡ (f u && contains_text u us)
unfolding contains_text
contains-keep f u [] = off (f u)
  where
    off : (b : Bool) → false ≡ (b && false)
    off true = refl
    off false = refl
contains-keep f u (x ∷ us) = elim (Bool-cases (text_eq x u)) [
  | inr other ↦ elim (Bool-cases (f x)) [
    | inl kept ↦ rw (kept, other) (contains-keep f u us)
    | inr gone ↦ rw (gone, other) (contains-keep f u us)
  ]
  | inl same ↦
      let e : x ≡ u = (text_eq_iff x u).0 same in
      elim (Bool-cases (f u)) [
        | inl kept ↦
            let f_x : f x ≡ true = subst (λ y. f y ≡ true) (sym e) kept in rw (f_x, same, kept) refl
        | inr gone ↦
            let f_x : f x ≡ false = subst (λ y. f y ≡ false) (sym e) gone in
            rw (f_x, same) (contains-keep f u us ∙ (rw gone refl))
      ]
]

queued :
    (pod : Pod) (p : Provisioner)
    → IsQueued p
    → contains_text pod.uid p.provisioning_for ≡ false
    → IsQueued (record p {
      pending_batch = p.pending_batch ++ (pod ∷ []);
      provisioning_for = pod.uid ∷ p.provisioning_for;
      has_timer = true;
    })
unfolding contains_text
queued pod p h new = record {
  locked =
      All-append _ p.pending_batch pod
        (All-weaken pod.uid p.provisioning_for p.pending_batch h.locked)
        (rw (text_eq_self pod.uid) refl);
  once = Once-append p.provisioning_for p.pending_batch pod h.locked new h.once;
  timed = inr refl;
}

-- What a batch leaves of the queue and of the locks, and whether it created a claim.
pub data Left (batch : List Pod) (p : Provisioner) : Provisioner × Option Claim → Type 0 where
  unlocked :
      (q : Provisioner)
      → q.pending_batch ≡ p.pending_batch
      → ((u : Text)
          → contains_text u q.provisioning_for
            ≡ (not (contains_text u (uids batch)) && contains_text u p.provisioning_for))
      → Left batch p (q, none)
  created :
      (q : Provisioner) (c : Claim)
      → q.pending_batch ≡ p.pending_batch
      → q.provisioning_for ≡ p.provisioning_for
      → Left batch p (q, some c)

module _ (w : World) where
  -- A pod that is reconciled leaves the queue in order: every waiting pod is locked and waits once, and
  -- the timer runs while a pod waits.
  pub reconcile_pod-IsQueued :
      (pod : Pod) (p : Provisioner) → IsQueued p → IsQueued (reconcile_pod w pod p).0
  unfolding reconcile_pod
  reconcile_pod-IsQueued pod p h = unless_so pod.is_pending _ _ h (
      unless_so (is_gpu_pod pod) _ _ h (
        unless_so (is_unschedulable pod) _ _ h (
          when_so
            (leb (count_pending_gpu_pods (w.list_pods 0)) (count_active_claims (w.list_claims 0))) _
            _ h
            (elim (Bool-cases (contains_text pod.uid p.provisioning_for)) [
              | inl known ↦ rw known h
              | inr new ↦ rw new (queued pod p h new)
            ]))))
    where
      unless_so :
          (b : Bool) (x y : Provisioner × Reply)
          → IsQueued x.0
          → IsQueued y.0
          → IsQueued (if not b then x else y).0
      unless_so true x y j i = i
      unless_so false x y j i = j

      when_so :
          (b : Bool) (x y : Provisioner × Reply)
          → IsQueued x.0
          → IsQueued y.0
          → IsQueued (if b then x else y).0
      when_so true x y j i = j
      when_so false x y j i = i

  release-Left : (batch : List Pod) (p : Provisioner) → Left batch p (release batch p, none)
  unfolding release
  release-Left batch p =
      unlocked (release batch p) refl
        (λ u. contains-keep (λ t. not (contains_text t (uids batch))) u p.provisioning_for)

  create_in-Left :
      (batch : List Pod) (found : Option Pool) (p : Provisioner)
      → Left batch p (create_in w batch found p)
  create_in-Left batch none p = release-Left batch p
  create_in-Left batch (some pool) p =
      elim (Bool-cases (check_pool_limits (w.list_claims 1) pool)) [
        | inr full ↦ rw (full, create_in) (release-Left batch p)
        | inl room ↦ elim (Option-cases w.create_error) [
          | inr (e, h) ↦ rw (room, create_in) (rw (h, create_in) (release-Left batch p))
          | inl h ↦ rw (room, create_in) (rw (h, create_in) (created p _ refl refl))
        ]
      ]

  create_among-Left :
      (batch : List Pod) (r : Result (List Pool)) (p : Provisioner)
      → Left batch p (create_among w batch r p)
  create_among-Left batch (err e) p = release-Left batch p
  create_among-Left batch (ok pools) p = create_in-Left batch _ p

  process-Left : (batch : List Pod) (p : Provisioner) → Left batch p (process w batch p)
  unfolding contains_text
  process-Left [] p = unlocked p refl (λ u. refl)
  process-Left (q ∷ batch) p =
      elim (Bool-cases
        (leb (count_pending_gpu_pods (w.list_pods 0)) (count_active_claims (w.list_claims 0)))) [
          | inl enough ↦ rw (enough, process) (release-Left (q ∷ batch) p)
          | inr few ↦ rw (few, process) (create_among-Left (q ∷ batch) w.list_pools p)
        ]

  -- A batch empties the queue. Where it creates no claim, it unlocks exactly the pods of the batch;
  -- where it creates one, it unlocks none.
  pub process_batch-Left :
      (p : Provisioner)
      → Left p.pending_batch
          (record p { pending_batch = []; has_timer = false })
          (process_batch w p)
  unfolding process_batch
  process_batch-Left p =
      process-Left p.pending_batch (record p { pending_batch = []; has_timer = false })
