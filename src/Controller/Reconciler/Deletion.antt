-- ===== src/Controller/Reconciler/Deletion.antt =====
-- internal/controller/reconciler.go: how a deleted claim is let go, `handleDeletion`.
use gpuscale.Prelude.{
  ◌≡◌, refl, ◌⊎◌, inl, inr, Bool, true, false, not, ◌&&◌, if◌then◌else◌, List, [], ◌∷◌, Option,
  none, some, Text, txt, text_eq, is_empty, contains_text, keep, Bool-cases, Option-cases, In,
}
use gpuscale.Provider.{Error}
use gpuscale.Controller.Claims.{resolve_claim_provider}
use gpuscale.Controller.Effects.{
  World, Store, Reply, done, fault, write_claim, destroy, destroyed, destroy_failed, remove_worker,
  worker_removed, remove_loaded_models,
}
use gpuscale.Controller.Effects.Kept.{
  Keeps, Keeps-trans, emit_if-Keeps, destroy-Keeps, remove_loaded_models-Keeps,
}
use gpuscale.Controller.Effects.Grown.{
  Grows, emit_if-Grows, remove_loaded_models-Grows, write_claim-Grows,
}
use gpuscale.Controller.Reconciler.Ending.{
  finalizer, destroy_on_deletion, destroy_if_known, remove_finalizer, reply_to_write,
  handle_deletion,
}

contains_text-keep :
    (f : Text) (fs : List Text) → contains_text f (keep (λ g. not (text_eq g f)) fs) ≡ false
unfolding contains_text
contains_text-keep f [] = refl
contains_text-keep f (g ∷ fs) = elim (Bool-cases (text_eq g f)) [
  | inl e ↦ rw e (contains_text-keep f fs)
  | inr e ↦ rw e (rw e (contains_text-keep f fs))
]

module _ (w : World) where
  -- The provider was asked to destroy the claim's instance, whether or not it did.
  pub Attempted : Store → Store → Type 0
  Attempted s t =
      In (destroyed (resolve_claim_provider s.claim) s.claim.status.instance_id) t.log
      ⊎ In (destroy_failed (resolve_claim_provider s.claim) s.claim.status.instance_id) t.log

  -- The server's copy has lost the finalizer, or it is as it was and the error is returned.
  pub LetGo : Store → Store × Reply → Type 0
  LetGo s r =
      ((r.1 ≡ done) × (contains_text finalizer r.0.stored.finalizers ≡ false))
      ⊎ ((e : Error) × (r.1 ≡ fault e) × (r.0.stored ≡ s.stored))

  destroy-Attempted :
      (s : Store)
      → Attempted s (destroy w (resolve_claim_provider s.claim) s.claim.status.instance_id s).0
  unfolding destroy Attempted
  destroy-Attempted s =
      let p = resolve_claim_provider s.claim in
      let i = s.claim.status.instance_id in
      elim (Option-cases (w.destroy_error s.asked p i)) [
        | inl e ↦ rw (e, destroy) (inl (inl refl))
        | inr (x, e) ↦ rw (e, destroy) (inr (inl refl))
      ]

  -- What `handleDeletion` does before it takes the finalizer off.
  cleaned : Store → Store
  cleaned s = remove_loaded_models w (remove_worker w (destroy_on_deletion w s))

  release : Store → Store × Reply
  release t = reply_to_write w (write_claim w (remove_finalizer w t))

  release-LetGo : (s t : Store) → t.stored ≡ s.stored → LetGo s (release t)
  unfolding write_claim LetGo release
  release-LetGo s t k = elim (Option-cases (w.write_error t.asked)) [
    | inl e ↦ rw (e, write_claim) (inl (refl, contains_text-keep finalizer t.claim.finalizers))
    | inr (x, e) ↦ rw (e, write_claim) (inr (x, refl, k))
  ]

  grow-Attempted : (s t u : Store) → Grows t u → Attempted s t → Attempted s u
  unfolding Attempted
  grow-Attempted s t u g (inl i) = inl (g _ i)
  grow-Attempted s t u g (inr i) = inr (g _ i)

  reply_to_write-Attempted :
      (s : Store) (r : Store × Option Error) → Attempted s r.0 → Attempted s (reply_to_write w r).0
  reply_to_write-Attempted s (t, some e) a = a
  reply_to_write-Attempted s (t, none) a = a

  release-Attempted : (s t : Store) → Attempted s t → Attempted s (release t).0
  unfolding release Attempted
  release-Attempted s t a = reply_to_write-Attempted s _ (
      grow-Attempted s (remove_finalizer w t) (write_claim w (remove_finalizer w t)).0
        (write_claim-Grows w (remove_finalizer w t)) (same a))
    where
      same : Attempted s t → Attempted s (remove_finalizer w t)
      same b = b

  cleaned-Attempted : (s : Store) → Attempted s (destroy_on_deletion w s) → Attempted s (cleaned s)
  unfolding cleaned
  cleaned-Attempted s a =
      let t = destroy_on_deletion w s in
      grow-Attempted s (remove_worker w t) (cleaned s)
        (remove_loaded_models-Grows w (remove_worker w t))
        (grow-Attempted s t (remove_worker w t)
          (emit_if-Grows w.has_worker_store (worker_removed t.claim.name) t) a)

  destroy_if_known-Keeps : (p i : Text) (s : Store) → Keeps s (destroy_if_known w p i s)
  destroy_if_known-Keeps p i s = elim (Bool-cases (w.registered p)) [
    | inl e ↦ rw e (destroy-Keeps w p i s)
    | inr e ↦ rw e (refl, refl)
  ]

  destroy_on_deletion-Keeps : (s : Store) → Keeps s (destroy_on_deletion w s)
  unfolding destroy_on_deletion
  destroy_on_deletion-Keeps s = guarded (
      not (is_empty s.claim.status.instance_id)
      && (not (text_eq s.claim.status.instance_id (txt "0"))
          && not (is_empty (resolve_claim_provider s.claim))))
    where
      guarded :
          (b : Bool)
          → Keeps s (
              if b
              then destroy_if_known w (resolve_claim_provider s.claim) s.claim.status.instance_id s
              else s)
      guarded true = destroy_if_known-Keeps _ _ s
      guarded false = (refl, refl)

  cleaned-Keeps : (s : Store) → Keeps s (cleaned s)
  unfolding cleaned
  cleaned-Keeps s =
      let t = destroy_on_deletion w s in
      let u = remove_worker w t in
      Keeps-trans s t (cleaned s) (destroy_on_deletion-Keeps s) (
        Keeps-trans t u (cleaned s)
          (emit_if-Keeps w.has_worker_store (worker_removed t.claim.name) t)
          (remove_loaded_models-Keeps w u))

  deletion-Attempted :
      (s : Store)
      → is_empty s.claim.status.instance_id ≡ false
      → text_eq s.claim.status.instance_id (txt "0") ≡ false
      → is_empty (resolve_claim_provider s.claim) ≡ false
      → w.registered (resolve_claim_provider s.claim) ≡ true
      → Attempted s (destroy_on_deletion w s)
  unfolding destroy_on_deletion
  deletion-Attempted s known numbered provided registered =
      rw (known, numbered, provided) (rw registered (destroy-Attempted s))

  -- A deleted claim that still has the finalizer and names an instance at a provider that is
  -- registered: the provider is asked to destroy it, and the finalizer is gone from the server's
  -- copy, unless the write fails: then that copy is as it was, and the error is returned.
  pub handle_deletion-LetGo :
      (s : Store)
      → contains_text finalizer s.claim.finalizers ≡ true
      → is_empty s.claim.status.instance_id ≡ false
      → text_eq s.claim.status.instance_id (txt "0") ≡ false
      → is_empty (resolve_claim_provider s.claim) ≡ false
      → w.registered (resolve_claim_provider s.claim) ≡ true
      → Attempted s (handle_deletion w s).0 × LetGo s (handle_deletion w s)
  unfolding handle_deletion release cleaned
  handle_deletion-LetGo s has known numbered provided registered = rw has (
    release-Attempted s (cleaned s)
        (cleaned-Attempted s (deletion-Attempted s known numbered provided registered)),
    release-LetGo s (cleaned s) (cleaned-Keeps s).1,
  )
