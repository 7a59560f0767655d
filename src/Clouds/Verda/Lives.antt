-- ===== src/Clouds/Verda/Lives.antt =====
-- pkg/provider/verda/provider.go, with the `DemandStore` of internal/controller/demandstore.go behind
-- its `VolumeStore` and the call of `MarkVolumeReady` in internal/controller/reconciler.go.
pub mod Frames
use gpuscale.Prelude.{
  ℕ, ◌≡◌, refl, sym, subst, ◌∙◌, ◌⊎◌, inl, inr, Bool, true, false, ◌&&◌, if◌then◌else◌, List, [],
  ◌∷◌, ◌++◌, arith, none, Text, text_eq_self, has_prefix, contains_text, lookup, Bool-cases,
}
use gpuscale.Provider.{Offer, BootstrapConfig, Result, ok, err}
use gpuscale.Demand.Redis.{Db, Run}
use gpuscale.Demand.Redis.Runs.{Run-cases}
use gpuscale.Demand.Volumes.{volume_prefix, find_volume_for_model}
use gpuscale.Demand.Volumes.Interface.{volume_store, taken}
use gpuscale.Demand.Volumes.Waiting.{Waiting, mark_volume_ready-kept, find_volume_for_model-Waiting}
use gpuscale.Clouds.Verda.Instances.{
  detached_in, from_trash, find_reusable_volume, create_instance, destroy_instance,
}
use gpuscale.Clouds.Verda.Instances.Api.{World, VolumeResponse}
use gpuscale.Demand.Redis as Redis
use gpuscale.Clouds.Verda.Lives.Frames.{create_instance-strings, destroy_instance-Waiting}

-- The database, and the instances for which `DestroyInstance` was called.
pub record Life : Type 0 where
  pub db : Db
  pub ended : List Text

module _ (r : Redis.World) where
  -- What happens to the registry of volumes. The Verda API may answer differently every time, and a
  -- node is reported ready only while its instance has not been ended.
  pub data Lives : Life → Type 0 where
    begin :
        (db : Db)
        → ((key : Text) → has_prefix key volume_prefix ≡ true → lookup key db.strings ≡ none)
        → Lives (record { db = db; ended = [] })
    bought :
        (w : World) (o : Offer) (c : BootstrapConfig) (l : Life)
        → Lives l
        → Lives (record l { db = (create_instance w (volume_store r) o c l.db).0 })
    became_ready :
        (i : Text) (l : Life)
        → contains_text i l.ended ≡ false
        → Lives l
        → Lives (record l { db = (volume_store r).mark_volume_ready i l.db })
    released :
        (w : World) (i : Text) (l : Life)
        → Lives l
        → Lives
            (record { db = (destroy_instance w (volume_store r) i l.db).0; ended = i ∷ l.ended })
    -- Any other use of the database, `UnregisterVolume` included
    elsewhere :
        (db : Db) (l : Life)
        → ((key : Text)
            → has_prefix key volume_prefix ≡ true
            → (lookup key db.strings ≡ lookup key l.db.strings) ⊎ (lookup key db.strings ≡ none))
        → Lives l
        → Lives (record l { db = db })

  more_ended :
      (i : Text) (l : Life) → Waiting l.db.strings l.ended → Waiting l.db.strings (i ∷ l.ended)
  unfolding contains_text
  more_ended i l g v t = ((g v t).0, ground (arith, (g v t).1))

  -- In every life of the registry its volumes wait for a call that has come before.
  Lives-Waiting : (l : Life) → Lives l → Waiting l.db.strings l.ended
  unfolding contains_text
  Lives-Waiting l (begin db empty) = λ v t. absurd (cc (empty t.key t.prefixed, t.stored))
  Lives-Waiting l (bought w o c k h) =
      subst (λ s. Waiting s k.ended) (sym (create_instance-strings r w o c k.db))
        (Lives-Waiting k h)
  Lives-Waiting l (became_ready i k running h) =
      let g = Lives-Waiting k h in
      subst (λ s. Waiting s k.ended) (sym (mark_volume_ready-kept r k.ended i k.db g running)) g
  Lives-Waiting l (released w i k h) =
      destroy_instance-Waiting r w (i ∷ k.ended) i (rw (text_eq_self i) refl) k.db
        (more_ended i k (Lives-Waiting k h))
  Lives-Waiting l (elsewhere db k only h) = λ v t. elim (only t.key t.prefixed) [
    | inr gone ↦ absurd (cc (gone, t.stored))
    | inl same ↦ Lives-Waiting k h v (record {
      key = t.key;
      value = t.value;
      prefixed = t.prefixed;
      stored = sym same ∙ t.stored;
      parsed = t.parsed;
    })
  ]

  never_found :
      (l : Life) (model : Text) (min_disk : ℕ)
      → Lives l
      → (taken [] (find_volume_for_model r model min_disk) l.db).1 ≡ []
  never_found l model min_disk h = elim (Run-cases (find_volume_for_model r model min_disk l.db)) [
    | inr (e, x, q) ↦ rw (q, taken) refl
    | inl (id, x, q) ↦
        rw (q, taken)
          (find_volume_for_model-Waiting r l.ended model min_disk l.db x id (Lives-Waiting l h) q)
  ]

  reuse-nothing :
      (w : World) (a : Result (List VolumeResponse)) (b : Result (List VolumeResponse))
      → (if detached_in w (volume_store r) [] a
          then ([], [])
          else from_trash w (volume_store r) [] b)
        ≡ ([], [])
  reuse-nothing w (err e) (err f) = refl
  reuse-nothing w (err e) (ok vs) = refl
  reuse-nothing w (ok us) (err f) = refl
  reuse-nothing w (ok us) (ok vs) = refl

  -- Starting from a database without volumes, whatever Redis and Verda answer: if `MarkVolumeReady` is
  -- only called for instances that `DestroyInstance` was not called for before, `findReusableVolume`
  -- never finds a volume and restores none. The volumes are registered as unready when their instance
  -- is destroyed, and nothing marks them afterwards.
  pub Lives-find_reusable_volume :
      (w : World) (l : Life) (model : Text) (min_disk : ℕ)
      → Lives l
      → (find_reusable_volume w (volume_store r) model min_disk l.db).1 ≡ ([], [])
  unfolding find_reusable_volume
  Lives-find_reusable_volume w l model min_disk h = elim (Bool-cases w.has_volume_store) [
    | inr e ↦ rw e refl
    | inl e ↦
        rw (e, never_found l model min_disk h)
          (reuse-nothing w (w.list_volumes 0) w.list_deleted_volumes)
  ]
