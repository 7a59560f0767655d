-- ===== src/Clouds/Verda/Lives/Frames.antt =====
-- pkg/provider/verda/provider.go, with the `DemandStore` of internal/controller/demandstore.go
-- behind its `VolumeStore`: what an operation does to the registry of volumes.
use gpuscale.Prelude.{
  ℕ, ◌≡◌, refl, sym, ap, subst, ◌∙◌, inl, inr, Bool, true, false, not, ◌&&◌, ltb, if◌then◌else◌,
  List, [], ◌∷◌, ◌++◌, txt, Option, none, some, Text, text_eq, is_empty, contains_text, Bool-cases,
}
use gpuscale.Provider.{Offer, BootstrapConfig, Error, Result, ok, err}
use gpuscale.Demand.Redis.{Db, M, Run}
use gpuscale.Demand.Redis.Runs.{Run-cases, left}
use gpuscale.Demand.Volumes.{
  register_instance_model, set_instance_disk_size, get_instance_model, get_instance_disk_size,
  find_volume_for_model, register_volume,
}
use gpuscale.Demand.Volumes.Interface.{volume_store, taken, after}
use gpuscale.Demand.Volumes.Frames.{
  Reads, register_instance_model-Reads, get_instance_model-Reads, set_instance_disk_size-Reads,
  get_instance_disk_size-Reads, find_volume_for_model-Reads,
}
use gpuscale.Demand.Volumes.Waiting.{Waiting, register_volume-Waiting}
use gpuscale.Clouds.Verda.Instances.{
  find_reusable_volume, track, created_as, with_keys, with_script, create_instance,
  register_volumes, register_listed, register_for, remember_volumes, deleted_after,
  destroy_instance, create_request,
}
use gpuscale.Clouds.Verda.Instances.Api.{
  World, VolumeResponse, Action, CreateInstanceRequest, InstanceResponse,
}
use gpuscale.Demand.Redis as Redis

module _ (r : Redis.World) where
  taken-Reads :
      {A : Type 0} (v : A) (m : M A) (d : Db) → Reads m → (taken v m d).0.strings ≡ d.strings
  taken-Reads v m d h = elim (Run-cases (m d)) [
    | inl (a, e, q) ↦ rw (q, taken) (ap (λ x. (left x).strings) (sym q) ∙ h d)
    | inr (x, e, q) ↦ rw (q, taken) (ap (λ x. (left x).strings) (sym q) ∙ h d)
  ]

  module _ (w : World) where
    if-strings :
        (b : Bool) (x y d : Db)
        → x.strings ≡ d.strings
        → y.strings ≡ d.strings
        → (if b then x else y).strings ≡ d.strings
    if-strings true x y d h k = h
    if-strings false x y d h k = k

    track-strings :
        (c : BootstrapConfig) (id : Text) (d : Db)
        → (track w (volume_store r) c id d).strings ≡ d.strings
    unfolding track
    track-strings c id d =
        let told = after (register_instance_model r id c.model_id) d in
        let registered = register_instance_model-Reads r id c.model_id d in
        if-strings (w.has_volume_store && not (is_empty c.model_id))
          (if ltb 0 c.min_disk then after (set_instance_disk_size r id c.min_disk) told else told) d
          d
          (if-strings (ltb 0 c.min_disk) (after (set_instance_disk_size r id c.min_disk) told) told
            d (set_instance_disk_size-Reads r id c.min_disk told ∙ registered) registered)
          refl

    find_reusable_volume-strings :
        (model : Text) (min_disk : ℕ) (d : Db)
        → (find_reusable_volume w (volume_store r) model min_disk d).0.strings ≡ d.strings
    unfolding find_reusable_volume
    find_reusable_volume-strings model min_disk d = elim (Bool-cases w.has_volume_store) [
      | inr e ↦ rw e refl
      | inl e ↦ rw e (
          taken-Reads [] (find_volume_for_model r model min_disk) d
            (find_volume_for_model-Reads r model min_disk))
    ]

    created_as-strings :
        (c : BootstrapConfig) (done : List Action) (q : CreateInstanceRequest) (d : Db)
        (a : Result InstanceResponse)
        → (created_as w (volume_store r) c done q d a).0.strings ≡ d.strings
    created_as-strings c done q d (err e) = refl
    created_as-strings c done q d (ok x) = track-strings c x.id d

    with_keys-strings :
        (o : Offer) (c : BootstrapConfig) (script : Text) (s : Db × (Text × List Action))
        (a : Result (List Text))
        → (with_keys w (volume_store r) o c script s a).0.strings ≡ s.0.strings
    unfolding create_request
    with_keys-strings o c script (d, (volume, done)) (err e) = refl
    with_keys-strings o c script (d, (volume, done)) (ok keys) =
        let q = create_request w (volume_store r) o c script keys volume in
        created_as-strings c done q d (w.create_instance q)

    with_script-strings :
        (o : Offer) (c : BootstrapConfig) (d : Db) (a : Result Text)
        → (with_script w (volume_store r) o c d a).0.strings ≡ d.strings
    with_script-strings o c d (err e) = refl
    with_script-strings o c d (ok script) =
        with_keys-strings o c script
          (find_reusable_volume w (volume_store r) c.model_id c.min_disk d) w.list_ssh_keys
        ∙ find_reusable_volume-strings c.model_id c.min_disk d

    -- Buying an instance leaves the registry of volumes alone.
    pub create_instance-strings :
        (o : Offer) (c : BootstrapConfig) (d : Db)
        → (create_instance w (volume_store r) o c d).0.strings ≡ d.strings
    unfolding create_instance
    create_instance-strings o c d = elim (Bool-cases (is_empty c.on_start_script)) [
      | inl e ↦ rw e refl
      | inr e ↦ rw e (
          with_script-strings o c d
            (w.create_startup_script (txt "gpuscale-" ++ c.instance_id) c.on_start_script))
    ]

    module _ (ended : List Text) (i : Text) (gone : contains_text i ended ≡ true) where
      abbrev IsWaiting : Db → Type 0
      IsWaiting d = Waiting d.strings ended

      kept : (x d : Db) → x.strings ≡ d.strings → IsWaiting d → IsWaiting x
      kept x d e g = subst (λ s. Waiting s ended) (sym e) g

      register_volumes-Waiting :
          (model : Text) (size : ℕ) (vs : List VolumeResponse) (d : Db)
          → IsWaiting d
          → IsWaiting (register_volumes w (volume_store r) i model size vs d)
      unfolding register_volumes
      register_volumes-Waiting model size [] d g = g
      register_volumes-Waiting model size (v ∷ vs) d g =
          register_volumes-Waiting model size vs
            (if text_eq v.instance_id i && v.is_os_volume then registered else d)
            (decide (text_eq v.instance_id i && v.is_os_volume))
        where
          registered : Db
          registered = after (register_volume r v.id model i size) d

          decide : (b : Bool) → IsWaiting (if b then registered else d)
          decide true = register_volume-Waiting r ended v.id model i size d gone g
          decide false = g

      register_listed-Waiting :
          (model : Text) (size : ℕ) (a : Result (List VolumeResponse)) (d : Db)
          → IsWaiting d
          → IsWaiting (register_listed w (volume_store r) i model size a d)
      register_listed-Waiting model size (err e) d g = g
      register_listed-Waiting model size (ok vs) d g = register_volumes-Waiting model size vs d g

      register_for-Waiting :
          (d : Db) (model : Text)
          → IsWaiting d
          → IsWaiting (register_for w (volume_store r) i (d, model))
      register_for-Waiting d model g = elim (Bool-cases (is_empty model)) [
        | inl e ↦ rw e g
        | inr e ↦
            let (x, size) = taken 0 (get_instance_disk_size r i) d in
            let same =
              taken-Reads 0 (get_instance_disk_size r i) d (get_instance_disk_size-Reads r i) in
            rw e (register_listed-Waiting model size (w.list_volumes 0) x (kept x d same g))
      ]

      remember_volumes-Waiting :
          (d : Db) → IsWaiting d → IsWaiting (remember_volumes w (volume_store r) i d)
      unfolding remember_volumes
      remember_volumes-Waiting d g = elim (Bool-cases w.has_volume_store) [
        | inr e ↦ rw e g
        | inl e ↦
            let (x, model) = taken [] (get_instance_model r i) d in
            let same = taken-Reads [] (get_instance_model r i) d (get_instance_model-Reads r i) in
            rw e (register_for-Waiting x model (kept x d same g))
      ]

      deleted_after-Waiting :
          (d : Db) (a : Option Error)
          → IsWaiting d
          → IsWaiting (deleted_after w (volume_store r) i d a).0
      deleted_after-Waiting d none g = g
      deleted_after-Waiting d (some e) g = g

      -- What ends an instance leaves only volumes that wait.
      pub destroy_instance-Waiting :
          (d : Db) → IsWaiting d → IsWaiting (destroy_instance w (volume_store r) i d).0
      unfolding destroy_instance
      destroy_instance-Waiting d g =
          deleted_after-Waiting (remember_volumes w (volume_store r) i d) (w.delete_error i)
            (remember_volumes-Waiting d g)
