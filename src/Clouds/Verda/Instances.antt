-- ===== src/Clouds/Verda/Instances.antt =====
-- pkg/provider/verda/provider.go: the life of an instance, with the disks that are used again.
-- The store's errors are not looked at; the calls on a disk are logged.
pub mod Api
use gpuscale.Clouds.Verda.Instances.Api.{
  VolumeResponse, InstanceResponse, OsVolumeRequest, CreateInstanceRequest, World, Action,
  instance_deleted, volume_deleted, volume_restored, instance_created,
}
use gpuscale.Prelude.{
  ℕ, Bool, true, false, not, ◌&&◌, ◌||◌, ltb, if◌then◌else◌, List, [], ◌∷◌, ◌++◌, map, Option, none,
  some, Text, txt, text_eq, is_empty, to_lower, contains_text,
}
use gpuscale.Provider.{Offer, BootstrapConfig, Instance, Error, Result, ok, err, instance_not_found}
use gpuscale.Clouds.Stores.{VolumeStore}

unfoldable pub normalize_status : Text → Text
normalize_status s =
    let l = to_lower s in
    if contains_text l (txt "running" ∷ txt "active" ∷ [])
    then txt "running"
    else if contains_text l (
        txt "starting"
        ∷ txt "booting"
        ∷ txt "provisioning"
        ∷ txt "creating"
        ∷ txt "pending"
        ∷ txt "scheduled"
        ∷ []
        ∷ [])
    then txt "starting"
    else if contains_text l (txt "stopped" ∷ txt "shutdown" ∷ txt "deleted" ∷ [])
    then txt "stopped"
    else txt "error"

abbrev wrap_error : Text → Error → Error
wrap_error text e = record e { message = text ++ e.message }

abbrev pub missing_script : Error
missing_script = record {
  wraps = [];
  message = txt "OnStartScript is required for standalone nodes";
}

module _ {S : Type 0} (w : World) (store : VolumeStore S) where
  -- The first loop of `findReusableVolume`.
  unfoldable pub is_detached : Text → List VolumeResponse → Bool
  is_detached id [] = false
  is_detached id (v ∷ vs) =
      (text_eq v.id id && (text_eq v.status (txt "detached") && v.is_os_volume))
      || is_detached id vs

  -- The second loop, with the disks that were restored on the way.
  unfoldable pub restore_from : Text → List VolumeResponse → Text × List Action
  restore_from id [] = ([], [])
  restore_from id (v ∷ vs) = elim (text_eq v.id id && v.is_os_volume) [
    | false ↦ restore_from id vs
    | true ↦ elim (w.restore_error v.id) [
      | none ↦ (v.id, volume_restored v.id ∷ [])
      | some e ↦ restore_from id vs
    ]
  ]

  abbrev pub from_trash : Text → Result (List VolumeResponse) → Text × List Action
  from_trash id (err e) = ([], [])
  from_trash id (ok vs) = if is_empty id then ([], []) else restore_from id vs

  abbrev pub detached_in : Text → Result (List VolumeResponse) → Bool
  detached_in id (err e) = false
  detached_in id (ok vs) = not (is_empty id) && is_detached id vs

  abbrev pub reuse : Text → Text × List Action
  reuse id =
      if detached_in id (w.list_volumes 0) then (id, []) else from_trash id w.list_deleted_volumes

  unfoldable pub find_reusable_volume : Text → ℕ → S → S × (Text × List Action)
  unfolding is_detached restore_from
  find_reusable_volume model min_disk s =
      if w.has_volume_store
      then (let (t, id) = store.find_volume_for_model model min_disk s in (t, reuse id))
      else (s, ([], []))

  abbrev or_default : Text → Text
  or_default [] = txt "ubuntu-24.04-cuda-12.8-open-docker"
  or_default (c ∷ t) = c ∷ t

  abbrev image_of : Text → Text → Text
  image_of image [] = or_default image
  image_of image (c ∷ t) = c ∷ t

  abbrev pub os_volume_of : BootstrapConfig → Option OsVolumeRequest
  os_volume_of c =
      if ltb 0 c.min_disk
      then some (record {
        name = txt "gpuscale-" ++ (c.instance_id ++ txt "-os");
        size = c.min_disk;
        on_spot_discontinue = txt "keep_detached";
      })
      else none

  unfoldable pub create_request :
      Offer → BootstrapConfig → Text → List Text → Text → CreateInstanceRequest
  create_request o c script keys volume = record {
    instance_type = o.offer_id;
    image = image_of c.image volume;
    description = txt "gpuscale " ++ (c.instance_id ++ (txt " model=" ++ c.model_id));
    ssh_key_ids = keys;
    hostname = txt "gpuscale-" ++ c.instance_id;
    startup_script_id = script;
    location_code = o.region;
    is_spot = text_eq o.capacity_type (txt "spot");
    os_volume = os_volume_of c;
  }

  -- What the store is told of a new instance.
  unfoldable pub track : BootstrapConfig → Text → S → S
  track c id s =
      if w.has_volume_store && not (is_empty c.model_id)
      then (let t = store.register_instance_model id c.model_id s in
          if ltb 0 c.min_disk then store.set_instance_disk_size id c.min_disk t else t)
      else s

  abbrev pub new_instance : Text → InstanceResponse → Instance
  new_instance endpoint r = record {
    provider_name = txt "verda";
    instance_id = r.id;
    ip = r.ip;
    endpoint = endpoint;
    status = normalize_status r.status;
    status_msg = [];
    gpu_type = r.gpu_type;
  }

  abbrev pub created_as :
      BootstrapConfig
      → List Action
      → CreateInstanceRequest
      → S
      → Result InstanceResponse
      → S × (List Action × Result Instance)
  created_as c done q s (err e) = (s, (done, err (wrap_error (txt "creating verda instance: ") e)))
  created_as c done q s (ok r) =
      (track c r.id s, (done ++ (instance_created q ∷ []), ok (new_instance [] r)))

  abbrev pub with_keys :
      Offer
      → BootstrapConfig
      → Text
      → S × (Text × List Action)
      → Result (List Text)
      → S × (List Action × Result Instance)
  with_keys o c script (s, (volume, done)) (err e) =
      (s, (done, err (wrap_error (txt "listing ssh keys: ") e)))
  with_keys o c script (s, (volume, done)) (ok keys) =
      let q = create_request o c script keys volume in created_as c done q s (w.create_instance q)

  abbrev pub with_script :
      Offer → BootstrapConfig → S → Result Text → S × (List Action × Result Instance)
  with_script o c s (err e) = (s, ([], err (wrap_error (txt "creating startup script: ") e)))
  with_script o c s (ok script) =
      with_keys o c script (find_reusable_volume c.model_id c.min_disk s) w.list_ssh_keys

  unfoldable pub create_instance : Offer → BootstrapConfig → S → S × (List Action × Result Instance)
  unfolding find_reusable_volume create_request track
  create_instance o c s =
      if is_empty c.on_start_script
      then (s, ([], err missing_script))
      else with_script o c s
          (w.create_startup_script (txt "gpuscale-" ++ c.instance_id) c.on_start_script)

  -- The loop of `DestroyInstance` over the disks.
  unfoldable pub register_volumes : Text → Text → ℕ → List VolumeResponse → S → S
  register_volumes instance_id model size [] s = s
  register_volumes instance_id model size (v ∷ vs) s = register_volumes instance_id model size vs (
      if text_eq v.instance_id instance_id && v.is_os_volume
      then store.register_volume v.id model instance_id size s
      else s)

  abbrev pub register_listed : Text → Text → ℕ → Result (List VolumeResponse) → S → S
  register_listed instance_id model size (err e) s = s
  register_listed instance_id model size (ok vs) s = register_volumes instance_id model size vs s

  abbrev pub register_for : Text → S × Text → S
  register_for instance_id (s, model) =
      if is_empty model
      then s
      else (let (t, size) = store.get_instance_disk_size instance_id s in
          register_listed instance_id model size (w.list_volumes 0) t)

  -- Before the instance goes, its disks are registered.
  unfoldable pub remember_volumes : Text → S → S
  unfolding register_volumes
  remember_volumes instance_id s =
      if w.has_volume_store
      then register_for instance_id (store.get_instance_model instance_id s)
      else s

  unfoldable pub delete_detached : List VolumeResponse → List Action
  delete_detached [] = []
  delete_detached (v ∷ vs) =
      let rest = delete_detached vs in
      if text_eq v.status (txt "detached") && v.is_os_volume
      then volume_deleted v.id ∷ rest
      else rest

  -- `cleanupDetachedVolumes`
  abbrev pub cleanup : Result (List VolumeResponse) → List Action
  cleanup (err e) = []
  cleanup (ok vs) = delete_detached vs

  abbrev pub deleted_after : Text → S → Option Error → S × (List Action × Option Error)
  deleted_after instance_id s (some e) = (s, ([], some e))
  deleted_after instance_id s none =
      (s, (instance_deleted instance_id ∷ cleanup (w.list_volumes 1), none))

  unfoldable pub destroy_instance : Text → S → S × (List Action × Option Error)
  unfolding remember_volumes delete_detached
  destroy_instance instance_id s =
      deleted_after instance_id (remember_volumes instance_id s) (w.delete_error instance_id)

  abbrev pub endpoint_of : Text → Text
  endpoint_of [] = []
  endpoint_of (c ∷ ip) = txt "http://" ++ ((c ∷ ip) ++ txt ":8000")

  abbrev pub found_as : Result (Option InstanceResponse) → Result Instance
  found_as (err e) = err e
  found_as (ok none) =
      err (record { wraps = instance_not_found ∷ []; message = txt "instance not found" })
  found_as (ok (some r)) = ok (new_instance (endpoint_of r.ip) r)

  unfoldable pub get_instance : Text → Result Instance
  get_instance id = found_as (w.get_instance id)

  abbrev pub listed_as : Result (List InstanceResponse) → Result (List Instance)
  listed_as (err e) = err e
  listed_as (ok rs) = ok (map (λ r. new_instance [] r) rs)

  unfoldable pub list_instances : Result (List Instance)
  list_instances = listed_as w.list_instances
