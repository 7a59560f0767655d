-- ===== src/Demand/Volumes.antt =====
-- internal/controller/demandstore.go: the volume registry, by which a cloud provider finds a disk that
-- already holds a model.
pub mod Reuse
pub mod Register
pub mod Interface
pub mod Frames
pub mod Waiting
use gpuscale.Prelude.{
  ℕ, ◌+◌, ◌*◌, Bool, true, false, not, ◌&&◌, ◌||◌, ltb, ◌==◌, if◌then◌else◌, List, [], ◌∷◌, ◌++◌,
  Option, none, some, Text, txt, text_eq,
}
use gpuscale.Demand.Json.{Value, plain, int, object, VolumeInfo, marshal_volume, unmarshal_volume}
use gpuscale.Demand.Redis.{
  World, M, gave, failed, return, ◌>>=◌, ◌>>◌, or_else, for_each, get, set, del, keys, get_expiring,
  set_expiring,
}
use gpuscale.Demand.Registry.{if_named}

abbrev pub volume_prefix : Text
volume_prefix = txt "gpuscale:volume:"

abbrev pub volume_key : Text → Text
volume_key id = volume_prefix ++ id

abbrev pub instance_model_key : Text → Text
instance_model_key id = txt "gpuscale:instance_model:" ++ id

abbrev pub instance_disk_key : Text → Text
instance_disk_key id = txt "gpuscale:instance_disk:" ++ id

-- `24*time.Hour`
abbrev pub day : ℕ
day = 86400 * 1000000000

module _ (w : World) where
  unfoldable pub register_instance_model : Text → Text → M (Unit {0})
  register_instance_model instance_id model =
      if_named w tt instance_id (set_expiring w (instance_model_key instance_id) (plain model) day)

  abbrev pub bytes_or_empty : Option Value → Text
  bytes_or_empty none = []
  bytes_or_empty (some (plain t)) = t
  bytes_or_empty (some (int n)) = w.bytes (int n)
  bytes_or_empty (some (object fs)) = w.bytes (object fs)

  unfoldable pub get_instance_model : Text → M Text
  get_instance_model instance_id = if_named w [] instance_id (
      or_else []
        (get_expiring w (instance_model_key instance_id) >>= λ v. return (bytes_or_empty v)))

  unfoldable pub set_instance_disk_size : Text → ℕ → M (Unit {0})
  set_instance_disk_size instance_id size =
      if_named w tt instance_id (set_expiring w (instance_disk_key instance_id) (int size) day)

  abbrev pub int_or_zero : Option Value → ℕ
  int_or_zero (some (int n)) = n
  int_or_zero (some (plain t)) = 0
  int_or_zero (some (object fs)) = 0
  int_or_zero none = 0

  unfoldable pub get_instance_disk_size : Text → M ℕ
  get_instance_disk_size instance_id =
      if_named w 0 instance_id
        (or_else 0 (get_expiring w (instance_disk_key instance_id) >>= λ v. return (int_or_zero v)))

  abbrev pub new_volume : Text → Text → Text → ℕ → Text → VolumeInfo
  new_volume id model instance_id size created = record {
    volume_id = id;
    model_id = model;
    instance_id = instance_id;
    provider = [];
    created_at = created;
    size_gb = size;
    bootstrap_succeeded = false;
  }

  unfoldable pub register_volume : Text → Text → Text → ℕ → M (Unit {0})
  register_volume id model instance_id size db =
      let info = new_volume id model instance_id size (w.time_text (w.clock db.asked)) in
      if_named w tt id (set w (volume_key id) (marshal_volume info)) db

  -- `Get` and `json.Unmarshal`, with none where the loop continues.
  abbrev pub as_volume : Option Value → Option VolumeInfo
  as_volume none = none
  as_volume (some v) = unmarshal_volume v

  unfoldable pub read_volume : Text → M (Option VolumeInfo)
  read_volume key = or_else none (get w key >>= λ v. return (as_volume v))

  -- The body of the loop of `MarkVolumeReady`.
  abbrev pub mark_if : Text → Text → Option VolumeInfo → M (Unit {0})
  mark_if instance_id key none = return tt
  mark_if instance_id key (some info) =
      if text_eq info.instance_id instance_id && not info.bootstrap_succeeded
      then or_else tt (set w key (marshal_volume (record info { bootstrap_succeeded = true })))
      else return tt

  unfoldable pub mark_one : Text → Text → M (Unit {0})
  unfolding read_volume
  mark_one instance_id key = read_volume key >>= λ info. mark_if instance_id key info

  unfoldable pub mark_volume_ready : Text → M (Unit {0})
  mark_volume_ready instance_id =
      if_named w tt instance_id
        (keys w volume_prefix >>= λ existing. for_each (mark_one instance_id) existing)

  -- The tests of the loop of `FindVolumeForModel`.
  unfoldable pub is_suitable : Text → ℕ → VolumeInfo → Bool
  is_suitable model min_disk v =
      if not (text_eq v.model_id model)
      then false
      else if not v.bootstrap_succeeded
      then false
      else not (ltb 0 min_disk && (ltb 0 v.size_gb && ltb v.size_gb min_disk))

  abbrev pub is_match : Text → ℕ → Option VolumeInfo → Bool
  is_match model min_disk none = false
  is_match model min_disk (some v) = is_suitable model min_disk v

  abbrev pub id_of : Option VolumeInfo → Text
  id_of none = []
  id_of (some v) = v.volume_id

  unfoldable pub find_among : Text → ℕ → List Text → M Text
  unfolding read_volume is_suitable
  find_among model min_disk [] db = gave [] db
  find_among model min_disk (key ∷ rest) db = elim (read_volume key db) [
    | failed e d ↦ failed e d
    | gave info d ↦ elim (is_match model min_disk info) [
      | true ↦ gave (id_of info) d
      | false ↦ find_among model min_disk rest d
    ]
  ]

  unfoldable pub find_volume_for_model : Text → ℕ → M Text
  unfolding find_among
  find_volume_for_model model min_disk =
      if_named w [] model
        (or_else [] (keys w volume_prefix >>= λ existing. find_among model min_disk existing))

  unfoldable pub unregister_volume : Text → M (Unit {0})
  unregister_volume id = if_named w tt id (del w (volume_key id))

  abbrev pub with_volume : Option VolumeInfo → List VolumeInfo → List VolumeInfo
  with_volume none rest = rest
  with_volume (some v) rest = v ∷ rest

  unfoldable pub read_volumes : List Text → M (List VolumeInfo)
  unfolding read_volume
  read_volumes [] = return []
  read_volumes (key ∷ rest) = do
    info ← read_volume key
    others ← read_volumes rest
    return (with_volume info others)

  unfoldable pub list_tracked_volumes : M (List VolumeInfo)
  unfolding read_volumes
  list_tracked_volumes =
      if w.connected
      then or_else [] (keys w volume_prefix >>= λ existing. read_volumes existing)
      else return []
