-- ===== src/Demand/Volumes/Register.antt =====
-- internal/controller/demandstore.go: a volume that is registered and marked ready is found again.
pub mod Marking
use gpuscale.Prelude.{
  ℕ, ◌≤◌, ◌≡◌, refl, sym, ap, ◌∙◌, ◌⊎◌, inl, inr, true, false, ◌&&◌, if◌then◌else◌, List, [], ◌∷◌,
  Option, none, some, Text, text_eq_self, is_empty, In, has_prefix, lookup, insert, lookup-insert,
  Bool-cases, arith,
}
use gpuscale.Demand.Json.{Value, VolumeInfo, marshal_volume}
use gpuscale.Demand.Json.RoundTrip.{unmarshal_volume-marshal}
use gpuscale.Demand.Redis.{
  World, Db, M, gave, ◌>>=◌, ◌>>◌, or_else, for_each, call, later, set, keys, with_prefix,
}
use gpuscale.Demand.Redis.Keyspace.{has_prefix-append}
use gpuscale.Demand.Registry.Guards.{if_named-open}
use gpuscale.Demand.Volumes.{
  volume_prefix, volume_key, new_volume, register_volume, as_volume, read_volume, mark_one,
  mark_volume_ready, is_suitable, is_match, id_of, find_among, find_volume_for_model,
}
use gpuscale.Demand.Volumes.Reuse.{Offered, read-Tracked, is_suitable-Fits, with_prefix-prefixed}
use gpuscale.Demand.Volumes.Register.Marking.{
  Answers, with_prefix-In, call-answers, read_volume-answers, set_ready, mark_all,
}

module _ (w : World) (up : Answers w) where
  -- A search that meets a key under which a volume that fits stands gives the id of one that fits.
  find_among-hit :
      (model : Text) (min_disk : ℕ) (u : VolumeInfo) (at_key : Text) (ks : List Text) (d : Db)
      → is_suitable w model min_disk u ≡ true
      → ((k : Text) → In k ks → has_prefix k volume_prefix ≡ true)
      → lookup at_key d.strings ≡ some (marshal_volume u)
      → In at_key ks
      → (r : Text) × (x : Db) × (find_among w model min_disk ks d ≡ gave r x)
        × Offered w model min_disk d.strings r
  unfolding find_among
  find_among-hit model min_disk u at_key [] d s p h i = absurd i
  find_among-hit model min_disk u at_key (k ∷ ks) d s p h i =
      let read = read_volume-answers w up k d in
      let o = as_volume w (lookup k d.strings) in
      elim (Bool-cases (is_match w model min_disk o)) [
        | inl hit ↦
            let (v, e) = matched o hit in
            (
              id_of w o,
              later d,
              rw (read, find_among) (rw (hit, find_among) refl),
              record {
                volume = v;
                tracked = read-Tracked w model min_disk k d v (p k (inl refl)) e;
                fits =
                    is_suitable-Fits w model min_disk v
                      (ap (is_match w model min_disk) (sym e) ∙ hit);
                named = ap (id_of w) (sym e);
              },
            )
        | inr miss ↦
            let (r, x, e, g) =
              find_among-hit model min_disk u at_key ks (later d) s (λ j a. p j (inr a)) h
                (rest i miss) in
            (r, x, rw (read, find_among) (rw (miss, find_among) e), g)
      ]
    where
      matched :
          (o : Option VolumeInfo)
          → is_match w model min_disk o ≡ true
          → (v : VolumeInfo) × (o ≡ some v)
      matched none e = absurd (cc e)
      matched (some v) e = (v, refl)

      rest :
          (k ≡ at_key) ⊎ In at_key ks
          → is_match w model min_disk (as_volume w (lookup k d.strings)) ≡ false
          → In at_key ks
      rest (inr j) miss = j
      rest (inl q) miss = absurd (
          cc (
            sym miss
            ∙ ap (λ k. is_match w model min_disk (as_volume w (lookup k d.strings))) q
            ∙ ap (λ o. is_match w model min_disk (as_volume w o)) h
            ∙ ap (is_match w model min_disk) (unmarshal_volume-marshal u)
            ∙ s))

  -- The registry right after the registration of `v`.
  abbrev with_record : VolumeInfo → Db → Db
  with_record v db = record db {
    strings = insert (volume_key v.volume_id) (marshal_volume v) db.strings;
  }

  register_volume-answers :
      (id model instance_id : Text) (size : ℕ) (d : Db)
      → w.connected ≡ true
      → is_empty id ≡ false
      → let v = new_volume w id model instance_id size (w.time_text (w.clock d.asked)) in
        register_volume w id model instance_id size d ≡ gave tt (later (with_record v d))
  unfolding register_volume set
  register_volume-answers id model instance_id size d c n =
      let v = new_volume w id model instance_id size (w.time_text (w.clock d.asked)) in
      ap (λ (m : M (Unit {0})). m d)
        (if_named-open w tt id (set w (volume_key id) (marshal_volume v)) c n)
      ∙ call-answers w up (λ db. tt) (with_record v) d

  keys-answers :
      {A : Type 0} (f : List Text → M A) (d : Db)
      → (keys w volume_prefix >>= f) d ≡ f (with_prefix volume_prefix d.strings) (later d)
  unfolding keys
  keys-answers f d =
      rw (call-answers w up (λ (db : Db). with_prefix volume_prefix db.strings) (λ db. db) d, ◌>>=◌)
        refl

  listed_under :
      (id : Text) (m : List (Text × Value)) (u : VolumeInfo)
      → lookup (volume_key id) m ≡ some (marshal_volume u)
      → In (volume_key id) (with_prefix volume_prefix m)
  listed_under id m u h =
      with_prefix-In volume_prefix (volume_key id) m (marshal_volume u) h
        (has_prefix-append volume_prefix id)

  mark_volume_ready-answers :
      (v : VolumeInfo) (id : Text) (d : Db)
      → w.connected ≡ true
      → is_empty v.instance_id ≡ false
      → v.bootstrap_succeeded ≡ false
      → lookup (volume_key id) d.strings ≡ some (marshal_volume v)
      → (x : Db) × (mark_volume_ready w v.instance_id d ≡ gave tt x)
        × (lookup (volume_key id) x.strings ≡ some (marshal_volume (set_ready w up v)))
  unfolding mark_volume_ready
  mark_volume_ready-answers v id d c n fresh h =
      let mark = λ (ks : List Text). for_each (mark_one w v.instance_id) ks in
      let (x, marking, ready) =
        mark_all w up v fresh (volume_key id) (with_prefix volume_prefix d.strings) (later d)
          (inl h) (inl (listed_under id d.strings v h)) in
      (
        x,
        ap (λ (m : M (Unit {0})). m d)
              (if_named-open w tt v.instance_id (keys w volume_prefix >>= mark) c n)
            ∙ keys-answers mark d
            ∙ marking,
        ready,
      )

  find_volume_for_model-answers :
      (model : Text) (min_disk : ℕ) (u : VolumeInfo) (id : Text) (d : Db)
      → w.connected ≡ true
      → is_empty model ≡ false
      → is_suitable w model min_disk u ≡ true
      → lookup (volume_key id) d.strings ≡ some (marshal_volume u)
      → (r : Text) × (y : Db) × (find_volume_for_model w model min_disk d ≡ gave r y)
        × Offered w model min_disk d.strings r
  unfolding find_volume_for_model
  find_volume_for_model-answers model min_disk u id d c n s h =
      let search_keys = λ (ks : List Text). find_among w model min_disk ks in
      let (r, y, e, g) =
        find_among-hit model min_disk u (volume_key id) (with_prefix volume_prefix d.strings)
          (later d) s (λ k i. with_prefix-prefixed volume_prefix k d.strings i) h
          (listed_under id d.strings u h) in
      (
        r,
        y,
        ap (λ (m : M Text). m d)
              (if_named-open w [] model (or_else [] (keys w volume_prefix >>= search_keys)) c n)
            ∙ rw (keys-answers search_keys d ∙ e, or_else) refl,
        g,
      )

  -- Where Redis answers: once a volume is registered for a model, with an instance that is then
  -- marked ready, a search for the model gives the id of a tracked volume that fits, where it asks for
  -- no more disk than the volume has, or for none, or where the volume's size is noted as 0, for which
  -- it may ask for any size: fitting is likewise not to be smaller, where both sizes are noted.
  pub find_volume_for_model-register :
      (id model instance_id : Text) (size min_disk : ℕ) (d : Db)
      → w.connected ≡ true
      → is_empty id ≡ false
      → is_empty model ≡ false
      → is_empty instance_id ≡ false
      → (min_disk ≡ 0) ⊎ ((size ≡ 0) ⊎ (min_disk ≤ size))
      → (x y : Db) × (r : Text) × ((register_volume w id model instance_id size
              >> mark_volume_ready w instance_id)
            d
          ≡ gave tt x)
        × (find_volume_for_model w model min_disk x ≡ gave r y)
        × Offered w model min_disk x.strings r
  unfolding is_suitable
  find_volume_for_model-register id model instance_id size min_disk d c n_id n_model n_instance
        large =
      let v = new_volume w id model instance_id size (w.time_text (w.clock d.asked)) in
      let registered = register_volume-answers id model instance_id size d c n_id in
      let (x, marking, ready) =
        mark_volume_ready-answers v id (later (with_record v d)) c n_instance refl (
          lookup-insert (volume_key id) (volume_key id) (marshal_volume v) d.strings
          ∙ rw (text_eq_self (volume_key id)) refl) in
      let (r, y, finding, offered) =
        find_volume_for_model-answers model min_disk (set_ready w up v) id x c n_model
          (rw (text_eq_self model) (ground arith)) ready in
      (x, y, r, rw (registered, ◌>>=◌) marking, finding, offered)
