-- ===== src/Demand/Volumes/Frames.antt =====
-- internal/controller/demandstore.go: which methods leave the registry of volumes alone, whatever
-- Redis answers.
use gpuscale.Prelude.{
  ℕ, ◌+◌, lookup, insert, ◌≡◌, refl, sym, ap, subst, ◌∙◌, inl, inr, List, [], ◌∷◌, none, Text,
  Bool-cases, Option-cases,
}
use gpuscale.Demand.Json.{Value, plain, int}
use gpuscale.Demand.Redis.{
  World, Db, M, return, ◌>>=◌, or_else, call, get, keys, get_expiring, set_expiring, with_prefix,
  live,
}
use gpuscale.Demand.Redis.Runs.{Run-cases, left, get-left}
use gpuscale.Demand.Registry.{if_named}
use gpuscale.Demand.Registry.Guards.{if_named-cases}
use gpuscale.Demand.Volumes.{
  volume_prefix, as_volume, bytes_or_empty, int_or_zero, instance_model_key, instance_disk_key, day,
  read_volume, find_among, is_match, register_instance_model, get_instance_model,
  set_instance_disk_size, get_instance_disk_size, find_volume_for_model,
}
use gpuscale.Demand.Volumes.Reuse.{read_volume-cases}

-- A call after which the keys without an end are as they were.
abbrev pub Reads : {A : Type 0} → M A → Type 0
Reads m = (d : Db) → (left (m d)).strings ≡ d.strings

>>=-Reads :
    {A B : Type 0} (m : M A) (f : A → M B) → Reads m → ((a : A) → Reads (f a)) → Reads (m >>= f)
>>=-Reads m f r s d = elim (Run-cases (m d)) [
  | inl (a, e, q) ↦ rw (q, ◌>>=◌) (s a e ∙ ap (λ x. (left x).strings) (sym q) ∙ r d)
  | inr (x, e, q) ↦ rw (q, ◌>>=◌) (ap (λ x. (left x).strings) (sym q) ∙ r d)
]

or_else-Reads : {A : Type 0} (v : A) (m : M A) → Reads m → Reads (or_else v m)
or_else-Reads v m r d = elim (Run-cases (m d)) [
  | inl (a, e, q) ↦ rw (q, or_else) (ap (λ x. (left x).strings) (sym q) ∙ r d)
  | inr (x, e, q) ↦ rw (q, or_else) (ap (λ x. (left x).strings) (sym q) ∙ r d)
]

module _ (w : World) where
  call-Reads :
      {A : Type 0} (a : Db → A) (f : Db → Db)
      → ((d : Db) → (f d).strings ≡ d.strings)
      → Reads (call w a f)
  call-Reads a f r d = elim (Option-cases (w.failure d.asked)) [
    | inl e ↦ rw (e, call) (r d)
    | inr (x, e) ↦ rw (e, call) refl
  ]

  if_named-Reads :
      {A : Type 0} (a : A) (name : Text) (m : M A) → Reads m → Reads (if_named w a name m)
  if_named-Reads a name m r = elim (if_named-cases w a name m) [
    | inl shut ↦ subst Reads (sym shut) (λ d. refl)
    | inr open_ ↦ subst Reads (sym open_) r
  ]

  pub keys-Reads : (p : Text) → Reads (keys w p)
  unfolding keys
  keys-Reads p = call-Reads (λ (db : Db). with_prefix p db.strings) (λ db. db) (λ d. refl)

  get-Reads : (key : Text) → Reads (get w key)
  get-Reads key d = get-left w key d

  get_expiring-Reads : (key : Text) → Reads (get_expiring w key)
  unfolding get_expiring
  get_expiring-Reads key =
      call-Reads (λ (db : Db). live w (w.clock db.asked) (lookup key db.expiring)) (λ db. db)
        (λ d. refl)

  set_expiring-Reads : (key : Text) (v : Value) (ttl : ℕ) → Reads (set_expiring w key v ttl)
  unfolding set_expiring
  set_expiring-Reads key v ttl =
      call-Reads (λ db. tt)
        (λ (db : Db). record db { expiring = insert key (v, w.clock db.asked + ttl) db.expiring })
        (λ d. refl)

  pub read_volume-Reads : (key : Text) → Reads (read_volume w key)
  unfolding read_volume
  read_volume-Reads key =
      or_else-Reads none (get w key >>= λ v. return (as_volume w v))
        (>>=-Reads (get w key) (λ v. return (as_volume w v)) (get-Reads key) (λ a d. refl))

  pub register_instance_model-Reads : (i model : Text) → Reads (register_instance_model w i model)
  unfolding register_instance_model
  register_instance_model-Reads i model =
      if_named-Reads tt i (set_expiring w (instance_model_key i) (plain model) day)
        (set_expiring-Reads (instance_model_key i) (plain model) day)

  pub get_instance_model-Reads : (i : Text) → Reads (get_instance_model w i)
  unfolding get_instance_model
  get_instance_model-Reads i =
      if_named-Reads [] i
        (or_else [] (get_expiring w (instance_model_key i) >>= λ v. return (bytes_or_empty w v)))
        (or_else-Reads []
          (get_expiring w (instance_model_key i) >>= λ v. return (bytes_or_empty w v))
          (>>=-Reads (get_expiring w (instance_model_key i)) (λ v. return (bytes_or_empty w v))
            (get_expiring-Reads (instance_model_key i)) (λ a d. refl)))

  pub set_instance_disk_size-Reads : (i : Text) (n : ℕ) → Reads (set_instance_disk_size w i n)
  unfolding set_instance_disk_size
  set_instance_disk_size-Reads i n =
      if_named-Reads tt i (set_expiring w (instance_disk_key i) (int n) day)
        (set_expiring-Reads (instance_disk_key i) (int n) day)

  pub get_instance_disk_size-Reads : (i : Text) → Reads (get_instance_disk_size w i)
  unfolding get_instance_disk_size
  get_instance_disk_size-Reads i =
      if_named-Reads 0 i
        (or_else 0 (get_expiring w (instance_disk_key i) >>= λ v. return (int_or_zero w v)))
        (or_else-Reads 0 (get_expiring w (instance_disk_key i) >>= λ v. return (int_or_zero w v)) (
          >>=-Reads (get_expiring w (instance_disk_key i)) (λ v. return (int_or_zero w v))
            (get_expiring-Reads (instance_disk_key i)) (λ a d. refl)))

  find_among-Reads :
      (model : Text) (min_disk : ℕ) (ks : List Text) → Reads (find_among w model min_disk ks)
  unfolding find_among
  find_among-Reads model min_disk [] d = refl
  find_among-Reads model min_disk (k ∷ ks) d =
      let (o, x, q) = read_volume-cases w model min_disk k d in
      let kept = ap (λ r. (left r).strings) (sym q) ∙ read_volume-Reads k d in
      elim (Bool-cases (is_match w model min_disk o)) [
        | inl hit ↦ rw (q, find_among) (rw (hit, find_among) kept)
        | inr miss ↦
            rw (q, find_among) (rw (miss, find_among) (find_among-Reads model min_disk ks x ∙ kept))
      ]

  pub find_volume_for_model-Reads :
      (model : Text) (min_disk : ℕ) → Reads (find_volume_for_model w model min_disk)
  unfolding find_volume_for_model
  find_volume_for_model-Reads model min_disk =
      let search_keys = λ (ks : List Text). find_among w model min_disk ks in
      let body = keys w volume_prefix >>= search_keys in
      if_named-Reads [] model (or_else [] body) (
        or_else-Reads [] body (
          >>=-Reads (keys w volume_prefix) search_keys (keys-Reads volume_prefix)
            (λ ks. find_among-Reads model min_disk ks)))
