-- ===== src/Demand/Redis.antt =====
-- internal/controller/demandstore.go: the calls of the Redis client. The `World` says which of them
-- fail; `Keys` lists the keys in the order of the association list, which stands for any order. The
-- keys that are written with a time to live, `gpuscale:instance_…`, are kept apart from the others.
pub mod Keyspace
pub mod Runs
use gpuscale.Prelude.{
  ℕ, suc, ◌+◌, Bool, true, false, ltb, if◌then◌else◌, List, [], ◌∷◌, ◌++◌, Option, none, some, Text,
  text_eq, has_prefix, lookup, insert, delete_if,
}
use gpuscale.Provider.{Error}
use gpuscale.Demand.Json.{Value}

pub record World : Type 0 where
  -- Neither the store nor its client is nil.
  pub connected : Bool
  pub failure : ℕ → Option Error
  pub clock : ℕ → ℕ
  -- The text of a time as RFC 3339.
  pub time_text : ℕ → Text
  -- The bytes of a value, and the error of reading it as something that it is not.
  pub bytes : Value → Text
  pub parse_error : Value → Error

pub record Db : Type 0 where
  pub strings : List (Text × Value)
  -- With the time at which the key is gone.
  pub expiring : List (Text × (Value × ℕ))
  -- The hashes `gpu_api:model_config` and `gpu_api:gpu_specs`
  pub configs : List (Text × Value)
  pub specs : List (Text × Value)
  -- The lengths of the lists
  pub queues : List (Text × ℕ)
  -- Channel and message, newest first
  pub published : List (Text × Text)
  pub asked : ℕ

-- A call that may fail, and changes the database.
pub data Run {ℓ} (A : Type ℓ) : Type ℓ where
  gave : A → Db → Run A
  failed : Error → Db → Run A

abbrev pub M : Type 0 → Type 0
M A = Db → Run A

abbrev pub return : {A : Type 0} → A → M A
return a db = gave a db

abbrev pub raise : {A : Type 0} → Error → M A
raise e db = failed e db

infixl 5 ◌>>=◌ ◌>>◌
abbrev pub ◌>>=◌ : {A B : Type 0} → M A → (A → M B) → M B
◌>>=◌ m f db = elim (m db) [ gave a d ↦ f a d | failed e d ↦ failed e d ]

abbrev pub ◌>>◌ : {B : Type 0} → M (Unit {0}) → M B → M B
m >> k = m >>= λ _. k

-- `fmt.Errorf("text: %w", err)` around what a call returns.
abbrev pub wrapped : {A : Type 0} → Text → M A → M A
wrapped text m db = elim (m db) [
  | gave a d ↦ gave a d
  | failed e d ↦ failed (record e { message = text ++ e.message }) d
]

-- `v, _ :=` and `if err != nil { return v }`: the value in place of the error.
abbrev pub or_else : {A : Type 0} → A → M A → M A
or_else v m db = elim (m db) [ gave a d ↦ gave a d | failed e d ↦ gave v d ]

-- A `for` loop whose body may return from the function with an error.
unfoldable pub for_each : {A : Type 0} → (A → M (Unit {0})) → List A → M (Unit {0})
for_each f [] db = gave tt db
for_each f (x ∷ xs) db = elim (f x db) [ gave u d ↦ for_each f xs d | failed e d ↦ failed e d ]

abbrev pub later : Db → Db
later db = record db { asked = suc db.asked }

abbrev pub with_prefix : Text → List (Text × Value) → List Text
with_prefix p [] = []
with_prefix p ((k, v) ∷ m) = if has_prefix k p then k ∷ with_prefix p m else with_prefix p m

module _ (w : World) where
  -- A call that changes the database by `f` and gives `a`, unless it fails.
  abbrev pub call : {A : Type 0} → (Db → A) → (Db → Db) → M A
  call a f db = elim (w.failure db.asked) [
    | some e ↦ failed e (later db)
    | none ↦ gave (a db) (later (f db))
  ]

  -- `Get`, with none for `redis.Nil`.
  unfoldable pub get : Text → M (Option Value)
  get key = call (λ db. lookup key db.strings) (λ db. db)

  abbrev pub live : ℕ → Option (Value × ℕ) → Option Value
  live now none = none
  live now (some (v, end)) = if ltb now end then some v else none

  unfoldable pub get_expiring : Text → M (Option Value)
  get_expiring key = call (λ db. live (w.clock db.asked) (lookup key db.expiring)) (λ db. db)

  unfoldable pub set : Text → Value → M (Unit {0})
  set key v = call (λ db. tt) (λ db. record db { strings = insert key v db.strings })

  unfoldable pub set_expiring : Text → Value → ℕ → M (Unit {0})
  set_expiring key v ttl =
      call (λ db. tt)
        (λ db. record db { expiring = insert key (v, w.clock db.asked + ttl) db.expiring })

  unfoldable pub del : Text → M (Unit {0})
  del key =
      call (λ db. tt) (λ db. record db { strings = delete_if (λ j v. text_eq j key) db.strings })

  abbrev is_some : Option Value → Bool
  is_some none = false
  is_some (some v) = true

  unfoldable pub exists : Text → M Bool
  exists key = call (λ db. is_some (lookup key db.strings)) (λ db. db)

  -- `Keys` with the pattern `prefix*`.
  unfoldable pub keys : Text → M (List Text)
  keys prefix = call (λ db. with_prefix prefix db.strings) (λ db. db)

  unfoldable pub hget_config : Text → M (Option Value)
  hget_config field = call (λ db. lookup field db.configs) (λ db. db)

  unfoldable pub hget_spec : Text → M (Option Value)
  hget_spec field = call (λ db. lookup field db.specs) (λ db. db)

  unfoldable pub all_configs : M (List (Text × Value))
  all_configs = call (λ db. db.configs) (λ db. db)

  abbrev or_zero : Option ℕ → ℕ
  or_zero none = 0
  or_zero (some n) = n

  unfoldable pub llen : Text → M ℕ
  llen key = call (λ db. or_zero (lookup key db.queues)) (λ db. db)

  unfoldable pub publish : Text → Text → M (Unit {0})
  publish channel message =
      call (λ db. tt) (λ db. record db { published = (channel, message) ∷ db.published })
