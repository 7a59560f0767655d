-- ===== src/Demand/Redis/Runs.antt =====
-- internal/controller/demandstore.go: what a call that succeeded has done to the database.
use gpuscale.Prelude.{
  ◌≡◌, refl, ap, ◌∙◌, ◌⊎◌, inl, inr, List, ◌∷◌, Option, Text, text_eq, insert, delete_if,
  Option-cases, lookup,
}
use gpuscale.Provider.{Error}
use gpuscale.Demand.Json.{Value}
use gpuscale.Demand.Redis.{
  World, Db, M, Run, gave, failed, ◌>>=◌, wrapped, or_else, for_each, call, later, get, set, del,
  keys, publish, with_prefix,
}

pub Run-cases :
    {A : Type 0} (r : Run A)
    → ((a : A) × (d : Db) × (r ≡ gave a d)) ⊎ ((e : Error) × (d : Db) × (r ≡ failed e d))
Run-cases (gave a d) = inl (a, d, refl)
Run-cases (failed e d) = inr (e, d, refl)

pub >>=-gave :
    {A B : Type 0} (m : M A) (f : A → M B) (d d' : Db) (b : B)
    → (m >>= f) d ≡ gave b d'
    → (a : A) × (e : Db) × (m d ≡ gave a e) × (f a e ≡ gave b d')
>>=-gave m f d d' b h = elim (Run-cases (m d)) [
  | inl (a, e, q) ↦ (a, e, q, rw (q, ◌>>=◌) at h)
  | inr (x, e, q) ↦ absurd (cc (rw (q, ◌>>=◌) at h))
]

pub wrapped-gave :
    {A : Type 0} (t : Text) (m : M A) (d d' : Db) (a : A)
    → wrapped t m d ≡ gave a d'
    → m d ≡ gave a d'
wrapped-gave t m d d' a h = elim (Run-cases (m d)) [
  | inl (b, e, q) ↦ q ∙ (rw (q, wrapped) at h)
  | inr (x, e, q) ↦ absurd (cc (rw (q, wrapped) at h))
]

pub for_each-gave :
    {A : Type 0} (f : A → M (Unit {0})) (x : A) (xs : List A) (d d' : Db) (u : Unit {0})
    → for_each f (x ∷ xs) d ≡ gave u d'
    → (v : Unit {0}) × (e : Db) × (f x d ≡ gave v e) × (for_each f xs e ≡ gave u d')
unfolding for_each
for_each-gave f x xs d d' u h = elim (Run-cases (f x d)) [
  | inl (v, e, q) ↦ (v, e, q, rw (q, for_each) at h)
  | inr (y, e, q) ↦ absurd (cc (rw (q, for_each) at h))
]

-- The database that a call left, whatever it gave.
abbrev pub left {ℓ} : {A : Type ℓ} → Run A → Db
left (gave a d) = d
left (failed e d) = d

pub or_else-left : {A : Type 0} (v : A) (m : M A) (d : Db) → left (or_else v m d) ≡ left (m d)
or_else-left v m d = elim (Run-cases (m d)) [
  | inl (a, e, q) ↦ rw (q, or_else) refl
  | inr (x, e, q) ↦ rw (q, or_else) refl
]

module _ (w : World) where
  pub call-gave :
      {A : Type 0} (a : Db → A) (f : Db → Db) (d d' : Db) (b : A)
      → call w a f d ≡ gave b d'
      → (d' ≡ later (f d)) × (b ≡ a d)
  call-gave a f d d' b h = elim (Option-cases (w.failure d.asked)) [
    | inl e ↦ let g = rw (e, call) at h in (cc g, cc g)
    | inr (x, e) ↦ absurd (cc (rw (e, call) at h))
  ]

  pub publish-strings : (c m : Text) (d : Db) → (left (publish w c m d)).strings ≡ d.strings
  unfolding publish
  publish-strings c m d = elim (Option-cases (w.failure d.asked)) [
    | inl e ↦ rw (e, call) refl
    | inr (x, e) ↦ rw (e, call) refl
  ]

  -- A call that fails changes nothing but the count of the calls.
  pub call-failed :
      {A : Type 0} (a : Db → A) (f : Db → Db) (d d' : Db) (e : Error)
      → call w a f d ≡ failed e d'
      → d' ≡ later d
  call-failed a f d d' e h = elim (Option-cases (w.failure d.asked)) [
    | inl p ↦ absurd (cc (rw (p, call) at h))
    | inr (x, p) ↦ let g = rw (p, call) at h in cc g
  ]

  pub get-left : (key : Text) (d : Db) → (left (get w key d)).strings ≡ d.strings
  unfolding get
  get-left key d = elim (Option-cases (w.failure d.asked)) [
    | inl e ↦ rw (e, call) refl
    | inr (x, e) ↦ rw (e, call) refl
  ]

  pub del-gave :
      (key : Text) (d d' : Db) (u : Unit {0})
      → del w key d ≡ gave u d'
      → d'.strings ≡ delete_if (λ j v. text_eq j key) d.strings
  unfolding del
  del-gave key d d' u h =
      ap (λ db. db.strings)
        (call-gave (λ db. tt)
          (λ db. record db { strings = delete_if (λ j v. text_eq j key) db.strings }) d d' u h).0

  pub set-gave :
      (key : Text) (v : Value) (d d' : Db) (u : Unit {0})
      → set w key v d ≡ gave u d'
      → d'.strings ≡ insert key v d.strings
  unfolding set
  set-gave key v d d' u h =
      ap (λ db. db.strings)
        (call-gave (λ db. tt) (λ db. record db { strings = insert key v db.strings }) d d' u h).0

  pub keys-gave :
      (p : Text) (d d' : Db) (ks : List Text)
      → keys w p d ≡ gave ks d'
      → (d'.strings ≡ d.strings) × (ks ≡ with_prefix p d.strings)
  unfolding keys
  keys-gave p d d' ks h =
      let (e, q) = call-gave (λ db. with_prefix p db.strings) (λ db. db) d d' ks h in
      (ap (λ db. db.strings) e, q)

  pub get-gave :
      (key : Text) (d d' : Db) (v : Option Value)
      → get w key d ≡ gave v d'
      → (d'.strings ≡ d.strings) × (v ≡ lookup key d.strings)
  unfolding get
  get-gave key d d' v h =
      let (e, q) = call-gave (λ db. lookup key db.strings) (λ db. db) d d' v h in
      (ap (λ db. db.strings) e, q)
