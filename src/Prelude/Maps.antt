-- ===== src/Prelude/Maps.antt =====
-- A Go map with string keys, as an association list. Go leaves the order of iteration open: the
-- theorems hold for the list in any order.
use mathlib.Core.Path.{◌≡◌, refl, ap, subst}
use mathlib.Core.Logic.{inl, inr}
use mathlib.Core.Bool.{Bool, false}
use mathlib.Core.Option.{Option, none, some}
use mathlib.Core.List.{List, [], ◌∷◌}
use native.Mathlib.Omega.{arith}
use gpuscale.Prelude.Tests.{if◌then◌else◌, Bool-cases}
use gpuscale.Prelude.Strings.{Text, text_eq, text_eq_iff}

module _ {ℓ} {V : Type ℓ} where
  unfoldable pub lookup : Text → List (Text × V) → Option V
  lookup k [] = none
  lookup k ((j, v) ∷ m) = if text_eq j k then some v else lookup k m

  unfoldable pub insert : Text → V → List (Text × V) → List (Text × V)
  insert k v [] = (k, v) ∷ []
  insert k v ((j, w) ∷ m) = if text_eq j k then (k, v) ∷ m else (j, w) ∷ insert k v m

  -- `delete(m, k)` for each key that passes the test.
  unfoldable pub delete_if : (Text → V → Bool) → List (Text × V) → List (Text × V)
  delete_if p [] = []
  delete_if p ((j, v) ∷ m) = if p j v then delete_if p m else (j, v) ∷ delete_if p m

  pub lookup-insert :
      (k j : Text) (v : V) (m : List (Text × V))
      → lookup j (insert k v m) ≡ (if text_eq k j then some v else lookup j m)
  unfolding lookup insert
  lookup-insert k j v [] = refl
  lookup-insert k j v ((i, w) ∷ m) =
      ground (arith, text_eq_iff k j, text_eq_iff i k, text_eq_iff i j, lookup-insert k j v m)

  -- The key stands nowhere in the map.
  abbrev pub Fresh : Text → List (Text × V) → Type 0
  Fresh k [] = Unit
  Fresh k ((j, v) ∷ m) = (text_eq j k ≡ false) × Fresh k m

  -- A Go map holds a key once.
  abbrev pub Distinct : List (Text × V) → Type 0
  Distinct [] = Unit
  Distinct ((j, v) ∷ m) = Fresh j m × Distinct m

  pub Fresh-lookup : (k : Text) (m : List (Text × V)) → Fresh k m → lookup k m ≡ none
  unfolding lookup
  Fresh-lookup k [] f = refl
  Fresh-lookup k ((j, v) ∷ m) f = rw f.0 (Fresh-lookup k m f.1)

  Fresh-insert :
      (k j : Text) (v : V) (m : List (Text × V))
      → text_eq j k ≡ false
      → Fresh k m
      → Fresh k (insert j v m)
  unfolding insert
  Fresh-insert k j v [] e f = (e, tt)
  Fresh-insert k j v ((i, w) ∷ m) e f = elim (Bool-cases (text_eq i j)) [
    | inl same ↦ rw same (e, f.1)
    | inr other ↦ rw other (f.0, Fresh-insert k j v m e f.1)
  ]

  pub insert-Distinct :
      (k : Text) (v : V) (m : List (Text × V)) → Distinct m → Distinct (insert k v m)
  unfolding insert
  insert-Distinct k v [] d = (tt, tt)
  insert-Distinct k v ((j, w) ∷ m) d = elim (Bool-cases (text_eq j k)) [
    | inl same ↦ rw same (subst (λ i. Fresh i m) ((text_eq_iff j k).0 same) d.0, d.1)
    | inr other ↦ rw other (
      Fresh-insert j k v m (ground (arith, text_eq_iff j k, text_eq_iff k j)) d.0,
      insert-Distinct k v m d.1,
    )
  ]

  Fresh-delete_if :
      (p : Text → V → Bool) (k : Text) (m : List (Text × V)) → Fresh k m → Fresh k (delete_if p m)
  unfolding delete_if
  Fresh-delete_if p k [] f = tt
  Fresh-delete_if p k ((j, v) ∷ m) f = elim (Bool-cases (p j v)) [
    | inl gone ↦ rw gone (Fresh-delete_if p k m f.1)
    | inr stays ↦ rw stays (f.0, Fresh-delete_if p k m f.1)
  ]

  pub delete_if-Distinct :
      (p : Text → V → Bool) (m : List (Text × V)) → Distinct m → Distinct (delete_if p m)
  unfolding delete_if
  delete_if-Distinct p [] d = tt
  delete_if-Distinct p ((j, v) ∷ m) d = elim (Bool-cases (p j v)) [
    | inl gone ↦ rw gone (delete_if-Distinct p m d.1)
    | inr stays ↦ rw stays (Fresh-delete_if p j m d.0, delete_if-Distinct p m d.1)
  ]

  -- What a key stands for, once the entries that pass the test are gone.
  abbrev pub unless : (V → Bool) → Option V → Option V
  unless p none = none
  unless p (some v) = if p v then none else some v

  pub lookup-delete_if :
      (p : Text → V → Bool) (k : Text) (m : List (Text × V))
      → Distinct m
      → lookup k (delete_if p m) ≡ unless (p k) (lookup k m)
  unfolding lookup delete_if
  lookup-delete_if p k [] d = refl
  lookup-delete_if p k ((j, v) ∷ m) d = elim (Bool-cases (text_eq j k)) [
    | inl same ↦
        let e = (text_eq_iff j k).0 same in
        let absent = Fresh-lookup k m (subst (λ i. Fresh i m) e d.0) in
        let rest = lookup-delete_if p k m d.1 in let at_k = ap (λ i. p i v) e in ground arith
    | inr other ↦ let rest = lookup-delete_if p k m d.1 in ground arith
  ]
