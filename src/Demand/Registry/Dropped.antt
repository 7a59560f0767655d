-- ===== src/Demand/Registry/Dropped.antt =====
-- internal/controller/demandstore.go: the first loop of `SyncLoadedModels`, which deletes.
use gpuscale.Prelude.{
  ◌≡◌, refl, ap, ◌∙◌, ◌⊎◌, inl, inr, Bool, true, false, not, ◌&&◌, if◌then◌else◌, List, [], ◌∷◌,
  Option, none, some, Text, text_eq, text_eq_iff, contains_text, has_prefix, lookup,
  lookup-delete_if, delete_if-Distinct, Distinct, unless, Bool-cases, Option-cases, arith,
}
use gpuscale.Demand.Json.{Value, LoadedModelInfo}
use gpuscale.Demand.Redis.{World, Db, gave, for_each, del, with_prefix}
use gpuscale.Demand.Redis.Keyspace.{strip, has_prefix-append, strip-append}
use gpuscale.Demand.Redis.Runs.{wrapped-gave, for_each-gave, del-gave}
use gpuscale.Demand.Registry.{loaded_model_prefix, loaded_key, deleting, is_kept, drop_stale}

abbrev pub Truth : Type 0
Truth = List (Text × LoadedModelInfo)

-- What the registry should say of a model.

abbrev pub is_stale : Truth → Text → Bool
is_stale truth key = not (is_kept (lookup (strip loaded_model_prefix key) truth))

with_prefix-lookup :
    (p k : Text) (m : List (Text × Value)) (v : Value)
    → lookup k m ≡ some v
    → has_prefix k p ≡ true
    → contains_text k (with_prefix p m) ≡ true
unfolding lookup contains_text
with_prefix-lookup p k [] v h q = cc
with_prefix-lookup p k ((j, x) ∷ m) v h q = elim (Bool-cases (text_eq j k)) [
  | inl same ↦
      let e = (text_eq_iff j k).0 same in
      let f = ap (λ i. has_prefix i p) e ∙ q in rw f (rw same refl)
  | inr other ↦
      let rest = with_prefix-lookup p k m v (rw other at h) q in
      elim (Bool-cases (has_prefix j p)) [ inl f ↦ rw f (rw other rest) | inr f ↦ rw f rest ]
]

pub with_prefix-only :
    (p k : Text) (m : List (Text × Value))
    → has_prefix k p ≡ false
    → contains_text k (with_prefix p m) ≡ false
unfolding contains_text
with_prefix-only p k [] q = refl
with_prefix-only p k ((j, x) ∷ m) q = elim (Bool-cases (has_prefix j p)) [
  | inr f ↦ rw f (with_prefix-only p k m q)
  | inl f ↦ elim (Bool-cases (text_eq j k)) [
    | inl same ↦ absurd (cc (ap (λ i. has_prefix i p) ((text_eq_iff j k).0 same)))
    | inr other ↦ rw f (rw other (with_prefix-only p k m q))
  ]
]

unless-key : (b : Bool) (o : Option Value) → unless (λ v. b) o ≡ (if b then none else o)
unless-key true none = refl
unless-key true (some v) = refl
unless-key false none = refl
unless-key false (some v) = refl

del-lookup :
    (w : World) (key k : Text) (d d' : Db) (u : Unit {0})
    → Distinct d.strings
    → del w key d ≡ gave u d'
    → Distinct d'.strings
      × (lookup k d'.strings ≡ (if text_eq k key then none else lookup k d.strings))
unfolding del
del-lookup w key k d d' u dis h = rw (del-gave w key d d' u h) (
  delete_if-Distinct (λ j v. text_eq j key) d.strings dis,
  lookup-delete_if (λ j v. text_eq j key) k d.strings dis
      ∙ unless-key (text_eq k key) (lookup k d.strings),
)

-- What a key stands for once the registry has been written for a model.

module _ (w : World) (truth : Truth) where
  -- What one turn of the first loop does to a key.
  drop_stale-lookup :
      (key k : Text) (d d' : Db) (u : Unit {0})
      → Distinct d.strings
      → drop_stale w truth key d ≡ gave u d'
      → Distinct d'.strings
        × (lookup k d'.strings
            ≡ (if text_eq k key && is_stale truth k then none else lookup k d.strings))
  unfolding drop_stale
  drop_stale-lookup key k d d' u dis h =
      elim (Bool-cases (is_kept (lookup (strip loaded_model_prefix key) truth))) [
        | inl kept ↦
            let e : d ≡ d' = cc (rw kept at h) in
            rw (← e) (dis, spared k (Bool-cases (text_eq k key)) kept)
        | inr gone ↦
            let (dis', q) = del-lookup w key k d d' u dis (
              wrapped-gave (deleting (strip loaded_model_prefix key)) (del w key) d d' u
                (rw gone at h)) in
            (dis', q ∙ dropped k (Bool-cases (text_eq k key)) gone)
      ]
    where
      spared :
          (k : Text)
          → (text_eq k key ≡ true) ⊎ (text_eq k key ≡ false)
          → is_kept (lookup (strip loaded_model_prefix key) truth) ≡ true
          → lookup k d.strings
            ≡ (if text_eq k key && is_stale truth k then none else lookup k d.strings)
      spared k (inr other) g = rw other refl
      spared k (inl same) g =
          rw same
            (rw (ap (λ i. strip loaded_model_prefix i) ((text_eq_iff k key).0 same)) (rw g refl))

      dropped :
          (k : Text)
          → (text_eq k key ≡ true) ⊎ (text_eq k key ≡ false)
          → is_kept (lookup (strip loaded_model_prefix key) truth) ≡ false
          → (if text_eq k key then none else lookup k d.strings)
            ≡ (if text_eq k key && is_stale truth k then none else lookup k d.strings)
      dropped k (inr other) g = rw other refl
      dropped k (inl same) g =
          rw same
            (rw (ap (λ i. strip loaded_model_prefix i) ((text_eq_iff k key).0 same)) (rw g refl))

  -- What the first loop does to a key.
  pub drop_all :
      (ks : List Text) (k : Text) (d d' : Db) (u : Unit {0})
      → Distinct d.strings
      → for_each (drop_stale w truth) ks d ≡ gave u d'
      → Distinct d'.strings
        × (lookup k d'.strings
            ≡ (if contains_text k ks && is_stale truth k then none else lookup k d.strings))
  unfolding for_each contains_text
  drop_all [] k d d' u dis h = let e : d ≡ d' = cc h in rw (← e) (dis, refl)
  drop_all (key ∷ ks) k d d' u dis h =
      let (v, e, p, q) = for_each-gave (drop_stale w truth) key ks d d' u h in
      let (dis_e, first) = drop_stale-lookup key k d e v dis p in
      let (dis', rest) = drop_all ks k e d' u dis_e q in
      (dis', ground (arith, text_eq_iff k key, text_eq_iff key k))

-- A key under the prefix that the cluster does not know is gone after the first loop.
pub cleared :
    (truth : Truth) (m : Text) (strings : List (Text × Value))
    → lookup m truth ≡ none
    → (if contains_text (loaded_key m) (with_prefix loaded_model_prefix strings)
          && is_stale truth (loaded_key m)
        then none
        else lookup (loaded_key m) strings)
      ≡ none
cleared truth m strings absent = elim (Option-cases (lookup (loaded_key m) strings)) [
  | inl e ↦ both (contains_text (loaded_key m) (with_prefix loaded_model_prefix strings)) _ _ e
  | inr (v, e) ↦
      let listed =
        with_prefix-lookup loaded_model_prefix (loaded_key m) strings v e
          (has_prefix-append loaded_model_prefix m) in
      let stale : is_stale truth (loaded_key m) ≡ true =
        ap (λ n. not (is_kept (lookup n truth))) (strip-append loaded_model_prefix m)
        ∙ ap (λ o. not (is_kept o)) absent in
      taken _ _ _ listed stale
]
  where
    both : (a b : Bool) (o : Option Value) → o ≡ none → (if a && b then none else o) ≡ none
    both a b o e = rw e (ground arith)

    taken :
        (a b : Bool) (o : Option Value) → a ≡ true → b ≡ true → (if a && b then none else o) ≡ none
    taken a b o e f = rw (e, f) refl
