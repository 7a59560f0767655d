-- ===== src/Demand/Registry/Synced.antt =====
-- internal/controller/demandstore.go: what `SyncLoadedModels` leaves in the registry.
use gpuscale.Prelude.{
  ◌≡◌, refl, sym, ap₂, subst, ◌∙◌, inl, inr, true, false, ◌&&◌, if◌then◌else◌, List, Option, none,
  some, Text, is_empty, contains_text, has_prefix, lookup, Distinct, Option-cases,
}
use gpuscale.Demand.Json.{Value, LoadedModelInfo, marshal_loaded}
use gpuscale.Demand.Redis.{
  World, Db, M, gave, for_each, return, wrapped, ◌>>=◌, ◌>>◌, keys, with_prefix,
}
use gpuscale.Demand.Redis.Runs.{>>=-gave, wrapped-gave, keys-gave}
use gpuscale.Demand.Registry.Guards.{if_true}
use gpuscale.Demand.Registry.{
  loaded_model_prefix, loaded_key, listing, drop_stale, upsert, sync_loaded_models,
}
use gpuscale.Demand.Registry.Dropped.{Truth, is_stale, with_prefix-only, drop_all, cleared}
use gpuscale.Demand.Registry.Filled.{over, upsert_all-untouched, upsert_all-synced}

-- What the registry should say of a model.
abbrev pub entry : Option LoadedModelInfo → Option Value
entry none = none
entry (some i) = some (marshal_loaded i)

-- The registry says of each model what the cluster says, and no other key has changed.
pub record IsSynced (truth : Truth) (before after : Db) : Type 0 where
  pub synced :
      (m : Text) → is_empty m ≡ false → lookup (loaded_key m) after.strings ≡ entry (lookup m truth)
  pub untouched :
      (k : Text)
      → has_prefix k loaded_model_prefix ≡ false
      → lookup k after.strings ≡ lookup k before.strings

module _ (w : World) (truth : Truth) where
  -- A synchronisation that succeeds leaves the registry as the cluster is: each model that the
  -- cluster knows stands there with its data, no other does, and the keys of other kinds are as they
  -- were.
  pub sync_loaded_models-IsSynced :
      (d d' : Db)
      → w.connected ≡ true
      → Distinct truth
      → Distinct d.strings
      → sync_loaded_models w truth d ≡ gave tt d'
      → IsSynced truth d d'
  unfolding sync_loaded_models
  sync_loaded_models-IsSynced d d' c known dis h =
      let list = wrapped listing (keys w loaded_model_prefix) in
      let clean = λ (ks : List Text). for_each (drop_stale w truth) ks in
      let fill = for_each (upsert w) truth in
      let (ks, x, p, q) =
        >>=-gave list (λ ks. clean ks >> fill) d d' tt
          (subst (λ (r : M (Unit {0})). r d ≡ gave tt d')
            (if_true w.connected (list >>= λ ks. clean ks >> fill) (return tt) c) h) in
      let (same, all) =
        keys-gave w loaded_model_prefix d x ks
          (wrapped-gave listing (keys w loaded_model_prefix) d x ks p) in
      let (v, y, r, t) = >>=-gave (clean ks) (λ _. fill) x d' tt q in
      let dis_x = subst Distinct (sym same) dis in
      let after = λ (k : Text).
        (drop_all w truth ks k x y v dis_x r).1
        ∙ ap₂
            (λ a (b : List (Text × Value)).
              if contains_text k a && is_stale truth k then none else lookup k b)
            all same in
      record {
        synced = λ m f.
            upsert_all-synced w truth m y d' tt c known f t ∙ settled m (after (loaded_key m));
        untouched = λ k f.
            upsert_all-untouched w truth k y d' tt c f t
            ∙ after k
            ∙ rw (with_prefix-only loaded_model_prefix k d.strings f) refl;
      }
    where
      settled :
          (m : Text) {o : Option Value}
          → o ≡ (
              if contains_text (loaded_key m) (with_prefix loaded_model_prefix d.strings)
                && is_stale truth (loaded_key m)
              then none
              else lookup (loaded_key m) d.strings)
          → over (lookup m truth) o ≡ entry (lookup m truth)
      settled m e = elim (Option-cases (lookup m truth)) [
        | inl absent ↦ rw absent (e ∙ cleared truth m d.strings absent)
        | inr (i, there) ↦ rw there refl
      ]
