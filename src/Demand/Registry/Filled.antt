-- ===== src/Demand/Registry/Filled.antt =====
-- internal/controller/demandstore.go: the second loop of `SyncLoadedModels`, which writes.
use gpuscale.Prelude.{
  ◌≡◌, refl, sym, ap, subst, ◌∙◌, inl, inr, Bool, true, false, not, ◌&&◌, if◌then◌else◌, [], ◌∷◌,
  Option, none, some, Text, txt, text_eq, text_eq_iff, is_empty, has_prefix, lookup, insert,
  lookup-insert, Distinct, Fresh, Fresh-lookup, Bool-cases,
}
use gpuscale.Demand.Json.{Value, LoadedModelInfo, marshal_loaded}
use gpuscale.Demand.Redis.{World, Db, M, gave, for_each, Run, wrapped, ◌>>◌, set, publish}
use gpuscale.Demand.Redis.Keyspace.{has_prefix-append, text_eq-append}
use gpuscale.Demand.Redis.Runs.{
  >>=-gave, wrapped-gave, for_each-gave, or_else-left, left, set-gave, publish-strings,
}
use gpuscale.Demand.Registry.Guards.{if_named-open, if_named-shut}
use gpuscale.Demand.Registry.{
  loaded_model_prefix, loaded_key, setting, updating, announce, set_model_loaded, upsert,
}
use gpuscale.Demand.Registry.Dropped.{Truth}

-- What a key stands for once the registry has been written for a model.
abbrev pub over : Option LoadedModelInfo → Option Value → Option Value
over none v = v
over (some i) v = some (marshal_loaded i)

same_prefix :
    (k m : Text) → has_prefix k loaded_model_prefix ≡ false → text_eq (loaded_key m) k ≡ false
same_prefix k m h = elim (Bool-cases (text_eq (loaded_key m) k)) [
  | inr e ↦ e
  | inl e ↦ absurd (
      cc (
        ap (λ i. has_prefix i loaded_model_prefix) ((text_eq_iff (loaded_key m) k).0 e),
        has_prefix-append loaded_model_prefix m,
      ))
]

module _ (w : World) where
  set_model_loaded-strings :
      (m : Text) (i : LoadedModelInfo) (d d' : Db) (u : Unit {0})
      → w.connected ≡ true
      → set_model_loaded w m i d ≡ gave u d'
      → d'.strings
        ≡ (if is_empty m then d.strings else insert (loaded_key m) (marshal_loaded i) d.strings)
  unfolding set_model_loaded
  set_model_loaded-strings m i d d' u c h =
      let write = wrapped (setting m) (set w (loaded_key m) (marshal_loaded i)) in
      let tell = announce w (txt "gpuscale:model_loaded") m in
      elim (Bool-cases (is_empty m)) [
        | inl e ↦
            let same : d ≡ d' = cc (
              subst (λ (r : M (Unit {0})). r d ≡ gave u d') (if_named-shut w tt m (write >> tell) e)
                h) in
            rw (e, ← same) refl
        | inr e ↦
            let (v, x, p, q) =
              >>=-gave write (λ _. tell) d d' u
                (subst (λ (r : M (Unit {0})). r d ≡ gave u d')
                  (if_named-open w tt m (write >> tell) c e) h) in
            let written =
              set-gave w (loaded_key m) (marshal_loaded i) d x v
                (wrapped-gave (setting m) (set w (loaded_key m) (marshal_loaded i)) d x v p) in
            let told = or_else-left tt (publish w (txt "gpuscale:model_loaded") m) x in
            rw e (
              ap (λ (r : Run (Unit {0})). (left r).strings) (sym q)
              ∙ ap (λ (db : Db). db.strings) told
              ∙ publish-strings w (txt "gpuscale:model_loaded") m x
              ∙ written)
      ]

  upsert-strings :
      (m : Text) (i : LoadedModelInfo) (d d' : Db) (u : Unit {0})
      → w.connected ≡ true
      → upsert w (m, i) d ≡ gave u d'
      → d'.strings
        ≡ (if is_empty m then d.strings else insert (loaded_key m) (marshal_loaded i) d.strings)
  unfolding upsert
  upsert-strings m i d d' u c h =
      set_model_loaded-strings m i d d' u c
        (wrapped-gave (updating m) (set_model_loaded w m i) d d' u h)

  upsert-lookup :
      (m : Text) (i : LoadedModelInfo) (k : Text) (d d' : Db) (u : Unit {0})
      → w.connected ≡ true
      → upsert w (m, i) d ≡ gave u d'
      → lookup k d'.strings ≡ (
          if not (is_empty m) && text_eq (loaded_key m) k
          then some (marshal_loaded i)
          else lookup k d.strings)
  upsert-lookup m i k d d' u c h =
      rw (upsert-strings m i d d' u c h) (elim (Bool-cases (is_empty m)) [
        | inl e ↦ rw e refl
        | inr e ↦ rw e (lookup-insert (loaded_key m) k (marshal_loaded i) d.strings)
      ])

  -- The second loop writes under the prefix only.
  pub upsert_all-untouched :
      (ms : Truth) (k : Text) (d d' : Db) (u : Unit {0})
      → w.connected ≡ true
      → has_prefix k loaded_model_prefix ≡ false
      → for_each (upsert w) ms d ≡ gave u d'
      → lookup k d'.strings ≡ lookup k d.strings
  unfolding for_each
  upsert_all-untouched [] k d d' u c f h = let e : d ≡ d' = cc h in rw e refl
  upsert_all-untouched ((j, i) ∷ ms) k d d' u c f h =
      let (v, e, p, q) = for_each-gave (upsert w) (j, i) ms d d' u h in
      let step = upsert-lookup j i k d e v c p in
      upsert_all-untouched ms k e d' u c f q
      ∙ step
      ∙ rw (same_prefix k j f) (spared (not (is_empty j)))
    where
      spared :
          (b : Bool)
          → (if b && false then some (marshal_loaded i) else lookup k d.strings)
            ≡ lookup k d.strings
      spared true = refl
      spared false = refl

  pub upsert_all-synced :
      (ms : Truth) (m : Text) (d d' : Db) (u : Unit {0})
      → w.connected ≡ true
      → Distinct ms
      → is_empty m ≡ false
      → for_each (upsert w) ms d ≡ gave u d'
      → lookup (loaded_key m) d'.strings ≡ over (lookup m ms) (lookup (loaded_key m) d.strings)
  unfolding for_each lookup
  upsert_all-synced [] m d d' u c dis f h = let e : d ≡ d' = cc h in rw e refl
  upsert_all-synced ((j, i) ∷ ms) m d d' u c dis f h =
      let (v, e, p, q) = for_each-gave (upsert w) (j, i) ms d d' u h in
      let step =
        upsert-lookup j i (loaded_key m) d e v c p
        ∙ ap
            (λ b.
              if not (is_empty j) && b
              then some (marshal_loaded i)
              else lookup (loaded_key m) d.strings)
            (text_eq-append loaded_model_prefix j m) in
      let rest = upsert_all-synced ms m e d' u c dis.1 f q in
      elim (Bool-cases (text_eq j m)) [
        | inr other ↦
            rw other (rest ∙ ap (over (lookup m ms)) (step ∙ kept_at j (text_eq j m) other))
        | inl same ↦
            let e_m = (text_eq_iff j m).0 same in
            let gone = Fresh-lookup m ms (subst (λ x. Fresh x ms) e_m dis.0) in
            rw same (rest ∙ rw gone (step ∙ written_at j (text_eq j m) same (ap is_empty e_m ∙ f)))
      ]
    where
      guarded : Bool → Bool → Option Value
      guarded e b = if not e && b then some (marshal_loaded i) else lookup (loaded_key m) d.strings

      kept_at :
          (j : Text) (b : Bool)
          → b ≡ false
          → guarded (is_empty j) b ≡ lookup (loaded_key m) d.strings
      kept_at [] b h = refl
      kept_at (x ∷ t) b h = rw h refl

      written_at :
          (j : Text) (b : Bool)
          → b ≡ true
          → is_empty j ≡ false
          → guarded (is_empty j) b ≡ some (marshal_loaded i)
      written_at j b h f = rw (h, f) refl
