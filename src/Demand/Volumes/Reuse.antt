-- ===== src/Demand/Volumes/Reuse.antt =====
-- internal/controller/demandstore.go: which volume `FindVolumeForModel` offers for reuse.
use gpuscale.Prelude.{
  ℕ, ◌≤◌, ◌≡◌, refl, sym, ap, subst, ◌∙◌, ◌⊎◌, inl, inr, true, false, not, ◌&&◌, ltb, List, [], ◌∷◌,
  Option, none, some, Text, text_eq, text_eq_iff, is_empty, In, has_prefix, lookup, Bool-cases,
  Option-cases, arith,
}
use gpuscale.Demand.Json.{Value, VolumeInfo, unmarshal_volume}
use gpuscale.Demand.Redis.{World, Db, M, Run, gave, ◌>>=◌, or_else, get, keys, with_prefix}
use gpuscale.Demand.Redis.Runs.{Run-cases, >>=-gave, keys-gave, get-gave, left, get-left}
use gpuscale.Demand.Registry.Guards.{if_named-cases}
use gpuscale.Demand.Volumes.{
  volume_prefix, as_volume, read_volume, is_suitable, is_match, find_among, find_volume_for_model,
}

-- The registry holds the volume's record.
pub record Tracked (strings : List (Text × Value)) (v : VolumeInfo) : Type 0 where
  pub key : Text
  pub value : Value
  pub prefixed : has_prefix key volume_prefix ≡ true
  pub stored : lookup key strings ≡ some value
  pub parsed : unmarshal_volume value ≡ some v

-- The volume holds the model, its node was ready once, and it is large enough, unless one of the
-- sizes is unknown.
pub record Fits (model : Text) (min_disk : ℕ) (v : VolumeInfo) : Type 0 where
  pub holds : v.model_id ≡ model
  pub succeeded : v.bootstrap_succeeded ≡ true
  pub large : (min_disk ≡ 0) ⊎ ((v.size_gb ≡ 0) ⊎ (min_disk ≤ v.size_gb))

pub with_prefix-prefixed :
    (p k : Text) (m : List (Text × Value)) → In k (with_prefix p m) → has_prefix k p ≡ true
with_prefix-prefixed p k [] i = absurd i
with_prefix-prefixed p k ((j, v) ∷ m) i = elim (Bool-cases (has_prefix j p)) [
  | inr e ↦ with_prefix-prefixed p k m (rw e at i)
  | inl e ↦ elim (rw e at i) [
    | inl q ↦ subst (λ x. has_prefix x p ≡ true) q e
    | inr j ↦ with_prefix-prefixed p k m j
  ]
]

large_enough :
    (min_disk size : ℕ)
    → not (ltb 0 min_disk && (ltb 0 size && ltb size min_disk)) ≡ true
    → (min_disk ≡ 0) ⊎ ((size ≡ 0) ⊎ (min_disk ≤ size))
large_enough min_disk size h = elim (Bool-cases (ltb 0 min_disk)) [
  | inr a ↦ inl (ground arith)
  | inl a ↦ elim (Bool-cases (ltb 0 size)) [
    | inr b ↦ inr (inl (ground arith))
    | inl b ↦ inr (inr (ground arith))
  ]
]

module _ (w : World) (model : Text) (min_disk : ℕ) where
  pub is_suitable-Fits :
      (v : VolumeInfo) → is_suitable w model min_disk v ≡ true → Fits model min_disk v
  unfolding is_suitable
  is_suitable-Fits v h = elim (Bool-cases (text_eq v.model_id model)) [
    | inr e ↦ absurd (cc (rw e at h))
    | inl e ↦ elim (Bool-cases v.bootstrap_succeeded) [
      | inr f ↦ absurd (cc (rw (e, f) at h))
      | inl f ↦ record {
        holds = (text_eq_iff v.model_id model).0 e;
        succeeded = f;
        large = large_enough min_disk v.size_gb (rw (e, f) at h);
      }
    ]
  ]

  -- A volume that the search may return.
  pub record Offered (strings : List (Text × Value)) (id : Text) : Type 0 where
    pub volume : VolumeInfo
    pub tracked : Tracked strings volume
    pub fits : Fits model min_disk volume
    pub named : volume.volume_id ≡ id

  -- A read leaves the registry alone, and what it gives is what is stored.
  pub read_volume-gave :
      (key : Text) (d d' : Db) (o : Option VolumeInfo)
      → read_volume w key d ≡ gave o d'
      → (d'.strings ≡ d.strings) × ((o ≡ none) ⊎ (o ≡ as_volume w (lookup key d.strings)))
  unfolding read_volume
  read_volume-gave key d d' o h = elim (Run-cases (get w key d)) [
    | inl (v, x, q) ↦
        let (same, value) = get-gave w key d x v q in
        let g : gave (as_volume w v) x ≡ gave o d' = rw (q, or_else) at h in
        (
          ap (λ (r : Run (Option VolumeInfo)). (left r).strings) (sym g) ∙ same,
          inr (sym (cc g) ∙ ap (as_volume w) value),
        )
    | inr (e, x, q) ↦
        let g : gave none x ≡ gave o d' = rw (q, or_else) at h in
        let kept = ap (λ (r : Run (Option Value)). (left r).strings) (sym q) ∙ get-left w key d in
        (ap (λ (r : Run (Option VolumeInfo)). (left r).strings) (sym g) ∙ kept, inl (sym (cc g)))
  ]

  -- A read gives something, also where the call fails.
  pub read_volume-cases :
      (key : Text) (d : Db) → (o : Option VolumeInfo) × (x : Db) × (read_volume w key d ≡ gave o x)
  unfolding read_volume
  read_volume-cases key d = elim (Run-cases (get w key d)) [
    | inl (v, x, q) ↦ (as_volume w v, x, rw (q, or_else) refl)
    | inr (e, x, q) ↦ (none, x, rw (q, or_else) refl)
  ]

  -- What was read of a key, where it decodes to a volume, is tracked.
  pub read-Tracked :
      (key : Text) (d : Db) (v : VolumeInfo)
      → has_prefix key volume_prefix ≡ true
      → as_volume w (lookup key d.strings) ≡ some v
      → Tracked d.strings v
  read-Tracked key d v p h = elim (Option-cases (lookup key d.strings)) [
    | inl absent ↦ absurd (cc (rw absent at h))
    | inr (x, there) ↦ record {
      key = key;
      value = x;
      prefixed = p;
      stored = there;
      parsed = rw there at h;
    }
  ]

  find_among-Offered :
      (ks : List Text) (d d' : Db) (r : Text)
      → ((k : Text) → In k ks → has_prefix k volume_prefix ≡ true)
      → find_among w model min_disk ks d ≡ gave r d'
      → is_empty r ≡ false
      → Offered d.strings r
  unfolding find_among
  find_among-Offered [] d d' r p h n = absurd (cc (n, ap is_empty (the_empty h)))
    where
      the_empty : gave [] d ≡ gave r d' → [] ≡ r
      the_empty q = cc q
  find_among-Offered (k ∷ ks) d d' r p h n =
      let (o, x, q) = read_volume-cases k d in
      let (same, value) = read_volume-gave k d x o q in
      let rest = λ (g : find_among w model min_disk ks x ≡ gave r d').
        subst (λ s. Offered s r) same (find_among-Offered ks x d' r (λ j i. p j (inr i)) g n) in
      decide o x q same value rest (Bool-cases (is_match w model min_disk o))
    where
      decide :
          (o : Option VolumeInfo) (x : Db)
          → read_volume w k d ≡ gave o x
          → x.strings ≡ d.strings
          → (o ≡ none) ⊎ (o ≡ as_volume w (lookup k d.strings))
          → (find_among w model min_disk ks x ≡ gave r d' → Offered d.strings r)
          → (is_match w model min_disk o ≡ true) ⊎ (is_match w model min_disk o ≡ false)
          → Offered d.strings r
      decide o x q same value rest (inr miss) =
          rest (rw (miss, find_among) at (rw (q, find_among) at h))
      decide none x q same value rest (inl hit) = absurd (cc hit)
      decide (some v) x q same (inl e) rest (inl hit) = absurd (cc e)
      decide (some v) x q same (inr e) rest (inl hit) = record {
        volume = v;
        tracked = read-Tracked k d v (p k (inl refl)) (sym e);
        fits = is_suitable-Fits v hit;
        named = cc (rw (hit, find_among) at (rw (q, find_among) at h));
      }

  -- Whatever the calls answer, the search returns a volume's id only if the registry holds a record
  -- of a volume with that id that fits: it holds the model, it has served a ready node, and its size
  -- is unknown or suffices, or no size is asked for.
  pub find_volume_for_model-Offered :
      (d d' : Db) (id : Text)
      → find_volume_for_model w model min_disk d ≡ gave id d'
      → is_empty id ≡ false
      → Offered d.strings id
  unfolding find_volume_for_model
  find_volume_for_model-Offered d d' id h n = elim (if_named-cases w [] model body) [
    | inl shut ↦
        absurd (cc (n, ap is_empty (nothing (subst (λ (m : M Text). m d ≡ gave id d') shut h))))
    | inr open_ ↦ searched (subst (λ (m : M Text). m d ≡ gave id d') open_ h)
  ]
    where
      search_keys : M Text
      search_keys = keys w volume_prefix >>= λ existing. find_among w model min_disk existing

      body : M Text
      body = or_else [] search_keys

      nothing : gave [] d ≡ gave id d' → [] ≡ id
      nothing q = cc q

      found : search_keys d ≡ gave id d' → Offered d.strings id
      found q =
          let (ks, x, list, search_rest) =
            >>=-gave (keys w volume_prefix) (λ ks. find_among w model min_disk ks) d d' id q in
          let (same, all) = keys-gave w volume_prefix d x ks list in
          subst (λ s. Offered s id) same
            (find_among-Offered ks x d' id
              (λ k i. with_prefix-prefixed volume_prefix k d.strings (subst (λ l. In k l) all i))
              search_rest n)

      searched : body d ≡ gave id d' → Offered d.strings id
      searched q = elim (Run-cases (search_keys d)) [
        | inl (r, x, e) ↦ found (e ∙ (rw (e, or_else) at q))
        | inr (x, y, e) ↦ absurd (cc (n, ap is_empty (empty_id (rw (e, or_else) at q))))
      ]
        where
          empty_id : {y : Db} → gave [] y ≡ gave id d' → [] ≡ id
          empty_id g = cc g
