-- ===== src/Demand/Volumes/Waiting.antt =====
-- internal/controller/demandstore.go: a registry whose volumes belong to instances that have ended
-- before their volumes were registered.
use gpuscale.Prelude.{
  ℕ, ◌≡◌, refl, sym, ap, subst, ◌∙◌, inl, inr, true, false, List, [], ◌∷◌, Option, none, some, Text,
  text_eq, text_eq_iff, In, has_prefix, contains_text, insert, lookup-insert, Bool-cases,
  Option-cases,
}
use gpuscale.Demand.Json.{Value, VolumeInfo, marshal_volume, unmarshal_volume}
use gpuscale.Demand.Json.RoundTrip.{unmarshal_volume-marshal}
use gpuscale.Demand.Redis.{World, Db, M, gave, ◌>>=◌, for_each, call, set, keys}
use gpuscale.Demand.Redis.Runs.{Run-cases, left, keys-gave}
use gpuscale.Demand.Registry.Guards.{if_named-cases}
use gpuscale.Demand.Volumes.{
  volume_prefix, volume_key, new_volume, read_volume, mark_if, mark_one, register_volume,
  mark_volume_ready, find_volume_for_model,
}
use gpuscale.Demand.Volumes.Reuse.{
  Tracked, with_prefix-prefixed, read_volume-cases, read_volume-gave, read-Tracked,
  find_volume_for_model-Offered,
}
use gpuscale.Demand.Volumes.Frames.{keys-Reads}

-- No volume is marked, and the instance of each one is among those that have ended.
abbrev pub Waiting : List (Text × Value) → List Text → Type 0
Waiting strings ended =
    (v : VolumeInfo)
    → Tracked strings v
    → (v.bootstrap_succeeded ≡ false) × (contains_text v.instance_id ended ≡ true)

module _ (w : World) (ended : List Text) where
  other_instance :
      (i : Text) (v : VolumeInfo)
      → contains_text i ended ≡ false
      → contains_text v.instance_id ended ≡ true
      → text_eq v.instance_id i ≡ false
  other_instance i v running gone = elim (Bool-cases (text_eq v.instance_id i)) [
    | inr e ↦ e
    | inl e ↦ absurd (cc (running, gone, (text_eq_iff v.instance_id i).0 e))
  ]

  mark_if-other :
      (i key : Text) (o : Option VolumeInfo) (d : Db)
      → ((v : VolumeInfo) → o ≡ some v → text_eq v.instance_id i ≡ false)
      → mark_if w i key o d ≡ gave tt d
  mark_if-other i key none d h = refl
  mark_if-other i key (some v) d h = rw (h v refl) refl

  -- A volume that is read belongs to an instance that has ended.
  read_volume-ended :
      (i key : Text) (d x : Db) (o : Option VolumeInfo)
      → Waiting d.strings ended
      → contains_text i ended ≡ false
      → has_prefix key volume_prefix ≡ true
      → read_volume w key d ≡ gave o x
      → (v : VolumeInfo) → o ≡ some v
      → text_eq v.instance_id i ≡ false
  read_volume-ended i key d x o g running p q v e = elim (read_volume-gave w [] 0 key d x o q).1 [
    | inl unread ↦ absurd (cc (unread, e))
    | inr kept ↦ other_instance i v running (g v (read-Tracked w [] 0 key d v p (sym kept ∙ e))).1
  ]

  mark_one-kept :
      (i key : Text) (d : Db)
      → Waiting d.strings ended
      → contains_text i ended ≡ false
      → has_prefix key volume_prefix ≡ true
      → (x : Db) × (mark_one w i key d ≡ gave tt x) × (x.strings ≡ d.strings)
  unfolding mark_one
  mark_one-kept i key d g running p =
      let (o, x, q) = read_volume-cases w [] 0 key d in
      (
        x,
        rw (q, ◌>>=◌) (mark_if-other i key o x (read_volume-ended i key d x o g running p q)),
        (read_volume-gave w [] 0 key d x o q).0,
      )

  mark_each-kept :
      (i : Text) (ks : List Text) (d : Db)
      → Waiting d.strings ended
      → contains_text i ended ≡ false
      → ((k : Text) → In k ks → has_prefix k volume_prefix ≡ true)
      → (left (for_each (mark_one w i) ks d)).strings ≡ d.strings
  unfolding for_each
  mark_each-kept i [] d g running p = refl
  mark_each-kept i (k ∷ ks) d g running p =
      let (x, q, same) = mark_one-kept i k d g running (p k (inl refl)) in
      rw (q, for_each)
        (mark_each-kept i ks x (subst (λ s. Waiting s ended) (sym same) g) running
            (λ j m. p j (inr m))
          ∙ same)

  -- Marking the volumes of an instance that has not ended finds none.
  pub mark_volume_ready-kept :
      (i : Text) (d : Db)
      → Waiting d.strings ended
      → contains_text i ended ≡ false
      → (left (mark_volume_ready w i d)).strings ≡ d.strings
  unfolding mark_volume_ready
  mark_volume_ready-kept i d g running = elim (if_named-cases w tt i body) [
    | inl shut ↦ ap (λ (m : M (Unit {0})). (left (m d)).strings) shut
    | inr open_ ↦ ap (λ (m : M (Unit {0})). (left (m d)).strings) open_ ∙ marked
  ]
    where
      body : M (Unit {0})
      body = keys w volume_prefix >>= λ existing. for_each (mark_one w i) existing

      marked : (left (body d)).strings ≡ d.strings
      marked = elim (Run-cases (keys w volume_prefix d)) [
        | inr (e, x, q) ↦
            rw (q, ◌>>=◌) (ap (λ r. (left r).strings) (sym q) ∙ keys-Reads w volume_prefix d)
        | inl (ks, x, q) ↦
            let (same, all) = keys-gave w volume_prefix d x ks q in
            rw (q, ◌>>=◌)
              (mark_each-kept i ks x (subst (λ s. Waiting s ended) (sym same) g) running (λ k m.
                  with_prefix-prefixed volume_prefix k d.strings (subst (λ l. In k l) all m))
                ∙ same)
      ]

  inserted-Waiting :
      (key : Text) (u : VolumeInfo) (strings : List (Text × Value))
      → u.bootstrap_succeeded ≡ false
      → contains_text u.instance_id ended ≡ true
      → Waiting strings ended
      → Waiting (insert key (marshal_volume u) strings) ended
  inserted-Waiting key u strings fresh gone g v t = elim (Bool-cases (text_eq key t.key)) [
    | inl here ↦
        let stored = sym (lookup-insert key t.key (marshal_volume u) strings) ∙ t.stored in
        let value : marshal_volume u ≡ t.value = cc (rw here at stored) in
        let same : u ≡ v =
          cc (sym (unmarshal_volume-marshal u) ∙ ap unmarshal_volume value ∙ t.parsed) in
        (
          subst (λ x. x.bootstrap_succeeded ≡ false) same fresh,
          subst (λ x. contains_text x.instance_id ended ≡ true) same gone,
        )
    | inr there ↦ g v (record {
      key = t.key;
      value = t.value;
      prefixed = t.prefixed;
      parsed = t.parsed;
      stored = rw there at (sym (lookup-insert key t.key (marshal_volume u) strings) ∙ t.stored);
    })
  ]

  -- A volume that is registered for an instance that has ended.
  pub register_volume-Waiting :
      (id model i : Text) (size : ℕ) (d : Db)
      → contains_text i ended ≡ true
      → Waiting d.strings ended
      → Waiting (left (register_volume w id model i size d)).strings ended
  unfolding register_volume set
  register_volume-Waiting id model i size d gone g = elim (if_named-cases w tt id body) [
    | inl shut ↦ subst (λ (m : M (Unit {0})). Waiting (left (m d)).strings ended) (sym shut) g
    | inr open_ ↦
        subst (λ (m : M (Unit {0})). Waiting (left (m d)).strings ended) (sym open_) written
  ]
    where
      info : VolumeInfo
      info = new_volume w id model i size (w.time_text (w.clock d.asked))

      body : M (Unit {0})
      body = set w (volume_key id) (marshal_volume info)

      written : Waiting (left (body d)).strings ended
      written = elim (Option-cases (w.failure d.asked)) [
        | inl e ↦ rw (e, call) (inserted-Waiting (volume_key id) info d.strings refl gone g)
        | inr (x, e) ↦ rw (e, call) g
      ]

  -- While every registered volume waits, a search finds none.
  pub find_volume_for_model-Waiting :
      (model : Text) (min_disk : ℕ) (d d' : Db) (id : Text)
      → Waiting d.strings ended
      → find_volume_for_model w model min_disk d ≡ gave id d'
      → id ≡ []
  find_volume_for_model-Waiting model min_disk d d' [] g h = refl
  find_volume_for_model-Waiting model min_disk d d' (c ∷ id) g h =
      let o = find_volume_for_model-Offered w model min_disk d d' (c ∷ id) h refl in
      absurd (cc ((g o.volume o.tracked).0, o.fits.succeeded))
