-- ===== src/Demand/Volumes/Register/Marking.antt =====
-- internal/controller/demandstore.go: what `MarkVolumeReady` does to a volume, where Redis answers.
use gpuscale.Prelude.{
  ℕ, ◌≡◌, refl, sym, ap, subst, ◌∙◌, ◌⊎◌, inl, inr, true, false, not, ◌&&◌, if◌then◌else◌, List, [],
  ◌∷◌, Option, none, some, Text, text_eq, text_eq_iff, text_eq_self, In, has_prefix, lookup, insert,
  lookup-insert, Bool-cases,
}
use gpuscale.Demand.Json.{Value, VolumeInfo, marshal_volume}
use gpuscale.Demand.Json.RoundTrip.{unmarshal_volume-marshal}
use gpuscale.Demand.Redis.{
  World, Db, gave, ◌>>=◌, or_else, for_each, call, later, get, set, with_prefix,
}
use gpuscale.Demand.Volumes.{as_volume, read_volume, mark_if, mark_one}

pub with_prefix-In :
    (p k : Text) (m : List (Text × Value)) (v : Value)
    → lookup k m ≡ some v
    → has_prefix k p ≡ true
    → In k (with_prefix p m)
unfolding lookup
with_prefix-In p k [] v h q = absurd (cc h)
with_prefix-In p k ((j, x) ∷ m) v h q = elim (Bool-cases (text_eq j k)) [
  | inl same ↦
      let e = (text_eq_iff j k).0 same in let f = ap (λ i. has_prefix i p) e ∙ q in rw f (inl e)
  | inr other ↦
      let rest = with_prefix-In p k m v (rw other at h) q in
      elim (Bool-cases (has_prefix j p)) [ inl f ↦ rw f (inr rest) | inr f ↦ rw f rest ]
]

module _ (w : World) where
  -- Every call is answered.
  abbrev pub Answers : Type 0
  Answers = (n : ℕ) → w.failure n ≡ none

module _ (w : World) (up : Answers w) where
  pub call-answers :
      {A : Type 0} (a : Db → A) (f : Db → Db) (d : Db) → call w a f d ≡ gave (a d) (later (f d))
  call-answers a f d = rw (up d.asked, call) refl

  pub read_volume-answers :
      (key : Text) (d : Db)
      → read_volume w key d ≡ gave (as_volume w (lookup key d.strings)) (later d)
  unfolding read_volume get
  read_volume-answers key d =
      rw (call-answers (λ (db : Db). lookup key db.strings) (λ db. db) d, or_else) refl

  -- The registry after one turn of the loop that marks.
  abbrev pub set_ready : VolumeInfo → VolumeInfo
  set_ready v = record v { bootstrap_succeeded = true }

  abbrev marked_if : Text → Text → Option VolumeInfo → List (Text × Value) → List (Text × Value)
  marked_if instance_id key none m = m
  marked_if instance_id key (some v) m =
      if text_eq v.instance_id instance_id && not v.bootstrap_succeeded
      then insert key (marshal_volume (set_ready v)) m
      else m

  mark_if-answers :
      (instance_id key : Text) (o : Option VolumeInfo) (d : Db)
      → (x : Db) × (mark_if w instance_id key o d ≡ gave tt x)
        × (x.strings ≡ marked_if instance_id key o d.strings)
  unfolding set
  mark_if-answers instance_id key none d = (d, refl, refl)
  mark_if-answers instance_id key (some v) d =
      elim (Bool-cases (text_eq v.instance_id instance_id && not v.bootstrap_succeeded)) [
        | inr e ↦ (d, rw e refl, rw e refl)
        | inl e ↦
            let write = λ (db : Db). record db {
              strings = insert key (marshal_volume (set_ready v)) db.strings;
            } in
            (later (write d), rw e (rw (call-answers (λ db. tt) write d, or_else) refl), rw e refl)
      ]

  mark_one-answers :
      (instance_id key : Text) (d : Db)
      → (x : Db) × (mark_one w instance_id key d ≡ gave tt x)
        × (x.strings ≡ marked_if instance_id key (as_volume w (lookup key d.strings)) d.strings)
  unfolding mark_one
  mark_one-answers instance_id key d =
      let (x, e, s) =
        mark_if-answers instance_id key (as_volume w (lookup key d.strings)) (later d) in
      (x, rw (read_volume-answers key d, ◌>>=◌) e, s)

  -- What the registry holds of the volume `v`, which is not ready, while the loop runs.
  module _ (v : VolumeInfo) (fresh : v.bootstrap_succeeded ≡ false) (at_key : Text) where
    abbrev IsReady : List (Text × Value) → Type 0
    IsReady m = lookup at_key m ≡ some (marshal_volume (set_ready v))

    abbrev IsWaiting : List (Text × Value) → Type 0
    IsWaiting m = lookup at_key m ≡ some (marshal_volume v)

    elsewhere :
        (key : Text) (o : Option VolumeInfo) (m : List (Text × Value))
        → text_eq key at_key ≡ false
        → lookup at_key (marked_if v.instance_id key o m) ≡ lookup at_key m
    elsewhere key none m n = refl
    elsewhere key (some u) m n =
        elim (Bool-cases (text_eq u.instance_id v.instance_id && not u.bootstrap_succeeded)) [
          | inr e ↦ rw e refl
          | inl e ↦ rw e (lookup-insert key at_key (marshal_volume (set_ready u)) m ∙ rw n refl)
        ]

    marked_here :
        (m : List (Text × Value))
        → IsWaiting m
        → IsReady (marked_if v.instance_id at_key (as_volume w (lookup at_key m)) m)
    marked_here m h =
        rw (h, unmarshal_volume-marshal v)
          (rw (text_eq_self v.instance_id, fresh)
            (lookup-insert at_key at_key (marshal_volume (set_ready v)) m
              ∙ rw (text_eq_self at_key) refl))

    kept_here :
        (m : List (Text × Value))
        → IsReady m
        → IsReady (marked_if v.instance_id at_key (as_volume w (lookup at_key m)) m)
    kept_here m h =
        subst (λ o. IsReady (marked_if v.instance_id at_key o m))
          (sym (ap (as_volume w) h ∙ unmarshal_volume-marshal (set_ready v)))
          (rw (text_eq_self v.instance_id) h)

    turn :
        (key : Text) (m : List (Text × Value))
        → IsWaiting m ⊎ IsReady m
        → let m' = marked_if v.instance_id key (as_volume w (lookup key m)) m in
          (IsWaiting m' ⊎ IsReady m')
          × (text_eq key at_key ≡ true → IsReady m')
          × (IsReady m → IsReady m')
    turn key m h = elim (Bool-cases (text_eq key at_key)) [
      | inr n ↦
          let keep = elsewhere key (as_volume w (lookup key m)) m n in
          (carried h keep, (λ e. absurd (cc (e, n))), (λ r. keep ∙ r))
      | inl e ↦
          let q = (text_eq_iff key at_key).0 e in
          let r = here h in
          let back =
            λ (r : IsReady (marked_if v.instance_id at_key (as_volume w (lookup at_key m)) m)).
              subst (λ k. IsReady (marked_if v.instance_id k (as_volume w (lookup k m)) m)) (sym q)
                r in
          (inr (back r), (λ _. back r), (λ r'. back (kept_here m r')))
    ]
      where
        carried :
            {o : Option Value}
            → IsWaiting m ⊎ IsReady m
            → o ≡ lookup at_key m
            → (o ≡ some (marshal_volume v)) ⊎ (o ≡ some (marshal_volume (set_ready v)))
        carried (inl a) e = inl (e ∙ a)
        carried (inr a) e = inr (e ∙ a)

        here :
            IsWaiting m ⊎ IsReady m
            → IsReady (marked_if v.instance_id at_key (as_volume w (lookup at_key m)) m)
        here (inl a) = marked_here m a
        here (inr a) = kept_here m a

    pub mark_all :
        (ks : List Text) (d : Db)
        → IsWaiting d.strings ⊎ IsReady d.strings
        → In at_key ks ⊎ IsReady d.strings
        → (x : Db) × (for_each (mark_one w v.instance_id) ks d ≡ gave tt x) × IsReady x.strings
    unfolding for_each
    mark_all [] d h (inl i) = absurd i
    mark_all [] d h (inr r) = (d, refl, r)
    mark_all (k ∷ ks) d h i =
        let (y, e, s) = mark_one-answers v.instance_id k d in
        let (both, marked, kept) = turn k d.strings h in
        let (x, f, r) =
          mark_all ks y (rw s both)
            (next i (λ q. rw s (marked (rw q (text_eq_self at_key)))) (λ q. rw s (kept q))) in
        (x, rw (e, for_each) f, r)
      where
        next :
            {P Q : Type 0}
            → (((k ≡ at_key) ⊎ In at_key ks) ⊎ P)
            → (k ≡ at_key → Q)
            → (P → Q)
            → In at_key ks ⊎ Q
        next (inl (inl q)) f g = inr (f q)
        next (inl (inr j)) f g = inl j
        next (inr p) f g = inr (g p)
