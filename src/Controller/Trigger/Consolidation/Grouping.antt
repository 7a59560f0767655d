-- ===== src/Controller/Trigger/Consolidation/Grouping.antt =====
-- internal/controller/provisiontrigger.go: which claims `checkConsolidation` groups.
use gpuscale.Prelude.{
  ℕ, suc, ◌≡◌, refl, subst, ◌⊎◌, inl, inr, true, List, [], ◌∷◌, ◌++◌, Option, none, some, Text,
  text_eq, text_eq_iff, All, In, All-append_one, lookup, insert, Bool-cases, Option-cases,
}
use gpuscale.Provider.{ok, Result-cases}
use gpuscale.Controller.Claims.{
  Claim, Phase, ready, unset, pending, provisioning, bootstrapping, draining, terminated,
  hibernated, same_phase, claim_model_ids,
}
use gpuscale.Controller.Trigger.Consolidation.{
  World, Candidate, Groups, group_key, of_single, candidate, members, add_to_group, group_claims,
}

is_ready : (p : Phase) → same_phase p ready ≡ true → p ≡ ready
is_ready ready h = refl
is_ready unset h = cc
is_ready pending h = cc
is_ready provisioning h = cc
is_ready bootstrapping h = cc
is_ready draining h = cc
is_ready terminated h = cc
is_ready hibernated h = cc

pub insert-All :
    {V : Type 0} (P : Text × V → Type 0) (k : Text) (v : V) (m : List (Text × V))
    → All P m
    → P (k, v)
    → All P (insert k v m)
unfolding insert
insert-All P k v [] a p = (p, tt)
insert-All P k v ((j, x) ∷ m) a p = elim (Bool-cases (text_eq j k)) [
  | inl e ↦ rw e (p, a.1)
  | inr e ↦ rw e (a.0, insert-All P k v m a.1 p)
]

pub lookup-All :
    {V : Type 0} (P : Text × V → Type 0) (k : Text) (v : V) (m : List (Text × V))
    → All P m
    → lookup k m ≡ some v
    → P (k, v)
unfolding lookup
lookup-All P k v [] a h = absurd (cc h)
lookup-All P k v ((j, x) ∷ m) a h = elim (Bool-cases (text_eq j k)) [
  | inl e ↦
      let same : x ≡ v = cc (rw e at h) in
      subst (λ y. P (k, y)) same (subst (λ i. P (i, x)) ((text_eq_iff j k).0 e) a.0)
  | inr e ↦ lookup-All P k v m a.1 (rw e at h)
]

module _ (w : World) (claims : List Claim) where
  -- A listed claim that is Ready and serves one model, with the config of that model.
  pub record IsCandidate (k : Candidate) : Type 0 where
    pub listed : In k.claim claims
    pub is_up : k.claim.status.phase ≡ ready
    pub model : Text
    pub alone : claim_model_ids k.claim ≡ model ∷ []
    pub configured : (n : ℕ) × (w.model_config n model ≡ ok (some k.cfg))

  abbrev pub InGroup : Text → Candidate → Type 0
  InGroup key k = IsCandidate k × (group_key k.claim ≡ key)

  abbrev pub IsGrouped : Text × List Candidate → Type 0
  IsGrouped (key, ks) = All (InGroup key) ks

  candidate-IsCandidate :
      (n : ℕ) (c : Claim) (k : Candidate) → In c claims → candidate w n c ≡ some k → IsCandidate k
  unfolding candidate
  candidate-IsCandidate n c k i h = elim (Bool-cases (same_phase c.status.phase ready)) [
    | inr e ↦ absurd (cc (rw e at h))
    | inl e ↦ single e (claim_model_ids c) refl (rw e at h)
  ]
    where
      single :
          same_phase c.status.phase ready ≡ true
          → (ms : List Text) → claim_model_ids c ≡ ms
          → of_single w n c ms ≡ some k
          → IsCandidate k
      single e [] q g = absurd (cc g)
      single e (m ∷ m' ∷ ms) q g = absurd (cc g)
      single e (m ∷ []) q g = elim (Result-cases (w.model_config n m)) [
        | inr (x, r) ↦ absurd (cc (rw r at g))
        | inl (none, r) ↦ absurd (cc (rw r at g))
        | inl (some cfg, r) ↦
            let same : record { claim = c; cfg = cfg } ≡ k = cc (rw r at g) in
            subst IsCandidate same (record {
              listed = i;
              is_up = is_ready c.status.phase e;
              model = m;
              alone = q;
              configured = (n, r);
            })
      ]

  add_to_group-IsGrouped :
      (o : Option Candidate) (g : Groups)
      → ((k : Candidate) → o ≡ some k → IsCandidate k)
      → All IsGrouped g
      → All IsGrouped (add_to_group w o g)
  unfolding add_to_group
  add_to_group-IsGrouped none g c a = a
  add_to_group-IsGrouped (some k) g c a =
      let key = group_key k.claim in
      insert-All IsGrouped key (members w (lookup key g) ++ (k ∷ [])) g a (
        All-append_one (InGroup key) (members w (lookup key g)) k
          (old key (Option-cases (lookup key g))) (c k refl, refl))
    where
      old :
          (key : Text)
          → (lookup key g ≡ none) ⊎ ((ks : List Candidate) × (lookup key g ≡ some ks))
          → All (InGroup key) (members w (lookup key g))
      old key (inl e) = rw e tt
      old key (inr (ks, e)) = rw e (lookup-All IsGrouped key ks g a e)

  pub group_claims-IsGrouped :
      (n : ℕ) (cs : List Claim) (g : Groups)
      → ((c : Claim) → In c cs → In c claims)
      → All IsGrouped g
      → All IsGrouped (group_claims w n cs g)
  unfolding group_claims
  group_claims-IsGrouped n [] g i a = a
  group_claims-IsGrouped n (c ∷ cs) g i a =
      group_claims-IsGrouped (suc n) cs (add_to_group w (candidate w n c) g) (λ x h. i x (inr h))
        (add_to_group-IsGrouped (candidate w n c) g
          (λ k h. candidate-IsCandidate n c k (i c (inl refl)) h) a)
