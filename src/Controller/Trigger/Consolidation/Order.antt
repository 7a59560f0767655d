-- ===== src/Controller/Trigger/Consolidation/Order.antt =====
-- internal/controller/provisiontrigger.go: `checkConsolidation` takes two claims of different places.
use gpuscale.Prelude.{
  ℕ, suc, ◌≡◌, refl, sym, ap, subst, ◌∙◌, ◌⊎◌, inl, inr, List, [], ◌∷◌, ◌++◌, Option, none, some,
  Text, All, append_one, All-map, In, In-append, In-append_left, In-append_right, lookup,
  Bool-cases, Option-cases,
}
use gpuscale.Provider.{Result-cases}
use gpuscale.Controller.Claims.{Claim, ready, same_phase, claim_model_ids}
use gpuscale.Controller.Trigger.Consolidation.{
  World, Candidate, Groups, group_key, of_single, candidate, members, add_to_group, group_claims,
  can_merge, first_partner, first_pair, first_in_groups,
}
use gpuscale.Controller.Trigger.Consolidation.Grouping.{insert-All, lookup-All}

-- `a` stands in the list at a place before one of `b`.
abbrev pub Before : {A : Type 0} → A → A → List A → Type 0
Before a b [] = ⊥
Before a b (x ∷ xs) = ((x ≡ a) × In b xs) ⊎ Before a b xs

module _ {A : Type 0} where
  Before-grow : (a b c : A) (xs : List A) → Before a b xs → Before a b (xs ++ (c ∷ []))
  Before-grow a b c [] h = absurd h
  Before-grow a b c (x ∷ xs) (inl (e, i)) = inl (e, In-append_left b xs (c ∷ []) i)
  Before-grow a b c (x ∷ xs) (inr h) = inr (Before-grow a b c xs h)

  Before-last : (a c : A) (xs : List A) → In a xs → Before a c (xs ++ (c ∷ []))
  Before-last a c [] i = absurd i
  Before-last a c (x ∷ xs) (inl e) = inl (e, In-append_right c xs (c ∷ []) (inl refl))
  Before-last a c (x ∷ xs) (inr i) = inr (Before-last a c xs i)

  Before-split :
      (a b c : A) (xs : List A) → Before a b (xs ++ (c ∷ [])) → Before a b xs ⊎ (In a xs × (c ≡ b))
  Before-split a b c [] (inl (e, i)) = absurd i
  Before-split a b c [] (inr h) = absurd h
  Before-split a b c (x ∷ xs) (inl (e, i)) = elim (In-append b xs (c ∷ []) i) [
    | inl j ↦ inl (inl (e, j))
    | inr (inl same) ↦ inr (inl e, same)
    | inr (inr no_place) ↦ absurd no_place
  ]
  Before-split a b c (x ∷ xs) (inr h) = elim (Before-split a b c xs h) [
    | inl k ↦ inl (inr k)
    | inr (i, same) ↦ inr (inr i, same)
  ]

-- The candidates are for claims of the list, in their order.
abbrev pub Ordered : List Claim → List Candidate → Type 0
Ordered cs ks =
    ((k : Candidate) → In k ks → In k.claim cs)
    × ((a b : Candidate) → Before a b ks → Before a.claim b.claim cs)

abbrev pub IsOrdered : List Claim → Text × List Candidate → Type 0
IsOrdered cs (key, ks) = Ordered cs ks

Ordered-grow :
    (c : Claim) (cs : List Claim) (ks : List Candidate)
    → Ordered cs ks
    → Ordered (cs ++ (c ∷ [])) ks
Ordered-grow c cs ks (stands, before) = (
  λ k i. In-append_left k.claim cs (c ∷ []) (stands k i),
  λ a b h. Before-grow a.claim b.claim c cs (before a b h),
)

Ordered-add :
    (k : Candidate) (cs : List Claim) (ks : List Candidate)
    → Ordered cs ks
    → Ordered (cs ++ (k.claim ∷ [])) (ks ++ (k ∷ []))
Ordered-add k cs ks (stands, before) = (
  λ x i. elim (In-append x ks (k ∷ []) i) [
    | inl j ↦ In-append_left x.claim cs (k.claim ∷ []) (stands x j)
    | inr (inl e) ↦ In-append_right x.claim cs (k.claim ∷ []) (inl (ap (λ y. y.claim) e))
    | inr (inr no_place) ↦ absurd no_place
  ],
  λ a b h. elim (Before-split a b k ks h) [
    | inl g ↦ Before-grow a.claim b.claim k.claim cs (before a b g)
    | inr (i, e) ↦
        subst (λ y. Before a.claim y.claim (cs ++ (k.claim ∷ []))) e
          (Before-last a.claim k.claim cs (stands a i))
  ],
)

module _ (w : World) where
  candidate-claim : (n : ℕ) (c : Claim) (k : Candidate) → candidate w n c ≡ some k → c ≡ k.claim
  unfolding candidate
  candidate-claim n c k h = elim (Bool-cases (same_phase c.status.phase ready)) [
    | inr e ↦ absurd (cc (rw e at h))
    | inl e ↦ single (claim_model_ids c) (rw e at h)
  ]
    where
      single : (ms : List Text) → of_single w n c ms ≡ some k → c ≡ k.claim
      single [] g = absurd (cc g)
      single (m ∷ m' ∷ ms) g = absurd (cc g)
      single (m ∷ []) g = elim (Result-cases (w.model_config n m)) [
        | inr (x, r) ↦ absurd (cc (rw r at g))
        | inl (none, r) ↦ absurd (cc (rw r at g))
        | inl (some cfg, r) ↦
            let same : record { claim = c; cfg = cfg } ≡ k = cc (rw r at g) in
            ap (λ x. x.claim) same
      ]

  add_to_group-IsOrdered :
      (c : Claim) (cs : List Claim) (o : Option Candidate) (g : Groups)
      → ((k : Candidate) → o ≡ some k → c ≡ k.claim)
      → All (IsOrdered cs) g
      → All (IsOrdered (cs ++ (c ∷ []))) (add_to_group w o g)
  unfolding add_to_group
  add_to_group-IsOrdered c cs none g same a = All-map g (λ (key, ks) h. Ordered-grow c cs ks h) a
  add_to_group-IsOrdered c cs (some k) g same a =
      let key = group_key k.claim in
      let ks = members w (lookup key g) in
      insert-All (IsOrdered (cs ++ (c ∷ []))) key (ks ++ (k ∷ [])) g
        (All-map g (λ (j, js) h. Ordered-grow c cs js h) a)
        (subst (λ x. Ordered (cs ++ (x ∷ [])) (ks ++ (k ∷ []))) (sym (same k refl))
          (Ordered-add k cs ks (old key (Option-cases (lookup key g)))))
    where
      old :
          (key : Text)
          → (lookup key g ≡ none) ⊎ ((ks : List Candidate) × (lookup key g ≡ some ks))
          → Ordered cs (members w (lookup key g))
      old key (inl e) = rw e (λ x i. absurd i, λ x y h. absurd h)
      old key (inr (ks, e)) = rw e (lookup-All (IsOrdered cs) key ks g a e)

  pub group_claims-IsOrdered :
      (n : ℕ) (seen cs : List Claim) (g : Groups)
      → All (IsOrdered seen) g
      → All (IsOrdered (seen ++ cs)) (group_claims w n cs g)
  unfolding group_claims
  group_claims-IsOrdered n seen [] g a =
      All-map g (λ (key, ks) h. subst (λ l. Ordered l ks) (sym (append_none seen)) h) a
    where
      append_none : (xs : List Claim) → xs ++ [] ≡ xs
      append_none [] = refl
      append_none (x ∷ xs) = ap (λ ys. x ∷ ys) (append_none xs)
  group_claims-IsOrdered n seen (c ∷ cs) g a =
      subst
        (λ l. All (IsOrdered l) (group_claims w (suc n) cs (add_to_group w (candidate w n c) g)))
        (append_one seen cs c)
        (group_claims-IsOrdered (suc n) (seen ++ (c ∷ [])) cs (add_to_group w (candidate w n c) g)
          (add_to_group-IsOrdered c seen (candidate w n c) g (λ k h. candidate-claim n c k h) a))

  module _ (claims : List Claim) where
    first_partner-In :
        (a b : Candidate) (bs : List Candidate) → first_partner w claims a bs ≡ some b → In b bs
    unfolding first_partner
    first_partner-In a b [] h = absurd (cc h)
    first_partner-In a b (x ∷ bs) h = elim (Bool-cases (can_merge w claims a x)) [
      | inl e ↦ inl (let same : x ≡ b = cc (rw e at h) in same)
      | inr e ↦ inr (first_partner-In a b bs (rw e at h))
    ]

    first_pair-Before :
        (a b : Candidate) (ks : List Candidate)
        → first_pair w claims ks ≡ some (a, b)
        → Before a b ks
    unfolding first_pair
    first_pair-Before a b [] h = absurd (cc h)
    first_pair-Before a b (x ∷ ks) h = elim (Option-cases (first_partner w claims x ks)) [
      | inl e ↦ inr (first_pair-Before a b ks (rw e at h))
      | inr (y, e) ↦
          let same : some (x, y) ≡ some (a, b) = rw e at h in
          let left : x ≡ a = cc same in
          let right : y ≡ b = cc same in
          inl (left, subst (λ z. In z ks) right (first_partner-In x y ks e))
    ]

    pub first_in_groups-Before :
        (a b : Candidate) (g : Groups)
        → All (IsOrdered claims) g
        → first_in_groups w claims g ≡ some (a, b)
        → Before a.claim b.claim claims
    unfolding first_in_groups
    first_in_groups-Before a b [] i h = absurd (cc h)
    first_in_groups-Before a b ((key, ks) ∷ g) i h = elim (Option-cases (first_pair w claims ks)) [
      | inl e ↦ first_in_groups-Before a b g i.1 (rw e at h)
      | inr (p, e) ↦
          let same : p ≡ (a, b) = cc (rw e at h) in
          i.0.1 a b (first_pair-Before a b ks (e ∙ ap some same))
    ]
