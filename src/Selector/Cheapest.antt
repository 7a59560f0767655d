-- ===== src/Selector/Cheapest.antt =====
-- pkg/provider/selector.go: which offer `SelectBestOffer` returns.
use gpuscale.Prelude.{
  ◌≤◌, ◌≡◌, refl, sym, subst, ◌⊎◌, inl, inr, true, false, ltb, List, [], ◌∷◌, Text, keep, length,
  In, In-keep, keep-In, All-In, Bool-cases, arith,
}
use gpuscale.Provider.{GpuRequirements, Offer, Result, ok, err}
use gpuscale.Coordinator.Ranking.{place, sort}
use gpuscale.Coordinator.Ranking.Sorted.{IsRanked, sort-IsRanked}
use gpuscale.Selector.{
  suits, cheaper, chosen_providers, search_all, cut, top_of, select_top_offers, best_of,
  select_best_offer,
}

cheaper-asymmetric : (a b : Offer) → cheaper a b ≡ true → cheaper b a ≡ false
unfolding cheaper
cheaper-asymmetric a b h = ground arith

cheaper-transitive :
    (a b c : Offer) → cheaper b a ≡ false → cheaper c b ≡ false → cheaper c a ≡ false
unfolding cheaper
cheaper-transitive a b c h k = ground arith

In-place : (x o : Offer) (os : List Offer) → In o (place cheaper x os) → (x ≡ o) ⊎ In o os
unfolding place
In-place x o [] h = h
In-place x o (y ∷ ys) h = elim (Bool-cases (cheaper y x)) [
  | inl before ↦ elim (rw before at h) [
    | inl e ↦ inr (inl e)
    | inr i ↦ elim (In-place x o ys i) [ inl e ↦ inl e | inr j ↦ inr (inr j) ]
  ]
  | inr after ↦ rw after at h
]

place-In : (x o : Offer) (os : List Offer) → (x ≡ o) ⊎ In o os → In o (place cheaper x os)
unfolding place
place-In x o [] h = h
place-In x o (y ∷ ys) h = elim (Bool-cases (cheaper y x)) [
  | inr after ↦ rw after h
  | inl before ↦ rw before (elim h [
    | inl e ↦ inr (place-In x o ys (inl e))
    | inr i ↦ elim i [ inl e ↦ inl e | inr j ↦ inr (place-In x o ys (inr j)) ]
  ])
]

In-sort : (o : Offer) (os : List Offer) → In o (sort cheaper os) → In o os
unfolding sort
In-sort o [] h = h
In-sort o (x ∷ os) h = elim (In-place x o (sort cheaper os) h) [
  | inl e ↦ inl e
  | inr i ↦ inr (In-sort o os i)
]

sort-In : (o : Offer) (os : List Offer) → In o os → In o (sort cheaper os)
unfolding sort
sort-In o [] h = h
sort-In o (x ∷ os) (inl e) = place-In x o (sort cheaper os) (inl e)
sort-In o (x ∷ os) (inr i) = place-In x o (sort cheaper os) (inr (sort-In o os i))

-- The first of a ranked list.
first_is_cheapest :
    (o x : Offer) (os : List Offer)
    → IsRanked cheaper (o ∷ os)
    → In x (o ∷ os)
    → o.price_per_hour ≤ x.price_per_hour
unfolding cheaper
first_is_cheapest o x os r (inl e) =
    subst (λ y. o.price_per_hour ≤ y.price_per_hour) e (omega arith)
first_is_cheapest o x os r (inr i) =
    let h = All-In (λ y. cheaper y o ≡ false) x os r.0 i in ground arith

module _ (search : Text → Result (List Offer)) (req : GpuRequirements) where
  -- The offers that the chosen providers have and that suit.
  abbrev pub Suitable : List Text → Offer → Type 0
  Suitable providers o = In o (search_all search providers) × (suits req o ≡ true)

  pub record IsBest (providers : List Text) (o : Offer) : Type 0 where
    pub suitable : Suitable providers o
    pub cheapest : (x : Offer) → Suitable providers x → o.price_per_hour ≤ x.price_per_hour

  -- What the answer stands for: an error, that nobody is there to ask or nothing suits.
  abbrev pub Answers : List Text → List Text → Result Offer → Type 0
  Answers registry providers (ok o) = IsBest providers o
  Answers registry providers (err e) = (registry ≡ []) ⊎ ((x : Offer) → ¬ Suitable providers x)

  best_of-cut : (q : Offer) (qs : List Offer) → best_of search (ok (cut search 1 (q ∷ qs))) ≡ ok q
  best_of-cut q qs = elim (Bool-cases (ltb 1 (length (q ∷ qs)))) [
    | inl longer ↦ rw longer refl
    | inr single ↦ rw single refl
  ]

  sorted-Answers :
      (registry providers : List Text) (sorted : List Offer)
      → IsRanked cheaper sorted
      → ((x : Offer) → Suitable providers x → In x sorted)
      → ((x : Offer) → In x sorted → Suitable providers x)
      → Answers registry providers (best_of search (ok (cut search 1 sorted)))
  sorted-Answers registry providers [] r into out = inr (λ x i. into x i)
  sorted-Answers registry providers (q ∷ qs) r into out =
      subst (Answers registry providers) (sym (best_of-cut q qs)) (record {
        suitable = out q (inl refl);
        cheapest = λ x i. first_is_cheapest q x qs r (into x i);
      })

  top_of-Answers :
      (registry providers : List Text) (kept : List Offer)
      → keep (suits req) (search_all search providers) ≡ kept
      → Answers registry providers (best_of search (top_of search 1 kept))
  top_of-Answers registry providers [] k =
      inr (λ x i. subst (In x) k (keep-In (suits req) x (search_all search providers) i.0 i.1))
  top_of-Answers registry providers (o ∷ os) k =
      sorted-Answers registry providers (sort cheaper (o ∷ os))
        (sort-IsRanked cheaper cheaper-asymmetric cheaper-transitive (o ∷ os))
        (λ x i.
          sort-In x (o ∷ os)
            (subst (In x) k (keep-In (suits req) x (search_all search providers) i.0 i.1)))
        (λ x i.
          In-keep (suits req) x (search_all search providers)
            (subst (In x) (sym k) (In-sort x (o ∷ os) i)))

  -- The selected offer is one that a chosen provider has and that suits, and no other such offer is
  -- cheaper; no offer is selected only where no provider is registered or no offer suits.
  pub select_best_offer-Answers :
      (registry preferred : List Text)
      → Answers registry
          (chosen_providers registry preferred)
          (select_best_offer search registry req preferred)
  unfolding select_best_offer select_top_offers
  select_best_offer-Answers [] preferred = inl refl
  select_best_offer-Answers (p ∷ ps) preferred =
      top_of-Answers (p ∷ ps) (chosen_providers (p ∷ ps) preferred) _ refl
