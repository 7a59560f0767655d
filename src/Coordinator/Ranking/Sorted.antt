-- ===== src/Coordinator/Ranking/Sorted.antt =====
-- internal/coordinator/coordinator.go: the offers are tried from the best to the worst.
use mathlib.Core.List.{Perm}
use mathlib.Core.List.Perm
use gpuscale.Prelude.{
  ◌≤◌, ◌<◌, ◌≡◌, ◌⊎◌, inl, inr, Bool, true, false, List, [], ◌∷◌, All, In, Bool-cases, arith,
}
use gpuscale.Provider.{GpuRequirements, Offer}
use gpuscale.Coordinator.Filter.{is_preferred_gpu}
use gpuscale.Coordinator.Ranking.{less, place, sort, rank}

module _ {A : Type 0} (less_than : A → A → Bool) where
  place-perm : (x : A) (xs : List A) → Perm (place less_than x xs) (x ∷ xs)
  unfolding place
  place-perm x [] = Perm.refl _
  place-perm x (y ∷ ys) = elim (Bool-cases (less_than y x)) [
    | inl before ↦ rw before (Perm.trans (Perm.cons y (place-perm x ys)) (Perm.swap x y ys))
    | inr after ↦ rw after (Perm.refl _)
  ]

  pub sort-perm : (xs : List A) → Perm (sort less_than xs) xs
  unfolding sort
  sort-perm [] = Perm.refl _
  sort-perm (x ∷ xs) = Perm.trans (place-perm x (sort less_than xs)) (Perm.cons x (sort-perm xs))

  -- No entry comes before one that is less.
  abbrev pub IsRanked : List A → Type 0
  IsRanked [] = Unit
  IsRanked (x ∷ xs) = All (λ y. less_than y x ≡ false) xs × IsRanked xs

  module _ (asymmetric : (a b : A) → less_than a b ≡ true → less_than b a ≡ false)
      (transitive : (a b c : A)
        → less_than b a ≡ false
        → less_than c b ≡ false
        → less_than c a ≡ false) where
    All-place :
        (x z : A) (ys : List A)
        → less_than x z ≡ false
        → All (λ y. less_than y z ≡ false) ys
        → All (λ y. less_than y z ≡ false) (place less_than x ys)
    unfolding place
    All-place x z [] h a = (h, tt)
    All-place x z (y ∷ ys) h a = elim (Bool-cases (less_than y x)) [
      | inl before ↦ rw before (a.0, All-place x z ys h a.1)
      | inr after ↦ rw after (h, a)
    ]

    All-trans :
        (x y : A) (zs : List A)
        → less_than y x ≡ false
        → All (λ z. less_than z y ≡ false) zs
        → All (λ z. less_than z x ≡ false) zs
    All-trans x y [] h a = tt
    All-trans x y (z ∷ zs) h a = (transitive x y z h a.0, All-trans x y zs h a.1)

    place-IsRanked : (x : A) (xs : List A) → IsRanked xs → IsRanked (place less_than x xs)
    unfolding place
    place-IsRanked x [] r = (tt, tt)
    place-IsRanked x (y ∷ ys) r = elim (Bool-cases (less_than y x)) [
      | inl before ↦
          rw before (All-place x y ys (asymmetric y x before) r.0, place-IsRanked x ys r.1)
      | inr after ↦ rw after ((after, All-trans x y ys after r.0), r)
    ]

    pub sort-IsRanked : (xs : List A) → IsRanked (sort less_than xs)
    unfolding sort
    sort-IsRanked [] = tt
    sort-IsRanked (x ∷ xs) = place-IsRanked x (sort less_than xs) (sort-IsRanked xs)

less-asymmetric : (req : GpuRequirements) (a b : Offer) → less req a b ≡ true → less req b a ≡ false
unfolding less
less-asymmetric req a b h = ground arith

less-transitive :
    (req : GpuRequirements) (a b c : Offer)
    → less req b a ≡ false
    → less req c b ≡ false
    → less req c a ≡ false
unfolding less
less-transitive req a b c h k = ground arith

-- `a` may stand in front of `b`.
abbrev pub NotWorse : GpuRequirements → Offer → Offer → Type 0
NotWorse req a b =
    let a_pref = is_preferred_gpu a.gpu_type req.gpu_types in
    let b_pref = is_preferred_gpu b.gpu_type req.gpu_types in
    ((a_pref ≡ true) × (b_pref ≡ false))
    ⊎ ((a_pref ≡ b_pref)
        × ((a.gpu_count < b.gpu_count)
            ⊎ ((a.gpu_count ≡ b.gpu_count)
                × ((a.price_per_hour < b.price_per_hour)
                    ⊎ ((a.price_per_hour ≡ b.price_per_hour) × (b.reliability ≤ a.reliability))))))

abbrev pub BestFirst : GpuRequirements → List Offer → Type 0
BestFirst req [] = Unit
BestFirst req (o ∷ os) = All (NotWorse req o) os × BestFirst req os

not_less-NotWorse : (req : GpuRequirements) (a b : Offer) → less req b a ≡ false → NotWorse req a b
unfolding less
not_less-NotWorse req a b h = ground arith

All-NotWorse :
    (req : GpuRequirements) (o : Offer) (os : List Offer)
    → All (λ x. less req x o ≡ false) os
    → All (NotWorse req o) os
All-NotWorse req o [] a = tt
All-NotWorse req o (x ∷ os) a = (not_less-NotWorse req o x a.0, All-NotWorse req o os a.1)

IsRanked-BestFirst :
    (req : GpuRequirements) (os : List Offer) → IsRanked (less req) os → BestFirst req os
IsRanked-BestFirst req [] r = tt
IsRanked-BestFirst req (o ∷ os) r = (All-NotWorse req o os r.0, IsRanked-BestFirst req os r.1)

-- Ranking loses no offer and makes none up, and puts no offer behind one that is worse: preferred
-- GPUs come first, then fewer GPUs, then the lower price, then the higher reliability.
pub rank_lem :
    (req : GpuRequirements) (offers : List Offer)
    → Perm (rank req offers) offers × BestFirst req (rank req offers)
unfolding rank
rank_lem req offers = (
  sort-perm (less req) offers,
  IsRanked-BestFirst req (sort (less req) offers)
      (sort-IsRanked (less req) (less-asymmetric req) (less-transitive req) offers),
)

In-place :
    (req : GpuRequirements) (x o : Offer) (os : List Offer)
    → In o (place (less req) x os)
    → (x ≡ o) ⊎ In o os
unfolding place
In-place req x o [] h = h
In-place req x o (y ∷ ys) h = elim (Bool-cases (less req y x)) [
  | inl before ↦ elim (rw before at h) [
    | inl e ↦ inr (inl e)
    | inr i ↦ elim (In-place req x o ys i) [ inl e ↦ inl e | inr j ↦ inr (inr j) ]
  ]
  | inr after ↦ rw after at h
]

pub In-rank : (req : GpuRequirements) (o : Offer) (os : List Offer) → In o (rank req os) → In o os
unfolding rank sort
In-rank req o [] h = h
In-rank req o (x ∷ os) h = elim (In-place req x o (sort (less req) os) h) [
  | inl e ↦ inl e
  | inr i ↦ inr (In-rank req o os i)
]
