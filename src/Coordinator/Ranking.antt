-- ===== src/Coordinator/Ranking.antt =====
-- internal/coordinator/coordinator.go: the comparison handed to `sort.Slice`. The standard library
-- leaves the order of equal offers open; here they keep the order in which they were found.
pub mod Sorted
use gpuscale.Prelude.{Bool, true, false, not, ltb, ◌==◌, if◌then◌else◌, List, [], ◌∷◌}
use gpuscale.Provider.{GpuRequirements, Offer}
use gpuscale.Coordinator.Filter.{is_preferred_gpu}

abbrev same_bool : Bool → Bool → Bool
same_bool true b = b
same_bool false b = not b

unfoldable pub less : GpuRequirements → Offer → Offer → Bool
less req a b =
    let a_pref = is_preferred_gpu a.gpu_type req.gpu_types in
    let b_pref = is_preferred_gpu b.gpu_type req.gpu_types in
    if not (same_bool a_pref b_pref)
    then a_pref
    else if not (a.gpu_count == b.gpu_count)
    then ltb a.gpu_count b.gpu_count
    else if not (a.price_per_hour == b.price_per_hour)
    then ltb a.price_per_hour b.price_per_hour
    else ltb b.reliability a.reliability

-- `sort.Slice`, for a comparison.
module _ {A : Type 0} (less_than : A → A → Bool) where
  unfoldable pub place : A → List A → List A
  place x [] = x ∷ []
  place x (y ∷ ys) = if less_than y x then y ∷ place x ys else x ∷ y ∷ ys

  unfoldable pub sort : List A → List A
  unfolding place
  sort [] = []
  sort (x ∷ xs) = place x (sort xs)

unfoldable pub rank : GpuRequirements → List Offer → List Offer
unfolding sort
rank req offers = sort (less req) offers
