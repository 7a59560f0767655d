-- ===== src/Scheduler/Merging.antt =====
-- internal/scheduler/matcher.go: what the merged requirements take over from each pod of the batch.
use gpuscale.Prelude.{
  ℕ, ◌+◌, ◌≤◌, ◌<◌, ◌≡◌, ◌↔◌, In-append, refl, subst, ◌⊎◌, inl, inr, true, List, [], ◌∷◌, ◌++◌,
  Text, txt, text_eq, text_eq_iff, contains_text, In, Bool-cases, arith,
}
use gpuscale.Provider.{GpuRequirements}
use gpuscale.Scheduler.{capped, merge_step, merge_all, unique, merge_requirements, no_requirements}

abbrev pub on_demand : Text
on_demand = txt "on-demand"

-- `m` takes `r` over: it asks for at least the GPUs and minimums of `r`, caps the price at most at its
-- cap where it has one, is on demand if `r` is, and names the GPU types of `r` among others.
pub record Includes (r m : GpuRequirements) : Type 0 where
  pub gpus : r.gpu_count ≤ m.gpu_count
  pub vram : r.min_vram ≤ m.min_vram
  pub disk : r.min_disk ≤ m.min_disk
  pub ram : r.min_ram ≤ m.min_ram
  pub price :
      0 < r.max_price_per_hour
      → (0 < m.max_price_per_hour) × (m.max_price_per_hour ≤ r.max_price_per_hour)
  pub kept_on_demand : r.capacity_type ≡ on_demand → m.capacity_type ≡ on_demand
  pub types : (t : Text) → In t r.gpu_types → In t m.gpu_types

Includes-refl : (r : GpuRequirements) → Includes r r
Includes-refl r = record {
  gpus = omega arith;
  vram = omega arith;
  disk = omega arith;
  ram = omega arith;
  price = λ h. (h, omega arith);
  kept_on_demand = λ h. h;
  types = λ t i. i;
}

Includes-trans : (r m n : GpuRequirements) → Includes r m → Includes m n → Includes r n
Includes-trans r m n a b = record {
  gpus = omega (arith, a.gpus, b.gpus);
  vram = omega (arith, a.vram, b.vram);
  disk = omega (arith, a.disk, b.disk);
  ram = omega (arith, a.ram, b.ram);
  price = λ h. let p = a.price h in let q = b.price p.0 in (q.0, omega (arith, p.1, q.1));
  kept_on_demand = λ h. b.kept_on_demand (a.kept_on_demand h);
  types = λ t i. b.types t (a.types t i);
}

In-left : (t : Text) (xs ys : List Text) → In t xs → In t (xs ++ ys)
In-left t [] ys i = elim i [ ]
In-left t (x ∷ xs) ys (inl e) = inl e
In-left t (x ∷ xs) ys (inr i) = inr (In-left t xs ys i)

In-right : (t : Text) (xs ys : List Text) → In t ys → In t (xs ++ ys)
In-right t [] ys i = i
In-right t (x ∷ xs) ys i = inr (In-right t xs ys i)

step_keeps : (m r : GpuRequirements) → Includes m (merge_step m r)
unfolding merge_step capped
step_keeps m r = record {
  gpus = omega arith;
  vram = ground arith;
  disk = ground arith;
  ram = ground arith;
  price = λ h. ground arith;
  kept_on_demand = λ h. ground arith;
  types = λ t i. In-left t m.gpu_types r.gpu_types i;
}

step-Includes : (m r : GpuRequirements) → Includes r (merge_step m r)
unfolding merge_step capped
step-Includes m r = record {
  gpus = omega arith;
  vram = ground arith;
  disk = ground arith;
  ram = ground arith;
  price = λ h. ground arith;
  kept_on_demand = λ h.
      let same : text_eq r.capacity_type on_demand ≡ true = (text_eq_iff _ _).1 h in rw same refl;
  types = λ t i. In-right t m.gpu_types r.gpu_types i;
}

merge_all_keeps : (m : GpuRequirements) (rs : List GpuRequirements) → Includes m (merge_all m rs)
unfolding merge_all
merge_all_keeps m [] = Includes-refl m
merge_all_keeps m (r ∷ rs) =
    Includes-trans m (merge_step m r) _ (step_keeps m r) (merge_all_keeps (merge_step m r) rs)

merge_all-Includes :
    (m : GpuRequirements) (rs : List GpuRequirements) (r : GpuRequirements)
    → In r rs
    → Includes r (merge_all m rs)
unfolding merge_all
merge_all-Includes m [] r i = elim i [ ]
merge_all-Includes m (q ∷ rs) r (inl e) =
    subst (λ x. Includes x (merge_all (merge_step m q) rs)) e
      (Includes-trans q (merge_step m q) _ (step-Includes m q)
        (merge_all_keeps (merge_step m q) rs))
merge_all-Includes m (q ∷ rs) r (inr i) = merge_all-Includes (merge_step m q) rs r i

unique-In :
    (seen ts : List Text) (t : Text)
    → In t ts
    → (contains_text t seen ≡ true) ⊎ In t (unique seen ts)
unfolding unique contains_text
unique-In seen [] t i = elim i [ ]
unique-In seen (u ∷ ts) t i = elim (Bool-cases (contains_text u seen)) [
  | inl known ↦ elim i [
    | inl e ↦ inl (subst (λ x. contains_text x seen ≡ true) e known)
    | inr j ↦ rw known (unique-In seen ts t j)
  ]
  | inr new ↦ elim i [
    | inl e ↦ inr (rw new (inl e))
    | inr j ↦ elim (unique-In (u ∷ seen) ts t j) [
      | inr k ↦ inr (rw new (inr k))
      | inl h ↦ elim (Bool-cases (text_eq u t)) [
        | inl same ↦ inr (rw new (inl ((text_eq_iff u t).0 same)))
        | inr other ↦ inl (rw other at h)
      ]
    ]
  ]
]

unique-kept : (ts : List Text) (t : Text) → In t ts → In t (unique [] ts)
unfolding contains_text
unique-kept ts t i = elim (unique-In [] ts t i) [ inl h ↦ absurd (cc h) | inr j ↦ j ]

unfoldable pub total_gpus : List GpuRequirements → ℕ
total_gpus [] = 0
total_gpus (r ∷ rs) = r.gpu_count + total_gpus rs

merge_all-total :
    (m : GpuRequirements) (rs : List GpuRequirements)
    → (merge_all m rs).gpu_count ≡ m.gpu_count + total_gpus rs
unfolding merge_all total_gpus merge_step
merge_all-total m [] = omega arith
merge_all-total m (r ∷ rs) = omega (arith, merge_all-total (merge_step m r) rs)

pub merge_requirements-total :
    (rs : List GpuRequirements) → (merge_requirements rs).gpu_count ≡ total_gpus rs
unfolding merge_requirements total_gpus
merge_requirements-total [] = refl
merge_requirements-total (r ∷ []) = omega arith
merge_requirements-total (q ∷ r ∷ rs) =
    omega
      (arith, merge_all-total (record no_requirements { capacity_type = txt "spot" }) (q ∷ r ∷ rs))

merged-Includes :
    (rs : List GpuRequirements) (r : GpuRequirements) → In r rs → Includes r (merge_requirements rs)
unfolding merge_requirements
merged-Includes [] r i = elim i [ ]
merged-Includes (q ∷ []) r (inr i) = elim i [ ]
merged-Includes (q ∷ []) r (inl e) = subst (λ x. Includes x q) e (Includes-refl q)
merged-Includes (q ∷ p ∷ rs) r i =
    let m =
      merge_all-Includes (record no_requirements { capacity_type = txt "spot" }) (q ∷ p ∷ rs) r i in
    record {
      gpus = m.gpus;
      vram = m.vram;
      disk = m.disk;
      ram = m.ram;
      price = m.price;
      kept_on_demand = m.kept_on_demand;
      types = λ t j. unique-kept _ t (m.types t j);
    }

unique-from : (seen ts : List Text) (t : Text) → In t (unique seen ts) → In t ts
unfolding unique
unique-from seen [] t i = elim i [ ]
unique-from seen (u ∷ ts) t i = elim (Bool-cases (contains_text u seen)) [
  | inl known ↦ inr (unique-from seen ts t (rw (known, unique) at i))
  | inr new ↦ elim (rw (new, unique) at i) [
    | inl e ↦ inl e
    | inr j ↦ inr (unique-from (u ∷ seen) ts t j)
  ]
]

-- One of the pods wants this type.
abbrev pub IsAskedBy : List GpuRequirements → Text → Type 0
IsAskedBy rs t = (r : GpuRequirements) × In r rs × In t r.gpu_types

merge_all-from :
    (m : GpuRequirements) (rs : List GpuRequirements) (t : Text)
    → In t (merge_all m rs).gpu_types
    → In t m.gpu_types ⊎ IsAskedBy rs t
unfolding merge_all merge_step
merge_all-from m [] t i = inl i
merge_all-from m (r ∷ rs) t i = elim (merge_all-from (merge_step m r) rs t i) [
  | inr (q, j, k) ↦ inr (q, inr j, k)
  | inl j ↦ elim (In-append t m.gpu_types r.gpu_types j) [
    | inl k ↦ inl k
    | inr k ↦ inr (r, inl refl, k)
  ]
]

merged_from :
    (rs : List GpuRequirements) (t : Text) → In t (merge_requirements rs).gpu_types → IsAskedBy rs t
unfolding merge_requirements
merged_from [] t i = elim i [ ]
merged_from (q ∷ []) t i = (q, inl refl, i)
merged_from (q ∷ p ∷ rs) t i =
    let m = record no_requirements { capacity_type = txt "spot" } in
    elim (merge_all-from m (q ∷ p ∷ rs) t
      (unique-from [] (merge_all m (q ∷ p ∷ rs)).gpu_types t i)) [
        | inl j ↦ elim j [ ]
        | inr asked ↦ asked
      ]

-- The merged requirements ask for at least the memory, disk and RAM of every pod of the batch, cap the
-- price at most at each cap that a pod has, are on demand where a pod is, and ask for exactly as many
-- GPUs as the pods together. They name a GPU type exactly where one of the pods does, so that a node
-- that meets them may be of a type which another pod does not take.
pub merge_requirements-Includes :
    (rs : List GpuRequirements)
    → ((r : GpuRequirements) → In r rs → Includes r (merge_requirements rs))
      × ((merge_requirements rs).gpu_count ≡ total_gpus rs)
      × ((t : Text) → In t (merge_requirements rs).gpu_types ↔ IsAskedBy rs t)
merge_requirements-Includes rs = (
  λ r i. merged-Includes rs r i,
  merge_requirements-total rs,
  λ t. (λ i. merged_from rs t i, λ (r, i, j). (merged-Includes rs r i).types t j),
)
