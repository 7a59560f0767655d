-- ===== src/Scheduler.antt =====
-- internal/scheduler/matcher.go: what a pod asks for. A pod has the fields that are read; each
-- container has its limit of "nvidia.com/gpu", if there is one. How a price is read is a parameter.
pub mod Merging
use gpuscale.Prelude.{
  ℕ, ◌+◌, Bool, false, not, ◌&&◌, ◌||◌, ltb, ◌==◌, if◌then◌else◌, List, [], ◌∷◌, ◌++◌, Option, none,
  some, Text, txt, text_eq, any, lookup, contains_text,
}
use gpuscale.Provider.{GpuRequirements}
use gpuscale.Prelude.{atoi_positive}

pub record PodCondition : Type 0 where
  pub type : Text
  pub status : Text
  pub reason : Text

pub record Pod : Type 0 where
  pub uid : Text
  pub is_pending : Bool
  pub annotations : List (Text × Text)
  pub containers : List (Option ℕ)
  pub init_containers : List (Option ℕ)
  pub conditions : List PodCondition

abbrev has_gpus : Option ℕ → Bool
has_gpus none = false
has_gpus (some n) = not (n == 0)

unfoldable pub is_gpu_pod : Pod → Bool
is_gpu_pod pod = any has_gpus pod.containers || any has_gpus pod.init_containers

unfoldable pub is_unschedulable : Pod → Bool
is_unschedulable pod =
    any
      (λ c.
        text_eq c.type (txt "PodScheduled")
        && (text_eq c.status (txt "False") && text_eq c.reason (txt "Unschedulable")))
      pod.conditions

abbrev limit_or_zero : Option ℕ → ℕ
limit_or_zero none = 0
limit_or_zero (some n) = n

unfoldable pub gpus_of : List (Option ℕ) → ℕ
gpus_of [] = 0
gpus_of (l ∷ ls) = limit_or_zero l + gpus_of ls

abbrev pub no_requirements : GpuRequirements
no_requirements = record {
  gpu_count = 0;
  min_vram = 0;
  max_vram = 0;
  gpu_types = [];
  max_price_per_hour = 0;
  capacity_type = [];
  min_disk = 0;
  min_ram = 0;
  node_type = [];
  min_pcie_gen = 0;
  multi_gpu = false;
}

abbrev vram_from : Option Text → ℕ
vram_from none = 0
vram_from (some t) = atoi_positive t

abbrev types_from : Option Text → List Text
types_from none = []
types_from (some t) = t ∷ []

abbrev price_from : (Text → ℕ) → Option Text → ℕ
price_from parse none = 0
price_from parse (some t) = parse t

abbrev capacity_from : Option Text → Text
capacity_from none = txt "spot"
capacity_from (some t) = if text_eq t (txt "on-demand") then txt "on-demand" else txt "spot"

unfoldable pub extract_gpu_requirements : (Text → ℕ) → Pod → GpuRequirements
unfolding gpus_of
extract_gpu_requirements parse pod = record no_requirements {
  gpu_count = gpus_of pod.containers;
  min_vram = vram_from (lookup (txt "gpuscale.io/gpu-vram") pod.annotations);
  gpu_types = types_from (lookup (txt "gpuscale.io/gpu-type") pod.annotations);
  max_price_per_hour = price_from parse (lookup (txt "gpuscale.io/max-price") pod.annotations);
  capacity_type = capacity_from (lookup (txt "gpuscale.io/priority") pod.annotations);
}

-- The larger of two minimums, as the loop of `MergeRequirements` keeps it.
abbrev pub raised : ℕ → ℕ → ℕ
raised old new = if ltb old new then new else old

-- The lower of two caps, where zero is no cap.
unfoldable pub capped : ℕ → ℕ → ℕ
capped old new = if ltb 0 new && (old == 0 || ltb new old) then new else old

abbrev on_demand_if : Text → Text → Text
on_demand_if new old = if text_eq new (txt "on-demand") then txt "on-demand" else old

-- The body of the loop.
unfoldable pub merge_step : GpuRequirements → GpuRequirements → GpuRequirements
merge_step m r = record m {
  gpu_count = m.gpu_count + r.gpu_count;
  min_vram = raised m.min_vram r.min_vram;
  min_disk = raised m.min_disk r.min_disk;
  min_ram = raised m.min_ram r.min_ram;
  capacity_type = on_demand_if r.capacity_type m.capacity_type;
  max_price_per_hour = capped m.max_price_per_hour r.max_price_per_hour;
  gpu_types = m.gpu_types ++ r.gpu_types;
}

unfoldable pub merge_all : GpuRequirements → List GpuRequirements → GpuRequirements
merge_all m [] = m
merge_all m (r ∷ rs) = merge_all (merge_step m r) rs

-- The first of each text, given those that were seen.
unfoldable pub unique : List Text → List Text → List Text
unique seen [] = []
unique seen (t ∷ ts) =
    let known = unique seen ts in
    let fresh = unique (t ∷ seen) ts in if contains_text t seen then known else t ∷ fresh

unfoldable pub merge_requirements : List GpuRequirements → GpuRequirements
merge_requirements [] = no_requirements
merge_requirements (r ∷ []) = r
merge_requirements (q ∷ r ∷ rs) =
    let merged = merge_all (record no_requirements { capacity_type = txt "spot" }) (q ∷ r ∷ rs) in
    record merged { gpu_types = unique [] merged.gpu_types }
