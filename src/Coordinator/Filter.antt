-- ===== src/Coordinator/Filter.antt =====
-- internal/coordinator/filter.go.
use gpuscale.Prelude.{
  ℕ, ◌/◌, ◌≤◌, ◌<◌, ◌≡◌, Bool, true, false, not, ◌&&◌, ◌||◌, ltb, if◌then◌else◌, List, [], ◌∷◌,
  Text, text_eq, text_eq_iff, is_empty, contains, to_lower, any, keep, In, In-keep, keep-In, arith,
  ◌↔◌, ◌⊎◌, inl, inr, refl, Bool-cases, ltb→lt, &&_iff,
}
use gpuscale.Provider.{GpuRequirements, Offer}

-- The body of the loop: false where the source says `continue`.
unfoldable pub admits : GpuRequirements → Offer → Bool
admits req o =
    if ltb 0 req.gpu_count && ltb o.gpu_count req.gpu_count
    then false
    else if ltb 0 req.min_vram && ltb o.vram req.min_vram
    then false
    else if ltb 0 req.max_vram && ltb 0 o.gpu_count && ltb req.max_vram (o.vram / o.gpu_count)
    then false
    else if ltb 0 req.max_price_per_hour && ltb req.max_price_per_hour o.price_per_hour
    then false
    else if not (is_empty req.capacity_type) && not (text_eq o.capacity_type req.capacity_type)
    then false
    else if not req.multi_gpu && ltb 1 o.gpu_count
    then false
    else if ltb 0 req.min_disk && ltb 0 o.disk_gb && ltb o.disk_gb req.min_disk
    then false
    else if ltb 0 req.min_ram && ltb 0 o.ram_gb && ltb o.ram_gb req.min_ram
    then false
    else true

unfoldable pub filter_by_requirements : List Offer → GpuRequirements → List Offer
filter_by_requirements offers req = keep (admits req) offers

unfoldable pub matches_any_gpu_type : Text → List Text → Bool
unfolding to_lower contains
matches_any_gpu_type gpu_type wanted =
    let gpu_lower = to_lower gpu_type in
    any
      (λ w.
        let w_lower = to_lower w in
        text_eq gpu_lower w_lower || (contains gpu_lower w_lower || contains w_lower gpu_lower))
      wanted

unfoldable pub is_preferred_gpu : Text → List Text → Bool
unfolding matches_any_gpu_type
is_preferred_gpu gpu_type [] = false
is_preferred_gpu gpu_type (w ∷ preferred) = matches_any_gpu_type gpu_type (w ∷ preferred)

-- What the requirements ask of an offer. A zero or empty field of `req`, and an unknown disk or
-- memory size of the offer, ask nothing.
pub record Meets (req : GpuRequirements) (o : Offer) : Type 0 where
  pub enough_gpus : req.gpu_count ≤ o.gpu_count
  pub enough_vram : req.min_vram ≤ o.vram
  pub vram_capped : 0 < req.max_vram → 0 < o.gpu_count → o.vram / o.gpu_count ≤ req.max_vram
  pub price_capped : 0 < req.max_price_per_hour → o.price_per_hour ≤ req.max_price_per_hour
  pub capacity : (is_empty req.capacity_type ≡ true) ⊎ (o.capacity_type ≡ req.capacity_type)
  pub single_gpu : req.multi_gpu ≡ false → o.gpu_count ≤ 1
  pub enough_disk : 0 < o.disk_gb → req.min_disk ≤ o.disk_gb
  pub enough_ram : 0 < o.ram_gb → req.min_ram ≤ o.ram_gb

-- `if t { continue }`, read as a condition.
guard_iff :
    {P Q : Type 0} (t b : Bool)
    → ((t ≡ false) ↔ P)
    → ((b ≡ true) ↔ Q)
    → ((if t then false else b) ≡ true) ↔ (P × Q)
guard_iff true b p q = (λ h. absurd (cc), λ (x, y). absurd (cc (p.1 x)))
guard_iff false b p q = (λ h. (p.0 refl, q.0 h), λ (x, y). q.1 y)

at_least_iff : (n m : ℕ) → ((ltb 0 n && ltb m n) ≡ false) ↔ (n ≤ m)
at_least_iff n m = ground arith

at_most_iff : (n m : ℕ) → ((ltb 0 n && ltb n m) ≡ false) ↔ (0 < n → m ≤ n)
at_most_iff n m = (
  λ e h. ground arith,
  λ f. elim (Bool-cases (ltb 0 n)) [
    | inl pos ↦ let bound = f (ltb→lt 0 n pos) in ground arith
    | inr none_set ↦ rw none_set
  ],
)

known_iff : (n m : ℕ) → ((ltb 0 n && ltb 0 m && ltb m n) ≡ false) ↔ (0 < m → n ≤ m)
known_iff n m = (
  λ e h. ground arith,
  λ f. elim (Bool-cases (ltb 0 m)) [
    | inl pos ↦ let bound = f (ltb→lt 0 m pos) in ground arith
    | inr none_set ↦ ground arith
  ],
)

per_gpu_iff :
    (n c v : ℕ) → ((ltb 0 n && ltb 0 c && ltb n (v / c)) ≡ false) ↔ (0 < n → 0 < c → v / c ≤ n)
per_gpu_iff n c v = (
  λ e h k. ground arith,
  λ f. elim (Bool-cases (ltb 0 n && ltb 0 c)) [
    | inl set ↦
        let (pos, some_gpu) = (&&_iff (ltb 0 n) (ltb 0 c)).0 set in
        let bound = f (ltb→lt 0 n pos) (ltb→lt 0 c some_gpu) in ground arith
    | inr unset ↦ ground arith
  ],
)

capacity_iff :
    (want have : Text)
    → ((not (is_empty want) && not (text_eq have want)) ≡ false)
      ↔ ((is_empty want ≡ true) ⊎ (have ≡ want))
capacity_iff want have =
    (λ e. ground (arith, text_eq_iff have want), λ m. ground (arith, text_eq_iff have want))

single_iff : (multi : Bool) (n : ℕ) → ((not multi && ltb 1 n) ≡ false) ↔ (multi ≡ false → n ≤ 1)
single_iff true n = (λ e h. absurd (cc), λ f. refl)
single_iff false n = (λ e h. ground arith, λ f. let bound = f refl in ground arith)

pub admits_iff : (req : GpuRequirements) (o : Offer) → (admits req o ≡ true) ↔ Meets req o
unfolding admits
admits_iff req o =
    let parts = guard_iff _ _ (at_least_iff req.gpu_count o.gpu_count) (
      guard_iff _ _ (at_least_iff req.min_vram o.vram) (
        guard_iff _ _ (per_gpu_iff req.max_vram o.gpu_count o.vram) (
          guard_iff _ _ (at_most_iff req.max_price_per_hour o.price_per_hour) (
            guard_iff _ _ (capacity_iff req.capacity_type o.capacity_type) (
              guard_iff _ _ (single_iff req.multi_gpu o.gpu_count) (
                guard_iff _ _ (known_iff req.min_disk o.disk_gb)
                  (guard_iff _ true (known_iff req.min_ram o.ram_gb) true_iff))))))) in
    (
      λ h.
          let (a, (b, (c, (d, (e, (f, (g, (k, u)))))))) = parts.0 h in
          record {
            enough_gpus = a;
            enough_vram = b;
            vram_capped = c;
            price_capped = d;
            capacity = e;
            single_gpu = f;
            enough_disk = g;
            enough_ram = k;
          },
      λ m. parts.1 (
        m.enough_gpus,
        (
          m.enough_vram,
          (
            m.vram_capped,
            (m.price_capped, (m.capacity, (m.single_gpu, (m.enough_disk, (m.enough_ram, tt))))),
          ),
        ),
      ),
    )
  where
    true_iff : (true ≡ true) ↔ Unit {0}
    true_iff = (λ _. tt, λ _. refl)

-- An offer comes out of the filter exactly when it went in and meets the requirements.
pub filter_by_requirements_iff :
    (offers : List Offer) (req : GpuRequirements) (o : Offer)
    → In o (filter_by_requirements offers req) ↔ (In o offers × Meets req o)
unfolding filter_by_requirements
filter_by_requirements_iff offers req o = (
  λ h. let (i, p) = In-keep (admits req) o offers h in (i, (admits_iff req o).0 p),
  λ (i, m). keep-In (admits req) o offers i ((admits_iff req o).1 m),
)
