-- ===== src/Controller/Backoff/Overflow.antt =====
-- internal/controller/reconciler.go: the back-off is 30 s, 60 s, 120 s, 240 s and then 5 min, up to
-- the retry at which the doubled duration leaves the range of `int64`.
use gpuscale.Prelude.{
  ℕ, zero, suc, ◌+◌, ◌-◌, ◌*◌, ◌^◌, ◌≤◌, ◌<◌, ◌≡◌, refl, ◌∙◌, ap, sym, min, arith,
}
use native.Mathlib.Nat.{pow-suc}
use native.Mathlib.Decide.{dec_lt}
use gpuscale.Controller.Backoff.{wrap, base, max_backoff, doubled, backoff_duration}

pow_pos : (k : ℕ) → 1 ≤ 2 ^ k
pow_pos zero = omega arith
pow_pos (suc k) = omega (arith, pow_pos k, pow-suc 2 k)

-- Without overflow, `k` rounds multiply by `2 ^ k`.
doubled-pow : (k d : ℕ) → d * 2 ^ k < 18446744073709551616 → doubled k d ≡ d * 2 ^ k
unfolding doubled
doubled-pow zero d h = omega arith
doubled-pow (suc k) d h =
    let regroup : d * 2 ^ suc k ≡ d * 2 * 2 ^ k = rw (pow-suc 2 k) (omega arith) in
    let small : d * 2 ≤ d * 2 * 2 ^ k = grind (arith, pow_pos k) in
    let exact : wrap (d * 2) ≡ d * 2 = omega arith in
    rw (exact, doubled) (doubled-pow k (d * 2) (omega arith) ∙ sym regroup)

pow_mono : (a b : ℕ) → a ≤ b → 2 ^ a ≤ 2 ^ b
pow_mono a zero h = rw (antisymm h) (omega arith)
  where
    antisymm : a ≤ 0 → a ≡ 0
    antisymm k = omega arith
pow_mono a (suc b) h = elim (dec_lt b a) [
  | yes above ↦ let same : a ≡ suc b = omega arith in rw same (omega arith)
  | no below ↦ omega (arith, pow_mono a b (omega arith), pow-suc 2 b)
]

-- Up to retry 29 the back-off doubles from 30 s and stops at 5 min.
pub backoff_duration_capped :
    (retry_count : ℕ)
    → retry_count ≤ 29
    → backoff_duration retry_count ≡ min (base * 2 ^ (retry_count - 1)) max_backoff
unfolding backoff_duration
backoff_duration_capped n h =
    let bound : 2 ^ (n - 1) ≤ 2 ^ 28 = pow_mono (n - 1) 28 (omega arith) in
    let exact : doubled (n - 1) base ≡ base * 2 ^ (n - 1) =
      doubled-pow (n - 1) base (omega arith) in
    rw exact (ground arith)

doubled-zero : (k : ℕ) → doubled k 0 ≡ 0
unfolding doubled
doubled-zero zero = refl
doubled-zero (suc k) = doubled-zero k

doubled-add : (j k d : ℕ) → doubled (j + k) d ≡ doubled k (doubled j d)
unfolding doubled
doubled-add zero k d = let unit : 0 + k ≡ k = omega arith in rw unit refl
doubled-add (suc j) k d =
    let step : suc j + k ≡ suc (j + k) = omega arith in rw step (doubled-add j k (wrap (d * 2)))

wrapped : doubled 54 base ≡ 0
unfolding doubled
wrapped = refl

-- From retry 55 on the doubled duration has wrapped to zero, and stays there: the back-off is no delay
-- at all.
pub backoff_duration_zero : (retry_count : ℕ) → 55 ≤ retry_count → backoff_duration retry_count ≡ 0
unfolding backoff_duration
backoff_duration_zero n h =
    let count : n - 1 ≡ 54 + (n - 55) = omega arith in
    let gone : doubled (n - 1) base ≡ 0 =
      rw count
        (doubled-add 54 (n - 55) base ∙ ap (doubled (n - 55)) wrapped ∙ doubled-zero (n - 55)) in
    rw gone refl
