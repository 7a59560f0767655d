-- ===== src/Clouds/Fitting.antt =====
-- pkg/provider: the requirements that every cloud tests before it makes an offer.
use gpuscale.Prelude.{ℕ, ◌*◌, ◌≤◌, ◌≡◌, ◌⊎◌, true, not, ◌&&◌, ltb, Bool, arith}
use gpuscale.Provider.{GpuRequirements, Offer}

-- One GPU at most, unless several are allowed, enough memory of both kinds, and a price for each GPU
-- within the cap, if there is one.
pub record Meets (req : GpuRequirements) (o : Offer) : Type 0 where
  pub single : (req.multi_gpu ≡ true) ⊎ (o.gpu_count ≤ 1)
  pub enough_vram : req.min_vram ≤ o.vram
  pub enough_ram : req.min_ram ≤ o.ram_gb
  pub cheap :
      (req.max_price_per_hour ≡ 0)
      ⊎ ((o.gpu_count ≡ 0) ⊎ (o.price_per_hour ≤ req.max_price_per_hour * o.gpu_count))

-- The tests of AWS and GCP, which also bound the memory of one GPU.
abbrev pub passes : GpuRequirements → ℕ → Offer → Bool
passes req vram_per_gpu o =
    not (not req.multi_gpu && ltb 1 o.gpu_count)
    && (not (ltb 0 req.min_vram && ltb o.vram req.min_vram)
        && (not (ltb 0 req.max_vram && ltb req.max_vram vram_per_gpu)
            && (not (ltb 0 req.min_ram && ltb o.ram_gb req.min_ram)
                && not (
                    ltb 0 req.max_price_per_hour
                    && (ltb 0 o.gpu_count
                        && ltb (req.max_price_per_hour * o.gpu_count) o.price_per_hour)))))

module _ (req : GpuRequirements) (vram_per_gpu : ℕ) (o : Offer)
    (h : passes req vram_per_gpu o ≡ true) where
  pub passes-Meets : Meets req o
  passes-Meets = record {
    single = ground (arith, h);
    enough_vram = ground (arith, h);
    enough_ram = ground (arith, h);
    cheap = ground (arith, h);
  }

  pub passes-small : (req.max_vram ≡ 0) ⊎ (vram_per_gpu ≤ req.max_vram)
  passes-small = ground (arith, h)
