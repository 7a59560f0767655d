-- ===== src/Coordinator/Cache/Invalidation.antt =====
-- internal/coordinator/cache.go: which entries `Invalidate` drops.
use gpuscale.Prelude.{
  ℕ, ◌≡◌, refl, ap, ◌∙◌, Bool, true, false, ◌&&◌, ◌==◌, if◌then◌else◌, [], ◌∷◌, ◌++◌, Option, none,
  some, Text, txt, text_eq, has_prefix, lookup, lookup-delete_if, Distinct, delete_if-Distinct,
  unless, arith,
}
use gpuscale.Provider.{GpuRequirements, NoColon}
use gpuscale.Coordinator.Cache.{OfferCache, cache_key, invalidate}

-- In front of the first colon stands the whole name.
has_prefix-name :
    (p q rest : Text)
    → NoColon p
    → NoColon q
    → has_prefix (q ++ (txt ":" ++ rest)) (p ++ txt ":") ≡ text_eq q p
unfolding has_prefix text_eq
has_prefix-name [] [] rest hp hq = refl
has_prefix-name [] (a ∷ q) rest hp hq = ground (arith)
has_prefix-name (b ∷ p) [] rest hp hq = ground (arith)
has_prefix-name (b ∷ p) (a ∷ q) rest hp hq = ap (◌&&◌ (a == b)) (has_prefix-name p q rest hp.1 hq.1)

key_has_prefix :
    (price : ℕ → Text) (p q : Text) (req : GpuRequirements)
    → NoColon p
    → NoColon q
    → has_prefix (cache_key price q req) (p ++ txt ":") ≡ text_eq q p
unfolding cache_key
key_has_prefix price p q req hp hq = has_prefix-name p q _ hp hq

unless_const {ℓ} :
    {V : Type ℓ} (b : Bool) (e : Option V) → unless (λ _. b) e ≡ (if b then none else e)
unless_const true none = refl
unless_const true (some v) = refl
unless_const false none = refl
unless_const false (some v) = refl

-- Invalidating a provider drops every entry of that provider and no entry of another, whatever the
-- requirements, where the names hold no colon; the keys stay distinct.
pub lookup-invalidate :
    (price : ℕ → Text) (c : OfferCache) (p q : Text) (req : GpuRequirements)
    → NoColon p
    → NoColon q
    → Distinct c.entries
    → Distinct (invalidate c p).entries
      × (lookup (cache_key price q req) (invalidate c p).entries
          ≡ (if text_eq q p then none else lookup (cache_key price q req) c.entries))
unfolding invalidate
lookup-invalidate price c p q req hp hq d = (
  delete_if-Distinct _ c.entries d,
  lookup-delete_if _ (cache_key price q req) c.entries d
      ∙ unless_const _ _
      ∙ ap (λ b. if b then none else lookup (cache_key price q req) c.entries)
          (key_has_prefix price p q req hp hq),
)
