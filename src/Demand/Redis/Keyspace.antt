-- ===== src/Demand/Redis/Keyspace.antt =====
-- internal/controller/demandstore.go: keys that are a prefix and a name.
use gpuscale.Prelude.{◌≡◌, refl, [], ◌∷◌, ◌++◌, Text, text_eq, has_prefix, true, arith}

-- `key[len(prefix):]`
unfoldable pub strip : Text → Text → Text
strip [] k = k
strip (b ∷ p) [] = []
strip (b ∷ p) (a ∷ k) = strip p k

pub has_prefix-append : (p t : Text) → has_prefix (p ++ t) p ≡ true
unfolding has_prefix
has_prefix-append [] t = refl
has_prefix-append (b ∷ p) t = ground (arith, has_prefix-append p t)

pub strip-append : (p t : Text) → strip p (p ++ t) ≡ t
unfolding strip
strip-append [] t = refl
strip-append (b ∷ p) t = strip-append p t

pub append-strip : (p k : Text) → has_prefix k p ≡ true → p ++ strip p k ≡ k
unfolding strip has_prefix
append-strip [] k h = refl
append-strip (b ∷ p) [] h = cc
append-strip (b ∷ p) (a ∷ k) h = ground (arith, append-strip p k)

pub text_eq-append : (p s t : Text) → text_eq (p ++ s) (p ++ t) ≡ text_eq s t
unfolding text_eq
text_eq-append [] s t = refl
text_eq-append (b ∷ p) s t = ground (arith, text_eq-append p s t)
