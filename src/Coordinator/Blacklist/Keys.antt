-- ===== src/Coordinator/Blacklist/Keys.antt =====
-- internal/coordinator/blacklist.go: which offers share a key.
use gpuscale.Prelude.{◌≡◌, refl, ap₂, [], ◌∷◌, ◌++◌, Text, txt}
use gpuscale.Provider.{NoColon}
use gpuscale.Coordinator.Blacklist.{blacklist_key}

same_front :
    (p q s t : Text)
    → NoColon p
    → NoColon q
    → p ++ (txt ":" ++ s) ≡ q ++ (txt ":" ++ t)
    → (p ≡ q) × (s ≡ t)
same_front [] [] s t hp hq e = (refl, cc)
same_front [] (a ∷ q) s t hp hq e = absurd (hq.0 (cc))
same_front (b ∷ p) [] s t hp hq e = absurd (hp.0 (cc))
same_front (b ∷ p) (a ∷ q) s t hp hq e =
    let (name, rest) = same_front p q s t hp.1 hq.1 (cc) in (ap₂ ◌∷◌ (cc) name, rest)

-- Where provider names hold no colon, two offers share a blacklist key only if they are of one
-- provider and have one offer id: blacklisting an offer blocks no other.
pub blacklist_key-injective :
    (p q i j : Text)
    → NoColon p
    → NoColon q
    → blacklist_key p i ≡ blacklist_key q j
    → (p ≡ q) × (i ≡ j)
unfolding blacklist_key
blacklist_key-injective p q i j hp hq e = same_front p q i j hp hq e
