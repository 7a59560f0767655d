-- ===== src/Coordinator/Errors/Category.antt =====
-- internal/coordinator/errors.go: which errors fall into which category.
use gpuscale.Prelude.{
  ◌≡◌, refl, ap₂, ◌↔◌, ◌⊎◌, true, false, ℕ, List, [], ◌∷◌, some, Text, to_lower, lower_byte, arith,
}
use gpuscale.Provider.{Error, Sentinel, offer_expired, instance_not_found, is_error}
use gpuscale.Coordinator.Errors.{
  permanent, expired, conflict, contains_any, classify_error, rate_limit_patterns,
  conflict_patterns, invalid_patterns, permanent_patterns,
}

-- Neither sentinel that stands for a lost offer is wrapped.
abbrev pub NoSentinel : Error → Type 0
NoSentinel e = (is_error e offer_expired ≡ false) × (is_error e instance_not_found ≡ false)

abbrev pub Mentions : Error → List Text → Type 0
Mentions e patterns = contains_any (to_lower e.message) patterns ≡ true

abbrev pub Omits : Error → List Text → Type 0
Omits e patterns = contains_any (to_lower e.message) patterns ≡ false

-- An error stops the provisioning exactly when it wraps no lost-offer sentinel, its lowered text
-- mentions an authorisation or billing failure, and mentions none of what is tested before:
-- rate limits, conflicts and invalid requests.
pub classify_error_permanent :
    (e : Error)
    → (classify_error (some e) ≡ permanent) ↔ (
        NoSentinel e
        × (Omits e rate_limit_patterns
            × Omits e conflict_patterns
            × Omits e invalid_patterns
            × Mentions e permanent_patterns))
unfolding classify_error
classify_error_permanent e = ground (arith)

-- An error takes its offer off the market exactly when it wraps a lost-offer sentinel, or its
-- lowered text mentions no rate limit and mentions a conflict or an invalid request.
pub classify_error_blacklists :
    (e : Error)
    → ((classify_error (some e) ≡ expired) ⊎ (classify_error (some e) ≡ conflict)) ↔ (
        ((is_error e offer_expired ≡ true) ⊎ (is_error e instance_not_found ≡ true))
        ⊎ (Omits e rate_limit_patterns
            × (Mentions e conflict_patterns ⊎ Mentions e invalid_patterns)))
unfolding classify_error
classify_error_blacklists e = ground (arith)

lower_byte_twice : (c : ℕ) → lower_byte (lower_byte c) ≡ lower_byte c
lower_byte_twice c = ground arith

to_lower_twice : (t : Text) → to_lower (to_lower t) ≡ to_lower t
unfolding to_lower
to_lower_twice [] = refl
to_lower_twice (c ∷ t) = ap₂ ◌∷◌ (lower_byte_twice c) (to_lower_twice t)

-- The case of the letters in a provider's message does not matter.
pub classify_error-to_lower :
    (wraps : List Sentinel) (message : Text)
    → classify_error (some (record { wraps = wraps; message = to_lower message }))
      ≡ classify_error (some (record { wraps = wraps; message = message }))
unfolding classify_error is_error
classify_error-to_lower wraps message = rw (to_lower_twice message)
