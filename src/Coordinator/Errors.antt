-- ===== src/Coordinator/Errors.antt =====
-- internal/coordinator/errors.go.
pub mod Category
use gpuscale.Prelude.{
  ◌≡◌, ◌↔◌, ◌⊎◌, Bool, ◌||◌, if◌then◌else◌, ◌+◌, List, [], ◌∷◌, Option, none, some, Text, txt,
  contains, to_lower, any,
}
use gpuscale.Provider.{Error, offer_expired, instance_not_found, is_error}

pub data ErrorCategory : Type 0 where
  no_error expired conflict rate_limited transient permanent : ErrorCategory

unfoldable pub contains_any : Text → List Text → Bool
contains_any msg patterns = any (contains msg) patterns

abbrev pub rate_limit_patterns : List Text
rate_limit_patterns = txt "429" ∷ txt "too many requests" ∷ []

abbrev pub conflict_patterns : List Text
conflict_patterns = txt "no_such_ask" ∷ txt "already rented" ∷ txt "gpu conflict" ∷ []

abbrev pub invalid_patterns : List Text
invalid_patterns = txt "invalid_request" ∷ txt "operating system is not valid" ∷ []

abbrev pub permanent_patterns : List Text
permanent_patterns =
    txt "401"
    ∷ txt "403"
    ∷ txt "unauthorized"
    ∷ txt "forbidden"
    ∷ txt "insufficient_credit"
    ∷ txt "lacks credit"
    ∷ txt "billing"
    ∷ txt "payment"
    ∷ []

-- The tests on the lowered message.
unfoldable pub classify_message : Text → ErrorCategory
classify_message msg =
    if contains_any msg rate_limit_patterns
    then rate_limited
    else if contains_any msg conflict_patterns
    then conflict
    else if contains_any msg invalid_patterns
    then expired
    else if contains_any msg permanent_patterns
    then permanent
    else transient

unfoldable pub classify_error : Option Error → ErrorCategory
unfolding classify_message
classify_error none = no_error
classify_error (some e) =
    if is_error e offer_expired
    then expired
    else if is_error e instance_not_found
    then expired
    else classify_message (to_lower e.message)
