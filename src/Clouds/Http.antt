-- ===== src/Clouds/Http.antt =====
-- pkg/provider: what the HTTP clients of the clouds have in common. A call is answered by what it asks;
-- an error of net/http or encoding/json is its text, and wraps none of the errors of interface.go.
use gpuscale.Prelude.{
  ℕ, ◌==◌, Bool, if◌then◌else◌, List, [], ◌++◌, Option, none, some, Text, txt, any,
}
use gpuscale.Provider.{Error, Result, ok, err}

pub record Request : Type 0 where
  pub method : Text
  pub path : Text
  pub body : Text

pub record Response : Type 0 where
  pub status : ℕ
  pub body : Text

-- What `NewRequestWithContext` and `httpClient.Do` give.
pub data Answer : Type 0 where
  unsent : Text → Answer
  answered : Response → Answer

-- What `json.Unmarshal` gives.
pub data Decoded (A : Type 0) : Type 0 where
  malformed : Text → Decoded A
  decoded : A → Decoded A

abbrev pub plain_error : Text → Error
plain_error text = record { wraps = []; message = text }

abbrev pub get : Text → Request
get path = record { method = txt "GET"; path = path; body = [] }

abbrev pub delete : Text → Request
delete path = record { method = txt "DELETE"; path = path; body = [] }

abbrev pub put : Text → Text → Request
put path body = record { method = txt "PUT"; path = path; body = body }

abbrev pub post : Text → Text → Request
post path body = record { method = txt "POST"; path = path; body = body }

module _ {A : Type 0} where
  abbrev pub decoding : Text → Decoded A → Result A
  decoding text (malformed e) = err (plain_error (text ++ e))
  decoding text (decoded a) = ok a

abbrev pub is_one_of : List ℕ → ℕ → Bool
is_one_of codes status = any (λ c. c == status) codes

abbrev pub present : {A : Type 0} → Result A → Result (Option A)
present (err e) = err e
present (ok a) = ok (some a)

-- With how `%d` prints a number.
module _ (printed : ℕ → Text) where
  abbrev pub status_error : Text → Response → Error
  status_error text r =
      plain_error (text ++ (txt " returned " ++ (printed r.status ++ (txt ": " ++ r.body))))

  -- What is made of an answer whose status is one of these; another one is an error.
  abbrev pub expecting : {A : Type 0} → Text → List ℕ → (Response → Result A) → Answer → Result A
  expecting text codes f (unsent e) = err (plain_error e)
  expecting text codes f (answered r) =
      if is_one_of codes r.status then f r else err (status_error text r)

  -- The same, where 404 says that there is nothing.
  abbrev pub unless_missing :
      {A : Type 0} → Text → List ℕ → (Response → Result A) → Answer → Result (Option A)
  unless_missing text codes f (unsent e) = err (plain_error e)
  unless_missing text codes f (answered r) =
      if r.status == 404 then ok none else present (expecting text codes f (answered r))

  -- The error of a call whose answer is not looked into.
  abbrev pub acting : Text → List ℕ → Answer → Option Error
  acting text codes (unsent e) = some (plain_error e)
  acting text codes (answered r) =
      if is_one_of codes r.status then none else some (status_error text r)
