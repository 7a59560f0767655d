-- ===== src/Clouds/Verda/Client.antt =====
-- pkg/provider/verda/client.go: the token of the client, and how a request is sent. A token's lifetime
-- is not negative and does not overflow a `time.Duration`; times are nanoseconds.
pub mod Tokens
use gpuscale.Prelude.{
  ℕ, suc, ◌+◌, ◌-◌, ◌*◌, ◌==◌, Bool, not, ◌&&◌, ltb, if◌then◌else◌, List, [], ◌∷◌, ◌++◌, Option,
  none, some, Text, txt, is_empty,
}
use gpuscale.Clouds.Http.{Request, Answer, unsent, answered, Decoded, malformed, decoded}

abbrev pub second : ℕ
second = 1000000000

-- `tokenResponse`
pub record Grant : Type 0 where
  pub access_token : Text
  pub expires_in : ℕ

-- Each question moves the counter of the session on.
pub record Wire : Type 0 where
  pub clock : ℕ → ℕ
  -- The answer to the request for a token
  pub token_answer : ℕ → Answer
  pub token_of : Text → Decoded Grant
  -- The answer to a request with this token
  pub answer : ℕ → Request → Text → Answer
  -- What reading the body of an answer fails with
  pub unread : ℕ → Option Text
  -- A number printed by `%d`
  pub printed : ℕ → Text

-- A request that was sent, with the question at which the token was looked at.
pub record Sent : Type 0 where
  pub request : Request
  pub token : Text
  pub checked : ℕ

-- The state of the client, with its log.
pub record Session : Type 0 where
  pub access_token : Text
  pub token_expiry : ℕ
  pub asked : ℕ
  pub sent : List Sent

-- `NewClient`
abbrev pub new_client : Session
new_client = record { access_token = []; token_expiry = 0; asked = 0; sent = [] }

module _ (w : Wire) where
  unfoldable pub has_live_token : Session → Bool
  has_live_token s = not (is_empty s.access_token) && ltb (w.clock s.asked) s.token_expiry

  abbrev pub looked : ℕ → Session → Session
  looked n s = record s { asked = n + s.asked }

  -- When a token that the answer to this question grants is not used any more.
  abbrev pub expiry : ℕ → Grant → ℕ
  expiry k g = (w.clock (suc k) + second * g.expires_in) - second * 60

  abbrev pub keep_token : Session → Decoded Grant → Session × Option Text
  keep_token s (malformed e) = (looked 2 s, some (txt "decoding token: " ++ e))
  keep_token s (decoded g) = (
    record s {
      access_token = g.access_token;
      token_expiry = expiry (suc s.asked) g;
      asked = 3 + s.asked;
    },
    none,
  )

  abbrev pub renew : Session → Answer → Session × Option Text
  renew s (unsent e) = (looked 2 s, some (txt "executing auth request: " ++ e))
  renew s (answered r) = if r.status == 200 then keep_token s (w.token_of r.body) else (
    looked 2 s,
    some (txt "verda auth returned " ++ (w.printed r.status ++ (txt ": " ++ r.body))),
  )

  -- Under the mutex, so one step.
  unfoldable pub authenticate : Session → Session × Option Text
  unfolding has_live_token
  authenticate s =
      if has_live_token s then (looked 1 s, none) else renew s (w.token_answer (suc s.asked))

  -- The rest of `doRequest`, which reads the token again.
  unfoldable pub send : Request → ℕ → Session → Session × Answer
  send q n s = (
    record s {
      asked = suc s.asked;
      sent = record { request = q; token = s.access_token; checked = n } ∷ s.sent;
    },
    w.answer s.asked q s.access_token,
  )

  abbrev pub send_authenticated : Request → ℕ → Session × Option Text → Session × Answer
  send_authenticated q n (s, some e) = (s, unsent e)
  send_authenticated q n (s, none) = send q n s

  unfoldable pub do_request : Request → Session → Session × Answer
  unfolding authenticate send
  do_request q s = send_authenticated q s.asked (authenticate s)
