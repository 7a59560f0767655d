-- ===== src/Controller/Trigger/Debounce.antt =====
-- internal/controller/provisiontrigger.go: the loop of `Start` at a message of the channel, which skips
-- a model that was handled a moment ago. The map `recentlyHandled` is an association list.
pub mod Spacing
use gpuscale.Prelude.{
  ℕ, ◌+◌, ◌*◌, ◌≤◌, Bool, true, false, ltb, if◌then◌else◌, List, [], ◌∷◌, Option, none, some, Text,
  lookup, insert, delete_if,
}
use gpuscale.Controller.Effects.{second}

-- A message: the model, whether `handleTrigger` returns no error, and the times at which it is
-- received, is recorded as handled, and at which the old entries are cleaned out.
pub record Message : Type 0 where
  pub model : Text
  pub succeeds : Bool
  pub received : ℕ
  pub recorded : ℕ
  pub cleaned : ℕ

-- `handled` is the history of the messages whose trigger succeeded, newest first.
pub record Subscriber : Type 0 where
  pub recently_handled : List (Text × ℕ)
  pub handled : List Message

-- `ok && time.Since(last) < 10*time.Second`
abbrev pub is_recent : Option ℕ → ℕ → Bool
is_recent none now = false
is_recent (some last) now = ltb now (last + 10 * second)

abbrev pub clean : ℕ → List (Text × ℕ) → List (Text × ℕ)
clean now recent = delete_if (λ m t. ltb (t + 30 * second) now) recent

abbrev record_if : Bool → Message → Subscriber → Subscriber
record_if false m s = s
record_if true m s = record {
  recently_handled = insert m.model m.recorded s.recently_handled;
  handled = m ∷ s.handled;
}

abbrev pub clean_out : ℕ → Subscriber → Subscriber
clean_out now s = record s { recently_handled = clean now s.recently_handled }

unfoldable pub on_message : Message → Subscriber → Subscriber
on_message m s =
    if is_recent (lookup m.model s.recently_handled) m.received
    then s
    else clean_out m.cleaned (record_if m.succeeds m s)

unfoldable pub new_subscriber : Subscriber
new_subscriber = record { recently_handled = []; handled = [] }

-- The states that the loop reaches, each with the time at which it stands: the clock runs forward.
pub data Reaches : Subscriber → ℕ → Type 0 where
  at_start : (now : ℕ) → Reaches new_subscriber now
  on :
      {s : Subscriber} {now : ℕ} (m : Message)
      → Reaches s now
      → now ≤ m.received
      → m.received ≤ m.recorded
      → m.recorded ≤ m.cleaned
      → Reaches (on_message m s) m.cleaned
