-- ===== src/Controller/Trigger/Debounce/Spacing.antt =====
-- internal/controller/provisiontrigger.go: how far apart the triggers of one model are.
use gpuscale.Prelude.{
  ℕ, ◌+◌, ◌*◌, ◌≤◌, ◌<◌, ◌≡◌, refl, ap, subst, ◌∙◌, ◌⊎◌, inl, inr, Bool, true, false, ltb, List, [],
  ◌∷◌, some, Text, text_eq, text_eq_self, All, All-map, All-both, lookup, insert, lookup-insert,
  lookup-delete_if, insert-Distinct, delete_if-Distinct, Distinct, unless, Bool-cases, arith,
}
use gpuscale.Controller.Effects.{second}
use gpuscale.Controller.Trigger.Debounce.{
  Message, Subscriber, is_recent, clean, record_if, clean_out, on_message, new_subscriber, Reaches,
  at_start, on,
}

-- Two handled messages of one model lie ten seconds apart, from the record of the older one, `f`, to
-- the arrival of the newer one, `m`.
abbrev pub Apart : Message → Message → Type 0
Apart m f = f.model ≡ m.model → f.recorded + 10 * second ≤ m.received

abbrev pub Spaced : List Message → Type 0
Spaced [] = Unit
Spaced (m ∷ ms) = All (Apart m) ms × Spaced ms

-- The map knows of the message, or the message is more than half a minute old.
abbrev Remembered : List (Text × ℕ) → ℕ → Message → Type 0
Remembered recent now f =
    ((t : ℕ) × (lookup f.model recent ≡ some t) × (f.recorded ≤ t))
    ⊎ (f.recorded + 30 * second < now)

record IsSound (s : Subscriber) (now : ℕ) : Type 0 where
  distinct : Distinct s.recently_handled
  remembered : All (Remembered s.recently_handled now) s.handled
  past : All (λ f. f.recorded ≤ now) s.handled
  spaced : Spaced s.handled

-- The cleaning forgets only what is old enough.
clean-Remembered :
    (recent : List (Text × ℕ)) (now c : ℕ) (f : Message)
    → Distinct recent
    → now ≤ c
    → Remembered recent now f
    → Remembered (clean c recent) c f
clean-Remembered recent now c f dis le (inr old) = inr (omega arith)
clean-Remembered recent now c f dis le (inl (t, e, g)) =
    let after =
      lookup-delete_if (λ m x. ltb (x + 30 * second) c) f.model recent dis
      ∙ ap (unless (λ x. ltb (x + 30 * second) c)) e in
    elim (Bool-cases (ltb (t + 30 * second) c)) [
      | inl old ↦ inr (ground arith)
      | inr young ↦ inl (t, after ∙ rw young refl, g)
    ]

clean_out-IsSound :
    (s : Subscriber) (now c : ℕ) → now ≤ c → IsSound s now → IsSound (clean_out c s) c
clean_out-IsSound s now c le g = record {
  distinct = delete_if-Distinct (λ m x. ltb (x + 30 * second) c) s.recently_handled g.distinct;
  remembered =
      All-map s.handled (λ f r. clean-Remembered s.recently_handled now c f g.distinct le r)
        g.remembered;
  past = All-map s.handled (λ f r. omega arith) g.past;
  spaced = g.spaced;
}

later-IsSound : (s : Subscriber) (now c : ℕ) → now ≤ c → IsSound s now → IsSound s c
later-IsSound s now c le g = record {
  distinct = g.distinct;
  remembered = All-map s.handled (λ f r. aged f r) g.remembered;
  past = All-map s.handled (λ f r. omega arith) g.past;
  spaced = g.spaced;
}
  where
    aged : (f : Message) → Remembered s.recently_handled now f → Remembered s.recently_handled c f
    aged f (inl k) = inl k
    aged f (inr old) = inr (omega arith)

-- A message that is not recent is far enough from those that were handled.
Remembered-Apart :
    (s : Subscriber) (now : ℕ) (m f : Message)
    → now ≤ m.received
    → is_recent (lookup m.model s.recently_handled) m.received ≡ false
    → Remembered s.recently_handled now f
    → Apart m f
Remembered-Apart s now m f le n (inr old) = λ same. omega arith
Remembered-Apart s now m f le n (inl (t, e, g)) = λ same.
    let at_m : lookup m.model s.recently_handled ≡ some t =
      subst (λ k. lookup k s.recently_handled ≡ some t) same e in
    let far : ltb m.received (t + 10 * second) ≡ false =
      subst (λ o. is_recent o m.received ≡ false) at_m n in
    ground arith

recorded-Remembered :
    (s : Subscriber) (now : ℕ) (m f : Message)
    → now ≤ m.recorded
    → Remembered s.recently_handled now f
    → f.recorded ≤ now
    → Remembered (insert m.model m.recorded s.recently_handled) m.recorded f
recorded-Remembered s now m f le (inr old) past = inr (omega arith)
recorded-Remembered s now m f le (inl (t, e, g)) past =
    let after = lookup-insert m.model f.model m.recorded s.recently_handled in
    elim (Bool-cases (text_eq m.model f.model)) [
      | inl same ↦ inl (m.recorded, after ∙ rw same refl, omega arith)
      | inr other ↦ inl (t, after ∙ rw other e, g)
    ]

record_if-IsSound :
    (s : Subscriber) (now : ℕ) (m : Message) (b : Bool)
    → now ≤ m.received
    → m.received ≤ m.recorded
    → is_recent (lookup m.model s.recently_handled) m.received ≡ false
    → IsSound s now
    → IsSound (record_if b m s) m.recorded
record_if-IsSound s now m false le le' n g = later-IsSound s now m.recorded (omega arith) g
record_if-IsSound s now m true le le' n g = record {
  distinct = insert-Distinct m.model m.recorded s.recently_handled g.distinct;
  remembered = (
    inl (
      m.recorded,
      lookup-insert m.model m.model m.recorded s.recently_handled ∙ rw (text_eq_self m.model) refl,
      omega arith,
    ),
    All-map s.handled (λ f r. recorded-Remembered s now m f (omega arith) r.0 r.1)
        (All-both _ _ s.handled g.remembered g.past),
  );
  past = (omega arith, All-map s.handled (λ f r. omega arith) g.past);
  spaced = (All-map s.handled (λ f r. Remembered-Apart s now m f le n r) g.remembered, g.spaced);
}

Reaches-IsSound : {s : Subscriber} {now : ℕ} → Reaches s now → IsSound s now
unfolding on_message new_subscriber
Reaches-IsSound (at_start now) = record { distinct = tt; remembered = tt; past = tt; spaced = tt }
Reaches-IsSound (on {s} {now} m r le le' le'') =
    let g = Reaches-IsSound r in
    elim (Bool-cases (is_recent (lookup m.model s.recently_handled) m.received)) [
      | inl e ↦ rw e (later-IsSound s now m.cleaned (omega arith) g)
      | inr e ↦ rw e (
          clean_out-IsSound (record_if m.succeeds m s) m.recorded m.cleaned le''
            (record_if-IsSound s now m m.succeeds le le' e g))
    ]

-- Whatever messages come, two triggers of one model that succeed lie at least ten seconds apart.
pub Reaches-Spaced : (s : Subscriber) (now : ℕ) → Reaches s now → Spaced s.handled
Reaches-Spaced s now r = let g = Reaches-IsSound r in g.spaced
