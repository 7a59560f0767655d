-- ===== src/Coordinator/Provision/Rules.antt =====
-- internal/coordinator/coordinator.go: rules for reasoning about the two loops of
-- `ProvisionInstance`. A property of each way through the inner loop's body holds of the loop.
use gpuscale.Prelude.{
  ℕ, zero, suc, ◌≡◌, refl, true, false, ltb, List, [], ◌∷◌, ◌⊎◌, inl, inr, Option, none, some, Text,
  contains_text, Bool-cases, Option-cases,
}
use gpuscale.Provider.{
  GpuRequirements, Offer, Error, Result, ok, err, Result-cases, BootstrapConfig, Instance,
}
use gpuscale.Coordinator.Errors.{classify_error}
use gpuscale.Coordinator.Provision.{
  Tried, stop, next, context_outcome, Reaction, skip_and_blacklist, back_off, abort, skip, react,
  offer_config, waited, called, barred, try_offers, candidates, rounds, sleep, invalidate_providers,
  no_offers, exhausted, after_round,
}
use gpuscale.Coordinator.Provision.State.{
  World, Coordinator, ProvisionResult, Outcome, provisioned, failed,
}

Reaction-cases :
    (r : Reaction) → (r ≡ skip_and_blacklist) ⊎ ((r ≡ back_off) ⊎ ((r ≡ abort) ⊎ (r ≡ skip)))
Reaction-cases skip_and_blacklist = inl refl
Reaction-cases back_off = inr (inl refl)
Reaction-cases abort = inr (inr (inl refl))
Reaction-cases skip = inr (inr (inr refl))

abbrev pub result_of : ℕ → Offer → Instance → ProvisionResult
result_of attempt o i = record { instance_created = i; offer = o; attempts = attempt }

List-cases : {A : Type 0} (xs : List A) → (xs ≡ []) ⊎ ((x : A) × (rest : List A) × (xs ≡ x ∷ rest))
List-cases [] = inl refl
List-cases (x ∷ xs) = inr (x, xs, refl)

Tried-cases : (t : Tried) → ((o : Outcome) × (t ≡ stop o)) ⊎ ((e : Option Error) × (t ≡ next e))
Tried-cases (stop o) = inl (o, refl)
Tried-cases (next e) = inr (e, refl)

module _ (w : World) (config : BootstrapConfig) where
  -- A create call is made for the offer, and this is its answer.
  abbrev pub Answers : Coordinator → Offer → Result Instance → Type 0
  Answers c o r =
      (w.wait_fails c.asked o.provider_name ≡ false)
      × (contains_text o.provider_name c.registry ≡ true)
      × (w.create (suc c.asked) o (offer_config w config o) ≡ r)

  -- One case for each way through the body of the inner loop.
  pub record Rule {ℓ} (attempt : ℕ)
      (P : Option Error → Coordinator → List Offer → Coordinator × Tried → Type ℓ) : Type ℓ where
    pub none_left : (last : Option Error) (c : Coordinator) → P last c [] (c, next last)
    pub wait_failed :
        (last : Option Error) (c : Coordinator) (o : Offer) (os : List Offer)
        → w.wait_fails c.asked o.provider_name ≡ true
        → P last c (o ∷ os) (waited w config c, stop (context_outcome (w.ctx_err (suc c.asked))))
    pub unregistered :
        (last : Option Error) (c : Coordinator) (o : Offer) (os : List Offer)
        (t : Coordinator × Tried)
        → contains_text o.provider_name c.registry ≡ false
        → P last (waited w config c) os t
        → P last c (o ∷ os) t
    pub created :
        (last : Option Error) (c : Coordinator) (o : Offer) (os : List Offer) (i : Instance)
        → Answers c o (ok i)
        → P last c (o ∷ os) (called w config c o, stop (provisioned (result_of attempt o i)))
    pub blacklisted :
        (last : Option Error) (c : Coordinator) (o : Offer) (os : List Offer) (e : Error)
        (t : Coordinator × Tried)
        → Answers c o (err e)
        → react (classify_error (some e)) ≡ skip_and_blacklist
        → P (some e) (barred w config (called w config c o) o) os t
        → P last c (o ∷ os) t
    pub limited :
        (last : Option Error) (c : Coordinator) (o : Offer) (os : List Offer) (e : Error)
        → Answers c o (err e)
        → react (classify_error (some e)) ≡ back_off
        → P last c (o ∷ os) (called w config c o, next (some e))
    pub aborted :
        (last : Option Error) (c : Coordinator) (o : Offer) (os : List Offer) (e : Error)
        → Answers c o (err e)
        → react (classify_error (some e)) ≡ abort
        → P last c (o ∷ os) (called w config c o, stop (failed e))
    pub skipped :
        (last : Option Error) (c : Coordinator) (o : Offer) (os : List Offer) (e : Error)
        (t : Coordinator × Tried)
        → Answers c o (err e)
        → react (classify_error (some e)) ≡ skip
        → P (some e) (called w config c o) os t
        → P last c (o ∷ os) t

  module _ {ℓ} (attempt : ℕ)
      (P : Option Error → Coordinator → List Offer → Coordinator × Tried → Type ℓ)
      (rule : Rule attempt P) where
    refused :
        (last : Option Error) (c : Coordinator) (o : Offer) (os : List Offer) (e : Error)
        → Answers c o (err e)
        → ((last : Option Error) (c : Coordinator)
            → P last c os (try_offers w config attempt last c os))
        → P last c (o ∷ os) (try_offers w config attempt last c (o ∷ os))
    unfolding try_offers
    refused last c o os e a ih =
        rw (a.0, try_offers)
          (rw (a.1, try_offers)
            (rw (a.2, try_offers)
              (elim (Reaction-cases (react (classify_error (some e)))) [
                | inl r ↦
                    rw (r, try_offers)
                      (rule.blacklisted last c o os e _ a r
                        (ih (some e) (barred w config (called w config c o) o)))
                | inr (inl r) ↦ rw (r, try_offers) (rule.limited last c o os e a r)
                | inr (inr (inl r)) ↦ rw (r, try_offers) (rule.aborted last c o os e a r)
                | inr (inr (inr r)) ↦
                    rw (r, try_offers)
                      (rule.skipped last c o os e _ a r (ih (some e) (called w config c o)))
              ])))

    pub try_offers_rule :
        (last : Option Error) (c : Coordinator) (os : List Offer)
        → P last c os (try_offers w config attempt last c os)
    unfolding try_offers
    try_offers_rule last c [] = rule.none_left last c
    try_offers_rule last c (o ∷ os) =
        let ih = λ (l : Option Error) (d : Coordinator). try_offers_rule l d os in
        elim (Bool-cases (w.wait_fails c.asked o.provider_name)) [
          | inl fails ↦ rw (fails, try_offers) (rule.wait_failed last c o os fails)
          | inr waits ↦ elim (Bool-cases (contains_text o.provider_name c.registry)) [
            | inr missing ↦
                rw (waits, try_offers)
                  (rw (missing, try_offers)
                    (rule.unregistered last c o os _ missing (ih last (waited w config c))))
            | inl found ↦ elim (Result-cases (w.create (suc c.asked) o (offer_config w config o))) [
              | inl (i, made) ↦
                  rw (waits, try_offers)
                    (rw (found, try_offers)
                      (rw (made, try_offers) (rule.created last c o os i (waits, found, made))))
              | inr (e, no_instance) ↦ refused last c o os e (waits, found, no_instance) ih
            ]
          ]
        ]

  module _ (req : GpuRequirements) (names : List Text) where
    abbrev pub found : Coordinator → List Offer
    found c = (candidates w config req names c).1.0

    abbrev pub searched : Coordinator → Coordinator
    searched c = (candidates w config req names c).0

    abbrev pub failures : Coordinator → ℕ
    failures c = (candidates w config req names c).1.1

    -- The outcome of trying all that a search found.
    abbrev pub trial : ℕ → Option Error → Coordinator → List Offer → Coordinator × Tried
    trial attempt last c os = try_offers w config attempt last (searched c) os

    -- One case for each way through the body of the outer loop.
    pub record RoundRule {ℓ}
        (P : ℕ → ℕ → Option Error → Coordinator → Coordinator × Outcome → Type ℓ) : Type ℓ where
      pub spent :
          (attempt : ℕ) (last : Option Error) (c : Coordinator)
          → P zero attempt last c (c, failed (exhausted c.opts.max_attempts last))
      pub cancelled :
          (left attempt : ℕ) (last : Option Error) (c : Coordinator) (e : Error)
          → w.ctx_err c.asked ≡ some e
          → P (suc left) attempt last c (c, failed e)
      pub nothing_yet :
          (left attempt : ℕ) (last : Option Error) (c : Coordinator) (t : Coordinator × Outcome)
          → w.ctx_err c.asked ≡ none
          → found c ≡ []
          → P left
              (suc attempt)
              (some (no_offers (failures c)))
              (sleep (invalidate_providers (searched c) names) attempt)
              t
          → P (suc left) attempt last c t
      pub nothing :
          (left attempt : ℕ) (last : Option Error) (c : Coordinator)
          → w.ctx_err c.asked ≡ none
          → found c ≡ []
          → ltb attempt c.opts.max_attempts ≡ false
          → P (suc left) attempt last c (searched c, failed (no_offers (failures c)))
      pub returned :
          (left attempt : ℕ) (last : Option Error) (c : Coordinator) (o : Offer) (os : List Offer)
          (outcome : Outcome)
          → w.ctx_err c.asked ≡ none
          → found c ≡ o ∷ os
          → (trial attempt last c (o ∷ os)).1 ≡ stop outcome
          → P (suc left) attempt last c ((trial attempt last c (o ∷ os)).0, outcome)
      pub tried_all :
          (left attempt : ℕ) (last last' : Option Error) (c : Coordinator) (o : Offer)
          (os : List Offer) (t : Coordinator × Outcome)
          → w.ctx_err c.asked ≡ none
          → found c ≡ o ∷ os
          → (trial attempt last c (o ∷ os)).1 ≡ next last'
          → P left
              (suc attempt)
              last'
              (after_round names attempt c.opts (trial attempt last c (o ∷ os)).0)
              t
          → P (suc left) attempt last c t

    pub rounds_rule {ℓ} :
        (P : ℕ → ℕ → Option Error → Coordinator → Coordinator × Outcome → Type ℓ)
        → RoundRule P
        → (left attempt : ℕ) (last : Option Error) (c : Coordinator)
        → P left attempt last c (rounds w config req names left attempt last c)
    unfolding rounds
    rounds_rule P rule zero attempt last c = rule.spent attempt last c
    rounds_rule P rule (suc left) attempt last c = elim (Option-cases (w.ctx_err c.asked)) [
      | inr (e, over) ↦ rw (over, rounds) (rule.cancelled left attempt last c e over)
      | inl live ↦ elim (List-cases (found c)) [
        | inl empty ↦ elim (Bool-cases (ltb attempt c.opts.max_attempts)) [
          | inl more ↦
              rw (live, rounds)
                (rw (empty, rounds)
                  (rw (more, rounds)
                    (rule.nothing_yet left attempt last c _ live empty (
                      rounds_rule P rule left (suc attempt) (some (no_offers (failures c)))
                        (sleep (invalidate_providers (searched c) names) attempt)))))
          | inr over ↦
              rw (live, rounds)
                (rw (empty, rounds)
                  (rw (over, rounds) (rule.nothing left attempt last c live empty over)))
        ]
        | inr (o, os, offers) ↦ elim (Tried-cases (trial attempt last c (o ∷ os)).1) [
          | inl (outcome, stopped) ↦
              rw (live, rounds)
                (rw (offers, rounds)
                  (rw (stopped, rounds)
                    (rule.returned left attempt last c o os outcome live offers stopped)))
          | inr (last', on) ↦
              rw (live, rounds)
                (rw (offers, rounds)
                  (rw (on, rounds)
                    (rule.tried_all left attempt last last' c o os _ live offers on (
                      rounds_rule P rule left (suc attempt) last'
                        (after_round names attempt c.opts (trial attempt last c (o ∷ os)).0)))))
        ]
      ]
    ]
