-- ===== src/Coordinator/Provision/Soundness.antt =====
-- internal/coordinator/coordinator.go: what `ProvisionInstance` may return.
pub mod Trials
pub mod Log
use gpuscale.Prelude.{
  ℕ, suc, ◌+◌, ◌≤◌, ◌≡◌, refl, sym, ap, ◌∙◌, subst, true, false, ltb, List, [], ◌∷◌, inl, inr,
  Option, none, some, Text, contains_text, In, Bool-cases, In-keep, arith,
}
use gpuscale.Provider.{GpuRequirements, Offer, Error, ok, BootstrapConfig}
use gpuscale.Coordinator.Filter.{Meets, filter_by_requirements, filter_by_requirements_iff}
use gpuscale.Coordinator.Blacklist.{filter}
use gpuscale.Coordinator.Ranking.Sorted.{In-rank}
use gpuscale.Coordinator.Provision.{
  offer_config, try_offers, gather_offers, candidates, provision_instance, sleep,
  invalidate_providers, after_round, no_offers, exhausted, next,
}
use gpuscale.Coordinator.Provision.State.{
  World, Coordinator, ProvisionResult, Outcome, provisioned, failed, neither,
}
use gpuscale.Coordinator.Provision.Rules.{RoundRule, rounds_rule, found, searched, failures, trial}
use gpuscale.Coordinator.Provision.Soundness.Log.{Accounted, provision_instance-Accounted}
use gpuscale.Coordinator.Provision.Soundness.Trials.{
  gather_offers-Same, Same, Refusal, Lost, Stops, StopsWell, try_offers-well,
}

module _ (w : World) (config : BootstrapConfig) where
  module _ (req : GpuRequirements) (names : List Text) where
    searched-Same : (c : Coordinator) → Same c (searched w config req names c)
    unfolding candidates
    searched-Same c = gather_offers-Same w req c names

    found-Meets : (c : Coordinator) (o : Offer) → In o (found w config req names c) → Meets req o
    unfolding candidates filter
    found-Meets c o i =
        let offers = (gather_offers w req c names).1.0 in
        let passed = In-keep _ o (filter_by_requirements offers req) (In-rank req o _ i) in
        ((filter_by_requirements_iff offers req o).0 passed.0).1

    -- The rounds that a run from here enters, with the number of the round, the last error and the
    -- coordinator at its start: no round before it had a done context or ended with a return.
    pub data Starts (c : Coordinator) : ℕ → Option Error → Coordinator → Type 0 where
      first : Starts c 1 none c
      found_nothing :
          (attempt : ℕ) (last : Option Error) (d : Coordinator)
          → Starts c attempt last d
          → w.ctx_err d.asked ≡ none
          → found w config req names d ≡ []
          → Starts c
              (suc attempt)
              (some (no_offers (failures w config req names d)))
              (sleep (invalidate_providers (searched w config req names d) names) attempt)
      bought_nothing :
          (attempt : ℕ) (last last' : Option Error) (d : Coordinator) (o : Offer) (os : List Offer)
          → Starts c attempt last d
          → w.ctx_err d.asked ≡ none
          → found w config req names d ≡ o ∷ os
          → (trial w config req names attempt last d (o ∷ os)).1 ≡ next last'
          → Starts c (suc attempt) last' (
              after_round names attempt d.opts (trial w config req names attempt last d (o ∷ os)).0)

    -- What a result promises: it is that of a round of the run.
    pub record IsSound (c : Coordinator) (r : ProvisionResult) : Type 0 where
      pub round :
          (last : Option Error) × (d : Coordinator) × Starts c r.attempts last d
          × In r.offer (found w config req names d)
      pub meets : Meets req r.offer
      pub registered : contains_text r.offer.provider_name c.registry ≡ true
      pub bought :
          (n : ℕ) × (w.create n r.offer (offer_config w config r.offer) ≡ ok r.instance_created)
      pub counted : (1 ≤ r.attempts) × (r.attempts ≤ c.opts.max_attempts)

    -- Why a run returns an error.
    pub data Reason (c : Coordinator) (e : Error) : Type 0 where
      cancelled :
          (attempt : ℕ) (last : Option Error) (d : Coordinator)
          → Starts c attempt last d
          → w.ctx_err d.asked ≡ some e
          → Reason c e
      trial_ended :
          (attempt : ℕ) (last : Option Error) (d : Coordinator)
          → Starts c attempt last d
          → Refusal w config (found w config req names d) e
          → Reason c e
      no_offer :
          (last : Option Error) (d : Coordinator)
          → Starts c c.opts.max_attempts last d
          → found w config req names d ≡ []
          → e ≡ no_offers (failures w config req names d)
          → Reason c e
      gave_up :
          (last : Option Error) (d : Coordinator)
          → Starts c (suc c.opts.max_attempts) last d
          → e ≡ exhausted c.opts.max_attempts last
          → Reason c e

    abbrev pub Explained : Coordinator → Outcome → Type 0
    Explained c (provisioned r) = IsSound c r
    Explained c (failed e) = Reason c e
    Explained c neither = Lost w config

    after_round-Same :
        (attempt : ℕ) (c d : Coordinator) → Same c d → Same c (after_round names attempt c.opts d)
    unfolding sleep invalidate_providers
    after_round-Same attempt c d same = elim (Bool-cases (ltb attempt c.opts.max_attempts)) [
      | inl more ↦ rw more same
      | inr over ↦ rw over same
    ]

    Same-trans : (c d e : Coordinator) → Same c d → Same d e → Same c e
    Same-trans c d e s t = (t.0 ∙ s.0, t.1 ∙ s.1)

    Starts-Same :
        (c : Coordinator) (attempt : ℕ) (last : Option Error) (d : Coordinator)
        → Starts c attempt last d
        → (1 ≤ attempt) × Same c d
    unfolding sleep invalidate_providers
    Starts-Same c _ _ _ first = (omega arith, (refl, refl))
    Starts-Same c _ _ _ (found_nothing attempt last d s live empty) =
        let (pos, same) = Starts-Same c attempt last d s in
        (omega arith, Same-trans c d (searched w config req names d) same (searched-Same d))
    Starts-Same c _ _ _ (bought_nothing attempt last last' d o os s live offers on) =
        let (pos, same) = Starts-Same c attempt last d s in
        let well = try_offers-well w config attempt last (searched w config req names d) (o ∷ os) in
        let e = (trial w config req names attempt last d (o ∷ os)).0 in
        (
          omega arith,
          Same-trans c d (after_round names attempt d.opts e) same (
              after_round-Same attempt d e
                (Same-trans d (searched w config req names d) e (searched-Same d) well.0)),
        )

    -- What the trial of a round's offers gives holds of the result.
    explain :
        (c d : Coordinator) (attempt : ℕ) (last : Option Error) (outcome : Outcome)
        → Starts c attempt last d
        → attempt ≤ c.opts.max_attempts
        → Stops w config attempt d.registry (found w config req names d) outcome
        → Explained c outcome
    explain c d attempt last (provisioned r) s bound g = record {
      round = (last, d, subst (λ n. Starts c n last d) (sym g.1) s, g.0.offered);
      meets = found-Meets d r.offer g.0.offered;
      registered =
          subst (λ l. contains_text r.offer.provider_name l ≡ true)
            (Starts-Same c attempt last d s).1.0 g.0.registered;
      bought = g.0.bought;
      counted = (
        subst (λ n. 1 ≤ n) (sym g.1) (Starts-Same c attempt last d s).0,
        subst (λ n. n ≤ c.opts.max_attempts) (sym g.1) bound,
      );
    }
    explain c d attempt last (failed e) s bound g = trial_ended attempt last d s g
    explain c d attempt last neither s bound g = g

    module _ (start : Coordinator) where
      abbrev RoundIsWell : ℕ → ℕ → Option Error → Coordinator → Coordinator × Outcome → Type 0
      RoundIsWell left attempt last c t =
          Starts start attempt last c
          → left + attempt ≡ suc start.opts.max_attempts
          → Explained start t.1

      round_rule : RoundRule w config req names RoundIsWell
      round_rule = record {
        spent = λ attempt last c s count.
            let kept = (Starts-Same start attempt last c s).1.1 in
            gave_up last c (subst (λ n. Starts start n last c) (omega (arith, count)) s)
              (ap (λ o. exhausted o.max_attempts last) kept);
        cancelled = λ left attempt last c e h s count. cancelled attempt last c s h;
        nothing_yet = λ left attempt last c t live empty ih s count.
            ih (found_nothing attempt last c s live empty) (omega arith);
        nothing = λ left attempt last c live empty over s count.
            let kept = (Starts-Same start attempt last c s).1.1 in
            let over' = subst (λ o. ltb attempt o.max_attempts ≡ false) kept over in
            let end : attempt ≡ start.opts.max_attempts = ground arith in
            no_offer last c (subst (λ n. Starts start n last c) end s) empty refl;
        returned = λ left attempt last c o os outcome live offers stopped s count.
            let d = searched w config req names c in
            let well = try_offers-well w config attempt last d (o ∷ os) in
            let here = subst (StopsWell w config attempt d.registry (o ∷ os)) stopped well.1 in
            explain start c attempt last outcome s (omega arith) (
              subst (λ l. Stops w config attempt l (found w config req names c) outcome)
                (searched-Same c).0
                (subst (λ os. Stops w config attempt d.registry os outcome) (sym offers) here));
        tried_all = λ left attempt last last' c o os t live offers on ih s count.
            ih (bought_nothing attempt last last' c o os s live offers on) (omega arith);
      }

    rounds-Explained : (c : Coordinator) → Explained c (provision_instance w config req names c).1
    unfolding provision_instance
    rounds-Explained c =
        rounds_rule w config req names (RoundIsWell c) (round_rule c) c.opts.max_attempts 1 none c
          first (omega arith)

    -- A provisioning ends with a result or an error that the run explains. A result is the instance
    -- that a create call at a registered provider returned for an offer that a round of the run found,
    -- which meets the requirements, and its number of attempts is that of the round, at most the
    -- greatest number. An error is that of the context, a permanent refusal of a create call for an
    -- offer that a round found, the absence of offers in the last round, or the last error of a run
    -- none of whose rounds ended with a return. Neither is returned only where a limiter refused to
    -- wait and the context had no error. Every create call of the run failed but the one whose instance
    -- is returned, which is the last one: the log of the tried offers has grown by just these calls.
    pub provision_instance-Explained :
        (c : Coordinator)
        → let t = provision_instance w config req names c in
          Explained c t.1 × Accounted w config c.tried t.0.tried t.1
    provision_instance-Explained c =
        (rounds-Explained c, provision_instance-Accounted w config req names c)
