-- ===== src/Coordinator/Provision/Soundness/Trials.antt =====
-- internal/coordinator/coordinator.go: what stops the trial of a list of offers.
use gpuscale.Prelude.{
  ℕ, suc, ◌≡◌, refl, true, List, [], ◌∷◌, inl, inr, Option, none, some, Text, contains_text, In,
}
use gpuscale.Provider.{GpuRequirements, Offer, Error, ok, err, BootstrapConfig}
use gpuscale.Coordinator.Errors.{
  ErrorCategory, no_error, expired, conflict, rate_limited, transient, permanent, classify_error,
}
use gpuscale.Coordinator.Cache.{get_offers}
use gpuscale.Coordinator.Provision.{
  resolve_providers, Tried, stop, next, abort, react, context_outcome, offer_config, try_offers,
  gather_from, gather_offers,
}
use gpuscale.Coordinator.Provision.State.{
  World, Coordinator, ProvisionResult, Outcome, provisioned, failed, neither,
}
use gpuscale.Coordinator.Provision.Rules.{Rule, try_offers_rule}

-- What no step of a run changes.
abbrev pub Same : Coordinator → Coordinator → Type 0
Same c d = (d.registry ≡ c.registry) × (d.opts ≡ c.opts)

react-abort : (k : ErrorCategory) → react k ≡ abort → k ≡ permanent
react-abort no_error h = cc
react-abort expired h = cc
react-abort conflict h = cc
react-abort rate_limited h = cc
react-abort transient h = cc
react-abort permanent h = refl

module _ (w : World) (req : GpuRequirements) where
  gather_from-Same : (ps : List Text) (c : Coordinator) → Same c (gather_from w req c ps).0
  unfolding gather_from
  gather_from-Same [] c = (refl, refl)
  gather_from-Same (p ∷ ps) c = gather_from-Same ps (record c {
    cache = (get_offers w.price_text c.cache (w.clock c.asked) p req (w.search c.asked p req)).0;
    asked = suc c.asked;
  })

  pub gather_offers-Same :
      (c : Coordinator) (names : List Text) → Same c (gather_offers w req c names).0
  unfolding gather_offers
  gather_offers-Same c names = gather_from-Same (resolve_providers c.registry names) c

module _ (w : World) (config : BootstrapConfig) where
  -- The result is that of a create call for one of the offers, at a registered provider.
  pub record Bought (registry : List Text) (os : List Offer) (r : ProvisionResult) : Type 0 where
    pub offered : In r.offer os
    pub registered : contains_text r.offer.provider_name registry ≡ true
    pub bought :
        (n : ℕ) × (w.create n r.offer (offer_config w config r.offer) ≡ ok r.instance_created)

  -- Why the trial of these offers ends with an error.
  pub data Refusal (os : List Offer) (e : Error) : Type 0 where
    context_done : (n : ℕ) → w.ctx_err n ≡ some e → Refusal os e
    refused :
        (n : ℕ) (o : Offer)
        → In o os
        → w.create n o (offer_config w config o) ≡ err e
        → classify_error (some e) ≡ permanent
        → Refusal os e

  -- A limiter refused to wait, although the context had no error.
  abbrev pub Lost : Type 0
  Lost = (n : ℕ) × (p : Text) × (w.wait_fails n p ≡ true) × (w.ctx_err (suc n) ≡ none)

  abbrev pub Stops : ℕ → List Text → List Offer → Outcome → Type 0
  Stops attempt registry os (provisioned r) = Bought registry os r × (r.attempts ≡ attempt)
  Stops attempt registry os (failed e) = Refusal os e
  Stops attempt registry os neither = Lost

  abbrev pub StopsWell : ℕ → List Text → List Offer → Tried → Type 0
  StopsWell attempt registry os (stop o) = Stops attempt registry os o
  StopsWell attempt registry os (next last) = Unit

  StopsWell-cons :
      (attempt : ℕ) (registry : List Text) (o : Offer) (os : List Offer) (t : Tried)
      → StopsWell attempt registry os t
      → StopsWell attempt registry (o ∷ os) t
  StopsWell-cons attempt registry o os (stop (provisioned r)) g =
      (record { offered = inr g.0.offered; registered = g.0.registered; bought = g.0.bought }, g.1)
  StopsWell-cons attempt registry o os (stop (failed e)) (context_done n h) = context_done n h
  StopsWell-cons attempt registry o os (stop (failed e)) (refused n x i h k) =
      refused n x (inr i) h k
  StopsWell-cons attempt registry o os (stop neither) g = g
  StopsWell-cons attempt registry o os (next last) g = tt

  context-Stops :
      (attempt : ℕ) (registry : List Text) (os : List Offer) (p : Text) (n : ℕ) (e : Option Error)
      → w.wait_fails n p ≡ true
      → w.ctx_err (suc n) ≡ e
      → Stops attempt registry os (context_outcome e)
  context-Stops attempt registry os p n none h k = (n, p, h, k)
  context-Stops attempt registry os p n (some e) h k = context_done (suc n) k

  abbrev TrialIsWell : ℕ → Option Error → Coordinator → List Offer → Coordinator × Tried → Type 0
  TrialIsWell attempt last c os t = Same c t.0 × StopsWell attempt c.registry os t.1

  trial_rule : (attempt : ℕ) → Rule w config attempt (TrialIsWell attempt)
  trial_rule attempt = record {
    none_left = λ last c. ((refl, refl), tt);
    wait_failed = λ last c o os h. (
      (refl, refl),
      context-Stops attempt c.registry (o ∷ os) o.provider_name c.asked (w.ctx_err (suc c.asked)) h
          refl,
    );
    unregistered = λ last c o os t h ih. (ih.0, StopsWell-cons attempt c.registry o os t.1 ih.1);
    created = λ last c o os i a. (
      (refl, refl),
      (record { offered = inl refl; registered = a.1; bought = (suc c.asked, a.2) }, refl),
    );
    blacklisted = λ last c o os e t a r ih. (ih.0, StopsWell-cons attempt c.registry o os t.1 ih.1);
    limited = λ last c o os e a r. ((refl, refl), tt);
    aborted = λ last c o os e a r. (
      (refl, refl),
      refused (suc c.asked) o (inl refl) a.2 (react-abort (classify_error (some e)) r),
    );
    skipped = λ last c o os e t a r ih. (ih.0, StopsWell-cons attempt c.registry o os t.1 ih.1);
  }

  pub try_offers-well :
      (attempt : ℕ) (last : Option Error) (c : Coordinator) (os : List Offer)
      → TrialIsWell attempt last c os (try_offers w config attempt last c os)
  try_offers-well attempt =
      try_offers_rule w config attempt (TrialIsWell attempt) (trial_rule attempt)
