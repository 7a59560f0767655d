-- ===== src/Coordinator/Provision/Soundness/Log.antt =====
-- internal/coordinator/coordinator.go: what became of the create calls of a run, by the log of the tried
-- offers.
use gpuscale.Prelude.{
  ℕ, suc, ◌≡◌, refl, sym, ap, ◌∙◌, subst, inl, inr, ltb, List, [], ◌∷◌, ◌++◌, Option, none, some,
  Text, All, All-append, append_assoc, Bool-cases,
}
use gpuscale.Provider.{GpuRequirements, Offer, Error, err, BootstrapConfig}
use gpuscale.Coordinator.Cache.{get_offers}
use gpuscale.Coordinator.Provision.{
  Tried, stop, next, called, barred, context_outcome, offer_config, try_offers, gather_from,
  gather_offers, resolve_providers, candidates, sleep, invalidate_providers, after_round,
  provision_instance,
}
use gpuscale.Coordinator.Provision.State.{World, Coordinator, Outcome, provisioned, failed, neither}
use gpuscale.Coordinator.Provision.Rules.{
  Rule, try_offers_rule, RoundRule, rounds_rule, searched, trial,
}

module _ (w : World) (config : BootstrapConfig) where
  abbrev pub IsRefused : Offer → Type 0
  IsRefused o = (n : ℕ) × (e : Error) × (w.create n o (offer_config w config o) ≡ err e)

  -- The log, newest first, has grown by offers whose create calls failed.
  abbrev pub Grew : List Offer → List Offer → Type 0
  Grew before after = (new : List Offer) × (after ≡ new ++ before) × All IsRefused new

  -- All the calls since then failed but the one for the offer of the result, the last one.
  abbrev pub Accounted : List Offer → List Offer → Outcome → Type 0
  Accounted before after (provisioned r) =
      (rest : List Offer) × (after ≡ r.offer ∷ rest) × Grew before rest
  Accounted before after (failed e) = Grew before after
  Accounted before after neither = Grew before after

  Grew-refl : (l : List Offer) → Grew l l
  Grew-refl l = ([], refl, tt)

  Grew-trans : (a b c : List Offer) → Grew a b → Grew b c → Grew a c
  Grew-trans a b c (m, p, r) (n, q, s) =
      (n ++ m, q ∙ ap (λ l. n ++ l) p ∙ sym (append_assoc n m a), All-append IsRefused n m s r)

  Grew-one : (o : Offer) (l : List Offer) → IsRefused o → Grew l (o ∷ l)
  Grew-one o l r = (o ∷ [], refl, (r, tt))

  Accounted-trans :
      (a b c : List Offer) (outcome : Outcome)
      → Grew a b
      → Accounted b c outcome
      → Accounted a c outcome
  Accounted-trans a b c (provisioned r) g (rest, e, h) = (rest, e, Grew-trans a b rest g h)
  Accounted-trans a b c (failed e) g h = Grew-trans a b c g h
  Accounted-trans a b c neither g h = Grew-trans a b c g h

  abbrev TrialAccounted : Coordinator → Coordinator × Tried → Type 0
  TrialAccounted c (d, stop outcome) = Accounted c.tried d.tried outcome
  TrialAccounted c (d, next last) = Grew c.tried d.tried

  -- After a refused call.
  later :
      (c d : Coordinator) (t : Coordinator × Tried)
      → Grew c.tried d.tried
      → TrialAccounted d t
      → TrialAccounted c t
  later c d (x, stop outcome) g h = Accounted-trans c.tried d.tried x.tried outcome g h
  later c d (x, next last) g h = Grew-trans c.tried d.tried x.tried g h

  context-Accounted : (l : List Offer) (e : Option Error) → Accounted l l (context_outcome e)
  context-Accounted l none = Grew-refl l
  context-Accounted l (some e) = Grew-refl l

  abbrev IsAccounted : Option Error → Coordinator → List Offer → Coordinator × Tried → Type 0
  IsAccounted last c os t = TrialAccounted c t

  trial_rule : (attempt : ℕ) → Rule w config attempt IsAccounted
  trial_rule attempt = record {
    none_left = λ last c. Grew-refl c.tried;
    wait_failed = λ last c o os h. context-Accounted c.tried (w.ctx_err (suc c.asked));
    unregistered = λ last c o os t h ih. ih;
    created = λ last c o os i a. (c.tried, refl, Grew-refl c.tried);
    blacklisted = λ last c o os e t a r ih.
        later c (barred w config (called w config c o) o) t
          (Grew-one o c.tried (suc c.asked, e, a.2)) ih;
    limited = λ last c o os e a r. Grew-one o c.tried (suc c.asked, e, a.2);
    aborted = λ last c o os e a r. Grew-one o c.tried (suc c.asked, e, a.2);
    skipped = λ last c o os e t a r ih.
        later c (called w config c o) t (Grew-one o c.tried (suc c.asked, e, a.2)) ih;
  }

  trial-Accounted :
      (attempt : ℕ) (last : Option Error) (c : Coordinator) (os : List Offer)
      → TrialAccounted c (try_offers w config attempt last c os)
  trial-Accounted attempt = try_offers_rule w config attempt IsAccounted (trial_rule attempt)

  module _ (req : GpuRequirements) (names : List Text) where
    gather_from-tried :
        (ps : List Text) (c : Coordinator) → (gather_from w req c ps).0.tried ≡ c.tried
    unfolding gather_from
    gather_from-tried [] c = refl
    gather_from-tried (p ∷ ps) c = gather_from-tried ps (record c {
      cache = (get_offers w.price_text c.cache (w.clock c.asked) p req (w.search c.asked p req)).0;
      asked = suc c.asked;
    })

    searched-tried : (c : Coordinator) → (searched w config req names c).tried ≡ c.tried
    unfolding candidates gather_offers
    searched-tried c = gather_from-tried (resolve_providers c.registry names) c

    after_round-tried :
        (attempt : ℕ) (c d : Coordinator) → (after_round names attempt c.opts d).tried ≡ d.tried
    unfolding sleep invalidate_providers
    after_round-tried attempt c d = elim (Bool-cases (ltb attempt c.opts.max_attempts)) [
      | inl more ↦ rw more refl
      | inr over ↦ rw over refl
    ]

    abbrev RoundAccounted : ℕ → ℕ → Option Error → Coordinator → Coordinator × Outcome → Type 0
    RoundAccounted left attempt last c t = Accounted c.tried t.0.tried t.1

    from_trial :
        (c d : Coordinator) (t : Coordinator × Tried) (outcome : Outcome)
        → d.tried ≡ c.tried
        → TrialAccounted d t
        → t.1 ≡ stop outcome
        → Accounted c.tried t.0.tried outcome
    from_trial c d (x, stop o) outcome same g e =
        let eq : o ≡ outcome = cc e in
        subst (λ l. Accounted l x.tried outcome) same (subst (Accounted d.tried x.tried) eq g)
    from_trial c d (x, next last) outcome same g e = absurd (cc e)

    past_trial :
        (c d : Coordinator) (t : Coordinator × Tried) (last : Option Error)
        → d.tried ≡ c.tried
        → TrialAccounted d t
        → t.1 ≡ next last
        → Grew c.tried t.0.tried
    past_trial c d (x, stop o) last same g e = absurd (cc e)
    past_trial c d (x, next l) last same g e = subst (λ b. Grew b x.tried) same g

    round_rule : RoundRule w config req names RoundAccounted
    unfolding sleep invalidate_providers
    round_rule = record {
      spent = λ attempt last c. Grew-refl c.tried;
      cancelled = λ left attempt last c e h. Grew-refl c.tried;
      nothing_yet = λ left attempt last c t live empty ih.
          subst (λ l. Accounted l t.0.tried t.1) (searched-tried c) ih;
      nothing = λ left attempt last c live empty over.
          subst (λ l. Grew c.tried l) (sym (searched-tried c)) (Grew-refl c.tried);
      returned = λ left attempt last c o os outcome live offers stopped.
          let d = searched w config req names c in
          from_trial c d (trial w config req names attempt last c (o ∷ os)) outcome
            (searched-tried c) (trial-Accounted attempt last d (o ∷ os)) stopped;
      tried_all = λ left attempt last last' c o os t live offers on ih.
          let d = searched w config req names c in
          let e = (trial w config req names attempt last c (o ∷ os)).0 in
          let grown =
            past_trial c d (trial w config req names attempt last c (o ∷ os)) last'
              (searched-tried c) (trial-Accounted attempt last d (o ∷ os)) on in
          Accounted-trans c.tried e.tried t.0.tried t.1 grown
            (subst (λ l. Accounted l t.0.tried t.1) (after_round-tried attempt c e) ih);
    }

    pub provision_instance-Accounted :
        (c : Coordinator)
        → let t = provision_instance w config req names c in Accounted c.tried t.0.tried t.1
    unfolding provision_instance
    provision_instance-Accounted c =
        rounds_rule w config req names RoundAccounted round_rule c.opts.max_attempts 1 none c
