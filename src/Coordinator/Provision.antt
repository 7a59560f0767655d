-- ===== src/Coordinator/Provision.antt =====
-- internal/coordinator/coordinator.go: the search and create loop. What the context, the limiters,
-- the clock and the providers answer is the `World`; each question moves its counter on, so that
-- two questions need not get one answer. `gatherOffers` asks the providers one after the other
-- where the source asks them at once: they share nothing but the cache, under keys of their own.
pub mod State
pub mod Rules
pub mod Soundness
use gpuscale.Coordinator.Provision.State.{
  Options, second, World, Coordinator, Outcome, provisioned, failed, neither,
}
use gpuscale.Prelude.{
  ℕ, zero, suc, ◌+◌, ◌*◌, min, true, false, ltb, ◌==◌, is_empty, if◌then◌else◌, List, [], ◌∷◌, ◌++◌,
  Option, none, some, Text, txt, contains_text, keep,
}
use gpuscale.Bootstrap.Env.{generate_env_vars}
use gpuscale.Provider.{
  GpuRequirements, Offer, Error, Result, ok, err, BootstrapConfig, no_offers_available,
}
use gpuscale.Coordinator.Errors.{
  ErrorCategory, no_error, expired, conflict, rate_limited, transient, permanent, classify_error,
}
use gpuscale.Coordinator.Filter.{filter_by_requirements}
use gpuscale.Coordinator.Blacklist.{add, add_with_ttl, filter, size}
use gpuscale.Coordinator.Cache.{OfferCache, get_offers, invalidate, decimal}
use gpuscale.Coordinator.Ranking.{rank}

unfoldable pub resolve_providers : List Text → List Text → List Text
resolve_providers registry [] = registry
resolve_providers registry (n ∷ names) = keep (λ p. contains_text p (n ∷ names)) registry

abbrev collect : Result (List Offer) → List Offer × ℕ → List Offer × ℕ
collect (ok offers) (all, failures) = (offers ++ all, failures)
collect (err e) (all, failures) = (all, suc failures)

module _ (w : World) (req : GpuRequirements) where
  unfoldable pub gather_from : Coordinator → List Text → Coordinator × (List Offer × ℕ)
  gather_from c [] = (c, ([], 0))
  gather_from c (p ∷ ps) =
      let (cache, answer) =
        get_offers w.price_text c.cache (w.clock c.asked) p req (w.search c.asked p req) in
      let (c', rest) = gather_from (record c { cache = cache; asked = suc c.asked }) ps in
      (c', collect answer rest)

  -- The offers of the providers that answer, and how many do not.
  unfoldable pub gather_offers : Coordinator → List Text → Coordinator × (List Offer × ℕ)
  unfolding gather_from resolve_providers
  gather_offers c names = gather_from c (resolve_providers c.registry names)

invalidate_all : OfferCache → List Text → OfferCache
invalidate_all cache [] = cache
invalidate_all cache (n ∷ names) = invalidate_all (invalidate cache n) names

unfoldable pub invalidate_providers : Coordinator → List Text → Coordinator
unfolding invalidate_all
invalidate_providers c names = record c { cache = invalidate_all c.cache names }

-- How long `sleep` waits, unless the context ends first.
unfoldable pub sleep_time : ℕ → ℕ
sleep_time attempt = min (attempt * (2 * second)) (10 * second)

-- The pause itself: nothing of the coordinator changes, but the world moves on.
unfoldable pub sleep : Coordinator → ℕ → Coordinator
sleep c attempt = record c { asked = suc c.asked }

abbrev pub no_offers : ℕ → Error
no_offers zero = record {
  wraps = no_offers_available ∷ [];
  message = txt "no offers matching requirements are available";
}
no_offers (suc n) = record {
  wraps = no_offers_available ∷ [];
  message =
      txt "no offers matching requirements are available (search errors: "
      ++ (decimal (suc n) ++ txt " providers failed)");
}

-- `fmt.Errorf("provision failed after %d attempts: %w", …)`
abbrev pub exhausted : ℕ → Option Error → Error
exhausted attempts none = record {
  wraps = [];
  message = txt "provision failed after " ++ (decimal attempts ++ txt " attempts: %!w(<nil>)");
}
exhausted attempts (some e) = record {
  wraps = e.wraps;
  message = txt "provision failed after " ++ (decimal attempts ++ (txt " attempts: " ++ e.message));
}

-- How the inner loop ends: by a return, or by running out of offers or into a rate limit, with the
-- last error.
pub data Tried : Type 0 where
  stop : Outcome → Tried
  next : Option Error → Tried

-- `return nil, ctx.Err()`
abbrev pub context_outcome : Option Error → Outcome
context_outcome none = neither
context_outcome (some e) = failed e

-- The branch of the `switch` on the category: whether the loop goes on, and the blacklist.
pub data Reaction : Type 0 where
  skip_and_blacklist back_off abort skip : Reaction

abbrev pub react : ErrorCategory → Reaction
react expired = skip_and_blacklist
react conflict = skip_and_blacklist
react rate_limited = back_off
react permanent = abort
react no_error = skip
react transient = skip

-- The end of a round that bought nothing: the next one searches afresh.
abbrev pub after_round : List Text → ℕ → Options → Coordinator → Coordinator
after_round names attempt opts c =
    if ltb attempt opts.max_attempts
    then sleep (invalidate_providers c names) attempt
    else invalidate_providers c names

module _ (w : World) (config : BootstrapConfig) where
  unfoldable pub offer_config : Offer → BootstrapConfig
  offer_config o =
      let labelled = record config { provider_name = o.provider_name; gpu_type = o.gpu_type } in
      if is_empty config.gpu_api_url then labelled else record labelled {
        on_start_script = w.script labelled;
        on_start_env = generate_env_vars labelled;
      }

  -- The coordinator after `limiter.Wait`, and after `CreateInstance`.
  abbrev pub waited : Coordinator → Coordinator
  waited c = record c { asked = suc c.asked }

  abbrev pub called : Coordinator → Offer → Coordinator
  called c o = record c { asked = suc (suc c.asked); tried = o ∷ c.tried }

  abbrev pub barred : Coordinator → Offer → Coordinator
  barred c o = record c { blacklist = add c.blacklist (w.clock c.asked) o.provider_name o.offer_id }

  unfoldable pub try_offers : ℕ → Option Error → Coordinator → List Offer → Coordinator × Tried
  try_offers attempt last c [] = (c, next last)
  try_offers attempt last c (o ∷ os) = elim (w.wait_fails c.asked o.provider_name) [
    | true ↦ (waited c, stop (context_outcome (w.ctx_err (suc c.asked))))
    | false ↦ elim (contains_text o.provider_name c.registry) [
      | false ↦ try_offers attempt last (waited c) os
      | true ↦ elim (w.create (suc c.asked) o (offer_config o)) [
        | ok i ↦ (
          called c o,
          stop (provisioned (record { instance_created = i; offer = o; attempts = attempt })),
        )
        | err e ↦ elim (react (classify_error (some e))) [
          | skip_and_blacklist ↦ try_offers attempt (some e) (barred (called c o) o) os
          | back_off ↦ (called c o, next (some e))
          | abort ↦ (called c o, stop (failed e))
          | skip ↦ try_offers attempt (some e) (called c o) os
        ]
      ]
    ]
  ]

  module _ (req : GpuRequirements) (names : List Text) where
    -- Steps 1 to 3 of a round: what is tried, best first, and the failed searches.
    unfoldable pub candidates : Coordinator → Coordinator × (List Offer × ℕ)
    candidates c =
        let (c', (offers, failures)) = gather_offers w req c names in
        let (blacklist, passed) =
          filter c'.blacklist (w.clock c'.asked) (filter_by_requirements offers req) in
        (record c' { blacklist = blacklist; asked = suc c'.asked }, (rank req passed, failures))

    -- The outer loop: `left` rounds are left, of which this is number `attempt`.
    unfoldable pub rounds : ℕ → ℕ → Option Error → Coordinator → Coordinator × Outcome
    rounds zero attempt last c = (c, failed (exhausted c.opts.max_attempts last))
    rounds (suc left) attempt last c = elim (w.ctx_err c.asked) [
      | some e ↦ (c, failed e)
      | none ↦
          let (c1, (offers, failures)) = candidates c in
          elim offers [
            | [] ↦ elim (ltb attempt c.opts.max_attempts) [
              | true ↦
                  rounds left (suc attempt) (some (no_offers failures))
                    (sleep (invalidate_providers c1 names) attempt)
              | false ↦ (c1, failed (no_offers failures))
            ]
            | o ∷ os ↦
                let (c2, tried) = try_offers attempt last c1 (o ∷ os) in
                elim tried [
                  | stop outcome ↦ (c2, outcome)
                  | next last' ↦
                      rounds left (suc attempt) last' (after_round names attempt c.opts c2)
                ]
          ]
    ]

    unfoldable pub provision_instance : Coordinator → Coordinator × Outcome
    provision_instance c = rounds c.opts.max_attempts 1 none c

-- `BlacklistOffer`, for failures after creation.
unfoldable pub blacklist_offer : Coordinator → ℕ → Text → Text → Coordinator
unfolding add_with_ttl
blacklist_offer c now provider_name offer_id =
    if is_empty provider_name then c else if is_empty offer_id then c else record c {
      blacklist = add_with_ttl c.blacklist now provider_name offer_id (30 * (60 * second));
    }

unfoldable pub blacklist_size : Coordinator → ℕ → ℕ
blacklist_size c now = size c.blacklist now
