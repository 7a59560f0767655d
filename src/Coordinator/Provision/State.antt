-- ===== src/Coordinator/Provision/State.antt =====
-- internal/coordinator/coordinator.go: the options, the state of the coordinator, and what it asks
-- and returns.
use gpuscale.Prelude.{ℕ, ◌*◌, Bool, ◌==◌, if◌then◌else◌, List, [], Option, Text}
use gpuscale.Provider.{GpuRequirements, Offer, Error, Result, BootstrapConfig, Instance}
use gpuscale.Coordinator.Blacklist.{OfferBlacklist, new_offer_blacklist}
use gpuscale.Coordinator.Cache.{OfferCache, new_offer_cache, Search}

pub record Options : Type 0 where
  pub cache_ttl : ℕ
  pub blacklist_ttl : ℕ
  pub max_attempts : ℕ
  pub offers_per_attempt : ℕ

abbrev pub or_default : ℕ → ℕ → ℕ
or_default value default = if value == 0 then default else value

-- Durations are in nanoseconds.
abbrev pub second : ℕ
second = 1000000000

unfoldable pub with_defaults : Options → Options
with_defaults o = record {
  cache_ttl = or_default o.cache_ttl (7 * second);
  blacklist_ttl = or_default o.blacklist_ttl (60 * second);
  max_attempts = or_default o.max_attempts 5;
  offers_per_attempt = or_default o.offers_per_attempt 3;
}

pub record World : Type 0 where
  pub price_text : ℕ → Text
  pub script : BootstrapConfig → Text
  pub clock : ℕ → ℕ
  -- `ctx.Err()`
  pub ctx_err : ℕ → Option Error
  -- `limiter.Wait(ctx)` returns an error
  pub wait_fails : ℕ → Text → Bool
  pub search : ℕ → Text → GpuRequirements → Search
  pub create : ℕ → Offer → BootstrapConfig → Result Instance

pub record Coordinator : Type 0 where
  pub registry : List Text
  pub cache : OfferCache
  pub blacklist : OfferBlacklist
  pub opts : Options
  -- How many questions the world has answered.
  pub asked : ℕ
  -- The "Attempting CreateInstance" log, newest first.
  pub tried : List Offer

unfoldable pub new_coordinator : List Text → Options → Coordinator
unfolding with_defaults
new_coordinator registry opts =
    let o = with_defaults opts in
    record {
      registry = registry;
      cache = new_offer_cache o.cache_ttl;
      blacklist = new_offer_blacklist o.blacklist_ttl;
      opts = o;
      asked = 0;
      tried = [];
    }

pub record ProvisionResult : Type 0 where
  pub instance_created : Instance
  pub offer : Offer
  pub attempts : ℕ

-- The pair that `ProvisionInstance` returns; `neither` is `nil, nil`.
pub data Outcome : Type 0 where
  provisioned : ProvisionResult → Outcome
  failed : Error → Outcome
  neither : Outcome
