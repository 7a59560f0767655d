-- ===== src/Lib.antt =====
-- gpuscale buys GPU instances from cloud providers for the models that are asked for, and destroys
-- them when they are no longer wanted. This library models its decisions and proves what they
-- promise.
--
-- The parts, and where they are:
--   * Prelude: Booleans, lists, texts (lists of bytes) and association lists, with their lemmas.
--   * Provider: pkg/provider/interface.go, the offers, requirements, instances and errors.
--   * Coordinator: internal/coordinator. Filter is filter.go, Errors is errors.go, Blacklist is
--     blacklist.go, Cache is cache.go; Ranking is the sort of `ProvisionInstance` and Provision the
--     rest of coordinator.go, whose inner loop is `try_offers`, whose outer loop is `rounds`.
--   * Controller: internal/controller. Claims holds the claims and pools of api/v1alpha1/types.go,
--     Backoff is `backoffDuration`, Capacity is binpacking.go, Gc is instancegc.go. Effects holds
--     the writes and clean-up steps that the handlers of reconciler.go share, and Reconciler the
--     handlers, one file for each group of phases. Disruptor is disruptor.go, Provisioner is
--     provisioner.go with `findPool` of provisiontrigger.go, and Trigger is provisiontrigger.go:
--     `handleTrigger` with the bundling of models; below it Consolidation, Queues
--     (`reconcileQueues`) and Debounce (the loop of `Start`). Interruption is the poll of
--     interruption.go.
--   * Demand: demandstore.go, what is kept in Dragonfly. Json is the encoding of the records, Redis the
--     database and its calls, Configs the demand counters and model configs, Registry the loaded models
--     and channels, Volumes the disks that can be used again.
--   * Selector: pkg/provider/selector.go, the cheapest offer over all providers.
--   * Clouds: pkg/provider below the interface. Verda, Gcp, Aws and Runpod are the provider.go of
--     each, with the records of its client.go. Http is what the HTTP clients share; Runpod/Client
--     is client.go of RunPod, and Verda/Client and Verda/Calls are that of Verda, its token and
--     its calls. Runpod/Gone leads a lost pod through client, provider and reconciler,
--     Verda/Calls/Blank a blank answer through client and provider. Stores is the interface
--     `VolumeStore`, which Demand/Volumes/Interface fills, and Verda/Lives leads a disk through
--     the provider, that registry and the reconciler.
--   * Bootstrap: `SanitizeLabel` and, in Env, `GenerateEnvVars` of internal/bootstrap/template.go;
--     Health is health.go.
--   * Scheduler: internal/scheduler/matcher.go, what the pending pods ask for.
-- The reconciler's `handle_pending` asks the coordinator for an instance and tells it of offers
-- that failed later; the coordinator filters, ranks and tries what cache and providers offer. The
-- provisioner and the trigger create the claims that the reconciler then leads through their
-- phases, and the disruptor drains them when they are idle. Each part's theorems are tried at
-- concrete inputs in a module Examples.
--
-- Calls that leave the program (providers, API server, Redis, Postgres, limiters, contexts,
-- clock) are answered by a `World`, a record of functions of a counter that each question moves
-- on, so that no two questions need get one answer. Gc and Interruption, which ask about each
-- thing once, and the clouds, of which one operation is looked at, answer by what is asked about.
-- What a handler does outside is kept in a log, newest first, and what a poll for interruptions
-- does in a list, oldest first. Numbers are not negative; durations are in nanoseconds; prices
-- and reliabilities are whole numbers of an unnamed fraction, and how a price is printed is a
-- parameter. The back-off wraps at 64 bits, as the source's `int64`; no other number is bounded.
-- The two HTTP clients take what net/http answers and what encoding/json makes of a body as
-- parameters.
--
-- The outer loop of `ProvisionInstance` recurs on the rounds that are left, MaxAttempts at first, and
-- ends as the source's `for` does, so it needs no fuel; `wait` of Bootstrap.Health has one unit of
-- fuel for each five seconds of the timeout and two more, since every turn sleeps for five seconds;
-- `decimal` has one digit of fuel per unit of the number and one more, more than a number has digits.
--
-- Not modelled: concurrency inside the coordinator (the parallel searches share only the cache,
-- under keys of their own, and singleflight makes one call of several), log lines and the texts
-- of conditions, the HTTP clients of GCP and AWS but for their records and the loop over the spot
-- prices, the SQL statements, the wiring in cmd/controller, generated code, and the clouds Azure,
-- TensorDock and Vast.ai, which do as the others do. The generated scripts of internal/bootstrap
-- are not modelled, nor are the goroutine that subscribes to a channel and the tickers.
pub mod Prelude
pub mod Provider
pub mod Coordinator
pub mod Scheduler
pub mod Selector
pub mod Bootstrap
pub mod Controller
pub mod Demand
pub mod Clouds
