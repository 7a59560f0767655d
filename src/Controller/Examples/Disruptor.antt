-- ===== src/Controller/Examples/Disruptor.antt =====
-- internal/controller/disruptor.go: the theorems of the disruption controller at concrete inputs.
use gpuscale.Prelude.{
  lookup, ◌*◌, ◌≡◌, refl, inl, inr, true, some, In, arith, text_eq, ℕ, ◌⊎◌, ◌≤◌, ◌<◌, ◌+◌,
}
use gpuscale.Controller.Claims.{ready, draining, claim_model_ids, annotation}
use gpuscale.Controller.Effects.{destroy, World, Store, write_status, status_written}
use gpuscale.Controller.Disruptor.{
  next_destroy_in, reconcile_idle, destroy_worker, disrupt, reconcile_standalone, handle_idle_claim,
  destroy_if_spare, at_min_replicas,
}
use gpuscale.Controller.Disruptor.Billing.{Timed, next_destroy_in-Timed}
use gpuscale.Controller.Disruptor.Justified.{Justified, reconcile_idle-Justified}
use gpuscale.Controller.Examples.{claim_in, store_in, quiet}

-- The agent reports that the node is idle.
abbrev idle_world : World
idle_world = record quiet { node_idle = λ n c. true }

abbrev idle_store : Store
idle_store = record (store_in ready) {
  claim = record (claim_in ready) {
    status = record (claim_in ready).status { idle_since = some 0 };
  };
}

idles : In (status_written draining) (reconcile_idle idle_world 1 idle_store).0.log
unfolding reconcile_idle reconcile_standalone disrupt handle_idle_claim destroy_if_spare
    destroy_worker write_status destroy text_eq claim_model_ids annotation lookup next_destroy_in
    at_min_replicas
idles = inr (inr (inr (inr (inl refl))))

reconcile_idle_example : (draining ≡ ready) ⊎ Justified idle_world 1 idle_store
reconcile_idle_example = reconcile_idle-Justified idle_world 1 idle_store refl draining idles

-- Two minutes into a cycle of ten, the node has seven minutes left.
next_destroy_in_example :
    (k : ℕ) × (0 + k * 600000000000 ≤ 720000000000)
    × (720000000000 < 0 + (k + 1) * 600000000000)
    × Timed 720000000000 (0 + (k + 1) * 600000000000) (
        next_destroy_in 0
          (record (claim_in ready).status { provisioned_at = some 0 })
          720000000000
          600000000000)
    × ((other : ℕ)
        → next_destroy_in other
            (record (claim_in ready).status { provisioned_at = some 0 })
            720000000000
            600000000000
          ≡ next_destroy_in 0
              (record (claim_in ready).status { provisioned_at = some 0 })
              720000000000
              600000000000)
next_destroy_in_example =
    next_destroy_in-Timed 0 720000000000 0 600000000000
      (record (claim_in ready).status { provisioned_at = some 0 }) refl (omega arith) (omega arith)
