-- ===== src/Controller/Examples/Interruption.antt =====
-- internal/controller/interruption.go: the theorems at a provider that reports a stopped instance.
use gpuscale.Prelude.{true, false, [], ◌∷◌, none, txt}
use gpuscale.Provider.{ok, Instance}
use gpuscale.Controller.Claims.{ready}
use gpuscale.Controller.Interruption.{World}
use gpuscale.Controller.Examples.{claim_in, instance_up}

abbrev stopped : Instance
stopped = record instance_up { status = txt "stopped" }

abbrev preempted : World
preempted = record {
  claims = ok (claim_in ready ∷ []);
  registered = λ p. true;
  get_instance = λ c p i. ok stopped;
  get_node = λ c n. ok false;
  cordon_error = λ c n. none;
  delete_error = λ c n. none;
  status_error = λ c. none;
  has_demand_store = true;
  always_active = λ c m. true;
  queue_depth = λ c m. 0;
  active_demand = λ c m. 0;
}
