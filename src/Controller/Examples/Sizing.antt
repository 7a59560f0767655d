-- ===== src/Controller/Examples/Sizing.antt =====
-- internal/controller/binpacking.go and the back-off of reconciler.go: their theorems at concrete
-- inputs.
use gpuscale.Prelude.{ℕ, ◌≡◌, Bool, false, List, Text, [], ◌∷◌, txt, arith}
use gpuscale.Controller.Backoff.{backoff_duration}
use gpuscale.Controller.Backoff.Overflow.{backoff_duration_zero}
use gpuscale.Controller.Capacity.{ModelDemand, ClusterCapacity, decide_provisioning}
use gpuscale.Controller.Capacity.Decision.{Covers, Needs, decide_provisioning-Covers}

backoff_duration_zero_example : backoff_duration 55 ≡ 0
backoff_duration_zero_example = backoff_duration_zero 55 (omega arith)

abbrev queued : ModelDemand
queued = record {
  model = txt "m";
  queue_depth = 2;
  active_demand = 0;
  vram_required = 24;
  always_active = false;
  multi_gpu = false;
}

abbrev cold : ClusterCapacity
cold = record {
  nodes = [];
  total_gpus = 0;
  total_vram = 0;
  loaded_models = [];
  used_vram = 0;
  free_vram = 0;
}

decide_provisioning_example :
    (names : List Text) × (vram : ℕ) × (multi : Bool) × Needs cold (queued ∷ []) names vram multi
    × Covers cold names vram multi (decide_provisioning (queued ∷ []) cold)
decide_provisioning_example = decide_provisioning-Covers (queued ∷ []) cold
