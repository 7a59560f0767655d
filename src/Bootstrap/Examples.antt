-- ===== src/Bootstrap/Examples.antt =====
-- internal/bootstrap: runs at small inputs.
use gpuscale.Prelude.{suc, ◌+◌, ◌*◌, ◌/◌, ◌≡◌, refl, ltb, if◌then◌else◌, [], ◌∷◌, none, txt, arith}
use gpuscale.Provider.{ok}
use gpuscale.Bootstrap.Health.{World, Node, interval, wait_for_node_ready}
use gpuscale.Bootstrap.Health.Waiting.{Ends, wait_for_node_ready-Ends}
use gpuscale.Bootstrap.{sanitize_label}

-- Spaces become dashes, and parentheses go.
sanitizes : sanitize_label (txt "RTX 4090 (24GB)") ≡ txt "RTX-4090-24GB"
unfolding sanitize_label
sanitizes = refl

-- A dash may stand at either end.
keeps_dash : sanitize_label (txt "-a-") ≡ txt "-a-"
unfolding sanitize_label
keeps_dash = refl

abbrev joined : Node
joined = record {
  name = txt "n";
  conditions = record { kind = txt "Ready"; status = txt "True" } ∷ [];
}

-- The node is listed from the third turn on.
abbrev cluster : World
cluster = record {
  start = 7;
  clock = λ n. 7 + n * interval;
  cancelled = λ n. none;
  list_nodes = λ n id. ok (if ltb n 2 then [] else joined ∷ []);
  printed = λ n. [];
}

wait_for_node_ready_example :
    Ends cluster
      (txt "i")
      60000000000
      (suc (60000000000 / interval))
      0
      (wait_for_node_ready cluster (txt "i") 60000000000)
wait_for_node_ready_example =
    wait_for_node_ready-Ends cluster (txt "i") 60000000000 (λ n. omega arith) (omega arith)
