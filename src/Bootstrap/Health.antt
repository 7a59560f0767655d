-- ===== src/Bootstrap/Health.antt =====
-- internal/bootstrap/health.go: how a node is waited for. What clock, context and API server answer is
-- counted by the turns of the loop, since each turn asks each of them once at most.
pub mod Waiting
use gpuscale.Prelude.{
  ℕ, zero, suc, ◌+◌, ◌*◌, ◌/◌, Bool, ◌&&◌, ◌||◌, ltb, if◌then◌else◌, List, [], ◌∷◌, ◌++◌, Option,
  none, some, Text, txt, text_eq, any,
}
use gpuscale.Provider.{Error, Result, ok, err}

pub record Condition : Type 0 where
  pub kind : Text
  pub status : Text

pub record Node : Type 0 where
  pub name : Text
  pub conditions : List Condition

pub record World : Type 0 where
  pub start : ℕ
  pub clock : ℕ → ℕ
  pub cancelled : ℕ → Option Error
  -- The nodes with the label of the instance
  pub list_nodes : ℕ → Text → Result (List Node)
  pub printed : ℕ → Text

unfoldable pub is_node_ready : Node → Bool
is_node_ready node =
    any (λ c. text_eq c.kind (txt "Ready") && text_eq c.status (txt "True")) node.conditions

-- `5 * time.Second`
abbrev pub interval : ℕ
interval = 5000000000

module _ (w : World) (instance_id : Text) where
  abbrev pub first_of : Result (List Node) → Result (Option Node)
  first_of (err e) = err e
  first_of (ok []) = ok none
  first_of (ok (node ∷ nodes)) = ok (some node)

  unfoldable pub find_node : ℕ → Result (Option Node)
  find_node n = first_of (w.list_nodes n instance_id)

  abbrev pub if_ready : Result (Option Node) → Option Node
  if_ready (err e) = none
  if_ready (ok none) = none
  if_ready (ok (some node)) = if is_node_ready node then some node else none

  unfoldable pub ready_at : ℕ → Option Node
  unfolding find_node is_node_ready
  ready_at n = if_ready (find_node n)

  module _ (timeout : ℕ) where
    abbrev pub deadline : ℕ
    deadline = w.start + timeout

    abbrev pub timed_out : Error
    timed_out = record {
      wraps = [];
      message =
          txt "node with instance-id "
          ++ (instance_id ++ (txt " did not become ready within " ++ w.printed timeout));
    }

    abbrev pub node_or : Option (Result Node) → Option Node → Option (Result Node)
    node_or rest none = rest
    node_or rest (some node) = some (ok node)

    abbrev unless_cancelled :
        Option (Result Node) → Option Node → Option Error → Option (Result Node)
    unless_cancelled rest found (some e) = some (err e)
    unless_cancelled rest found none = node_or rest found

    -- The loop from turn `n` on, for as many turns at most as there is fuel; none where it runs out.
    unfoldable pub wait : ℕ → ℕ → Option (Result Node)
    unfolding ready_at
    wait zero n = none
    wait (suc fuel) n =
        let rest = wait fuel (suc n) in
        if ltb (w.clock n) deadline
        then unless_cancelled rest (ready_at n) (w.cancelled n)
        else some (err timed_out)

    unfoldable pub wait_for_node_ready : Option (Result Node)
    unfolding wait
    wait_for_node_ready = wait (suc (suc (timeout / interval))) 0
