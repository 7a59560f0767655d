-- ===== src/Bootstrap/Health/Waiting.antt =====
-- internal/bootstrap/health.go: that the loop ends, and with what.
use native.Mathlib.Omega.{div_any}
use gpuscale.Prelude.{
  ℕ, zero, suc, subst, ◌+◌, ◌*◌, ◌/◌, ◌≤◌, ◌<◌, ◌≡◌, refl, ◌⊎◌, inl, inr, true, ltb, List, [], ◌∷◌,
  Option, none, some, Text, Bool-cases, Option-cases, arith,
}
use gpuscale.Provider.{Error, Result, ok, err}
use gpuscale.Bootstrap.Health.{
  World, Node, is_node_ready, interval, find_node, ready_at, deadline, timed_out, first_of,
  if_ready, wait, wait_for_node_ready,
}

module _ (w : World) (instance_id : Text) (timeout : ℕ) where
  -- The first node that is listed in the turn, which is ready.
  abbrev pub IsReady : ℕ → Node → Type 0
  IsReady n node =
      (others : List Node) × (w.list_nodes n instance_id ≡ ok (node ∷ others))
      × (is_node_ready node ≡ true)

  -- A turn after which the loop goes on.
  pub record GoesOn (n : ℕ) : Type 0 where
    pub in_time : w.clock n < deadline w instance_id timeout
    pub running : w.cancelled n ≡ none
    pub unready : (node : Node) → ¬ IsReady n node

  -- A turn in which the loop ends, and what it returns.
  abbrev pub EndsAt : ℕ → Result Node → Type 0
  EndsAt n r =
      ((deadline w instance_id timeout ≤ w.clock n) × (r ≡ err (timed_out w instance_id timeout)))
      ⊎ ((w.clock n < deadline w instance_id timeout)
          × (((e : Error) × (w.cancelled n ≡ some e) × (r ≡ err e))
              ⊎ ((w.cancelled n ≡ none) × (node : Node) × IsReady n node × (r ≡ ok node))))

  pub record Ends (k n : ℕ) (result : Option (Result Node)) : Type 0 where
    pub turn : ℕ
    pub value : Result Node
    pub given : result ≡ some value
    pub after : n ≤ turn
    pub soon : turn ≤ n + k
    pub earlier : (i : ℕ) → n ≤ i → i < turn → GoesOn i
    pub last : EndsAt turn value

  ready_at-cases :
      (n : ℕ)
      → ((node : Node) × (ready_at w instance_id n ≡ some node) × IsReady n node)
        ⊎ ((ready_at w instance_id n ≡ none) × ((node : Node) → ¬ IsReady n node))
  unfolding ready_at find_node
  ready_at-cases n = of_list (w.list_nodes n instance_id) refl
    where
      of_list :
          (r : Result (List Node))
          → w.list_nodes n instance_id ≡ r
          → ((node : Node) × (if_ready w instance_id (first_of w instance_id r) ≡ some node)
              × IsReady n node)
            ⊎ ((if_ready w instance_id (first_of w instance_id r) ≡ none)
                × ((node : Node) → ¬ IsReady n node))
      of_list (err e) q = inr (refl, λ node (others, p, ready). cc (p, q))
      of_list (ok []) q = inr (refl, λ node (others, p, ready). cc (p, q))
      of_list (ok (x ∷ xs)) q = elim (Bool-cases (is_node_ready x)) [
        | inl e ↦ inl (x, rw e refl, (xs, q, e))
        | inr e ↦ inr (rw e refl, λ node (others, p, ready). cc (p, q, ready, e))
      ]

  module _ (slept : (n : ℕ) → w.clock n + interval ≤ w.clock (suc n)) where
    -- One turn, before what the others end with, or after the deadline.
    turn-Ends :
        (k n : ℕ)
        → (deadline w instance_id timeout ≤ w.clock n)
          ⊎ ((j : ℕ) × (k ≡ suc j) × Ends j (suc n) (wait w instance_id timeout k (suc n)))
        → Ends k n (wait w instance_id timeout (suc k) n)
    unfolding wait
    turn-Ends k n rest = elim (Bool-cases (ltb (w.clock n) (deadline w instance_id timeout))) [
      | inr late ↦
          ends (err (timed_out w instance_id timeout)) (rw late refl)
            (inl (ground (arith, late), refl))
      | inl early ↦ elim (Option-cases (w.cancelled n)) [
        | inr (e, stop) ↦
            ends (err e) (rw (early, stop) refl) (inr (ground (arith, early), inl (e, stop, refl)))
        | inl run ↦ elim (ready_at-cases n) [
          | inl (node, found, ready) ↦
              ends (ok node) (rw (early, run, found) refl)
                (inr (ground (arith, early), inr (run, node, ready, refl)))
          | inr (unfound, unready) ↦ elim rest [
            | inl late ↦ absurd (ground (arith, early, late))
            | inr (j, s, e) ↦ record {
              turn = e.turn;
              value = e.value;
              given = rw (early, run, unfound) e.given;
              after = omega (arith, e.after);
              soon = omega (arith, s, e.soon);
              earlier = λ i a b. elim (Bool-cases (ltb n i)) [
                | inl f ↦ e.earlier i (ground (arith, f)) b
                | inr f ↦
                    let q : n ≡ i = ground (arith, f, a) in
                    subst GoesOn q
                      (record { in_time = ground (arith, early); running = run; unready = unready })
              ];
              last = e.last;
            }
          ]
        ]
      ]
    ]
      where
        ends :
            (r : Result Node)
            → wait w instance_id timeout (suc k) n ≡ some r
            → EndsAt n r
            → Ends k n (wait w instance_id timeout (suc k) n)
        ends r g l = record {
          turn = n;
          value = r;
          given = g;
          after = omega arith;
          soon = omega arith;
          earlier = λ i a b. absurd (omega (arith, a, b));
          last = l;
        }

    wait-Ends :
        (k n : ℕ)
        → deadline w instance_id timeout ≤ w.clock n + k * interval
        → Ends k n (wait w instance_id timeout (suc k) n)
    wait-Ends zero n h = turn-Ends zero n (inl (omega (arith, h)))
    wait-Ends (suc k) n h =
        turn-Ends (suc k) n (inr (k, refl, wait-Ends k (suc n) (omega (arith, h, slept n))))

    -- If the clock is not set back and `time.Sleep` sleeps for five seconds at least, the loop
    -- ends in the turn after as many turns as the timeout holds intervals and one more, or before,
    -- and its last turn decides what it gives: the first listed node, if that is ready; the error
    -- of the context, if that is cancelled; and an error that says that the timeout is over. In no
    -- earlier turn was the deadline reached, the context cancelled or the first listed node ready.
    pub wait_for_node_ready-Ends :
        w.start ≤ w.clock 0
        → Ends (suc (timeout / interval)) 0 (wait_for_node_ready w instance_id timeout)
    unfolding wait_for_node_ready
    wait_for_node_ready-Ends started =
        let q = timeout / interval in
        let parts = div_any timeout interval in wait-Ends (suc q) 0 (omega (arith, started, parts))
