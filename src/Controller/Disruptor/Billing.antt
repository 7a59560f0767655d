-- ===== src/Controller/Disruptor/Billing.antt =====
-- internal/controller/disruptor.go: the moment at which an idle node is destroyed.
use native.Mathlib.Nat.{mod-lt}
use native.Mathlib.Omega.{div_any}
use gpuscale.Prelude.{
  ℕ, ◌+◌, ◌-◌, ◌*◌, ◌/◌, ◌%◌, ◌≤◌, ◌<◌, ◌≡◌, refl, ◌⊎◌, ltb, lt→ltb, true, some, arith,
}
use gpuscale.Controller.Claims.{ClaimStatus}
use gpuscale.Controller.Effects.{minute}
use gpuscale.Controller.Disruptor.{next_tick, until_tick, next_destroy_in}

-- The wait ends one minute before the tick, or the tick is at most one minute away.
abbrev pub Timed : ℕ → ℕ → ℕ → Type 0
Timed now tick_at wait =
    ((0 < wait) × (now + wait + minute ≡ tick_at)) ⊎ ((wait ≡ 0) × (tick_at ≤ now + minute))

until_tick-Timed : (now tick_at : ℕ) → Timed now tick_at (until_tick now tick_at)
until_tick-Timed now tick_at = ground arith

pub next_tick-cycle :
    (at now period : ℕ)
    → 0 < period
    → at ≤ now
    → (k : ℕ) × (next_tick at now period ≡ at + (k + 1) * period)
      × (at + k * period ≤ now)
      × (now < at + (k + 1) * period)
unfolding next_tick
next_tick-cycle at now period pos h =
    let k = (now - at) / period in
    let parts : period * k + (now - at) % period ≡ now - at = div_any (now - at) period in
    let small : (now - at) % period < period = mod-lt (now - at) pos in
    (k, ground arith, grind arith, grind arith)

-- With a billing period and a provisioning time that is not in the future, an idle claim is destroyed
-- in the last minute of the cycle that is paid for: the wait ends exactly one minute before the end of
-- the cycle that holds the present moment, and there is no wait only where that end is at most a minute
-- away. The cooldown has no part in it: the wait is the same with any other one.
pub next_destroy_in-Timed :
    (cooldown now at period : ℕ) (st : ClaimStatus)
    → st.provisioned_at ≡ some at
    → 0 < period
    → at ≤ now
    → (k : ℕ) × (at + k * period ≤ now)
      × (now < at + (k + 1) * period)
      × Timed now (at + (k + 1) * period) (next_destroy_in cooldown st now period)
      × ((other : ℕ) → next_destroy_in other st now period ≡ next_destroy_in cooldown st now period)
unfolding next_destroy_in
next_destroy_in-Timed cooldown now at period st e pos h =
    let yes : ltb 0 period ≡ true = lt→ltb 0 period pos in
    let (k, is_tick, begun, running) = next_tick-cycle at now period pos h in
    (
      k,
      begun,
      running,
      rw e (rw (yes) (rw (← is_tick) (until_tick-Timed now (next_tick at now period)))),
      λ other. rw e (rw (yes) refl),
    )
