-- ===== src/Controller/Disruptor/Reasons.antt =====
-- internal/controller/disruptor.go: what the tests before a node is destroyed come to, without the
-- tests.
use native.Mathlib.Omega.{div_any}
use gpuscale.Prelude.{
  ℕ, suc, ◌+◌, ◌-◌, ◌*◌, ◌/◌, ◌%◌, ◌≤◌, ◌<◌, ◌≡◌, ◌≢◌, refl, sym, subst, ◌⊎◌, inl, inr, true, false,
  not, ◌&&◌, ltb, leb, List, [], ◌∷◌, Option, none, some, Option-cases, Bool-cases, Text, is_empty,
  text_eq, count, arith,
}
use gpuscale.Provider.{Error, ok, err, Result-cases}
use gpuscale.Controller.Claims.{
  Claim, ClaimStatus, Pool, terminated, same_phase, is_inactive, serves,
  count_active_claims_for_model,
}
use gpuscale.Controller.Effects.{World, minute}
use gpuscale.Controller.Disruptor.{
  next_tick, until_tick, until_cooled, next_destroy_in, count_active_nodes, has_any_model_demand,
  is_any_model_always_active, at_min_nodes, at_min_replicas,
}
use gpuscale.Controller.Disruptor.Billing.{next_tick-cycle}

-- The property of each model with the number of the question about it, from this number on.
abbrev pub AllAt : (ℕ → Text → Type 0) → ℕ → List Text → Type 0
AllAt P n [] = Unit
AllAt P n (m ∷ ms) = P n m × AllAt P (suc n) ms

-- The end of the billing cycle: of the running one, or, before the provisioning, a moment at least a
-- period away that whole periods separate from the first end.
abbrev pub EndsAt : ℕ → ℕ → ℕ → ℕ → Type 0
EndsAt at now period t =
    ((k : ℕ) × (at + k * period ≤ now) × (now < t) × (t ≡ at + (k + 1) * period))
    ⊎ ((now < at) × (now + period ≤ t) × ((k : ℕ) × (t + k * period ≡ at + period)))

-- An idle claim has waited long enough: with a provisioning time and a billing period, at most a minute
-- is left of the cycle, and otherwise the cooldown since it was noted as idle is over.
abbrev pub IsOver : ℕ → ClaimStatus → ℕ → ℕ → ℕ → Type 0
IsOver cooldown st now since period =
    ((at : ℕ) × (st.provisioned_at ≡ some at)
      × (0 < period)
      × ((t : ℕ) × EndsAt at now period t × (t ≤ now + minute)))
    ⊎ (((st.provisioned_at ≡ none) ⊎ (period ≡ 0)) × (since + cooldown ≤ now))

next_tick-EndsAt : (at now period : ℕ) → 0 < period → EndsAt at now period (next_tick at now period)
unfolding next_tick
next_tick-EndsAt at now period pos = elim (Bool-cases (ltb now at)) [
  | inr begun ↦
      let (k, is_tick, from, to) = next_tick-cycle at now period pos (ground (arith, begun)) in
      inl (k, from, subst (λ t. now < t) (sym is_tick) to, is_tick)
  | inl early ↦
      let q = (at - now) / period in
      let parts : period * q + (at - now) % period ≡ at - now = div_any (at - now) period in
      rw early (inr (ground (arith, early), grind arith, (q, grind arith)))
]

module _ (w : World) where
  -- It has no name, there is no store, or the store does not answer that it is always active.
  abbrev pub IsNotKept : ℕ → Text → Type 0
  IsNotKept n m = (m ≡ []) ⊎ ((w.has_demand_store ≡ false) ⊎ (w.always_active n m ≢ ok true))

  -- It has no name, there is no store, or the store does not answer that requests wait for it.
  abbrev pub IsNotAsked : ℕ → Text → Type 0
  IsNotAsked n m =
      (m ≡ []) ⊎ ((w.has_demand_store ≡ false) ⊎ (¬ ((k : ℕ) × (w.demand n m ≡ ok (suc k)))))

  empty_text : (m : Text) → is_empty m ≡ true → m ≡ []
  empty_text [] h = refl
  empty_text (c ∷ m) h = absurd (cc h)

  pub not_kept :
      (n : ℕ) (ms : List Text) → is_any_model_always_active w n ms ≡ false → AllAt IsNotKept n ms
  unfolding is_any_model_always_active
  not_kept n [] h = tt
  not_kept n (m ∷ ms) h = (
    elim (Bool-cases (is_empty m)) [
      | inl e ↦ inl (empty_text m e)
      | inr e ↦ elim (Bool-cases w.has_demand_store) [
        | inr f ↦ inr (inl f)
        | inl f ↦ inr (inr (λ a. absurd (cc (rw (e, f, a) at h))))
      ]
    ],
    not_kept (suc n) ms (ground (arith, h)),
  )

  pub not_asked :
      (n : ℕ) (ms : List Text) → has_any_model_demand w n ms ≡ false → AllAt IsNotAsked n ms
  unfolding has_any_model_demand
  not_asked n [] h = tt
  not_asked n (m ∷ ms) h = (
    elim (Bool-cases (is_empty m)) [
      | inl e ↦ inl (empty_text m e)
      | inr e ↦ elim (Bool-cases w.has_demand_store) [
        | inr f ↦ inr (inl f)
        | inl f ↦ inr (inr (λ (k, a). absurd (ground (arith, rw (e, f, a) at h))))
      ]
    ],
    not_asked (suc n) ms (ground (arith, h)),
  )

  -- The pool, if there is one, has more claims that are not Terminated than it needs nodes.
  abbrev pub HasNodes : ℕ → Option Pool → Type 0
  HasNodes n none = Unit
  HasNodes n (some pool) =
      (claims : List Claim) × (w.list_claims n ≡ ok claims)
      × (pool.min_nodes
          < count
              (λ (c : Claim).
                text_eq c.spec.pool_ref pool.name && not (same_phase c.status.phase terminated))
              claims)

  pub has_nodes : (n : ℕ) (pool : Option Pool) → at_min_nodes w n pool ≡ false → HasNodes n pool
  unfolding at_min_nodes count_active_nodes
  has_nodes n none h = tt
  has_nodes n (some pool) h = elim (Result-cases (w.list_claims n)) [
    | inr (e, a) ↦ absurd (ground (arith, rw a at h))
    | inl (claims, a) ↦ (claims, a, ground (arith, rw a at h))
  ]

  -- The primary model has more claims that count as replicas than its config asks for, unless it has no
  -- name, there is no store, the config asks for one at most or is not read, or the list fails.
  abbrev pub HasReplicas : ℕ → Claim → Type 0
  HasReplicas n c =
      (c.spec.model_id ≡ [])
      ⊎ ((w.has_demand_store ≡ false)
          ⊎ ((w.min_replicas n c.spec.model_id ≡ none)
              ⊎ ((r : ℕ) × (w.min_replicas n c.spec.model_id ≡ some r)
                  × ((r ≤ 1)
                      ⊎ (((e : Error) × (w.list_claims (suc n) ≡ err e))
                          ⊎ ((claims : List Claim) × (w.list_claims (suc n) ≡ ok claims)
                              × (r
                                  < count
                                      (λ (x : Claim).
                                        not (is_inactive x.status.phase)
                                        && serves c.spec.model_id x)
                                      claims)))))))

  pub has_replicas : (n : ℕ) (c : Claim) → at_min_replicas w n c ≡ false → HasReplicas n c
  unfolding at_min_replicas count_active_claims_for_model
  has_replicas n c h = elim (Bool-cases (is_empty c.spec.model_id)) [
    | inl e ↦ inl (empty_text c.spec.model_id e)
    | inr e ↦ elim (Bool-cases w.has_demand_store) [
      | inr f ↦ inr (inl f)
      | inl f ↦ elim (Option-cases (w.min_replicas n c.spec.model_id)) [
        | inl a ↦ inr (inr (inl a))
        | inr (r, a) ↦ elim (Result-cases (w.list_claims (suc n))) [
          | inr (x, b) ↦ inr (inr (inr (r, a, inr (inl (x, b)))))
          | inl (claims, b) ↦ inr (inr (inr (r, a, enough r claims b (rw (e, f, a, b) at h))))
        ]
      ]
    ]
  ]
    where
      enough :
          (r : ℕ) (claims : List Claim)
          → w.list_claims (suc n) ≡ ok claims
          → ltb 1 r && leb (count_active_claims_for_model claims c.spec.model_id) r ≡ false
          → (r ≤ 1)
            ⊎ (((e : Error) × (w.list_claims (suc n) ≡ err e))
                ⊎ ((claims : List Claim) × (w.list_claims (suc n) ≡ ok claims)
                    × (r
                        < count
                            (λ (x : Claim).
                              not (is_inactive x.status.phase) && serves c.spec.model_id x)
                            claims)))
      enough r claims b h = elim (Bool-cases (ltb 1 r)) [
        | inr few ↦ inl (ground (arith, few))
        | inl several ↦ inr (inr (claims, b, ground (arith, several, h)))
      ]

pub is_over :
    (cooldown now since period : ℕ) (st : ClaimStatus)
    → st.idle_since ≡ some since
    → next_destroy_in cooldown st now period ≡ 0
    → IsOver cooldown st now since period
unfolding next_destroy_in
is_over cooldown now since period st idle h = elim (Option-cases st.provisioned_at) [
  | inl e ↦ inr (inl e, cooled (rw (e, idle) at h))
  | inr (at, e) ↦ elim (Bool-cases (ltb 0 period)) [
    | inr f ↦ inr (inr (ground (arith, f)), cooled (rw (e, f, idle) at h))
    | inl f ↦ inl (
      at,
      e,
      ground (arith, f),
      (
        next_tick at now period,
        next_tick-EndsAt at now period (ground (arith, f)),
        ended (next_tick at now period) (rw (e, f) at h),
      ),
    )
  ]
]
  where
    cooled : until_cooled cooldown now (some since) ≡ 0 → since + cooldown ≤ now
    cooled k = ground arith

    ended : (t : ℕ) → until_tick now t ≡ 0 → t ≤ now + minute
    ended t k = ground arith
