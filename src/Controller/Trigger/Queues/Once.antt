-- ===== src/Controller/Trigger/Queues/Once.antt =====
-- internal/controller/provisiontrigger.go: which models `reconcileQueues` triggers.
use gpuscale.Prelude.{
  ℕ, suc, ◌<◌, ◌≡◌, ◌≢◌, refl, sym, ap, subst, ◌∙◌, ◌⊎◌, inl, inr, Bool, true, false, ◌||◌, List,
  [], ◌∷◌, ◌++◌, Text, contains_text, All, All-map, In, Bool-cases, arith,
}
use gpuscale.Provider.{Result, ok, err}
use gpuscale.Controller.Capacity.{ModelDemand}
use gpuscale.Controller.Claims.{Claim, serves}
use gpuscale.Controller.Trigger.{Triggered, refused, skipped, created, handle_trigger}
use gpuscale.Controller.Trigger.Consolidation.{is_going}
use gpuscale.Controller.Trigger.Queues.{
  World, Turn, models_of_claim, add_claims, add_listed, handled_after, is_idle, turns,
  reconcile_listed, reconcile_demands, reconcile_queues,
}

contains_text-append :
    (x : Text) (a b : List Text)
    → contains_text x (a ++ b) ≡ (contains_text x a || contains_text x b)
unfolding contains_text
contains_text-append x [] b = refl
contains_text-append x (y ∷ a) b = ground (arith, contains_text-append x a b)

module _ (w : World) where
  add_claims-keeps :
      (x : Text) (cs : List Claim) (h : List Text)
      → contains_text x h ≡ true
      → contains_text x (add_claims w cs h) ≡ true
  unfolding add_claims
  add_claims-keeps x [] h i = i
  add_claims-keeps x (c ∷ cs) h i = elim (Bool-cases (is_going w.at_consolidation c.status.phase)) [
    | inl e ↦ rw e (add_claims-keeps x cs h i)
    | inr e ↦ rw e (
        add_claims-keeps x cs (models_of_claim c ++ h) (
          contains_text-append x (models_of_claim c) h
          ∙ rw i (either (contains_text x (models_of_claim c)))))
  ]
    where
      either : (b : Bool) → (b || true) ≡ true
      either true = refl
      either false = refl

  add_claims-adds :
      (x : Text) (c : Claim) (cs : List Claim) (h : List Text)
      → In c cs
      → is_going w.at_consolidation c.status.phase ≡ false
      → contains_text x (models_of_claim c) ≡ true
      → contains_text x (add_claims w cs h) ≡ true
  unfolding add_claims
  add_claims-adds x c [] h i g s = absurd i
  add_claims-adds x c (b ∷ cs) h (inl q) g s =
      let g_b = ap (λ y. is_going w.at_consolidation y.status.phase) q ∙ g in
      let s_b = ap (λ y. contains_text x (models_of_claim y)) q ∙ s in
      rw g_b (
        add_claims-keeps x cs (models_of_claim b ++ h)
          (contains_text-append x (models_of_claim b) h ∙ rw s_b refl))
  add_claims-adds x c (b ∷ cs) h (inr i) g s =
      elim (Bool-cases (is_going w.at_consolidation b.status.phase)) [
        | inl e ↦ rw e (add_claims-adds x c cs h i g s)
        | inr e ↦ rw e (add_claims-adds x c cs (models_of_claim b ++ h) i g s)
      ]

  handled_after-keeps :
      (x : Text) (t : Triggered) (n : ℕ) (h : List Text)
      → contains_text x h ≡ true
      → contains_text x (handled_after w t n h) ≡ true
  handled_after-keeps x refused n h i = i
  handled_after-keeps x skipped n h i = listed (w.claims_after n)
    where
      listed : (r : Result (List Claim)) → contains_text x (add_listed w r h) ≡ true
      listed (err e) = i
      listed (ok cs) = add_claims-keeps x cs h i
  handled_after-keeps x (created c) n h i = listed (w.claims_after n)
    where
      listed : (r : Result (List Claim)) → contains_text x (add_listed w r h) ≡ true
      listed (err e) = i
      listed (ok cs) = add_claims-keeps x cs h i

  handled_after-adds :
      (x : Text) (t : Triggered) (n : ℕ) (h : List Text) (cs : List Claim) (c : Claim)
      → t ≢ refused
      → w.claims_after n ≡ ok cs
      → In c cs
      → is_going w.at_consolidation c.status.phase ≡ false
      → contains_text x (models_of_claim c) ≡ true
      → contains_text x (handled_after w t n h) ≡ true
  handled_after-adds x refused n h cs c q l i g s = absurd (q refl)
  handled_after-adds x skipped n h cs c q l i g s = rw l (add_claims-adds x c cs h i g s)
  handled_after-adds x (created d) n h cs c q l i g s = rw l (add_claims-adds x c cs h i g s)

  -- What warrants a turn: requests for the model wait or are served.
  pub record IsDemanded (ds : List ModelDemand) (u : Turn) : Type 0 where
    pub demand : ModelDemand
    pub listed : In demand ds
    pub named : demand.model ≡ u.model
    pub wanted : (0 < demand.queue_depth) ⊎ (0 < demand.active_demand)
    pub handled : u.outcome ≡ handle_trigger (w.at_trigger u.number) u.model

  -- After a turn that did not fail, a model that a listed claim serves, one that is not going, is left
  -- alone.
  abbrev pub Leaves : Turn → Turn → Type 0
  Leaves t u =
      t.outcome ≢ refused
      → (cs : List Claim) (c : Claim) → w.claims_after t.number ≡ ok cs
      → In c cs
      → is_going w.at_consolidation c.status.phase ≡ false
      → serves u.model c ≡ false

  abbrev pub InOrder : List Turn → Type 0
  InOrder [] = Unit
  InOrder (t ∷ ts) = All (Leaves t) ts × InOrder ts

  -- No turn is for a model that was handled before.
  turns-fresh :
      (n : ℕ) (ds : List ModelDemand) (h : List Text)
      → All (λ u. contains_text u.model h ≡ false) (turns w n ds h)
  unfolding turns
  turns-fresh n [] h = tt
  turns-fresh n (d ∷ ds) h = elim (Bool-cases (is_idle w d || contains_text d.model h)) [
    | inl e ↦ rw (e, turns) (turns-fresh n ds h)
    | inr e ↦
        let t = handle_trigger (w.at_trigger n) d.model in
        rw (e, turns)
          (
            ground (arith),
            All-map (turns w (suc n) ds (handled_after w t n h)) (λ u f. unhandled u.model t f)
                (turns-fresh (suc n) ds (handled_after w t n h)),
          )
  ]
    where
      unhandled :
          (x : Text) (t : Triggered)
          → contains_text x (handled_after w t n h) ≡ false
          → contains_text x h ≡ false
      unhandled x t f = elim (Bool-cases (contains_text x h)) [
        | inr e ↦ e
        | inl e ↦ absurd (cc (handled_after-keeps x t n h e, f))
      ]

  not_served :
      (c : Claim) (x : Text) → contains_text x (models_of_claim c) ≡ false → serves x c ≡ false
  unfolding serves contains_text
  not_served c x h = h

  turns-InOrder : (n : ℕ) (ds : List ModelDemand) (h : List Text) → InOrder (turns w n ds h)
  unfolding turns
  turns-InOrder n [] h = tt
  turns-InOrder n (d ∷ ds) h = elim (Bool-cases (is_idle w d || contains_text d.model h)) [
    | inl e ↦ rw (e, turns) (turns-InOrder n ds h)
    | inr e ↦
        let t = handle_trigger (w.at_trigger n) d.model in
        let rest = turns w (suc n) ds (handled_after w t n h) in
        rw (e, turns)
          (
            All-map rest (λ u f q cs c l i g. leaves u.model t q cs c l i g f)
                (turns-fresh (suc n) ds (handled_after w t n h)),
            turns-InOrder (suc n) ds (handled_after w t n h),
          )
  ]
    where
      leaves :
          (x : Text) (t : Triggered)
          → t ≢ refused
          → (cs : List Claim) (c : Claim) → w.claims_after n ≡ ok cs
          → In c cs
          → is_going w.at_consolidation c.status.phase ≡ false
          → contains_text x (handled_after w t n h) ≡ false
          → serves x c ≡ false
      leaves x t q cs c l i g f = elim (Bool-cases (contains_text x (models_of_claim c))) [
        | inr e ↦ not_served c x e
        | inl e ↦ absurd (cc (handled_after-adds x t n h cs c q l i g e, f))
      ]

  turns-IsDemanded :
      (n : ℕ) (ds all : List ModelDemand) (h : List Text)
      → ((d : ModelDemand) → In d ds → In d all)
      → All (IsDemanded all) (turns w n ds h)
  unfolding turns
  turns-IsDemanded n [] all h i = tt
  turns-IsDemanded n (d ∷ ds) all h i = elim (Bool-cases (is_idle w d || contains_text d.model h)) [
    | inl e ↦ rw (e, turns) (turns-IsDemanded n ds all h (λ x j. i x (inr j)))
    | inr e ↦
        let t = handle_trigger (w.at_trigger n) d.model in
        rw (e, turns)
          (
            record {
              demand = d;
              listed = i d (inl refl);
              named = refl;
              wanted = ground arith;
              handled = refl;
            },
            turns-IsDemanded (suc n) ds all (handled_after w t n h) (λ x j. i x (inr j)),
          )
  ]

  -- A pass over the queues triggers only models that requests wait for or are served for; and once a
  -- trigger has not failed, no later one of the pass is for a model that a claim serves which is
  -- listed after that trigger and is neither terminated nor draining.
  pub reconcile_queues-InOrder :
      (ds : List ModelDemand)
      → w.all_demands ≡ ok ds
      → All (IsDemanded ds) (reconcile_queues w).0 × InOrder (reconcile_queues w).0
  unfolding reconcile_queues
  reconcile_queues-InOrder ds h =
      subst (λ r. All (IsDemanded ds) (reconcile_demands w r).0 × InOrder (reconcile_demands w r).0)
        (sym h) (listed w.list_claims)
    where
      listed :
          (r : Result (List Claim))
          → All (IsDemanded ds) (reconcile_listed w ds r).0 × InOrder (reconcile_listed w ds r).0
      listed (err e) = (tt, tt)
      listed (ok cs) = (turns-IsDemanded 0 ds ds [] (λ x i. i), turns-InOrder 0 ds [])
