-- ===== src/Controller/Effects/Logged.antt =====
-- internal/controller: which effects the steps log, beside status writes of a phase that is allowed.
use gpuscale.Prelude.{
  suc, ◌≡◌, refl, sym, subst, inl, inr, Bool, true, false, ◌||◌, if◌then◌else◌, List, [], ◌∷◌, none,
  some, Text, Bool-cases, Option-cases, is_empty, All,
}
use gpuscale.Provider.{Result-cases}
use gpuscale.Controller.Claims.{Phase, claim_model_ids}
use gpuscale.Controller.Effects.{
  World, Effect, Store, Reply, status_written, asked_coordinator, tick, emit_if, write_status,
  write_claim, destroy, delete_node_if_exists, remove_loaded, remove_loaded_models, retrigger,
  retrigger_if_demand_exists, other_ready, is_wanted,
}

-- Every status that the log shows is of an allowed phase, and the coordinator is asked only if it
-- may be.
abbrev pub Allows : (Phase → Type 0) → Type 0 → Effect → Type 0
Allows P A (status_written q) = P q
Allows P A asked_coordinator = A
Allows P A e = Unit

pub record Logs (P : Phase → Type 0) (A : Type 0) (s : Store) : Type 0 where
  pub logged : All (Allows P A) s.log

-- A step that leaves the log alone.
pub relog :
    {P : Phase → Type 0} {A : Type 0} {s t : Store} → t.log ≡ s.log → Logs P A s → Logs P A t
relog {P} {A} e l = record { logged = subst (All (Allows P A)) (sym e) l.logged }

module _ (P : Phase → Type 0) (A : Type 0) where
  pub emit_if-Logs :
      (b : Bool) (e : Effect) (s : Store) → Allows P A e → Logs P A s → Logs P A (emit_if b e s)
  emit_if-Logs true e s a l = record { logged = (a, l.logged) }
  emit_if-Logs false e s a l = l

  pub choice-Logs :
      (b : Bool) (x y : Store × Reply)
      → Logs P A x.0
      → Logs P A y.0
      → Logs P A (if b then x else y).0
  choice-Logs true x y l m = l
  choice-Logs false x y l m = m

  pub choose-Logs :
      (b : Bool) (x y : Store × Reply)
      → (b ≡ true → Logs P A x.0)
      → (b ≡ false → Logs P A y.0)
      → Logs P A (if b then x else y).0
  choose-Logs true x y l m = l refl
  choose-Logs false x y l m = m refl

  pub branch-Logs :
      (b : Bool) (x y : Store) → Logs P A x → Logs P A y → Logs P A (if b then x else y)
  branch-Logs true x y l m = l
  branch-Logs false x y l m = m

  module _ (w : World) where
    pub write_status-Logs :
        {t : Store} (s : Store)
        → P s.claim.status.phase
        → s.log ≡ t.log
        → Logs P A t
        → Logs P A (write_status w s).0
    unfolding write_status
    write_status-Logs s a r l = elim (Option-cases (w.write_error s.asked)) [
      | inl e ↦
          rw (e, write_status) record { logged = (a, (relog {P = P} {A = A} {t = s} r l).logged) }
      | inr (x, e) ↦ rw (e, write_status) (relog r l)
    ]

    pub write_claim-Logs :
        {t : Store} (s : Store) → s.log ≡ t.log → Logs P A t → Logs P A (write_claim w s).0
    unfolding write_claim
    write_claim-Logs s r l = elim (Option-cases (w.write_error s.asked)) [
      | inl e ↦
          rw (e, write_claim) record { logged = (tt, (relog {P = P} {A = A} {t = s} r l).logged) }
      | inr (x, e) ↦ rw (e, write_claim) (relog r l)
    ]

    pub destroy-Logs : (p i : Text) (s : Store) → Logs P A s → Logs P A (destroy w p i s).0
    unfolding destroy
    destroy-Logs p i s l = elim (Option-cases (w.destroy_error s.asked p i)) [
      | inl e ↦ rw (e, destroy) record { logged = (tt, l.logged) }
      | inr (x, e) ↦ rw (e, destroy) record { logged = (tt, l.logged) }
    ]

    pub delete_node-Logs : (s : Store) → Logs P A s → Logs P A (delete_node_if_exists w s)
    unfolding delete_node_if_exists
    delete_node-Logs s l = elim (Result-cases (w.find_node s.asked s.claim.name)) [
      | inr (x, e) ↦ rw (e, delete_node_if_exists) (relog refl l)
      | inl (none, e) ↦ rw (e, delete_node_if_exists) (relog refl l)
      | inl (some n, e) ↦ elim (Option-cases (w.write_error (suc s.asked))) [
        | inl f ↦
            rw (e, delete_node_if_exists)
              (rw (f, delete_node_if_exists) record { logged = (tt, l.logged) })
        | inr (x, f) ↦ rw (e, delete_node_if_exists) (rw (f, delete_node_if_exists) (relog refl l))
      ]
    ]

    remove_loaded-Logs : (ms : List Text) (s : Store) → Logs P A s → Logs P A (remove_loaded w ms s)
    unfolding remove_loaded
    remove_loaded-Logs [] s l = l
    remove_loaded-Logs (m ∷ ms) s l = remove_loaded-Logs ms _ (record {
      logged = unless_served (other_ready w (w.list_claims s.asked) m s.claim.name || is_empty m);
    })
      where
        unless_served :
            (b : Bool) → All (Allows P A) (if b then s.log else Effect.model_removed m ∷ s.log)
        unless_served true = l.logged
        unless_served false = (tt, l.logged)

    pub remove_loaded_models-Logs : (s : Store) → Logs P A s → Logs P A (remove_loaded_models w s)
    unfolding remove_loaded_models
    remove_loaded_models-Logs s l = elim (Bool-cases w.has_demand_store) [
      | inl e ↦ rw e (remove_loaded-Logs (claim_model_ids s.claim) s l)
      | inr e ↦ rw e l
    ]

    retrigger-Logs : (ms : List Text) (s : Store) → Logs P A s → Logs P A (retrigger w ms s)
    unfolding retrigger
    retrigger-Logs [] s l = l
    retrigger-Logs (m ∷ ms) s l =
        elim (Bool-cases (is_wanted w (w.queue_depth s.asked m) (w.demand (suc s.asked) m))) [
          | inl e ↦ rw e record { logged = (tt, l.logged) }
          | inr e ↦ rw e (retrigger-Logs ms (tick (tick s)) (relog refl l))
        ]

    pub retrigger_if_demand_exists-Logs :
        (s : Store) → Logs P A s → Logs P A (retrigger_if_demand_exists w s)
    unfolding retrigger_if_demand_exists
    retrigger_if_demand_exists-Logs s l = elim (Bool-cases w.has_demand_store) [
      | inl e ↦ rw e (retrigger-Logs (claim_model_ids s.claim) s l)
      | inr e ↦ rw e l
    ]
