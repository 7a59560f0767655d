-- ===== src/Controller/Effects/Kept.antt =====
-- internal/controller: what the clean-up steps leave alone.
use gpuscale.Prelude.{
  suc, ◌≡◌, refl, ◌∙◌, ◌⊎◌, inl, inr, Bool, true, false, List, [], ◌∷◌, none, some, Text,
  Bool-cases, Option-cases,
}
use gpuscale.Provider.{Error, Result-cases}
use gpuscale.Controller.Claims.{claim_model_ids}
use gpuscale.Controller.Effects.{
  World, Effect, Store, tick, emit_if, write_status, destroy, delete_node_if_exists, remove_loaded,
  remove_loaded_models, retrigger, retrigger_if_demand_exists, is_wanted,
}

-- The claim in hand and the stored one are as they were.
abbrev pub Keeps : Store → Store → Type 0
Keeps s t = (t.claim ≡ s.claim) × (t.stored ≡ s.stored)

pub Keeps-trans : (s t u : Store) → Keeps s t → Keeps t u → Keeps s u
Keeps-trans s t u k l = (l.0 ∙ k.0, l.1 ∙ k.1)

pub emit_if-Keeps : (b : Bool) (e : Effect) (s : Store) → Keeps s (emit_if b e s)
emit_if-Keeps true e s = (refl, refl)
emit_if-Keeps false e s = (refl, refl)

module _ (w : World) where
  pub destroy-Keeps : (p i : Text) (s : Store) → Keeps s (destroy w p i s).0
  unfolding destroy
  destroy-Keeps p i s = elim (Option-cases (w.destroy_error s.asked p i)) [
    | inl e ↦ rw (e, destroy) (refl, refl)
    | inr (x, e) ↦ rw (e, destroy) (refl, refl)
  ]

  pub delete_node-Keeps : (s : Store) → Keeps s (delete_node_if_exists w s)
  unfolding delete_node_if_exists
  delete_node-Keeps s = elim (Result-cases (w.find_node s.asked s.claim.name)) [
    | inr (x, e) ↦ rw (e, delete_node_if_exists) (refl, refl)
    | inl (none, e) ↦ rw (e, delete_node_if_exists) (refl, refl)
    | inl (some n, e) ↦ elim (Option-cases (w.write_error (suc s.asked))) [
      | inl f ↦ rw (e, delete_node_if_exists) (rw (f, delete_node_if_exists) (refl, refl))
      | inr (x, f) ↦ rw (e, delete_node_if_exists) (rw (f, delete_node_if_exists) (refl, refl))
    ]
  ]

  remove_loaded-Keeps : (ms : List Text) (s : Store) → Keeps s (remove_loaded w ms s)
  unfolding remove_loaded
  remove_loaded-Keeps [] s = (refl, refl)
  remove_loaded-Keeps (m ∷ ms) s = remove_loaded-Keeps ms _

  pub remove_loaded_models-Keeps : (s : Store) → Keeps s (remove_loaded_models w s)
  unfolding remove_loaded_models
  remove_loaded_models-Keeps s = elim (Bool-cases w.has_demand_store) [
    | inl e ↦ rw e (remove_loaded-Keeps (claim_model_ids s.claim) s)
    | inr e ↦ rw e (refl, refl)
  ]

  retrigger-Keeps : (ms : List Text) (s : Store) → Keeps s (retrigger w ms s)
  unfolding retrigger
  retrigger-Keeps [] s = (refl, refl)
  retrigger-Keeps (m ∷ ms) s =
      elim (Bool-cases (is_wanted w (w.queue_depth s.asked m) (w.demand (suc s.asked) m))) [
        | inl e ↦ rw e (refl, refl)
        | inr e ↦ rw e (retrigger-Keeps ms (tick (tick s)))
      ]

  pub retrigger_if_demand_exists-Keeps : (s : Store) → Keeps s (retrigger_if_demand_exists w s)
  unfolding retrigger_if_demand_exists
  retrigger_if_demand_exists-Keeps s = elim (Bool-cases w.has_demand_store) [
    | inl e ↦ rw e (retrigger-Keeps (claim_model_ids s.claim) s)
    | inr e ↦ rw e (refl, refl)
  ]

  -- A status write stores the status in hand, or fails and stores nothing.
  pub write_status-cases :
      (s : Store)
      → ((write_status w s).0.claim ≡ s.claim)
        × ((((write_status w s).1 ≡ none)
              × ((write_status w s).0.stored ≡ record s.stored { status = s.claim.status }))
            ⊎ ((e : Error) × ((write_status w s).1 ≡ some e)
                × ((write_status w s).0.stored ≡ s.stored)))
  unfolding write_status
  write_status-cases s = elim (Option-cases (w.write_error s.asked)) [
    | inl e ↦ rw (e, write_status) (refl, inl (refl, refl))
    | inr (x, e) ↦ rw (e, write_status) (refl, inr (x, refl, refl))
  ]
