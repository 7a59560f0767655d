-- ===== src/Controller/Effects/Grown.antt =====
-- internal/controller: the log of a clean-up step still holds what it held before.
use gpuscale.Prelude.{
  inl, inr, Bool, true, false, ◌||◌, [], ◌∷◌, List, Text, Bool-cases, Option-cases, In, is_empty,
}
use gpuscale.Controller.Claims.{claim_model_ids}
use gpuscale.Controller.Effects.{
  World, Effect, Store, emit_if, write_claim, remove_loaded, remove_loaded_models, other_ready,
}

abbrev pub Grows : Store → Store → Type 0
Grows s t = (e : Effect) → In e s.log → In e t.log

pub emit_if-Grows : (b : Bool) (x : Effect) (s : Store) → Grows s (emit_if b x s)
emit_if-Grows true x s e i = inr i
emit_if-Grows false x s e i = i

module _ (w : World) where
  remove_loaded-Grows : (ms : List Text) (s : Store) → Grows s (remove_loaded w ms s)
  unfolding remove_loaded
  remove_loaded-Grows [] s e i = i
  remove_loaded-Grows (m ∷ ms) s e i =
      elim (Bool-cases (other_ready w (w.list_claims s.asked) m s.claim.name || is_empty m)) [
        | inl h ↦ remove_loaded-Grows ms _ e (rw h i)
        | inr h ↦ remove_loaded-Grows ms _ e (rw h (inr i))
      ]

  pub remove_loaded_models-Grows : (s : Store) → Grows s (remove_loaded_models w s)
  unfolding remove_loaded_models
  remove_loaded_models-Grows s e i = elim (Bool-cases w.has_demand_store) [
    | inl h ↦ rw h (remove_loaded-Grows (claim_model_ids s.claim) s e i)
    | inr h ↦ rw h i
  ]

  pub write_claim-Grows : (s : Store) → Grows s (write_claim w s).0
  unfolding write_claim
  write_claim-Grows s e i = elim (Option-cases (w.write_error s.asked)) [
    | inl h ↦ rw (h, write_claim) (inr i)
    | inr (x, h) ↦ rw (h, write_claim) i
  ]
