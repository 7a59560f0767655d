-- ===== src/Controller/Gc.antt =====
-- internal/controller/instancegc.go. A sweep is given what it asks for: the claims, the registered
-- providers, each one's instances, and the answer of each destroy call.
pub mod Sweeps
use gpuscale.Prelude.{
  Bool, not, ◌&&◌, ◌||◌, if◌then◌else◌, List, [], ◌∷◌, ◌++◌, Option, none, some, Text, txt, text_eq,
  is_empty, contains_text,
}
use gpuscale.Provider.{Error, Result, ok, err}
use gpuscale.Controller.Claims.{Claim, terminated, same_phase, annotation}

pub record World : Type 0 where
  pub claims : Result (List Claim)
  pub providers : List Text
  pub list_instances : Text → Result (List Text)
  pub destroy : Text → Text → Option Error

-- The instance ids seen as orphaned in the previous sweep.
pub record InstanceGc : Type 0 where
  pub candidates : List Text

unfoldable pub new_instance_gc : InstanceGc
new_instance_gc = record { candidates = [] }

-- `id != "" && id != "0"`
abbrev is_id : Text → Bool
is_id id = not (is_empty id) && not (text_eq id (txt "0"))

abbrev with_id : Text → List Text → List Text
with_id id rest = if is_id id then id ∷ rest else rest

-- The keys of `knownInstances`.
unfoldable pub known_instances : List Claim → List Text
known_instances [] = []
known_instances (c ∷ cs) =
    let rest = known_instances cs in
    if same_phase c.status.phase terminated
    then rest
    else with_id c.status.instance_id (with_id (annotation c (txt "gpuscale.io/instance-id")) rest)

-- What a sweep has done so far: this sweep's orphans, and the destroy calls as provider and id.
pub record Swept : Type 0 where
  pub orphans : List Text
  pub destroys : List (Text × Text)

module _ (w : World) (known candidates : List Text) where
  abbrev pub kept_if_failed : Option Error → Text → List Text → List Text
  kept_if_failed none id orphans = orphans
  kept_if_failed (some e) id orphans = id ∷ orphans

  unfoldable pub visit : Text → Text → Swept → Swept
  visit p id s =
      if contains_text id known
      then s
      else if not (contains_text id candidates)
      then record s { orphans = id ∷ s.orphans }
      else record s {
        orphans = kept_if_failed (w.destroy p id) id s.orphans;
        destroys = (p, id) ∷ s.destroys;
      }

  unfoldable pub visit_instances : Text → List Text → Swept → Swept
  unfolding visit
  visit_instances p [] s = s
  visit_instances p (id ∷ ids) s = visit_instances p ids (visit p id s)

  abbrev pub visit_listed : Text → Result (List Text) → Swept → Swept
  visit_listed p (ok ids) s = visit_instances p ids s
  visit_listed p (err e) s = s

  unfoldable pub visit_providers : List Text → Swept → Swept
  unfolding visit_instances
  visit_providers [] s = s
  visit_providers (p ∷ ps) s = visit_providers ps (visit_listed p (w.list_instances p) s)

abbrev pub nothing_swept : Swept
nothing_swept = record { orphans = []; destroys = [] }

-- The garbage collector after a sweep, and the destroy calls that the sweep made.
unfoldable pub sweep : World → InstanceGc → InstanceGc × List (Text × Text)
sweep w g = elim w.claims [
  | err e ↦ (g, [])
  | ok claims ↦
      let s = visit_providers w (known_instances claims) g.candidates w.providers nothing_swept in
      (record g { candidates = s.orphans }, s.destroys)
]
