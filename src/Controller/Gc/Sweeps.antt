-- ===== src/Controller/Gc/Sweeps.antt =====
-- internal/controller/instancegc.go: an instance is destroyed only when two sweeps in a row find it
-- orphaned.
use gpuscale.Prelude.{
  ◌≡◌, refl, inl, inr, true, false, List, [], ◌∷◌, Option, none, some, Text, contains_text, In, All,
  All-In, Bool-cases,
}
use gpuscale.Provider.{Error, Result, ok, err, Result-cases}
use gpuscale.Controller.Claims.{Claim}
use gpuscale.Controller.Gc.{
  World, InstanceGc, kept_if_failed, visit_listed, new_instance_gc, known_instances, Swept, visit,
  visit_instances, visit_providers, nothing_swept, sweep,
}

-- The provider is registered and lists the instance.
abbrev pub Listed : World → Text → Text → Type 0
Listed w p id = In p w.providers × ((ids : List Text) × (w.list_instances p ≡ ok ids) × In id ids)

module _ (w : World) (known candidates : List Text) where
  -- No claim knows the instance, and a provider lists it.
  abbrev pub Orphaned : Text → Type 0
  Orphaned id = (contains_text id known ≡ false) × ((p : Text) × Listed w p id)

  -- The instance was a candidate, and is orphaned at that provider.
  abbrev pub Doomed : Text × Text → Type 0
  Doomed (p, id) =
      (contains_text id known ≡ false) × (contains_text id candidates ≡ true) × Listed w p id

  abbrev IsRight : Swept → Type 0
  IsRight s = All Orphaned s.orphans × All Doomed s.destroys

  visit-IsRight :
      (p id : Text) (s : Swept)
      → Listed w p id
      → IsRight s
      → IsRight (visit w known candidates p id s)
  unfolding visit
  visit-IsRight p id s listed r = elim (Bool-cases (contains_text id known)) [
    | inl claimed ↦ rw claimed r
    | inr unclaimed ↦ elim (Bool-cases (contains_text id candidates)) [
      | inr new ↦ rw (unclaimed, new) (((unclaimed, (p, listed)), r.0), r.1)
      | inl seen ↦
          rw (unclaimed, seen) (kept (w.destroy p id) unclaimed, ((unclaimed, seen, listed), r.1))
    ]
  ]
    where
      kept :
          (e : Option Error)
          → contains_text id known ≡ false
          → All Orphaned (kept_if_failed w known candidates e id s.orphans)
      kept none unclaimed = r.0
      kept (some e) unclaimed = ((unclaimed, (p, listed)), r.0)

  visit_instances-IsRight :
      (p : Text) (ids : List Text) (s : Swept)
      → ((id : Text) → In id ids → Listed w p id)
      → IsRight s
      → IsRight (visit_instances w known candidates p ids s)
  unfolding visit_instances
  visit_instances-IsRight p [] s listed r = r
  visit_instances-IsRight p (id ∷ ids) s listed r =
      visit_instances-IsRight p ids (visit w known candidates p id s) (λ i h. listed i (inr h))
        (visit-IsRight p id s (listed id (inl refl)) r)

  visit_listed-IsRight :
      (p : Text) (answer : Result (List Text)) (s : Swept)
      → In p w.providers
      → w.list_instances p ≡ answer
      → IsRight s
      → IsRight (visit_listed w known candidates p answer s)
  visit_listed-IsRight p (ok ids) s i e r =
      visit_instances-IsRight p ids s (λ id h. (i, (ids, e, h))) r
  visit_listed-IsRight p (err x) s i e r = r

  visit_providers-IsRight :
      (ps : List Text) (s : Swept)
      → ((p : Text) → In p ps → In p w.providers)
      → IsRight s
      → IsRight (visit_providers w known candidates ps s)
  unfolding visit_providers
  visit_providers-IsRight [] s given r = r
  visit_providers-IsRight (p ∷ ps) s given r =
      visit_providers-IsRight ps (visit_listed w known candidates p (w.list_instances p) s)
        (λ q h. given q (inr h))
        (visit_listed-IsRight p (w.list_instances p) s (given p (inl refl)) refl r)

-- What a sweep over listed claims destroys and remembers.
sweep-IsRight :
    (w : World) (g : InstanceGc) (claims : List Claim)
    → w.claims ≡ ok claims
    → All (Orphaned w (known_instances claims) g.candidates) (sweep w g).0.candidates
      × All (Doomed w (known_instances claims) g.candidates) (sweep w g).1
unfolding sweep
sweep-IsRight w g claims e =
    rw (e, sweep)
      (visit_providers-IsRight w (known_instances claims) g.candidates w.providers nothing_swept
        (λ p i. i) (tt, tt))

-- The first sweep of a process destroys nothing.
pub sweep_first : (w : World) (p id : Text) → ¬ In (p, id) (sweep w new_instance_gc).1
unfolding sweep new_instance_gc contains_text
sweep_first w p id i = elim (Result-cases w.claims) [
  | inl (claims, e) ↦
      let doomed = All-In _ (p, id) _ (sweep-IsRight w new_instance_gc claims e).1 i in
      absurd (cc doomed.1)
  | inr (e, f) ↦ rw (f, sweep) at i
]
