-- ===== src/Clouds/Runpod/Gone.antt =====
-- pkg/provider/runpod: what is said of a pod that the API does not know, and what internal/controller's
-- reconciler makes of it.
use gpuscale.Prelude.{
  ℕ, ◌==◌, ◌≡◌, refl, ap, ◌∙◌, true, false, Bool, if◌then◌else◌, ==_iff, ◌↔◌, [], ◌∷◌, ◌++◌, none,
  some, Text, txt, is_empty,
}
use gpuscale.Provider.{Error, Result, ok, err, Instance, is_error, instance_not_found}
use gpuscale.Clouds.Http.{
  Decoded, malformed, decoded, decoding, present, is_one_of, unless_missing, Request, Response,
  Answer, answered, unsent, get, delete, acting, status_error,
}
use gpuscale.Clouds.Runpod.{destroy_instance, get_instance, found_as}
use gpuscale.Clouds.Runpod.Pods.{PodResponse}
use gpuscale.Clouds.Runpod.Client.{Transport, Codec, decoded_by, connected, delete_pod, get_pod}
use gpuscale.Controller.Effects.{World, Store}
use gpuscale.Controller.Reconciler.Draining.Stuck.{IsDraining, reconciled, reconciled-stored}

-- This request is answered by 404.
abbrev pub Unknown : Transport → Request → Type 0
Unknown t q = (r : Response) × (t.send q ≡ answered r) × (r.status ≡ 404)

module _ (t : Transport) (json : Codec) where
  destroy_instance-refused :
      (quoted : Text → Text) (nine_tenths : ℕ) (id : Text)
      → Unknown t (delete (txt "/pods/" ++ id))
      → (e : Error) × (destroy_instance (connected t json quoted nine_tenths) id ≡ some e)
        × (is_error e instance_not_found ≡ false)
  unfolding destroy_instance delete_pod is_error
  destroy_instance-refused quoted nine_tenths id (r, asked, missing) = (
    status_error t.printed (txt "runpod delete pod") r,
    ap (acting t.printed (txt "runpod delete pod") (200 ∷ 204 ∷ [])) asked ∙ (rw missing refl),
    refl,
  )

  abbrev Missing : Answer → Type 0
  Missing a = (r : Response) × (a ≡ answered r) × (r.status ≡ 404)

  abbrev SaysGone : Result Instance → Type 0
  SaysGone x = (e : Error) × (x ≡ err e) × (is_error e instance_not_found ≡ true)

  module _ (quoted : Text → Text) (nine_tenths : ℕ) where
    abbrev found_by : Answer → Result Instance
    found_by a =
        found_as (connected t json quoted nine_tenths) (
          unless_missing t.printed (txt "runpod get pod") (200 ∷ []) (decoded_by t json json.pod) a)

    found_by-Missing : (a : Answer) → Missing a → SaysGone (found_by a)
    unfolding is_error
    found_by-Missing a (r, p, q) = (
      record { wraps = instance_not_found ∷ []; message = txt "instance not found" },
      ap found_by p ∙ (rw q refl),
      refl,
    )

    abbrev says_gone : Result Instance → Bool
    says_gone (ok i) = false
    says_gone (err e) = is_error e instance_not_found

    abbrev found : Bool → Bool → Response → Decoded PodResponse → Result Instance
    found missing accepted r d = found_as (connected t json quoted nine_tenths) (
        if missing
        then ok none
        else present (
            if accepted
            then decoding (txt "decoding response: ") d
            else err (status_error t.printed (txt "runpod get pod") r)))

    found-missing :
        (missing accepted : Bool) (r : Response) (d : Decoded PodResponse)
        → says_gone (found missing accepted r d) ≡ true
        → missing ≡ true
    unfolding is_error
    found-missing true accepted r d h = refl
    found-missing false false r d h = h
    found-missing false true r (malformed e) h = h
    found-missing false true r (decoded pod) h = h

    Missing-found_by : (a : Answer) → says_gone (found_by a) ≡ true → Missing a
    unfolding is_error
    Missing-found_by (unsent e) h = absurd (cc h)
    Missing-found_by (answered r) h = (
      r,
      refl,
      (==_iff r.status 404).0
          (found-missing (r.status == 404) (is_one_of (200 ∷ []) r.status) r (json.pod r.body) h),
    )

  -- The provider says that an instance is not found exactly when the request for its pod is answered by
  -- 404.
  pub get_instance-gone :
      (quoted : Text → Text) (nine_tenths : ℕ) (id : Text)
      → SaysGone (get_instance (connected t json quoted nine_tenths) id)
        ↔ Unknown t (get (txt "/pods/" ++ id))
  unfolding get_instance get_pod
  get_instance-gone quoted nine_tenths id = (
    λ (e, p, q).
        Missing-found_by quoted nine_tenths (t.send (get (txt "/pods/" ++ id)))
          (ap (says_gone quoted nine_tenths) p ∙ q),
    found_by-Missing quoted nine_tenths (t.send (get (txt "/pods/" ++ id))),
  )

module _ (w : World) (t : ℕ → Transport) (json : Codec) (quoted : Text → Text) (nine_tenths : ℕ)
    (id : Text) where
  -- A claim whose drain was begun, guarded by the finalizer and not deleted, that names a pod
  -- at RunPod which is not there any more: each call to destroy it goes to the RunPod client,
  -- and each of the client's requests is answered by 404. Then after any number of
  -- reconciliations the stored claim is what it was, so Draining.
  pub reconciled-gone :
      w.registered (txt "runpod") ≡ true
      → is_empty id ≡ false
      → ((n : ℕ)
          → w.destroy_error n (txt "runpod") id
            ≡ destroy_instance (connected (t n) json quoted nine_tenths) id)
      → ((n : ℕ) → Unknown (t n) (delete (txt "/pods/" ++ id)))
      → (n : ℕ) (s : Store) → IsDraining w (txt "runpod") id s.stored
      → (reconciled w n s).stored ≡ s.stored
  reconciled-gone known named asked missing n s d =
      reconciled-stored w (txt "runpod") id known named
        (λ k.
          let (e, p, q) = destroy_instance-refused (t k) json quoted nine_tenths id (missing k) in
          (e, asked k ∙ p, q))
        n s d
