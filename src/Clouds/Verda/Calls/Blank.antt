-- ===== src/Clouds/Verda/Calls/Blank.antt =====
-- pkg/provider/verda: what client.go and provider.go make of a startup script whose creation is answered
-- by a body of white space.
use gpuscale.Prelude.{
  ℕ, ◌≡◌, ◌⊎◌, inl, inr, refl, ap, sym, subst, ◌∙◌, Bool, true, false, if◌then◌else◌, List, [], ◌∷◌,
  ◌++◌, none, Text, txt, is_empty, In, In-append_right,
}
use gpuscale.Provider.{Result, ok, err, Offer, BootstrapConfig, Instance}
use gpuscale.Clouds.Http.{Request, Response, answered, malformed, post, status_error, is_one_of}
use gpuscale.Clouds.Stores.{VolumeStore}
use gpuscale.Clouds.Verda.Instances.Api.{
  World, Action, instance_created, CreateInstanceRequest, InstanceResponse,
}
use gpuscale.Clouds.Verda.Instances.{
  create_instance, with_script, with_keys, created_as, create_request, find_reusable_volume,
  new_instance, missing_script,
}
use gpuscale.Clouds.Verda.Client.{Wire, Session, do_request}
use gpuscale.Clouds.Verda.Calls.{trim_space, read_first, after_reading}
use gpuscale.Clouds.Verda.Calls.Json.{Codec, StartupScriptResponse}
use gpuscale.Clouds.Verda.Calls.Scripts.{create_startup_script, created_script}

-- What `provider.go` uses of the answer.
abbrev pub script_id : Result StartupScriptResponse → Result Text
script_id (err e) = err e
script_id (ok s) = ok s.id

module _ (w : Wire) (json : Codec) (name script : Text) where
  abbrev pub creation : Request
  creation = post (txt "/scripts") (json.encode_script name script)

  -- The answer succeeds, its body is read and holds white space only, where `Unmarshal` finds no value.
  abbrev pub IsBlank : Session → Type 0
  IsBlank s =
      (r : Response) × (e : Text) × (((do_request w creation s).1 ≡ answered r)
        × ((r.status ≡ 200) ⊎ (r.status ≡ 201))
        × (w.unread (do_request w creation s).0.asked ≡ none)
        × (trim_space r.body ≡ [])
        × (json.raw_data r.body ≡ malformed e))

  abbrev without_id : Result StartupScriptResponse
  without_id = ok (record { id = []; name = name })

  created_script-blank :
      (body e : Text)
      → trim_space body ≡ []
      → json.raw_data body ≡ malformed e
      → created_script w json name body ≡ without_id
  unfolding created_script
  created_script-blank body e p q = rw (p, q) refl

  accepted : (c : ℕ) → (c ≡ 200) ⊎ (c ≡ 201) → is_one_of (200 ∷ 201 ∷ []) c ≡ true
  accepted c (inl p) = rw p refl
  accepted c (inr p) = rw p refl

  abbrev by_status : Bool → Response → Result StartupScriptResponse
  by_status accepts r =
      if accepts
      then created_script w json name r.body
      else err (status_error w.printed (txt "verda create script") r)

  create_startup_script-blank :
      (s : Session) → IsBlank s → (create_startup_script w json name script s).1 ≡ without_id
  unfolding create_startup_script
  create_startup_script-blank s (r, e, (p, q, u, b, d)) =
      ap
        (read_first w json (txt "verda create script") (txt "reading response body: ")
          (200 ∷ 201 ∷ []) (created_script w json name) (do_request w creation s).0.asked)
        p
      ∙ ap
          (λ o.
            after_reading o (txt "reading response body: ")
              (by_status (is_one_of (200 ∷ 201 ∷ []) r.status) r))
          u
      ∙ ap (λ b. by_status b r) (accepted r.status q)
      ∙ created_script-blank r.body e b d

module _ {S : Type 0} (w : World) (store : VolumeStore S) (o : Offer) (c : BootstrapConfig) (s : S)
    (wire : Wire) (json : Codec) (session : Session) where
  abbrev name_of : Text
  name_of = txt "gpuscale-" ++ c.instance_id

  abbrev Unscripted : S × (List Action × Result Instance) → Type 0
  Unscripted x =
      (q : CreateInstanceRequest) × (i : Instance) × (In (instance_created q) x.1.0
        × (q.startup_script_id ≡ [])
        × (x.1.1 ≡ ok i))

  created_as-Unscripted :
      (done : List Action) (q : CreateInstanceRequest) (t : S) (r : InstanceResponse)
      → q.startup_script_id ≡ []
      → Unscripted (created_as w store c done q t (ok r))
  created_as-Unscripted done q t r h = (
    q,
    new_instance w store [] r,
    (In-append_right (instance_created q) done (instance_created q ∷ []) (inl refl), h, refl),
  )

  with_keys-Unscripted :
      (found : S × (Text × List Action)) (keys : List Text)
      → ((q : CreateInstanceRequest) → (r : InstanceResponse) × (w.create_instance q ≡ ok r))
      → Unscripted (with_keys w store o c [] found (ok keys))
  unfolding create_request
  with_keys-Unscripted (t, (volume, done)) keys sells =
      let q = create_request w store o c [] keys volume in
      let (r, bought) = sells q in
      subst (λ x. Unscripted (created_as w store c done q t x)) (sym bought)
        (created_as-Unscripted done q t r refl)

  -- Where the script of a config is not empty, its creation goes to the client and is answered
  -- with status 200 or 201 by a body of white space, in which encoding/json finds no value, the
  -- keys are listed and the creation of an instance succeeds, an instance is bought that refers to
  -- no startup script, and this is reported as a success.
  pub create_instance-Unscripted :
      is_empty c.on_start_script ≡ false
      → w.create_startup_script name_of c.on_start_script
        ≡ script_id (create_startup_script wire json name_of c.on_start_script session).1
      → IsBlank wire json name_of c.on_start_script session
      → (keys : List Text) → w.list_ssh_keys ≡ ok keys
      → ((q : CreateInstanceRequest) → (r : InstanceResponse) × (w.create_instance q ≡ ok r))
      → Unscripted (create_instance w store o c s)
  unfolding create_instance
  create_instance-Unscripted given asked blank keys listed sells =
      let scripted =
        asked
        ∙ ap script_id
            (create_startup_script-blank wire json name_of c.on_start_script session blank) in
      let found = find_reusable_volume w store c.model_id c.min_disk s in
      subst
        (λ b. Unscripted (
          if b
          then (s, ([], err missing_script))
          else with_script w store o c s (w.create_startup_script name_of c.on_start_script)))
        (sym given)
        (subst (λ x. Unscripted (with_script w store o c s x)) (sym scripted)
          (subst (λ x. Unscripted (with_keys w store o c [] found x)) (sym listed)
            (with_keys-Unscripted found keys sells)))
