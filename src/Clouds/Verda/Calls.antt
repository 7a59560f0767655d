-- ===== src/Clouds/Verda/Calls.antt =====
-- pkg/provider/verda/client.go: the calls. White space and the first byte of a body are ASCII.
pub mod Json
pub mod Scripts
pub mod Blank
use gpuscale.Prelude.{
  ℕ, ◌==◌, Bool, true, false, not, ◌&&◌, ◌||◌, leb, ltb, if◌then◌else◌, List, [], ◌∷◌, ◌++◌, length,
  take, Option, none, some, Text, txt, is_empty,
}
use gpuscale.Provider.{Error, Result, ok, err}
use gpuscale.Clouds.Http.{
  Request, Response, Answer, Decoded, malformed, decoded, plain_error, get, delete, post, put,
  decoding, expecting, unless_missing, acting, unsent, answered,
}
use gpuscale.Clouds.Verda.Instances.Api.{VolumeResponse, CreateInstanceRequest, InstanceResponse}
use gpuscale.Clouds.Verda.Search.{InstanceType}
use gpuscale.Clouds.Verda.Client.{Wire, Session, do_request}
use gpuscale.Clouds.Verda.Calls.Json.{Codec, Listing}

abbrev pub is_space : ℕ → Bool
is_space c = c == b' ' || (leb 9 c && leb c 13)

abbrev pub trim_left : Text → Text
trim_left [] = []
trim_left (c ∷ t) = elim (is_space c) [ true ↦ trim_left t | false ↦ c ∷ t ]

abbrev pub before_space : ℕ → Text → Text
before_space c [] = if is_space c then [] else c ∷ []
before_space c (d ∷ t) = c ∷ d ∷ t

abbrev pub trim_right : Text → Text
trim_right [] = []
trim_right (c ∷ t) = before_space c (trim_right t)

-- `strings.TrimSpace`
unfoldable pub trim_space : Text → Text
trim_space t = trim_right (trim_left t)

-- What follows `io.ReadAll`, by what that fails with.
abbrev pub after_reading : {A : Type 0} → Option Text → Text → Result A → Result A
after_reading none text rest = rest
after_reading (some e) text rest = err (plain_error (text ++ e))

-- A body that does not begin as JSON does is the id itself.
abbrev pub is_id : Text → Bool
is_id [] = false
is_id (c ∷ t) = not (c == b'{' || c == b'[')

module _ (w : Wire) (json : Codec) where
  abbrev pub call : {A : Type 0} → Request → (ℕ → Answer → A) → Session → Session × A
  call q f s = let (t, a) = do_request w q s in (t, f t.asked a)

  abbrev pub wrapped_shape : {A : Type 0} → (Text → Text) → Decoded (List A) → Result (List A)
  wrapped_shape failure (decoded l) = ok l
  wrapped_shape failure (malformed e) = err (plain_error (failure e))

  -- The plain array, or else the one below `data`.
  abbrev pub either_shape : {A : Type 0} → (Text → Text) → Listing A → Text → Result (List A)
  either_shape failure l body = elim (l.plain body) [
    | decoded as_list ↦ ok as_list
    | malformed e ↦ wrapped_shape failure (l.wrapped body)
  ]

  -- The status is looked at before the body is read.
  abbrev pub listing :
      {A : Type 0} → Text → (Text → Text → Text) → Listing A → ℕ → Answer → Result (List A)
  listing what failure l n a =
      expecting w.printed what (200 ∷ [])
        (λ r.
          after_reading (w.unread n) (txt "reading response: ")
            (either_shape (failure r.body) l r.body))
        a

  -- The body is read before the status is looked at.
  abbrev pub read_first :
      {A : Type 0} → Text → Text → List ℕ → (Text → Result A) → ℕ → Answer → Result A
  read_first what reading codes f n (unsent e) = err (plain_error e)
  read_first what reading codes f n (answered r) =
      after_reading (w.unread n) reading
        (expecting w.printed what codes (λ s. f s.body) (answered r))

  abbrev pub preview : Text → Text
  preview body = if ltb 500 (length body) then take 500 body ++ txt "..." else body

  unfoldable pub list_instance_types : Session → Session × Result (List InstanceType)
  list_instance_types = call (get (txt "/instance-types?currency=usd")) (
      listing (txt "verda instance-types")
        (λ body e.
          txt "decoding response (tried both array and wrapped formats): "
          ++ (e ++ (txt ". Response preview: " ++ preview body)))
        json.types)

  unfoldable pub list_locations : Session → Session × Result (List Text)
  list_locations = call (get (txt "/locations")) (
      read_first (txt "verda locations") (txt "reading response: ") (200 ∷ [])
        (either_shape (λ e. txt "decoding locations: " ++ e) json.locations))

  unfoldable pub check_availability_in_location :
      Text → Bool → Text → Session → Session × Result Bool
  check_availability_in_location instance_type is_spot location =
      call
        (get (
          txt "/instance-availability/"
          ++ (instance_type
              ++ (txt "?is_spot="
                  ++ ((if is_spot then txt "true" else txt "false")
                      ++ (txt "&location_code=" ++ location))))))
        (read_first (txt "verda availability") (txt "reading response: ") (200 ∷ [])
          (λ body. decoding (txt "decoding availability: ") (json.available body)))

  abbrev pub with_starting : Text → InstanceResponse
  with_starting id = record { id = id; ip = []; status = txt "starting"; gpu_type = [] }

  abbrev pub plain_instance_in : Text → Decoded InstanceResponse → Result InstanceResponse
  plain_instance_in body (decoded i) = ok i
  plain_instance_in body (malformed e) = err (
      plain_error
        (txt "decoding response: " ++ (e ++ (txt " (body: " ++ (trim_space body ++ txt ")")))))

  abbrev pub instance_in : Text → Decoded InstanceResponse → Result InstanceResponse
  instance_in body (malformed e) = plain_instance_in body (json.plain_instance body)
  instance_in body (decoded i) =
      if is_empty i.id then plain_instance_in body (json.plain_instance body) else ok i

  unfoldable pub created_instance : Text → Result InstanceResponse
  unfolding trim_space
  created_instance body =
      if is_id (trim_space body)
      then ok (with_starting (trim_space body))
      else instance_in body (json.wrapped_instance body)

  unfoldable pub create_instance :
      CreateInstanceRequest → Session → Session × Result InstanceResponse
  unfolding created_instance
  create_instance q = call (post (txt "/instances") (json.encode_instance q)) (
      read_first (txt "verda create") (txt "reading response body: ") (200 ∷ 201 ∷ 202 ∷ [])
        created_instance)

  unfoldable pub get_instance : Text → Session → Session × Result (Option InstanceResponse)
  get_instance id = call (get (txt "/instances/" ++ id)) (λ n.
      unless_missing w.printed (txt "verda get instance") (200 ∷ [])
        (λ r. decoding (txt "decoding response: ") (json.first_instance r.body)))

  unfoldable pub list_instances : Session → Session × Result (List InstanceResponse)
  list_instances = call (get (txt "/instances")) (
      listing (txt "verda list instances") (λ body e. txt "decoding response: " ++ e)
        json.instances)

  unfoldable pub instance_action : Text → Text → Session → Session × Option Error
  instance_action action id = call (put (txt "/instances") (json.encode_action action id)) (λ n.
      acting w.printed (txt "verda instance action " ++ json.quoted action) (200 ∷ 202 ∷ 204 ∷ []))

  unfoldable pub delete_instance : Text → Session → Session × Option Error
  unfolding instance_action
  delete_instance = instance_action (txt "delete")

  unfoldable pub stop_instance : Text → Session → Session × Option Error
  unfolding instance_action
  stop_instance = instance_action (txt "shutdown")

  unfoldable pub start_instance : Text → Session → Session × Option Error
  unfolding instance_action
  start_instance = instance_action (txt "start")

  unfoldable pub list_volumes : Session → Session × Result (List VolumeResponse)
  list_volumes = call (get (txt "/volumes")) (
      listing (txt "verda volumes") (λ body e. txt "decoding volumes response: " ++ e) json.volumes)

  unfoldable pub list_deleted_volumes : Session → Session × Result (List VolumeResponse)
  list_deleted_volumes = call (get (txt "/volumes/trash")) (
      listing (txt "verda volumes trash") (λ body e. txt "decoding volumes trash response: " ++ e)
        json.volumes)

  unfoldable pub restore_volume : Text → Session → Session × Option Error
  restore_volume id =
      call (post (txt "/volumes/" ++ (id ++ txt "/restore")) [])
        (λ n. acting w.printed (txt "verda restore volume") (200 ∷ 202 ∷ 204 ∷ []))

  unfoldable pub delete_volume : Text → Session → Session × Option Error
  delete_volume id =
      call (delete (txt "/volumes/" ++ id))
        (λ n. acting w.printed (txt "verda delete volume") (200 ∷ 202 ∷ 204 ∷ []))

  unfoldable pub list_ssh_keys : Session → Session × Result (List Text)
  list_ssh_keys =
      call (get (txt "/ssh-keys")) (
        listing (txt "verda ssh-keys") (λ body e. txt "decoding ssh-keys response: " ++ e)
          json.keys)
