-- ===== src/Clouds/Verda/Calls/Scripts.antt =====
-- pkg/provider/verda/client.go: `CreateStartupScript`, and what provider.go makes of an answer without a
-- body.
use gpuscale.Prelude.{if◌then◌else◌, [], ◌∷◌, ◌++◌, Text, txt, is_empty}
use gpuscale.Provider.{Result, ok, err}
use gpuscale.Clouds.Http.{Decoded, malformed, decoded, plain_error, post}
use gpuscale.Clouds.Verda.Client.{Wire, Session}
use gpuscale.Clouds.Verda.Calls.{trim_space, is_id, call, read_first}
use gpuscale.Clouds.Verda.Calls.Json.{Codec, StartupScriptResponse}

module _ (w : Wire) (json : Codec) where
  abbrev string_in : Text → Text → Decoded Text → Result StartupScriptResponse
  string_in name body (decoded id) = ok (record { id = id; name = name })
  string_in name body (malformed e) =
      err (plain_error (txt "unexpected data format in response: " ++ body))

  abbrev number_in : Text → Text → Text → Decoded Text → Result StartupScriptResponse
  number_in name body raw (decoded id) = ok (record { id = id; name = name })
  number_in name body raw (malformed e) = string_in name body (json.string raw)

  abbrev script_in :
      Text → Text → Text → Decoded StartupScriptResponse → Result StartupScriptResponse
  script_in name body raw (malformed e) = number_in name body raw (json.number raw)
  script_in name body raw (decoded s) =
      if is_empty s.id then number_in name body raw (json.number raw) else ok s

  -- A body that is no JSON object is taken for the id.
  abbrev data_in : Text → Text → Decoded Text → Result StartupScriptResponse
  data_in name body (malformed e) = ok (record { id = body; name = name })
  data_in name body (decoded raw) = script_in name body raw (json.script raw)

  unfoldable pub created_script : Text → Text → Result StartupScriptResponse
  unfolding trim_space
  created_script name body =
      if is_id (trim_space body)
      then ok (record { id = trim_space body; name = name })
      else data_in name (trim_space body) (json.raw_data body)

  unfoldable pub create_startup_script :
      Text → Text → Session → Session × Result StartupScriptResponse
  unfolding created_script
  create_startup_script name script =
      call w json (post (txt "/scripts") (json.encode_script name script)) (
        read_first w json (txt "verda create script") (txt "reading response body: ")
          (200 ∷ 201 ∷ []) (created_script name))
