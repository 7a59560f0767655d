-- ===== src/Clouds/Verda/Calls/Json.antt =====
-- pkg/provider/verda/client.go: what encoding/json makes of the bodies, and how `%q` quotes a text.
use gpuscale.Prelude.{Bool, List, Text}
use gpuscale.Clouds.Http.{Decoded}
use gpuscale.Clouds.Verda.Instances.Api.{VolumeResponse, CreateInstanceRequest, InstanceResponse}
use gpuscale.Clouds.Verda.Search.{InstanceType}

pub record StartupScriptResponse : Type 0 where
  pub id : Text
  pub name : Text

-- `Unmarshal` into a slice, and into a struct with the slice below `data`.
pub record Listing (A : Type 0) : Type 0 where
  pub plain : Text → Decoded (List A)
  pub wrapped : Text → Decoded (List A)

pub record Codec : Type 0 where
  pub types : Listing InstanceType
  -- The codes of the locations
  pub locations : Listing Text
  pub available : Text → Decoded Bool
  pub instances : Listing InstanceResponse
  pub volumes : Listing VolumeResponse
  -- The ids of the keys
  pub keys : Listing Text
  -- `Unmarshal` of an instance below `data`, and of an instance
  pub wrapped_instance : Text → Decoded InstanceResponse
  pub plain_instance : Text → Decoded InstanceResponse
  -- `Decode` of the first value, an instance below `data`
  pub first_instance : Text → Decoded InstanceResponse
  -- The raw text below `data`, empty if there is none, and what it is decoded into
  pub raw_data : Text → Decoded Text
  pub script : Text → Decoded StartupScriptResponse
  pub number : Text → Decoded Text
  pub string : Text → Decoded Text
  pub encode_instance : CreateInstanceRequest → Text
  pub encode_action : Text → Text → Text
  pub encode_script : Text → Text → Text
  pub quoted : Text → Text
