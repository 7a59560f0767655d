-- ===== src/Clouds/Runpod/Client.antt =====
-- pkg/provider/runpod/client.go. How a body is encoded and decoded is a parameter.
use gpuscale.Prelude.{ℕ, List, [], ◌∷◌, ◌++◌, Option, Text, txt}
use gpuscale.Provider.{Error, Result}
use gpuscale.Clouds.Http.{
  Request, Answer, Response, Decoded, get, post, delete, decoding, expecting, unless_missing,
  acting,
}
use gpuscale.Clouds.Runpod.Pods.{World, GpuType, CreatePodRequest, PodResponse}

pub record Transport : Type 0 where
  pub send : Request → Answer
  -- A number printed by `%d`
  pub printed : ℕ → Text

pub record Codec : Type 0 where
  pub gpu_types : Text → Decoded (List GpuType)
  pub pod : Text → Decoded PodResponse
  pub pods : Text → Decoded (List PodResponse)
  pub encode : CreatePodRequest → Text

module _ (t : Transport) (json : Codec) where
  abbrev pub decoded_by : {A : Type 0} → (Text → Decoded A) → Response → Result A
  decoded_by f r = decoding (txt "decoding response: ") (f r.body)

  unfoldable pub list_gpu_types : Result (List GpuType)
  list_gpu_types =
      expecting t.printed (txt "runpod gpu-types") (200 ∷ []) (decoded_by json.gpu_types)
        (t.send (get (txt "/gpu-types")))

  unfoldable pub create_pod : CreatePodRequest → Result PodResponse
  create_pod q =
      expecting t.printed (txt "runpod create pod") (200 ∷ 201 ∷ []) (decoded_by json.pod)
        (t.send (post (txt "/pods") (json.encode q)))

  unfoldable pub get_pod : Text → Result (Option PodResponse)
  get_pod id =
      unless_missing t.printed (txt "runpod get pod") (200 ∷ []) (decoded_by json.pod)
        (t.send (get (txt "/pods/" ++ id)))

  unfoldable pub list_pods : Result (List PodResponse)
  list_pods =
      expecting t.printed (txt "runpod list pods") (200 ∷ []) (decoded_by json.pods)
        (t.send (get (txt "/pods")))

  unfoldable pub delete_pod : Text → Option Error
  delete_pod id =
      acting t.printed (txt "runpod delete pod") (200 ∷ 204 ∷ [])
        (t.send (delete (txt "/pods/" ++ id)))

  -- What the provider asks, asked of the client.
  abbrev pub connected : (Text → Text) → ℕ → World
  connected quoted nine_tenths = record {
    list_gpu_types = list_gpu_types;
    create_pod = create_pod;
    delete_pod = delete_pod;
    get_pod = get_pod;
    list_pods = list_pods;
    quoted = quoted;
    printed = t.printed;
    nine_tenths = nine_tenths;
  }
