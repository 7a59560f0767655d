-- ===== src/Controller/Examples/Pods.antt =====
-- pkg/provider/runpod: a pod that is not there any more.
use gpuscale.Prelude.{◌≡◌, refl, contains_text, text_eq, [], txt}
use gpuscale.Clouds.Http.{Response, answered, malformed}
use gpuscale.Clouds.Runpod.{destroy_instance}
use gpuscale.Clouds.Runpod.Client.{Transport, Codec, connected}
use gpuscale.Clouds.Runpod.Gone.{reconciled-gone}
use gpuscale.Controller.Claims.{Claim, draining}
use gpuscale.Controller.Effects.{World, Store}
use gpuscale.Controller.Examples.{claim_in, store_in, quiet}
use gpuscale.Controller.Reconciler.Draining.Stuck.{reconciled}

abbrev nothing_there : Response
nothing_there = record { status = 404; body = [] }

abbrev empty_cloud : Transport
empty_cloud = record { send = λ q. answered nothing_there; printed = λ n. [] }

abbrev no_json : Codec
no_json = record {
  gpu_types = λ t. malformed [];
  pod = λ t. malformed [];
  pods = λ t. malformed [];
  encode = λ q. [];
}

abbrev at_runpod : World
at_runpod = record quiet {
  destroy_error = λ n p id. destroy_instance (connected empty_cloud no_json (λ t. t) 90) id;
}

abbrev lost_pod : Claim
lost_pod =
    let c = claim_in draining in record c { status = record c.status { provider = txt "runpod" } }

abbrev with_lost_pod : Store
with_lost_pod = record (store_in draining) { stored = lost_pod }

reconciled-gone_example : (reconciled at_runpod 3 with_lost_pod).stored ≡ lost_pod
unfolding contains_text text_eq
reconciled-gone_example =
    reconciled-gone at_runpod (λ n. empty_cloud) no_json (λ t. t) 90 (txt "i-1") refl refl
      (λ n. refl) (λ n. (nothing_there, refl, refl)) 3 with_lost_pod
      (record { kept = refl; guarded = refl; phase = refl; bought_at = refl; bought_as = refl })
