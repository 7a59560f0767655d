-- ===== src/Clouds/Examples/Tokens.antt =====
-- pkg/provider/verda/client.go, at small inputs.
use gpuscale.Prelude.{◌≡◌, refl, inl, In, All, [], none, txt}
use gpuscale.Provider.{Instance, ok}
use gpuscale.Clouds.Http.{Response, answered, malformed, decoded, get}
use gpuscale.Clouds.Examples.{config, fin_offer}
use gpuscale.Clouds.Examples.Volumes.{verda, redis, empty_db}
use gpuscale.Clouds.Verda.Instances.{create_instance}
use gpuscale.Clouds.Verda.Instances.Api.{World, CreateInstanceRequest, instance_created}
use gpuscale.Clouds.Verda.Client.{
  Wire, Session, new_client, authenticate, send, do_request, has_live_token,
}
use gpuscale.Clouds.Verda.Client.Tokens.{started, checked, sent, SentBacked, Overlap-SentBacked}
use gpuscale.Clouds.Verda.Calls.{trim_space}
use gpuscale.Clouds.Verda.Calls.Json.{Codec, Listing}
use gpuscale.Clouds.Verda.Calls.Scripts.{create_startup_script}
use gpuscale.Clouds.Verda.Calls.Blank.{script_id, create_instance-Unscripted}
use gpuscale.Demand.Volumes.Interface.{volume_store}

abbrev blank : Response
blank = record { status = 200; body = txt " " }

abbrev wire : Wire
wire = record {
  clock = λ n. n;
  token_answer = λ n. answered blank;
  token_of = λ t. decoded (record { access_token = txt "t"; expires_in = 3600 });
  answer = λ n q t. answered blank;
  unread = λ n. none;
  printed = λ n. [];
}

abbrev twice : Session
twice =
    let s = (authenticate wire new_client).0 in
    let t = (send wire (get (txt "/volumes")) 0 s).0 in
    (send wire (get (txt "/ssh-keys")) 4 (authenticate wire t).0).0

-- The second request uses the token of the first one.
Overlap-SentBacked_example : All (SentBacked wire) twice.sent
unfolding authenticate send has_live_token
Overlap-SentBacked_example = Overlap-SentBacked wire twice [] (
    sent _ _ (get (txt "/ssh-keys")) 4
      (checked _ _ (sent _ _ (get (txt "/volumes")) 0 (checked _ _ started refl) (inl refl)) refl)
      (inl refl))

abbrev no_list : {A : Type 0} → Listing A
no_list = record { plain = λ t. malformed []; wrapped = λ t. malformed [] }

abbrev no_json : Codec
no_json = record {
  types = no_list;
  locations = no_list;
  available = λ t. malformed [];
  instances = no_list;
  volumes = no_list;
  keys = no_list;
  wrapped_instance = λ t. malformed [];
  plain_instance = λ t. malformed [];
  first_instance = λ t. malformed [];
  raw_data = λ t. malformed [];
  script = λ t. malformed [];
  number = λ t. malformed [];
  string = λ t. malformed [];
  encode_instance = λ q. [];
  encode_action = λ a i. [];
  encode_script = λ n s. [];
  quoted = λ t. t;
}

abbrev blank_verda : World
blank_verda = record verda {
  create_startup_script =
      λ name script. script_id (create_startup_script wire no_json name script new_client).1;
}

create_instance-Unscripted_example :
    (q : CreateInstanceRequest) × (i : Instance) × (In
        (instance_created q)
        (create_instance blank_verda (volume_store redis) fin_offer config empty_db).1.0
      × (q.startup_script_id ≡ [])
      × ((create_instance blank_verda (volume_store redis) fin_offer config empty_db).1.1 ≡ ok i))
unfolding do_request authenticate send has_live_token trim_space
create_instance-Unscripted_example =
    create_instance-Unscripted blank_verda (volume_store redis) fin_offer config empty_db wire
      no_json new_client refl refl (blank, [], (refl, inl refl, refl, refl, refl)) [] refl
      (λ q.
        (record { id = txt "i"; ip = []; status = txt "starting"; gpu_type = txt "A100" }, refl))
