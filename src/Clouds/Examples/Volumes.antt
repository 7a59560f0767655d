-- ===== src/Clouds/Examples/Volumes.antt =====
-- pkg/provider/verda/provider.go: the life of a disk, at small inputs.
use gpuscale.Prelude.{◌≡◌, refl, true, [], ◌∷◌, none, txt, lookup, contains_text}
use gpuscale.Provider.{ok}
use gpuscale.Demand.Redis as Redis
use gpuscale.Demand.Volumes.Interface.{volume_store}
use gpuscale.Clouds.Verda.Instances.{create_instance, destroy_instance, find_reusable_volume}
use gpuscale.Clouds.Verda.Instances.Api.{World, VolumeResponse}
use gpuscale.Clouds.Verda.Lives.{
  Life, Lives, begin, bought, became_ready, released, Lives-find_reusable_volume,
}
use gpuscale.Clouds.Examples.{config, fin_offer}

abbrev pub redis : Redis.World
redis = record {
  connected = true;
  failure = λ n. none;
  clock = λ n. n;
  time_text = λ n. txt "now";
  bytes = λ v. [];
  parse_error = λ v. record { wraps = []; message = txt "not an object" };
}

abbrev pub empty_db : Redis.Db
empty_db = record {
  strings = [];
  expiring = [];
  configs = [];
  specs = [];
  queues = [];
  published = [];
  asked = 0;
}

abbrev disk : VolumeResponse
disk = record { id = txt "v"; instance_id = txt "i"; status = txt "attached"; is_os_volume = true }

abbrev pub verda : World
verda = record {
  has_volume_store = true;
  list_volumes = λ n. ok (disk ∷ []);
  list_deleted_volumes = ok (disk ∷ []);
  restore_error = λ id. none;
  delete_error = λ id. none;
  create_startup_script = λ name script. ok (txt "s");
  list_ssh_keys = ok [];
  create_instance =
      λ q. ok (record { id = txt "i"; ip = []; status = txt "starting"; gpu_type = txt "A100" });
  get_instance = λ id. ok none;
  list_instances = ok [];
}

abbrev life : Life
life = record { db = empty_db; ended = [] }

-- An instance is bought, becomes ready and is destroyed, by which its disk is registered.
abbrev with_instance : Life
with_instance = record life {
  db = (create_instance verda (volume_store redis) fin_offer config empty_db).0;
}

abbrev with_node : Life
with_node = record with_instance {
  db = (volume_store redis).mark_volume_ready (txt "i") with_instance.db;
}

abbrev without : Life
without = record {
  db = (destroy_instance verda (volume_store redis) (txt "i") with_node.db).0;
  ended = txt "i" ∷ [];
}

lived : Lives redis without
unfolding lookup contains_text
lived = released verda (txt "i") with_node (
    became_ready (txt "i") with_instance refl
      (bought verda fin_offer config life (begin empty_db (λ key p. refl))))

Lives-find_reusable_volume_example :
    (find_reusable_volume verda (volume_store redis) (txt "m") 80 without.db).1 ≡ ([], [])
Lives-find_reusable_volume_example =
    Lives-find_reusable_volume redis verda without (txt "m") 80 lived
