-- ===== src/Demand/Volumes/Interface.antt =====
-- internal/controller/demandstore.go: `DemandStore` as the `VolumeStore` of pkg/provider/interface.go.
use gpuscale.Prelude.{[]}
use gpuscale.Clouds.Stores.{VolumeStore}
use gpuscale.Demand.Redis.{World, Db, M, gave, failed}
use gpuscale.Demand.Redis.Runs.{left}
use gpuscale.Demand.Volumes.{
  register_instance_model, get_instance_model, set_instance_disk_size, get_instance_disk_size,
  register_volume, mark_volume_ready, find_volume_for_model, unregister_volume,
}

-- The database and the value of a method, `v` in place of an error.
abbrev pub taken : {A : Type 0} → A → M A → Db → Db × A
taken v m d = elim (m d) [ gave a e ↦ (e, a) | failed x e ↦ (e, v) ]

-- The database after a method whose error is not looked at.
abbrev pub after : {A : Type 0} → M A → Db → Db
after m d = left (m d)

abbrev pub volume_store : World → VolumeStore Db
volume_store w = record {
  register_instance_model = λ i m. after (register_instance_model w i m);
  get_instance_model = λ i. taken [] (get_instance_model w i);
  set_instance_disk_size = λ i n. after (set_instance_disk_size w i n);
  get_instance_disk_size = λ i. taken 0 (get_instance_disk_size w i);
  register_volume = λ v m i n. after (register_volume w v m i n);
  mark_volume_ready = λ i. after (mark_volume_ready w i);
  find_volume_for_model = λ m n. taken [] (find_volume_for_model w m n);
  unregister_volume = λ v. after (unregister_volume w v);
}
