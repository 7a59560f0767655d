-- ===== src/Clouds/Stores.antt =====
-- pkg/provider/interface.go: `VolumeStore`, by which a cloud remembers which disk holds which model.
-- The errors of the methods are not looked at by its clients; `S` is the state behind the interface.
use gpuscale.Prelude.{ℕ, Text}

pub record VolumeStore (S : Type 0) : Type 0 where
  pub register_instance_model : Text → Text → S → S
  pub get_instance_model : Text → S → S × Text
  pub set_instance_disk_size : Text → ℕ → S → S
  pub get_instance_disk_size : Text → S → S × ℕ
  pub register_volume : Text → Text → Text → ℕ → S → S
  pub mark_volume_ready : Text → S → S
  pub find_volume_for_model : Text → ℕ → S → S × Text
  pub unregister_volume : Text → S → S
