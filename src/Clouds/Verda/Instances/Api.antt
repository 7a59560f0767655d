-- ===== src/Clouds/Verda/Instances/Api.antt =====
-- pkg/provider/verda: what the Verda API is asked and answers.
use gpuscale.Prelude.{ℕ, Bool, List, Option, Text}
use gpuscale.Provider.{Error, Result}

pub record VolumeResponse : Type 0 where
  pub id : Text
  pub instance_id : Text
  pub status : Text
  pub is_os_volume : Bool

pub record InstanceResponse : Type 0 where
  pub id : Text
  pub ip : Text
  pub status : Text
  pub gpu_type : Text

pub record OsVolumeRequest : Type 0 where
  pub name : Text
  pub size : ℕ
  pub on_spot_discontinue : Text

-- An empty list of keys stands for the nil pointer.
pub record CreateInstanceRequest : Type 0 where
  pub instance_type : Text
  pub image : Text
  pub description : Text
  pub ssh_key_ids : List Text
  pub hostname : Text
  pub startup_script_id : Text
  pub location_code : Text
  pub is_spot : Bool
  pub os_volume : Option OsVolumeRequest

pub record World : Type 0 where
  pub has_volume_store : Bool
  -- The first call and the second one of an operation
  pub list_volumes : ℕ → Result (List VolumeResponse)
  pub list_deleted_volumes : Result (List VolumeResponse)
  pub restore_error : Text → Option Error
  pub delete_error : Text → Option Error
  pub create_startup_script : Text → Text → Result Text
  pub list_ssh_keys : Result (List Text)
  pub create_instance : CreateInstanceRequest → Result InstanceResponse
  pub get_instance : Text → Result (Option InstanceResponse)
  pub list_instances : Result (List InstanceResponse)

-- What is asked of Verda. A call to delete a disk is logged whether or not it succeeds.
pub data Action : Type 0 where
  instance_deleted volume_deleted volume_restored : Text → Action
  instance_created : CreateInstanceRequest → Action
