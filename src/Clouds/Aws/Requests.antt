-- ===== src/Clouds/Aws/Requests.antt =====
-- pkg/provider/aws: the cache of spot prices, and what EC2 is asked and answers.
use gpuscale.Prelude.{ℕ, List, Option, Text}
use gpuscale.Provider.{Error, Result}

pub record SpotPriceCache : Type 0 where
  pub prices : Option (List (Text × ℕ))
  pub expiry : ℕ

-- The parameters that depend on the offer, the config or the provider.
pub record RunRequest : Type 0 where
  pub image_id : Text
  pub instance_type : Text
  pub user_data : Text
  pub market_type : Text
  pub name_tag : Text
  pub volume_size : Text
  pub subnet_id : Option Text
  pub security_group_id : Option Text

pub record Ec2Instance : Type 0 where
  pub instance_id : Text
  pub public_ip_address : Text
  pub state_name : Text

pub record World : Type 0 where
  pub region : Text
  pub subnet_id : Text
  pub security_group_id : Text
  -- `time.Now()` when the cache is looked at and when it is filled
  pub now : ℕ
  pub filled_at : ℕ
  -- The types and prices of the items in the answer
  pub describe_spot_prices : List Text → Result (List (Text × ℕ))
  pub get_latest_ubuntu_ami : Result Text
  -- The ids in the answer
  pub run_instances : RunRequest → Result (List Text)
  pub terminate_instance : Text → Option Error
  pub get_instance : Text → Result (Option Ec2Instance)
  pub list_instances : Result (List Ec2Instance)
  pub base64 : Text → Text
  pub printed : ℕ → Text
  -- The whole numbers that stand for $0.0001 and for 0.90.
  pub unit : ℕ
  pub usual_reliability : ℕ
