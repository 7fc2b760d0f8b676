-- ===== src/Models/NormalizedEvent.antt =====
-- models/normalized_event.py. Ports and byte counts are integers of any sign.
pub mod Sample
use tengen.Prelude.{ℕ, String, Bool, Option, List, ◌==◌}
use tengen.Value.{Fields, ℤ}
use tengen.Models.Alert.{AlertSeverity}
use tengen.Models.Udm.Enums.{UdmEventType}

pub data LogSourceType : Type 0 where
  aws gcp azure crowdstrike firewall ddos k8s openshift unknown : LogSourceType

pub data Outcome : Type 0 where
  success failure unknown : Outcome

unfoldable pub source_value : LogSourceType → String
source_value LogSourceType.aws = "aws"
source_value LogSourceType.gcp = "gcp"
source_value LogSourceType.azure = "azure"
source_value LogSourceType.crowdstrike = "crowdstrike"
source_value LogSourceType.firewall = "firewall"
source_value LogSourceType.ddos = "ddos"
source_value LogSourceType.k8s = "k8s"
source_value LogSourceType.openshift = "openshift"
source_value LogSourceType.unknown = "unknown"

unfoldable pub outcome_value : Outcome → String
outcome_value Outcome.success = "success"
outcome_value Outcome.failure = "failure"
outcome_value Outcome.unknown = "unknown"

pub record ActorContext : Type 0 where
  pub identity : String
  pub identity_type : String
  pub account_id : String
  pub is_privileged : Bool

pub record TargetContext : Type 0 where
  pub resource_name : String
  pub resource_type : String
  pub region : String
  pub namespace : String

pub record NetworkContext : Type 0 where
  pub src_ip : String
  pub dst_ip : String
  pub src_port : Option ℤ
  pub dst_port : Option ℤ
  pub protocol : String
  pub user_agent : String
  pub bytes_in : Option ℤ
  pub bytes_out : Option ℤ

pub record NormalizedEvent : Type 0 where
  pub event_id : String
  pub timestamp : String
  pub source_type : LogSourceType
  pub log_type : String
  pub actor : ActorContext
  pub target : TargetContext
  pub network : NetworkContext
  pub outcome : Outcome
  pub event_name : String
  pub severity : AlertSeverity
  pub raw_event : Fields
  pub tags : List String
  pub labels : List (String × String)
  pub vendor_name : String
  pub product_name : String
  pub udm_event_type : Option UdmEventType

-- `a == b` on source types
unfoldable pub same_source : LogSourceType → LogSourceType → Bool
unfolding source_value
same_source a b = source_value a == source_value b
