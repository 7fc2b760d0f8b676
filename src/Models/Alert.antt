-- ===== src/Models/Alert.antt =====
-- models/alert.py, and what the program relies on of the library that validates its models.
pub mod Sample
use tengen.Prelude.{String, Option, none, some, false, ◌≡◌}
use tengen.Value.{Value, Fields, obj, has}

pub data CloudProvider : Type 0 where
  aws gcp azure crowdstrike k8s openshift firewall unknown : CloudProvider

pub data AlertSeverity : Type 0 where
  critical high medium low info : AlertSeverity

-- Timestamps are kept as the texts that `isoformat` gives.
pub record Alert : Type 0 where
  pub id : String
  pub source : String
  pub received_at : String
  pub raw_payload : Fields
  pub metadata : Fields
  pub alert_id : String
  pub severity : AlertSeverity
  pub event_type : String
  pub timestamp : String
  pub account_id : String
  pub region : String
  pub project_id : String

-- The values of the two enumerations, which are texts.
unfoldable pub provider_value : CloudProvider → String
provider_value CloudProvider.aws = "aws"
provider_value CloudProvider.gcp = "gcp"
provider_value CloudProvider.azure = "azure"
provider_value CloudProvider.crowdstrike = "crowdstrike"
provider_value CloudProvider.k8s = "k8s"
provider_value CloudProvider.openshift = "openshift"
provider_value CloudProvider.firewall = "firewall"
provider_value CloudProvider.unknown = "unknown"

unfoldable pub severity_value : AlertSeverity → String
severity_value critical = "critical"
severity_value high = "high"
severity_value medium = "medium"
severity_value low = "low"
severity_value info = "info"

-- Pydantic, for `Alert`: `dump` is `model_dump_json`, `validate` is `model_validate_json`. A dump
-- is read back as it was, and a field with no default is required.
pub record AlertCodec : Type 0 where
  pub dump : Alert → Value
  pub validate : Value → Option Alert
  pub validate-dump : (a : Alert) → validate (dump a) ≡ some a
  pub requires_source : (fs : Fields) → has "source" fs ≡ false → validate (obj fs) ≡ none
  pub requires_payload : (fs : Fields) → has "raw_payload" fs ≡ false → validate (obj fs) ≡ none
