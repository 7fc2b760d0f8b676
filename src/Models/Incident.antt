-- ===== src/Models/Incident.antt =====
-- models/finding.py and models/incident.py. A priority score is kept in hundredths.
use tengen.Prelude.{ℕ, String, Bool, List}
use tengen.Value.{Fields}
use tengen.Models.Alert.{AlertSeverity, CloudProvider}
use tengen.Models.NormalizedEvent.{NormalizedEvent}

pub record RemediationStep : Type 0 where
  pub order : ℕ
  pub action : String
  pub automated : Bool
  pub result : String

pub record Finding : Type 0 where
  pub finding_id : String
  pub alert_id : String
  pub source : CloudProvider
  pub severity : AlertSeverity
  pub title : String
  pub description : String
  pub remediation_steps : List RemediationStep
  pub enrichment : Fields
  pub forwarded : Bool
  pub forwarding_targets : List String

pub data IncidentStatus : Type 0 where
  opened triaging contained closed suppressed : IncidentStatus

pub record Incident : Type 0 where
  pub incident_id : String
  pub events : List NormalizedEvent
  pub findings : List Finding
  pub status : IncidentStatus
  pub priority_score : ℕ
  pub suppressed : Bool
  pub suppression_reason : String
  pub created_at : String
  pub updated_at : String
  pub labels : Fields
