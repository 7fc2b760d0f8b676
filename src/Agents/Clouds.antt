-- ===== src/Agents/Clouds.antt =====
-- agents/cloudtrail_runbook.py and gcp_audit_runbook.py: the enrichment of an alert. Both tools
-- leave what they raise to their caller.
use tengen.Prelude.{String, Option, none, some, Result, ok, raised, ◌>>=◌, value_error}
use tengen.Models.Alert.{Alert, AlertCodec}
use tengen.Enrichment.Alerts.{enrich_cloudtrail_alert, enrich_gcp_audit_alert}
use tengen.Agents.Json.{parsed}
use tengen.Value.{Value}

module _ (loads : String → Option Value) (codec : AlertCodec) where
  -- `Alert.model_validate_json`
  abbrev pub read_alert : String → Result Alert
  read_alert alert_json = parsed loads alert_json >>= λ v. elim (codec.validate v) [
    | some alert ↦ ok alert
    | none ↦ raised value_error
  ]

  unfoldable pub enrich_cloudtrail_event : String → Result Value
  unfolding enrich_cloudtrail_alert
  enrich_cloudtrail_event alert_json =
      read_alert alert_json >>= λ alert. enrich_cloudtrail_alert alert.raw_payload

  unfoldable pub enrich_gcp_audit_event : String → Result Value
  unfolding enrich_gcp_audit_alert
  enrich_gcp_audit_event alert_json =
      read_alert alert_json >>= λ alert. enrich_gcp_audit_alert alert.raw_payload
