-- ===== src/Tools/AlertParser.antt =====
-- tools/alert_parser.py: an alert of a CloudTrail or a GCP audit event.
use tengen.Prelude.{
  String, [], ◌∷◌, Result, ok, raised, if◌then◌else◌, get_or, Dict, lookup, value_error,
}
use tengen.Normalizers.Reading.{◌>>=◌}
use tengen.Text.{upper}
use tengen.Value.{Value, Fields, str, obj, end, get, get_in, text, holds, is_one_of, empty_obj}
use tengen.Agents.Json.{get_path}
use tengen.Models.Alert.{Alert, AlertSeverity, critical, high, medium, low, info}
use tengen.Consumers.Ingestion.{Stamp}

unfoldable pub infer_aws_severity : Fields → Result AlertSeverity
infer_aws_severity event =
    let error_code = get "errorCode" (str "") event in
    get_in (get "userIdentity" empty_obj event) "type" (str "") >>= λ identity_type.
    holds "Root" identity_type >>= λ root. ok (
      if root
      then critical
      else if is_one_of error_code ("AccessDenied" ∷ "UnauthorizedOperation" ∷ [])
      then high
      else medium)

-- `mapping.get(severity, AlertSeverity.INFO)`
abbrev pub gcp_mapping : Dict AlertSeverity
gcp_mapping = ("CRITICAL", critical) ∷ ("ERROR", high) ∷ ("WARNING", medium) ∷ ("NOTICE", low) ∷ []

unfoldable pub infer_gcp_severity : Fields → Result AlertSeverity
infer_gcp_severity event =
    text (get "severity" (str "") event) >>= λ s. ok (get_or (lookup (upper s) gcp_mapping) info)

-- A field of type `str`: another value fails validation.
abbrev pub validated : Value → Result String
validated (str s) = ok s
validated _ = raised value_error

abbrev pub parsed_alert :
    Stamp → String → AlertSeverity → Fields → String → String → String → String → String → Alert
parsed_alert stamp source severity raw event_type timestamp account_id region project_id = record {
  id = stamp.id;
  source = source;
  received_at = stamp.received_at;
  raw_payload = raw;
  metadata = end;
  alert_id = stamp.alert_id;
  severity = severity;
  event_type = event_type;
  timestamp = timestamp;
  account_id = account_id;
  region = region;
  project_id = project_id;
}

unfoldable pub parse_cloudtrail_event : Stamp → Fields → Result Alert
unfolding infer_aws_severity get_path
parse_cloudtrail_event stamp raw = infer_aws_severity raw >>= λ severity.
    get_in (get "userIdentity" empty_obj raw) "accountId" (str "") >>= λ account.
    validated (get "eventName" (str "Unknown") raw) >>= λ event_type.
    validated (get "eventTime" (str "") raw) >>= λ timestamp. validated account >>= λ account_id.
    validated (get "awsRegion" (str "") raw) >>= λ region.
    ok (parsed_alert stamp "aws" severity raw event_type timestamp account_id region "")

unfoldable pub parse_gcp_audit_event : Stamp → Fields → Result Alert
unfolding infer_gcp_severity get_path
parse_gcp_audit_event stamp raw = infer_gcp_severity raw >>= λ severity.
    get_in (get "protoPayload" empty_obj raw) "methodName" (str "Unknown") >>= λ method.
    get_path (obj raw) ("resource" ∷ "labels" ∷ "project_id" ∷ []) (str "") >>= λ project.
    validated method >>= λ event_type. validated (get "timestamp" (str "") raw) >>= λ timestamp.
    validated project >>= λ project_id.
    ok (parsed_alert stamp "gcp" severity raw event_type timestamp "" "" project_id)
