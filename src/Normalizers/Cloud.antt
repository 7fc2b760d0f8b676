-- ===== src/Normalizers/Cloud.antt =====
-- tools/normalizers/aws_normalizer.py, gcp_normalizer.py and azure_normalizer.py.
use tengen.Prelude.{
  String, Bool, true, false, Option, none, some, [], ◌∷◌, Result, ok, if◌then◌else◌, ◌==◌, get_or,
  Dict, lookup,
}
use tengen.Text.{lower, upper, contains}
use tengen.Value.{
  Value, Fields, str, obj, arr, no_items, get, get?, get_in, text, is_text, is_one_of, holds,
  truthy, int, pos, to_text, empty_obj,
}
use tengen.Models.Alert.{AlertSeverity, critical, high, medium, low, info}
use tengen.Models.NormalizedEvent.{Outcome, LogSourceType, NormalizedEvent}
use tengen.Normalizers.Reading.{◌>>=◌, first_or, is_nonzero}
use tengen.Normalizers.Building.{
  Environment, make_actor, make_target, make_network, network_defaults, make_event,
}

abbrev pub failure_if : Bool → Outcome
failure_if b = if b then Outcome.failure else Outcome.success

-- `identity_type == "Root" or "admin" in arn.lower()`
unfoldable pub is_admin : Value → Value → Result Bool
unfolding text lower contains
is_admin identity_type arn =
    if is_text identity_type "Root"
    then ok true
    else text arn >>= λ s. ok (contains (lower s) "admin")

unfoldable pub aws_severity : Fields → Result AlertSeverity
aws_severity event = do
  identity_type ← get_in (get "userIdentity" empty_obj event) "type" (str "")
  root ← holds "Root" identity_type
  ok (
      if root
      then critical
      else if is_one_of (get "errorCode" (str "") event)
          ("AccessDenied" ∷ "UnauthorizedOperation" ∷ [])
      then high
      else medium)

module _ (env : Environment) where
  unfoldable pub normalize_aws : Fields → Result NormalizedEvent
  normalize_aws raw = do
    let identity = get "userIdentity" empty_obj raw
    arn ← get_in identity "arn" (str "")
    account_id ← get_in identity "accountId" (str "")
    identity_type ← get_in identity "type" (str "Unknown")
    is_privileged ← is_admin identity_type arn
    first_res ← first_or empty_obj (get "resources" (arr no_items) raw)
    name ← (if truthy arn then ok arn else get_in identity "userName" (str "unknown"))
    actor ← make_actor env name identity_type account_id is_privileged
    resource ← get_in first_res "resourceName" (str "")
    resource_name ← get_in first_res "ARN" resource
    resource_type ← get_in first_res "type" (str "")
    target ← make_target env resource_name resource_type (get "awsRegion" (str "") raw) (str "")
    network ← make_network env (record network_defaults {
      src_ip = get "sourceIPAddress" (str "") raw;
      user_agent = get "userAgent" (str "") raw;
    })
    severity ← aws_severity raw
    make_event env (record {
      event_id = get "eventID" (str env.new_id) raw;
      timestamp = get "eventTime" (str "") raw;
      source_type = LogSourceType.aws;
      log_type = str "cloudtrail";
      actor = actor;
      target = target;
      network = network;
      outcome = failure_if (truthy (get "errorCode" (str "") raw));
      event_name = get "eventName" (str "Unknown") raw;
      severity = severity;
      raw_event = raw;
      tags = str "aws" ∷ str "cloudtrail" ∷ [];
    })

-- `mapping.get(severity, AlertSeverity.INFO)`
abbrev pub gcp_levels : Dict AlertSeverity
gcp_levels = ("CRITICAL", critical) ∷ ("ERROR", high) ∷ ("WARNING", medium) ∷ ("NOTICE", low) ∷ []

unfoldable pub gcp_level : String → AlertSeverity
unfolding lookup
gcp_level s = get_or (lookup s gcp_levels) info

unfoldable pub gcp_severity : Fields → Result AlertSeverity
unfolding gcp_level text upper
gcp_severity event = text (get "severity" (str "") event) >>= λ s. ok (gcp_level (upper s))

unfoldable pub azure_level : String → AlertSeverity
azure_level s =
    if s == "CRITICAL"
    then critical
    else if s == "ERROR"
    then high
    else if s == "WARNING"
    then medium
    else info

unfoldable pub azure_severity : Fields → Result AlertSeverity
unfolding azure_level text upper
azure_severity event = text (get "level" (str "") event) >>= λ s. ok (azure_level (upper s))

module _ (env : Environment) where
  unfoldable pub normalize_gcp : Fields → Result NormalizedEvent
  unfolding gcp_severity make_event
  normalize_gcp raw = do
    let proto = get "protoPayload" empty_obj raw
    auth ← get_in proto "authenticationInfo" empty_obj
    req_meta ← get_in proto "requestMetadata" empty_obj
    let resource = get "resource" empty_obj raw
    labels ← get_in resource "labels" empty_obj
    email ← get_in auth "principalEmail" (str "")
    service ← holds ".iam.gserviceaccount.com" email
    project ← get_in labels "project_id" (str "")
    actor ← make_actor env email (str (if service then "ServiceAccount" else "User")) project false
    resource_name ← get_in proto "resourceName" (str "")
    resource_type ← get_in resource "type" (str "")
    target ← make_target env resource_name resource_type (str "") (str "")
    caller_ip ← get_in req_meta "callerIp" (str "")
    user_agent ← get_in req_meta "callerSuppliedUserAgent" (str "")
    network ←
        make_network env (record network_defaults { src_ip = caller_ip; user_agent = user_agent })
    status ← get_in proto "status" empty_obj
    code ← get_in status "code" (int (pos 0))
    method ← get_in proto "methodName" (str "Unknown")
    severity ← gcp_severity raw
    make_event env (record {
      event_id = str env.new_id;
      timestamp = get "timestamp" (str "") raw;
      source_type = LogSourceType.gcp;
      log_type = str "gcp_audit";
      actor = actor;
      target = target;
      network = network;
      outcome = failure_if (is_nonzero code);
      event_name = method;
      severity = severity;
      raw_event = raw;
      tags = str "gcp" ∷ str "audit" ∷ [];
    })

  -- `v.get("value", "") if isinstance(v, dict) else str(v)`
  unfoldable pub value_text : Value → Value
  value_text (obj fs) = get "value" (str "") fs
  value_text v = str (to_text env.show v)

  -- The entry of an object in `resourceProvider`, the entry itself, or nothing.
  abbrev provider_of : Option Value → Value
  provider_of none = str ""
  provider_of (some (obj fs)) = get "value" (str "") fs
  provider_of (some v) = v

  unfoldable pub normalize_azure : Fields → Result NormalizedEvent
  unfolding azure_severity make_event value_text
  normalize_azure raw = do
    let status = value_text (get "status" empty_obj raw)
    let caller = get "caller" (str "") raw
    user ← holds "@" caller
    actor ←
        make_actor env caller (str (if user then "User" else "ServicePrincipal"))
          (get "subscriptionId" (str "") raw) false
    target ←
        make_target env (get "resourceId" (str "") raw) (provider_of (get? "resourceProvider" raw))
          (str "") (str "")
    client_ip ← get_in (get "httpRequest" empty_obj raw) "clientIpAddress" (str "")
    network ← make_network env (record network_defaults { src_ip = client_ip })
    severity ← azure_severity raw
    make_event env (record {
      event_id = str env.new_id;
      timestamp = get "eventTimestamp" (get "time" (str "") raw) raw;
      source_type = LogSourceType.azure;
      log_type = str "azure_activity";
      actor = actor;
      target = target;
      network = network;
      outcome = failure_if (is_one_of status ("Failed" ∷ "Conflict" ∷ []));
      event_name = value_text (get "operationName" empty_obj raw);
      severity = severity;
      raw_event = raw;
      tags = str "azure" ∷ str "activity" ∷ [];
    })
