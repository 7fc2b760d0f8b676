-- ===== src/Tools/Samples.antt =====
-- Concrete events, runbooks and answers.
use tengen.Prelude.{true, none, some, [], ◌∷◌, ◌≡◌, refl, inl, ok, if◌then◌else◌, ◌==◌, lookup}
use tengen.Normalizers.Reading.{◌>>=◌}
use tengen.Normalizers.Cloud.{normalize_aws}
use tengen.Normalizers.Registry.{normalize_as}
use tengen.Normalizers.Building.Sample.{env}
use tengen.Models.NormalizedEvent.{NormalizedEvent, LogSourceType, Outcome}
use tengen.Value.{Fields, str, obj, field, end, get, get?, get_in, holds, is_one_of}
use tengen.Models.Alert.{Alert, critical}
use tengen.Consumers.Ingestion.{Stamp}
use tengen.Tools.AlertParser.{parse_cloudtrail_event, parsed_alert}
use tengen.Tools.Severities.{Agrees, parse-Agrees}
use tengen.Tools.Runbooks.{Runbook, RunbookCodec, Directory, load_runbook, list_provider_runbooks}
use tengen.Text.{contains}

abbrev stamp : Stamp
stamp = record { id = "a"; alert_id = "b"; received_at = "t" }

abbrev root_event : Fields
root_event =
    field "userIdentity" (obj (field "type" (str "Root") end))
      (field "eventName" (str "ConsoleLogin") end)

parse_run :
    parse_cloudtrail_event stamp root_event
    ≡ ok (parsed_alert stamp "aws" critical root_event "ConsoleLogin" "" "" "" "")
unfolding parse_cloudtrail_event ◌>>=◌ get get? get_in holds contains is_one_of
parse_run = refl

-- A login of the root user
abbrev console_login : Fields
console_login = field "eventSource" (str "signin.amazonaws.com") (
    field "eventVersion" (str "1.08") (
      field "eventName" (str "ConsoleLogin") (
        field "userIdentity"
          (obj (field "type" (str "Root") (field "arn" (str "arn:aws:iam::1:root") end))) end)))

abbrev console_event : NormalizedEvent
console_event = record {
  event_id = "id-1";
  timestamp = "";
  source_type = LogSourceType.aws;
  log_type = "cloudtrail";
  actor = record {
    identity = "arn:aws:iam::1:root";
    identity_type = "Root";
    account_id = "";
    is_privileged = true;
  };
  target = record { resource_name = ""; resource_type = ""; region = ""; namespace = "" };
  network = record {
    src_ip = "";
    dst_ip = "";
    src_port = none;
    dst_port = none;
    protocol = "";
    user_agent = "";
    bytes_in = none;
    bytes_out = none;
  };
  outcome = Outcome.success;
  event_name = "ConsoleLogin";
  severity = critical;
  raw_event = console_login;
  tags = "aws" ∷ "cloudtrail" ∷ [];
  labels = [];
  vendor_name = "";
  product_name = "";
  udm_event_type = none;
}

abbrev console_alert : Alert
console_alert = parsed_alert stamp "aws" critical console_login "ConsoleLogin" "" "" "" ""

parse_login : parse_cloudtrail_event stamp console_login ≡ ok console_alert
unfolding parse_cloudtrail_event ◌>>=◌ get get? get_in holds contains is_one_of
parse_login = refl

normalize_login : normalize_as env LogSourceType.aws console_login ≡ ok console_event
unfolding normalize_as normalize_aws tengen.Normalizers.Reading.◌>>=◌ tengen.Value.get_in
    tengen.Normalizers.Cloud.is_admin tengen.Value.is_text tengen.Value.truthy
    tengen.Normalizers.Cloud.aws_severity tengen.Value.holds tengen.Normalizers.Building.make_event
normalize_login = refl

parse-Agrees_example : Agrees console_alert console_event
parse-Agrees_example =
    parse-Agrees env stamp console_login console_alert console_event
      (inl (parse_login, normalize_login))

-- One provider with one runbook
abbrev directory : Directory
directory provider =
    if provider == "azure" then some (("privilege_escalation", obj end) ∷ []) else none

abbrev runbook : Runbook
runbook = record {
  name = "r";
  event_type = "e";
  cloud_provider = "azure";
  severity = "high";
  steps = [];
  description = "";
}

abbrev codec : RunbookCodec
codec = record { step = λ fs. none; runbook = λ fs steps. some runbook }

load_run : load_runbook codec directory "azure" "Privilege Escalation" ≡ ok (some runbook)
unfolding load_runbook get? lookup
load_run = refl

list_run : list_provider_runbooks directory "gcp" ≡ "no runbooks found"
unfolding list_provider_runbooks
list_run = refl
