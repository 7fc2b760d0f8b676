-- ===== src/Normalizers/Samples.antt =====
-- The theorems on normalization at concrete payloads.
use tengen.Prelude.{true, none, [], ◌∷◌, ◌≡◌, refl, ok, ◌⊎◌}
use tengen.Value.{
  Value, Fields, field, end, str, int, obj, pos, ℤ, get, get?, empty_obj, arr, no_items, item,
}
use tengen.Models.Alert.{critical}
use tengen.Models.NormalizedEvent.{LogSourceType, NormalizedEvent, Outcome}
use tengen.Normalizers.Building.{Environment}
use tengen.Normalizers.Building.Sample.{env}
use tengen.Normalizers.Registry.{normalize, normalize_as, detect_source_type}
use tengen.Normalizers.Cloud.{normalize_aws}
use tengen.Normalizers.Detection.{normalize-detected}

-- A login of the root user
abbrev root_identity : Fields
root_identity = field "type" (str "Root") (field "arn" (str "arn:aws:iam::1:root") end)

abbrev root_login : Fields
root_login = field "eventSource" (str "signin.amazonaws.com") (
    field "eventVersion" (str "1.08")
      (field "eventName" (str "ConsoleLogin") (field "userIdentity" (obj root_identity) end)))

abbrev root_event : NormalizedEvent
root_event = record {
  event_id = "id-1";
  timestamp = "";
  source_type = LogSourceType.aws;
  log_type = "cloudtrail";
  actor = record {
    identity = "arn:aws:iam::1:root";
    identity_type = "Root";
    account_id = "";
    is_privileged = true;
  };
  target = record { resource_name = ""; resource_type = ""; region = ""; namespace = "" };
  network = record {
    src_ip = "";
    dst_ip = "";
    src_port = none;
    dst_port = none;
    protocol = "";
    user_agent = "";
    bytes_in = none;
    bytes_out = none;
  };
  outcome = Outcome.success;
  event_name = "ConsoleLogin";
  severity = critical;
  raw_event = root_login;
  tags = "aws" ∷ "cloudtrail" ∷ [];
  labels = [];
  vendor_name = "";
  product_name = "";
  udm_event_type = none;
}

root_runs : normalize_aws env root_login ≡ ok root_event
unfolding normalize_aws tengen.Normalizers.Reading.◌>>=◌ tengen.Value.get_in
    tengen.Normalizers.Cloud.is_admin tengen.Value.is_text tengen.Value.truthy
    tengen.Normalizers.Cloud.aws_severity tengen.Value.holds tengen.Normalizers.Building.make_event
root_runs = refl

detected_runs : normalize env root_login none ≡ ok root_event
unfolding normalize normalize_as detect_source_type tengen.Normalizers.Reading.◌>>=◌
    tengen.Normalizers.Registry.is_cloudtrail normalize_aws tengen.Value.get_in
    tengen.Normalizers.Cloud.is_admin tengen.Value.is_text tengen.Value.truthy
    tengen.Normalizers.Cloud.aws_severity tengen.Value.holds
detected_runs = refl

normalize-detected_example :
    (s : LogSourceType) × (detect_source_type env root_login ≡ ok s)
    × ((root_event.source_type ≡ s)
        ⊎ ((s ≡ LogSourceType.k8s) × (root_event.source_type ≡ LogSourceType.openshift)))
    × (root_event.raw_event ≡ root_login)
normalize-detected_example = normalize-detected env root_login root_event detected_runs
