-- ===== src/Models/Alert/Sample.antt =====
-- A concrete codec for alerts: each field is written under its name and read back.
use tengen.Prelude.{String, true, false, none, some, ◌≡◌, refl, arith, ap}
use tengen.Value.{Value, Fields, obj, str, field, end, get?, has, bool, null}
use tengen.Models.Alert.{
  Alert, AlertCodec, AlertSeverity, critical, high, medium, low, info, Option,
}

abbrev pub text_or : Option Value → String → String
text_or (some (str s)) d = s
text_or _ d = d

abbrev pub dict_or : Option Value → Fields → Fields
dict_or (some (obj fs)) d = fs
dict_or _ d = d

abbrev severity_code : AlertSeverity → Value
severity_code critical = bool true
severity_code high = bool false
severity_code medium = str ""
severity_code low = obj end
severity_code info = null

abbrev severity_of : Option Value → AlertSeverity
severity_of (some (bool true)) = critical
severity_of (some (bool false)) = high
severity_of (some (str _)) = medium
severity_of (some (obj _)) = low
severity_of _ = info

abbrev dump : Alert → Value
dump a = obj (
    field "id" (str a.id) (
      field "source" (str a.source) (
        field "received_at" (str a.received_at) (
          field "raw_payload" (obj a.raw_payload) (
            field "metadata" (obj a.metadata) (
              field "alert_id" (str a.alert_id) (
                field "severity" (severity_code a.severity) (
                  field "event_type" (str a.event_type) (
                    field "timestamp" (str a.timestamp) (
                      field "account_id" (str a.account_id) (
                        field "region" (str a.region)
                          (field "project_id" (str a.project_id) end))))))))))))

unfoldable pub build : Fields → Option Value → Option Value → Option Alert
unfolding get?
build fs none payload = none
build fs (some source) none = none
build fs (some source) (some payload) = some (record {
  id = text_or (get? "id" fs) "";
  source = text_or (some source) "";
  received_at = text_or (get? "received_at" fs) "";
  raw_payload = dict_or (some payload) end;
  metadata = dict_or (get? "metadata" fs) end;
  alert_id = text_or (get? "alert_id" fs) "";
  severity = severity_of (get? "severity" fs);
  event_type = text_or (get? "event_type" fs) "";
  timestamp = text_or (get? "timestamp" fs) "";
  account_id = text_or (get? "account_id" fs) "";
  region = text_or (get? "region" fs) "";
  project_id = text_or (get? "project_id" fs) "";
})

unfoldable pub validate : Value → Option Alert
unfolding build
validate (obj fs) = build fs (get? "source" fs) (get? "raw_payload" fs)
validate _ = none

severity_of-code : (s : AlertSeverity) → severity_of (some (severity_code s)) ≡ s
severity_of-code critical = refl
severity_of-code _ = refl

pub validate-dump : (a : Alert) → validate (dump a) ≡ some a
unfolding validate
validate-dump a = ap (λ s. some (record a { severity = s })) (severity_of-code a.severity)

pub requires_source : (fs : Fields) → has "source" fs ≡ false → validate (obj fs) ≡ none
unfolding validate has
requires_source fs h = ground arith

pub requires_payload : (fs : Fields) → has "raw_payload" fs ≡ false → validate (obj fs) ≡ none
unfolding validate has
requires_payload fs h = ground arith

abbrev pub sample_codec : AlertCodec
sample_codec = record {
  dump = dump;
  validate = validate;
  validate-dump = validate-dump;
  requires_source = requires_source;
  requires_payload = requires_payload;
}

-- An alert with a payload
abbrev pub sample_alert : Fields → Alert
sample_alert payload = record {
  id = "a-1";
  source = "sqs";
  received_at = "2026-06-20T00:00:00+00:00";
  raw_payload = payload;
  metadata = end;
  alert_id = "a-2";
  severity = info;
  event_type = "";
  timestamp = "";
  account_id = "";
  region = "";
  project_id = "";
}
