-- ===== src/Agents/Orchestrator/Samples.antt =====
-- A concrete codec for events of unknown sources, and the theorem at an event.
use tengen.Prelude.{
  String, false, Option, none, some, [], ◌≡◌, ◌≢◌, refl, ok, if◌then◌else◌, ◌==◌, Error,
}
use tengen.Agents.Orchestrator.{
  EventCodec, normalize_event, validate_normalized_event, Error, source_value,
}
use tengen.Agents.Orchestrator.Validity.{normalize_event-valid}
use tengen.Models.NormalizedEvent.{NormalizedEvent, LogSourceType, Outcome, source_value}
use tengen.Models.Alert.{info}
use tengen.Normalizers.Building.Sample.{env}
use tengen.Normalizers.Registry.{normalize, detect_source_type}
use tengen.Value.{Value, Fields, obj, str, field, end}

abbrev payload : Fields
payload = field "eventName" (str "Door opened") end

abbrev door_event : String → String → String → Fields → NormalizedEvent
door_event id timestamp event_name raw = record {
  event_id = id;
  timestamp = timestamp;
  source_type = LogSourceType.unknown;
  log_type = "unknown";
  actor = record { identity = ""; identity_type = ""; account_id = ""; is_privileged = false };
  target = record { resource_name = ""; resource_type = ""; region = ""; namespace = "" };
  network = record {
    src_ip = "";
    dst_ip = "";
    src_port = none;
    dst_port = none;
    protocol = "";
    user_agent = "";
    bytes_in = none;
    bytes_out = none;
  };
  outcome = Outcome.unknown;
  event_name = event_name;
  severity = info;
  raw_event = raw;
  tags = [];
  labels = [];
  vendor_name = "";
  product_name = "";
  udm_event_type = none;
}

-- The event of the payload
abbrev opened_door : NormalizedEvent
opened_door = door_event "id-1" "" "Door opened" payload

door_run : normalize env payload none ≡ ok opened_door
unfolding normalize tengen.Normalizers.Reading.◌>>=◌ detect_source_type
    tengen.Normalizers.Registry.is_cloudtrail tengen.Normalizers.Registry.is_guardduty
    tengen.Normalizers.Registry.is_gcp tengen.Normalizers.Registry.is_azure
    tengen.Normalizers.Registry.is_crowdstrike tengen.Normalizers.Registry.is_k8s
    tengen.Normalizers.Registry.is_api_request tengen.Normalizers.Registry.normalize_as
    tengen.Normalizers.Registry.is_firewall tengen.Normalizers.Registry.is_ddos
door_run = refl

door_unknown : detect_source_type env payload ≢ ok LogSourceType.aws
unfolding tengen.Normalizers.Reading.◌>>=◌ detect_source_type
    tengen.Normalizers.Registry.is_cloudtrail tengen.Normalizers.Registry.is_guardduty
    tengen.Normalizers.Registry.is_gcp tengen.Normalizers.Registry.is_azure
    tengen.Normalizers.Registry.is_crowdstrike tengen.Normalizers.Registry.is_k8s
    tengen.Normalizers.Registry.is_api_request tengen.Normalizers.Registry.is_firewall
    tengen.Normalizers.Registry.is_ddos
door_unknown h = cc

-- Four fields are written, and read back in an event of an unknown source.
abbrev dump : NormalizedEvent → Value
dump e = obj (
    field "event_id" (str e.event_id) (
      field "timestamp" (str e.timestamp)
        (field "event_name" (str e.event_name) (field "raw_event" (obj e.raw_event) end))))

abbrev validate : Value → Option NormalizedEvent
validate (obj (field _ (str i) (field _ (str t) (field _ (str n) (field _ (obj raw) end))))) =
    some (door_event i t n raw)
validate _ = none

abbrev codec : EventCodec
codec = record { dump = dump; validate = validate }

abbrev loads : String → Option Value
loads t = if t == "door" then some (obj payload) else none

abbrev as_error : Error → String
as_error e = "error"

normalize_event-valid_example :
    validate_normalized_event loads as_error codec
      (some (normalize_event loads as_error codec env "door"))
    ≡ "valid"
normalize_event-valid_example =
    normalize_event-valid loads as_error codec env "door" payload opened_door refl refl door_unknown
      door_run refl

-- An event whose id is empty
invalid_run :
    validate_normalized_event loads as_error codec (some (dump (door_event "" "" "" payload)))
    ≡ "invalid: missing event_id"
unfolding validate_normalized_event source_value
invalid_run = refl
