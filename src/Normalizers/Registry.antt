-- ===== src/Normalizers/Registry.antt =====
-- tools/normalizers/registry.py: the detection of a payload's source, and the dispatch.
use tengen.Normalizers.Reading.{◌>>=◌}
use tengen.Prelude.{
  String, Bool, false, not, ◌&&◌, ◌||◌, Option, some, none, [], ◌∷◌, Result, ok, if◌then◌else◌,
}
use tengen.Text.{ends_with, begins, contains}
use tengen.Value.{
  Value, Fields, str, obj, get, has, text, is_text, is_one_of, holds, to_text, empty_obj, null,
  is_null,
}
use tengen.Models.Alert.{info}
use tengen.Models.NormalizedEvent.{
  Outcome, LogSourceType, NormalizedEvent, ActorContext, TargetContext, NetworkContext,
}
use tengen.Normalizers.Building.{Environment, make_event}
use tengen.Normalizers.Cloud.{normalize_aws, normalize_gcp, normalize_azure}
use tengen.Normalizers.Endpoint.{normalize_crowdstrike, normalize_k8s}
use tengen.Normalizers.Traffic.{normalize_firewall, normalize_ddos}

-- The tests of `detect_source_type`, in their order.
unfoldable pub is_cloudtrail : Fields → Result Bool
unfolding get has text ends_with
is_cloudtrail raw = text (get "eventSource" (str "") raw) >>= λ s.
    ok (ends_with s ".amazonaws.com" && has "eventVersion" raw)

unfoldable pub is_guardduty : Fields → Bool
unfolding get is_text
is_guardduty raw = is_text (get "detail-type" null raw) "GuardDuty Finding"

unfoldable pub is_gcp : Fields → Result Bool
unfolding get holds
is_gcp raw = holds "cloudaudit.googleapis.com" (get "logName" (str "") raw)

unfoldable pub is_k8s : Fields → Bool
unfolding get is_one_of
is_k8s raw = is_one_of (get "apiVersion" null raw) ("audit.k8s.io/v1" ∷ "audit.k8s.io/v1beta1" ∷ [])

unfoldable pub is_api_request : Fields → Bool
unfolding has
is_api_request raw = has "requestURI" raw && has "objectRef" raw && has "userAgent" raw

unfoldable pub is_openshift : Fields → Result Bool
unfolding get text ends_with
is_openshift raw = text (get "apiVersion" (str "") raw) >>= λ s. ok (ends_with s "openshift.io/v1")

unfoldable pub is_firewall : Fields → Bool
unfolding get is_one_of
is_firewall raw = is_one_of (get "action" null raw) ("DENY" ∷ "DROP" ∷ "BLOCK" ∷ "REJECT" ∷ [])

unfoldable pub is_ddos : Fields → Bool
unfolding get is_one_of
is_ddos raw =
    is_one_of (get "log_type" null raw) ("firewall_deny" ∷ "ddos_flow" ∷ "pcap_summary" ∷ [])

module _ (env : Environment) where
  abbrev pub shown : Value → String
  shown v = to_text env.show v

  -- The operation name is an object with a name of Microsoft's.
  unfoldable pub is_microsoft_operation : Value → Bool
  unfolding get begins to_text
  is_microsoft_operation (obj fs) = begins (shown (get "value" (str "") fs)) "Microsoft."
  is_microsoft_operation _ = false

  unfoldable pub is_azure : Fields → Bool
  unfolding is_microsoft_operation get has begins to_text
  is_azure raw =
      begins (shown (get "resourceProvider" empty_obj raw)) "Microsoft."
      || is_microsoft_operation (get "operationName" empty_obj raw)
      || has "tenantId" raw

  unfoldable pub is_crowdstrike : Fields → Bool
  unfolding get is_one_of contains to_text
  is_crowdstrike raw =
      is_one_of (get "event_type" null raw)
        ("DetectionSummaryEvent" ∷ "EppDetectionSummaryEvent" ∷ [])
      || contains (shown (get "Behaviors" (str "") raw)) "FalconHostLink"
      || not (is_null (get "DetectName" null raw))

  abbrev network_type : Fields → LogSourceType
  network_type raw =
      if is_firewall raw
      then LogSourceType.firewall
      else if is_ddos raw
      then LogSourceType.ddos
      else LogSourceType.unknown

  abbrev request_type : Fields → Result LogSourceType
  request_type raw = is_openshift raw >>= λ openshift.
      ok (if openshift then LogSourceType.openshift else LogSourceType.k8s)

  abbrev cluster_type : Fields → Result LogSourceType
  cluster_type raw =
      if is_k8s raw
      then ok LogSourceType.k8s
      else if is_api_request raw
      then request_type raw
      else ok (network_type raw)

  abbrev after_gcp : Fields → Result LogSourceType
  after_gcp raw =
      if is_azure raw
      then ok LogSourceType.azure
      else if is_crowdstrike raw
      then ok LogSourceType.crowdstrike
      else cluster_type raw

  unfoldable pub detect_source_type : Fields → Result LogSourceType
  detect_source_type raw = is_cloudtrail raw >>= λ cloudtrail.
      if cloudtrail || is_guardduty raw
      then ok LogSourceType.aws
      else (is_gcp raw >>= λ gcp. if gcp then ok LogSourceType.gcp else after_gcp raw)

  abbrev no_actor : ActorContext
  no_actor = record { identity = ""; identity_type = ""; account_id = ""; is_privileged = false }

  abbrev no_target : TargetContext
  no_target = record { resource_name = ""; resource_type = ""; region = ""; namespace = "" }

  abbrev no_network : NetworkContext
  no_network = record {
    src_ip = "";
    dst_ip = "";
    src_port = none;
    dst_port = none;
    protocol = "";
    user_agent = "";
    bytes_in = none;
    bytes_out = none;
  }

  unfoldable pub normalize_unknown : Fields → Result NormalizedEvent
  unfolding get make_event
  normalize_unknown raw = make_event env (record {
    event_id = str env.new_id;
    timestamp = get "timestamp" (get "eventTime" (str "") raw) raw;
    source_type = LogSourceType.unknown;
    log_type = str "unknown";
    actor = no_actor;
    target = no_target;
    network = no_network;
    outcome = Outcome.unknown;
    event_name = get "eventName" (get "event_type" (str "Unknown") raw) raw;
    severity = info;
    raw_event = raw;
    tags = [];
  })

  -- `dispatch.get(source_type, _normalize_unknown)`
  unfoldable pub normalize_as : LogSourceType → Fields → Result NormalizedEvent
  unfolding normalize_unknown
  normalize_as LogSourceType.aws raw = normalize_aws env raw
  normalize_as LogSourceType.gcp raw = normalize_gcp env raw
  normalize_as LogSourceType.azure raw = normalize_azure env raw
  normalize_as LogSourceType.crowdstrike raw = normalize_crowdstrike env raw
  normalize_as LogSourceType.firewall raw = normalize_firewall env raw
  normalize_as LogSourceType.ddos raw = normalize_ddos env raw
  normalize_as LogSourceType.k8s raw = normalize_k8s env raw
  normalize_as LogSourceType.openshift raw = normalize_k8s env raw
  normalize_as LogSourceType.unknown raw = normalize_unknown raw

  unfoldable pub normalize : Fields → Option LogSourceType → Result NormalizedEvent
  normalize raw (some source_type) = normalize_as source_type raw
  normalize raw none = detect_source_type raw >>= λ source_type. normalize_as source_type raw
