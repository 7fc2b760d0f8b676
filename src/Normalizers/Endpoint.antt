-- ===== src/Normalizers/Endpoint.antt =====
-- tools/normalizers/crowdstrike_normalizer.py and k8s_normalizer.py.
use tengen.Prelude.{String, true, false, List, [], ◌∷◌, Result, ok, if◌then◌else◌}
use tengen.Text.{cat, lower, strip}
use tengen.Value.{
  Fields, str, arr, no_items, item, get, get_in, text, holds, int, pos, to_text, empty_obj, ℤ,
}
use tengen.Models.Alert.{AlertSeverity, critical, high, medium, low}
use tengen.Models.NormalizedEvent.{Outcome, LogSourceType, NormalizedEvent}
use tengen.Normalizers.Reading.{◌>>=◌, first_or, in_set, at_least, to_int, z_at_least}
use tengen.Normalizers.Building.{
  Environment, make_actor, make_target, make_network, network_defaults, make_event,
}

unfoldable pub score_severity : ℤ → AlertSeverity
score_severity score =
    if z_at_least 80 0 score
    then critical
    else if z_at_least 60 0 score
    then high
    else if z_at_least 40 0 score
    then medium
    else low

module _ (env : Environment) where
  unfoldable pub normalize_crowdstrike : Fields → Result NormalizedEvent
  unfolding get get_in text lower make_event score_severity
  normalize_crowdstrike raw = do
    first ← first_or empty_obj (get "Behaviors" (arr (item empty_obj no_items)) raw)
    let device = get "DeviceDetails" empty_obj raw
    score ← to_int env.int_of_text (get "MaxSeverity" (int (pos 0)) raw)
    user_name ← get_in first "UserName" (str "")
    actor ←
        make_actor env user_name (str "EndpointUser") (get "CustomerIdentifier" (str "") raw) false
    hostname ← get_in device "Hostname" (get "Hostname" (str "") raw)
    target ← make_target env hostname (str "Endpoint") (str "") (str "")
    network ← make_network env (record network_defaults {
      src_ip = get "LocalIP" (str "") raw;
      dst_ip = get "ExternalIP" (str "") raw;
    })
    technique ← get_in first "Technique" (str "Detection")
    tactic ← get_in first "Tactic" (str "")
    tactic_text ← text tactic
    make_event env (record {
      event_id = str env.new_id;
      timestamp = get "CreatedTimestamp" (get "ProcessStartTime" (str "") raw) raw;
      source_type = LogSourceType.crowdstrike;
      log_type = str "cs_detection";
      actor = actor;
      target = target;
      network = network;
      outcome = Outcome.failure;
      event_name = get "DetectName" technique raw;
      severity = score_severity score;
      raw_event = raw;
      tags = str "crowdstrike" ∷ str "edr" ∷ str (lower tactic_text) ∷ [];
    })

abbrev pub sensitive_resources : List String
sensitive_resources =
    "secrets" ∷ "serviceaccounts" ∷ "clusterrolebindings" ∷ "rolebindings" ∷ "configmaps" ∷ []

abbrev pub privileged_verbs : List String
privileged_verbs = "exec" ∷ "attach" ∷ "portforward" ∷ "proxy" ∷ []

unfoldable pub k8s_severity : Fields → Result AlertSeverity
unfolding get get_in in_set
k8s_severity raw = do
  resource ← get_in (get "objectRef" empty_obj raw) "resource" (str "")
  sensitive ← in_set resource sensitive_resources
  privileged ← (if sensitive then ok true else in_set (get "verb" (str "") raw) privileged_verbs)
  ok (if privileged then high else medium)

-- `"openshift.io" in api_version`
unfoldable pub k8s_source : Fields → Result LogSourceType
unfolding get holds
k8s_source raw = holds "openshift.io" (get "apiVersion" (str "") raw) >>= λ found.
    ok (if found then LogSourceType.openshift else LogSourceType.k8s)

module _ (env : Environment) where
  unfoldable pub normalize_k8s : Fields → Result NormalizedEvent
  unfolding k8s_severity k8s_source get get_in make_event
  normalize_k8s raw = do
    let user = get "user" empty_obj raw
    let obj_ref = get "objectRef" empty_obj raw
    let verb = get "verb" (str "") raw
    source_type ← k8s_source raw
    username ← get_in user "username" (str "")
    service ← holds "system:serviceaccount" username
    actor ←
        make_actor env username (str (if service then "ServiceAccount" else "User")) (str "") false
    name ← get_in obj_ref "name" (str "")
    resource ← get_in obj_ref "resource" (str "")
    namespace ← get_in obj_ref "namespace" (str "")
    target ← make_target env name resource (str "") namespace
    src_ip ← first_or (str "") (get "sourceIPs" (arr no_items) raw)
    network ←
        make_network env
          (record network_defaults { src_ip = src_ip; user_agent = get "userAgent" (str "") raw })
    code ← get_in (get "responseStatus" empty_obj raw) "code" (int (pos 0))
    failed ← at_least 400 code
    severity ← k8s_severity raw
    make_event env (record {
      event_id = str env.new_id;
      timestamp = get "requestReceivedTimestamp" (get "stageTimestamp" (str "") raw) raw;
      source_type = source_type;
      log_type = str "k8s_audit";
      actor = actor;
      target = target;
      network = network;
      outcome = if failed then Outcome.failure else Outcome.success;
      event_name = str (strip (cat (to_text env.show verb) (cat " " (to_text env.show resource))));
      severity = severity;
      raw_event = raw;
      tags = str "k8s" ∷ verb ∷ namespace ∷ [];
    })
