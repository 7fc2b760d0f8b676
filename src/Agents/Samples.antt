-- ===== src/Agents/Samples.antt =====
-- Concrete events, and the theorems at them.
use tengen.Prelude.{
  String, true, Option, none, some, List, [], ◌∷◌, ◌≡◌, refl, ap, subst, ◌⊎◌, inl, Result, ok,
  raised, ◌>>=◌, if◌then◌else◌, ◌==◌, All, key_error, value_error, runtime_error, value_or, Error,
}
use tengen.Value.{
  Value, Fields, str, obj, arr, field, end, no_items, item, get_in, bool, get, text, get?, is_text,
  null, pos, int,
}
use tengen.Agents.Azure.{check_escalation, operation, escalation, indicators}
use tengen.Agents.Azure.Escalation.{check_escalation-found, found_ops}
use tengen.Agents.Kubernetes.{classify_k8s_threat}
use tengen.Agents.Edr.{classify_threat_type}
use tengen.Agents.Json.{get_path, error_json, dict_of}
use tengen.Text.{lower, contains, join}
use tengen.Agents.Query.Sources.{
  query_azure_activity, query_crowdstrike_detections, query_gcp_audit,
}
use tengen.Agents.Query.CloudTrail.{ip_query, Event}
use tengen.Value.Native.{datetime}
use tengen.Agents.Query.Cluster.{query_k8s_events, Cluster, ClusterEvent, as_json}
use tengen.Agents.Query.Correlation.{correlate_ip_across_sources}
use tengen.Enrichment.Requests.{World}
use tengen.Agents.Query.Correlation.Counts.{reported, HasTime, correlate-uncounted}

abbrev raw_as : Fields → Value
raw_as raw = obj (field "raw_event" (obj raw) end)

-- The update of a service principal's credentials
abbrev credentials_event : Value
credentials_event = raw_as (
    field "operationName"
      (obj (field "value" (str "microsoft.directory/servicePrincipals/credentials/update") end))
      end)

credentials_run : check_escalation credentials_event ≡ ok (escalation [])
unfolding check_escalation get_in get_path text lower contains
credentials_run = refl

check_escalation-found_example :
    check_escalation credentials_event
    ≡ (operation credentials_event >>= λ op. ok (escalation (indicators found_ops op)))
check_escalation-found_example = check_escalation-found credentials_event

-- An audit event with no source addresses, whose normalized event knows the address
abbrev no_sources : Fields
no_sources = field "sourceIPs" (arr no_items) end

abbrev k8s_event : Value
k8s_event = obj (
    field "raw_event" (obj no_sources)
      (field "network" (obj (field "src_ip" (str "10.0.0.9") end)) end))

-- A pod that is created with a privileged container
abbrev pod_event : Value
pod_event = raw_as (
    field "verb" (str "create") (
      field "objectRef" (obj (field "resource" (str "pods") end)) (
        field "requestObject"
          (obj (
            field "spec"
              (obj (
                field "containers"
                  (arr (
                    item
                      (obj (field "securityContext" (obj (field "privileged" (bool true) end)) end))
                      no_items))
                  end))
              end))
          end)))

abbrev loads : String → Option Value
loads t =
    if t == "pod"
    then some pod_event
    else if t == "edr"
    then some (obj (field "tags" (arr (item (str "SMB share") no_items)) end))
    else none

pod_run : classify_k8s_threat loads (λ e. "error") "pod" ≡ "privileged_container"
unfolding classify_k8s_threat get_in get get? text lower
pod_run = refl

edr_run : classify_threat_type loads "edr" ≡ "lateral_movement"
unfolding classify_threat_type get_in get get? text lower
edr_run = refl

-- CloudTrail with one event, and no server for the other sources
abbrev one_event : Fields → Result (List Event)
one_event kwargs = ok ((("EventTime", datetime "2024-05-01 12:00:00+00:00") ∷ []) ∷ [])

one_event-HasTime : (kwargs : Fields) (es : List Event) → one_event kwargs ≡ ok es → All HasTime es
one_event-HasTime kwargs es h = subst (All HasTime) (ap (value_or []) h) (inl refl, tt)

abbrev no_servers : World
no_servers = record { env = λ name. none; fetch = λ request. raised runtime_error }

abbrev no_score : Value → Value → Result Value
no_score malicious stats = raised value_error

abbrev as_error : Error → String
as_error e = "not JSON serializable"

correlate_run :
    reported as_error one_event no_servers no_score "8.8.8.8" "2024-05-01" "2024-05-02"
    ≡ ok (obj (field "error" (str "not JSON serializable") end))
unfolding correlate_ip_across_sources get_path get_in get get? dict_of
correlate_run = refl

correlate-uncounted_example :
    ((one_event (ip_query "8.8.8.8" "2024-05-01" "2024-05-02" (pos 10)) ≡ ok [])
      × (reported as_error one_event no_servers no_score "8.8.8.8" "2024-05-01" "2024-05-02"
          ≡ ok (int (pos 0))))
    ⊎ ((e : Error) × (reported as_error one_event no_servers no_score "8.8.8.8" "2024-05-01"
            "2024-05-02"
          ≡ ok (error_json as_error e)))
correlate-uncounted_example =
    correlate-uncounted as_error one_event no_servers no_score one_event-HasTime "8.8.8.8"
      "2024-05-01" "2024-05-02"

-- The filter of a query of GCP with a principal
gcp_run :
    query_gcp_audit "home"
      (λ project filter n. ok (filter ∷ []))
      (λ e. ok (str e))
      as_error
      ""
      "T0"
      "T1"
      "a@b"
      (pos 5)
    ≡ arr (
        item
          (str (
            "logName:\"cloudaudit.googleapis.com\" AND timestamp>=\"T0\" AND timestamp<=\"T1\" AND protoPayload.authenticationInfo.principalEmail=\"a@b\""))
          no_items)
unfolding query_gcp_audit join
gcp_run = refl

-- A cluster with two events, of which one is of a pod
abbrev cluster_event : String → ClusterEvent
cluster_event kind = record {
  namespace = str "default";
  reason = str "Killing";
  message = str "";
  event_type = str "Normal";
  count = null;
  object_name = str "web";
  object_kind = str kind;
}

abbrev cluster : Cluster
cluster = record {
  in_cluster = some runtime_error;
  from_file = none;
  list_namespaced = λ namespace n. raised runtime_error;
  list_all = λ n. ok (cluster_event "Node" ∷ cluster_event "Pod" ∷ []);
}

cluster_run :
    query_k8s_events cluster as_error "" "Pod" (pos 100)
    ≡ arr (item (as_json (cluster_event "Pod")) no_items)
unfolding query_k8s_events is_text
cluster_run = refl

-- Without credentials in the environment
azure_run :
    query_azure_activity no_servers as_error "s" "T0" "T1" "" (pos 5)
    ≡ error_json as_error key_error
unfolding query_azure_activity
azure_run = refl

crowdstrike_run :
    query_crowdstrike_detections no_servers as_error "T0" "T1" "" (pos 5)
    ≡ error_json as_error key_error
unfolding query_crowdstrike_detections
crowdstrike_run = refl
