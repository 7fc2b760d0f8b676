-- ===== src/Agents/Query/Cluster.antt =====
-- agents/query.py: the query of the events of a Kubernetes cluster.
use tengen.Prelude.{
  suc, ◌-◌, String, Bool, ◌||◌, Option, none, some, List, [], ◌∷◌, Result, ok, raised, ◌>>=◌,
  if◌then◌else◌, ◌==◌, Error,
}
use tengen.Value.{Value, ℤ, is_text, obj, Items, pos, arr, field, no_items, item, end, negsuc}
use tengen.Agents.Json.{take_items, or_error, count_items}

-- What the tool reads of an event of the client
pub record ClusterEvent : Type 0 where
  pub namespace : Value
  pub reason : Value
  pub message : Value
  pub event_type : Value
  pub count : Value
  pub object_name : Value
  pub object_kind : Value

abbrev pub as_json : ClusterEvent → Value
as_json e = obj (
    field "namespace" e.namespace (
      field "reason" e.reason (
        field "message" e.message (
          field "type" e.event_type
            (field "count" e.count (field "involved_object" e.object_name end))))))

-- `not resource_kind or e.involved_object.kind == resource_kind`
abbrev pub is_wanted : String → ClusterEvent → Bool
is_wanted resource_kind e = resource_kind == "" || is_text e.object_kind resource_kind

-- The comprehension over `events.items`
unfoldable pub results_of : String → List ClusterEvent → Items
unfolding is_text
results_of resource_kind [] = no_items
results_of resource_kind (e ∷ es) =
    let rest = results_of resource_kind es in
    if is_wanted resource_kind e then item (as_json e) rest else rest

-- `xs[:n]`, where a negative end counts from the back
abbrev pub up_to : ℤ → Items → Items
up_to (pos n) vs = take_items n vs
up_to (negsuc n) vs = take_items (count_items vs - suc n) vs

-- What the kubernetes client is: what loading the configuration inside a cluster or from a file
-- raises, and listing the events of a namespace or of all
pub record Cluster : Type 0 where
  pub in_cluster : Option Error
  pub from_file : Option Error
  pub list_namespaced : String → ℤ → Result (List ClusterEvent)
  pub list_all : ℤ → Result (List ClusterEvent)

-- The file is only loaded where the configuration inside a cluster is missing.
abbrev pub configured : Option Error → Option Error → Option Error
configured none file = none
configured (some e) file = file

module _ (cluster : Cluster) (describe : Error → String) where
  abbrev pub listed_events : String → ℤ → Result (List ClusterEvent)
  listed_events namespace max_results =
      if namespace == ""
      then cluster.list_all max_results
      else cluster.list_namespaced namespace max_results

  abbrev pub found_events : Option Error → String → String → ℤ → Result Value
  found_events (some e) namespace resource_kind max_results = raised e
  found_events none namespace resource_kind max_results =
      listed_events namespace max_results >>= λ events.
      ok (arr (up_to max_results (results_of resource_kind events)))

  unfoldable pub query_k8s_events : String → String → ℤ → Value
  unfolding results_of
  query_k8s_events namespace resource_kind max_results = or_error describe (
      found_events (configured cluster.in_cluster cluster.from_file) namespace resource_kind
        max_results)
