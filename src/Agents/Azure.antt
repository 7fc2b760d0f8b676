-- ===== src/Agents/Azure.antt =====
-- agents/azure_runbook.py: the two tools that read a normalized event.
pub mod Escalation
use tengen.Prelude.{
  ℕ, zero, suc, ◌+◌, ◌-◌, ◌*◌, ◌/◌, ◌%◌, ◌≤◌, ◌<◌, String, Bool, true, false, not, ◌&&◌, ◌||◌,
  Option, none, some, List, [], ◌∷◌, ◌++◌, ◌≡◌, ◌≢◌, refl, sym, ap, subst, ◌∙◌, ◌⊎◌, inl, inr, ◌↔◌,
  Result, ok, raised, Done, ◌>>=◌, if◌then◌else◌, ◌==◌, eq_iff, arith, map, append-nil,
  append_assoc, is_some, get_or, length, all, any, All, Dict, lookup, insert, eqb, ltb, leb, one_of,
  Bool-cases, Option-cases, type_error, attribute_error, key_error, index_error, value_error,
  runtime_error, is_ok, value_or, IsIn, IsIn-append, IsIn-last, All-map, All-IsIn, some-injective,
  ok-injective, Error,
}
use tengen.Text.{lower, contains, cat}
use tengen.Value.{Value, field, end, Items, str, obj, bool, arr, item, no_items, empty_obj, get_in}
use tengen.Agents.Json.{get_path, json_dict, lower_of, parsed, or_error}

abbrev pub nested : Value → List String → Value → Result Value
nested v path d = get_path v path d

-- `raw.get(key, default)`, whose default is computed first
abbrev pub get_else : Value → String → Result Value → Result Value
get_else v k r = r >>= λ d. get_in v k d

-- `v.get("operationName", {}).get("value", default)`
abbrev pub operation_name : Value → Value → Result Value
operation_name raw event = get_in raw "operationName" empty_obj >>= λ u.
    get_in event "event_name" (str "") >>= λ d. get_in u "value" d

-- `event.get("network", {}).get("src_ip", default)`
abbrev pub caller_ip : Value → Value → Result Value
caller_ip raw event = get_in event "network" empty_obj >>= λ u.
    nested raw ("httpRequest" ∷ "clientIpAddress" ∷ []) (str "") >>= λ d. get_in u "src_ip" d

unfoldable pub enrich_event : Value → Result Value
unfolding get_in
enrich_event event = get_in event "raw_event" empty_obj >>= λ raw. json_dict (
    ("caller", get_else raw "caller" (nested event ("actor" ∷ "identity" ∷ []) (str "")))
    ∷ ("operation_name", operation_name raw event)
    ∷ (
      "resource_id",
      get_else raw "resourceId" (nested event ("target" ∷ "resource_id" ∷ []) (str "")),
    )
    ∷ ("resource_group", get_in raw "resourceGroupName" (str ""))
    ∷ ("subscription_id", get_in raw "subscriptionId" (str ""))
    ∷ ("correlation_id", get_in raw "correlationId" (str ""))
    ∷ ("status", nested raw ("status" ∷ "value" ∷ []) (str ""))
    ∷ ("caller_ip", caller_ip raw event)
    ∷ ("tenant_id", get_in raw "tenantId" (str ""))
    ∷ ("claims", get_in raw "claims" empty_obj)
    ∷ ("severity", get_in event "severity" (str "MEDIUM"))
    ∷ [])

abbrev pub escalation_ops : List String
escalation_ops =
    "microsoft.authorization/roleassignments/write"
    ∷ "microsoft.authorization/roledefinitions/write"
    ∷ "microsoft.authorization/policyassignments/write" ∷ "microsoft.aad/directoryrolemembers/write"
    ∷ "microsoft.directory/servicePrincipals/credentials/update" ∷ []

-- The loop over the operations: one indicator for each that is in the text
unfoldable pub indicators : List String → String → List String
unfolding contains
indicators [] op = []
indicators (e ∷ es) op =
    (if contains op e then cat "privilege_escalation_operation: " op ∷ [] else [])
    ++ indicators es op

abbrev pub items_of : List String → Items
items_of [] = no_items
items_of (s ∷ ss) = item (str s) (items_of ss)

abbrev pub escalation : List String → Value
escalation found = obj (
    field "is_escalation" (bool (ltb 0 (length found)))
      (field "indicators" (arr (items_of found)) end))

abbrev pub operation : Value → Result String
operation event = get_in event "raw_event" empty_obj >>= λ raw.
    nested raw ("operationName" ∷ "value" ∷ []) (str "") >>= λ v. lower_of v

unfoldable pub check_escalation : Value → Result Value
unfolding indicators
check_escalation event = operation event >>= λ op. ok (escalation (indicators escalation_ops op))

module _ (loads : String → Option Value) (describe : Error → String) where
  unfoldable pub enrich_azure_event : String → Value
  unfolding enrich_event
  enrich_azure_event t = or_error describe (parsed loads t >>= λ event. enrich_event event)

  unfoldable pub check_azure_privilege_escalation : String → Value
  unfolding check_escalation
  check_azure_privilege_escalation t =
      or_error describe (parsed loads t >>= λ event. check_escalation event)
