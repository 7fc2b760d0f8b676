-- ===== src/Agents/Kubernetes.antt =====
-- agents/k8s_runbook.py: the two tools that read a normalized event.
pub mod Classes
use tengen.Prelude.{
  ℕ, zero, suc, ◌+◌, ◌-◌, ◌*◌, ◌/◌, ◌%◌, ◌≤◌, ◌<◌, String, Bool, true, false, not, ◌&&◌, ◌||◌,
  Option, none, some, List, [], ◌∷◌, ◌++◌, ◌≡◌, ◌≢◌, refl, sym, ap, subst, ◌∙◌, ◌⊎◌, inl, inr, ◌↔◌,
  Result, ok, raised, Done, ◌>>=◌, if◌then◌else◌, ◌==◌, eq_iff, arith, map, append-nil,
  append_assoc, is_some, get_or, length, all, any, All, Dict, lookup, insert, eqb, ltb, leb, one_of,
  Bool-cases, Option-cases, type_error, attribute_error, key_error, index_error, value_error,
  runtime_error, is_ok, value_or, IsIn, IsIn-append, IsIn-last, All-map, All-IsIn, some-injective,
  ok-injective, Error,
}
use tengen.Text.{lower, contains}
use tengen.Value.{
  Value, Fields, Items, ℤ, pos, str, obj, bool, int, float, arr, item, no_items, empty_obj, get_in,
  truthy, holds, is_zero,
}
use tengen.Agents.Json.{get_path, json_dict, lower_of, parsed, or_error, elements, texts_of}
use tengen.Agents.Azure.{nested, get_else}

-- `v[0]`
unfoldable pub first_of : Value → Result Value
first_of (arr (item v vs)) = ok v
first_of (arr no_items) = raised index_error
first_of (str s) = if s == "" then raised index_error else ok (str s)
first_of (obj fs) = raised key_error
first_of _ = raised type_error

-- `event.get("network", {}).get("src_ip", raw.get("sourceIPs", [""])[0])`
abbrev pub source_ip : Value → Value → Result Value
source_ip raw event = get_in event "network" empty_obj >>= λ u.
    get_in raw "sourceIPs" (arr (item (str "") no_items)) >>= λ ips.
    first_of ips >>= λ d. get_in u "src_ip" d

abbrev pub entries : Value → Value → Value → Value → List (String × Result Value)
entries raw event obj_ref user =
    ("user", get_else user "username" (nested event ("actor" ∷ "identity" ∷ []) (str "")))
    ∷ ("user_groups", get_in user "groups" (arr no_items))
    ∷ ("verb", get_in raw "verb" (str ""))
    ∷ (
      "resource",
      get_else obj_ref "resource" (nested event ("target" ∷ "resource_type" ∷ []) (str "")),
    )
    ∷ (
      "resource_name",
      get_else obj_ref "name" (nested event ("target" ∷ "resource_id" ∷ []) (str "")),
    )
    ∷ (
      "namespace",
      get_else obj_ref "namespace" (nested event ("target" ∷ "namespace" ∷ []) (str "")),
    )
    ∷ ("api_group", get_in obj_ref "apiGroup" (str ""))
    ∷ ("source_ip", source_ip raw event)
    ∷ ("user_agent", get_in raw "userAgent" (str ""))
    ∷ ("response_code", nested raw ("responseStatus" ∷ "code" ∷ []) (int (pos 0)))
    ∷ ("stage", get_in raw "stage" (str ""))
    ∷ (
      "is_service_account",
      get_in user "username" (str "") >>= λ name.
          holds "system:serviceaccount" name >>= λ b. ok (bool b),
    )
    ∷ ("tags", get_in event "tags" (arr no_items))
    ∷ []

unfoldable pub enrich_event : Value → Result Value
unfolding get_in holds first_of
enrich_event event = get_in event "raw_event" empty_obj >>= λ raw.
    get_in raw "objectRef" empty_obj >>= λ obj_ref.
    get_in raw "user" empty_obj >>= λ user. json_dict (entries raw event obj_ref user)

-- `sc.get("runAsUser") == 0`
abbrev pub equals_zero : Value → Bool
equals_zero (int z) = is_zero z
equals_zero (float z k) = is_zero z
equals_zero (bool b) = not b
equals_zero _ = false

abbrev pub is_privileged_context : Value → Result Bool
is_privileged_context sc = get_in sc "privileged" Value.null >>= λ p.
    if truthy p then ok true else get_in sc "runAsUser" Value.null >>= λ u. ok (equals_zero u)

-- The loop over the containers, which ends at the first that is privileged
unfoldable pub any_privileged : Items → Result Bool
unfolding get_in truthy
any_privileged no_items = ok false
any_privileged (item c cs) =
    let rest = any_privileged cs in
    get_in c "securityContext" empty_obj >>= λ sc.
    is_privileged_context sc >>= λ p. if p then ok true else rest

-- `a + b` on the two lists of containers
abbrev append_items : Items → Items → Items
append_items no_items ys = ys
append_items (item x xs) ys = item x (append_items xs ys)

abbrev add_values : Value → Value → Result Items
add_values (arr xs) (arr ys) = ok (append_items xs ys)
add_values (str s) (str t) = if s == "" && t == "" then ok no_items else ok (item (str s) no_items)
add_values _ _ = raised type_error

abbrev pub classified : List String → String → String → String → Result Bool → Result String
classified tags verb resource subresource creates =
    if one_of subresource ("exec" ∷ "attach" ∷ []) || one_of "exec" tags
    then ok "anomalous_exec"
    else if resource == "secrets" && one_of verb ("get" ∷ "list" ∷ "watch" ∷ [])
    then ok "secrets_access"
    else if one_of "privileged" tags || one_of "privileged_container" tags
    then ok "privileged_container"
    else if resource == "pods" && verb == "create"
    then (creates >>= λ p. ok (if p then "privileged_container" else "unknown"))
    else ok "unknown"

abbrev pub pod_is_privileged : Value → Result Bool
pod_is_privileged raw = get_in raw "requestObject" empty_obj >>= λ o.
    get_in o "spec" empty_obj >>= λ spec. get_in spec "containers" (arr no_items) >>= λ cs.
    get_in spec "initContainers" (arr no_items) >>= λ is.
    add_values cs is >>= λ all. any_privileged all

unfoldable pub classify : Value → Result String
unfolding get_in any_privileged elements texts_of lower
classify event = get_in event "raw_event" empty_obj >>= λ raw.
    get_in event "tags" (arr no_items) >>= λ ts. elements ts >>= λ items.
    texts_of (λ t. lower_of t) items >>= λ tags. get_in raw "verb" (str "") >>= λ v.
    lower_of v >>= λ verb. get_in raw "objectRef" empty_obj >>= λ obj_ref.
    get_in obj_ref "resource" (str "") >>= λ r. lower_of r >>= λ resource.
    get_in obj_ref "subresource" (str "") >>= λ u.
    lower_of u >>= λ subresource. classified tags verb resource subresource (pod_is_privileged raw)

-- What a tool answers that takes every exception for a class
abbrev pub class_or : String → Result String → String
class_or d (ok c) = c
class_or d (raised e) = d

module _ (loads : String → Option Value) (describe : Error → String) where
  unfoldable pub enrich_k8s_event : String → Value
  unfolding enrich_event
  enrich_k8s_event t = or_error describe (parsed loads t >>= λ event. enrich_event event)

  unfoldable pub classify_k8s_threat : String → String
  unfolding classify
  classify_k8s_threat t = class_or "unknown" (parsed loads t >>= λ event. classify event)
