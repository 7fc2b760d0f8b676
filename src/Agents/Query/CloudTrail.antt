-- ===== src/Agents/Query/CloudTrail.antt =====
-- agents/query.py: the queries of CloudTrail. boto3 gives an event as a dictionary with the times
-- as datetime objects, which json.dumps refuses.
use tengen.Prelude.{String, List, [], ◌∷◌, Result, ok, ◌>>=◌, if◌then◌else◌, ◌==◌, Error}
use tengen.Value.{Value, Fields, Items, arr, no_items, end, field, item, ℤ, obj, str, int}
use tengen.Value.Native.{Dump, dumps_native}
use tengen.Agents.Json.{or_error, json_dict}

abbrev pub Event : Type 0
Event = Dump

-- `json.dumps` of an event and a list of them
unfoldable pub entries_of : Event → List (String × Result Value)
unfolding dumps_native
entries_of [] = []
entries_of ((k, n) ∷ es) = (k, dumps_native n) ∷ entries_of es

unfoldable pub dumps_events : List Event → Result Items
unfolding entries_of
dumps_events [] = ok no_items
dumps_events (e ∷ es) = json_dict (entries_of e) >>= λ v. dumps_events es >>= λ vs. ok (item v vs)

abbrev attribute : String → String → Value
attribute key value =
    arr (
      item (obj (field "AttributeKey" (str key) (field "AttributeValue" (str value) end))) no_items)

abbrev pub name_lookup : String → Fields
name_lookup event_name =
    if event_name == ""
    then end
    else field "LookupAttributes" (attribute "EventName" event_name) end

abbrev pub ip_query : String → String → String → ℤ → Fields
ip_query source_ip start_time end_time max_results =
    field "LookupAttributes" (attribute "SourceIPAddress" source_ip) (
      field "StartTime" (str start_time)
        (field "EndTime" (str end_time) (field "MaxResults" (int max_results) end)))

-- `lookup_events` is the request of boto3, of its keyword arguments, with `resp.get("Events", [])`.
module _ (lookup_events : Fields → Result (List Event)) (describe : Error → String) where
  abbrev pub answered : Fields → Value
  answered kwargs =
      or_error describe (lookup_events kwargs >>= λ es. dumps_events es >>= λ vs. ok (arr vs))

  unfoldable pub query_cloudtrail : String → String → String → ℤ → Value
  unfolding dumps_events
  query_cloudtrail start_time end_time event_name max_results = answered (
      field "StartTime" (str start_time) (
        field "EndTime" (str end_time)
          (field "MaxResults" (int max_results) (name_lookup event_name))))

  unfoldable pub query_cloudtrail_by_ip : String → String → String → ℤ → Value
  unfolding dumps_events
  query_cloudtrail_by_ip source_ip start_time end_time max_results =
      answered (ip_query source_ip start_time end_time max_results)
