-- ===== src/Udm/Samples.antt =====
-- The theorems on the discovery of fields at concrete payloads and tables.
use tengen.Prelude.{
  ℕ, zero, suc, ◌+◌, ◌-◌, ◌*◌, ◌/◌, ◌%◌, ◌≤◌, ◌<◌, String, Bool, true, false, not, ◌&&◌, ◌||◌,
  Option, none, some, List, [], ◌∷◌, ◌++◌, ◌≡◌, ◌≢◌, refl, sym, ap, subst, ◌∙◌, ◌⊎◌, inl, inr, ◌↔◌,
  Result, ok, raised, Done, ◌>>=◌, if◌then◌else◌, ◌==◌, eq_iff, arith, map, append-nil,
  append_assoc, is_some, get_or, length, all, any, All, Dict, lookup, insert, eqb, ltb, leb, one_of,
  Bool-cases, Option-cases, type_error, attribute_error, key_error, index_error, value_error,
  runtime_error, is_ok, value_or, IsIn, IsIn-append, IsIn-last, All-map, All-IsIn, some-injective,
  ok-injective,
}
use tengen.Value.{Value, str, int, pos, obj, arr, item, no_items, field, end, Fields, negsuc}
use tengen.Udm.Mappings.{flatten, suggest_udm_field}
use tengen.Udm.FieldRegistry.{Row, Sighting, observe, list_fields}
use tengen.Udm.FieldRegistry.Counting.{
  Call, observe_all, count_of, sightings_of, count_of-observe_all, IsUnique, observe-IsUnique,
}
use tengen.Udm.Parser.{ParseResult, parse}
use tengen.Udm.Parser.Coverage.{KeepsAll, parse-KeepsAll}
use tengen.Models.Udm.Event.{Datetime, empty_udm_event}
use tengen.Models.NormalizedEvent.Sample.{event_of}
use tengen.Normalizers.Building.Sample.{env}
use tengen.Udm.Updater.{propose_from_registry, exists_on, target_model, field_name, identifier}
use tengen.Udm.Updater.Fresh.{AreFirst, propose_from_registry-AreFirst}
use tengen.Udm.Updater.Known.{suggest_udm_field-known}

abbrev payload : Value
payload = obj (
    field "detail"
      (obj (field "ips" (arr (item (str "10.0.0.1") (item (str "10.0.0.2") no_items))) end))
      (field "count" (int (pos 3)) end))

flattened : flatten payload "" ≡ ("detail.ips[]", str "10.0.0.1") ∷ ("count", int (pos 3)) ∷ []
unfolding flatten tengen.Udm.Mappings.merge tengen.Prelude.insert tengen.Udm.Mappings.set_default
    tengen.Prelude.lookup
flattened = refl

identifiers :
    (identifier "HTTPServer-Name2X" ≡ "http_server_name2_x") × (identifier "9.a" ≡ "f_9_a")
unfolding identifier
identifiers = (refl, refl)

-- No part of these payloads has a character outside ASCII.
abbrev other : String → Result Bool
other s = ok false

suggested : suggest_udm_field other "detail.client_ip" (str "10.0.0.1") ≡ ok "principal.ip"
unfolding suggest_udm_field tengen.Udm.Mappings.is_ip_field tengen.Udm.Mappings.leaf_name
    tengen.Udm.Mappings.ip_field
suggested = refl

abbrev suggestion : String
suggestion = "principal.ip"

suggest_udm_field-known_example :
    (suggestion ≡ "")
    ⊎ (exists_on (target_model suggestion) (field_name suggestion "detail.client_ip") ≡ true)
suggest_udm_field-known_example =
    suggest_udm_field-known other "detail.client_ip" (str "10.0.0.1") "principal.ip" suggested

abbrev dump : Value → String
dump v = ""

abbrev color : Sighting
color = record {
  source_type = "aws";
  raw_path = "color";
  sample_value = str "red";
  suggested_udm_field = "";
}

abbrev shape : Sighting
shape = record {
  source_type = "aws";
  raw_path = "shape";
  sample_value = str "round";
  suggested_udm_field = "";
}

abbrev call : ℕ → Sighting → Call
call id s = record { new_id = id; now = "t"; sighting = s }

abbrev calls : List Call
calls = call 3 color ∷ call 2 shape ∷ call 1 color ∷ []

abbrev table : List Row
table = observe_all dump calls []

count_of-observe_all_example :
    count_of color (observe_all dump calls [])
    ≡ sightings_of color (map (λ c. c.sighting) calls) + count_of color []
count_of-observe_all_example = count_of-observe_all dump color calls []

two : sightings_of color (map (λ c. c.sighting) calls) ≡ 2
unfolding sightings_of
two = refl

observe-IsUnique_example : IsUnique (observe dump 1 "t" color (observe dump 2 "t" shape []))
unfolding observe
observe-IsUnique_example = observe-IsUnique dump 1 "t" color (observe dump 2 "t" shape []) (tt, tt)

-- An order for two rows at most, by their occurrences
abbrev order_by : List Row → List Row
order_by (r ∷ q ∷ []) = if ltb r.occurrence_count q.occurrence_count then q ∷ r ∷ [] else r ∷ q ∷ []
order_by rows = rows

limit_run : length (list_fields order_by none none (negsuc 0) table) ≡ length table
unfolding list_fields observe_all observe
limit_run = refl

propose_from_registry-AreFirst_example :
    AreFirst (propose_from_registry order_by ("new" ∷ []) table)
propose_from_registry-AreFirst_example = propose_from_registry-AreFirst order_by ("new" ∷ []) table

abbrev denied : Fields
denied = field "action" (str "DENY") (field "note" (str "n") end)

abbrev fromisoformat : String → Option Datetime
fromisoformat s = none

-- The parse of the payload, with the event of a sample where it raises
abbrev outcome : ParseResult × Option (List Row)
outcome =
    value_or (record { udm = empty_udm_event; normalized = event_of "nobody"; unmapped = [] }, none)
      (parse env fromisoformat other dump (λ k. k) (λ k. "t") denied none true (some []))

returns :
    parse env fromisoformat other dump (λ k. k) (λ k. "t") denied none true (some []) ≡ ok outcome
unfolding parse tengen.Normalizers.Registry.detect_source_type tengen.Normalizers.Reading.◌>>=◌
    tengen.Normalizers.Registry.is_cloudtrail tengen.Normalizers.Registry.is_guardduty
    tengen.Normalizers.Registry.is_gcp tengen.Normalizers.Registry.is_azure
    tengen.Normalizers.Registry.is_crowdstrike tengen.Normalizers.Registry.is_k8s
    tengen.Normalizers.Registry.is_api_request tengen.Normalizers.Registry.normalize
    tengen.Normalizers.Registry.normalize_as tengen.Normalizers.Registry.is_firewall
    tengen.Normalizers.Traffic.normalize_firewall tengen.Udm.Parser.discover_unmapped
    tengen.Udm.Parser.unmapped_of flatten tengen.Udm.Mappings.merge tengen.Prelude.insert
    tengen.Prelude.lookup tengen.Udm.Mappings.set_default suggest_udm_field
    tengen.Udm.Mappings.is_ip_field tengen.Udm.Mappings.leaf_name tengen.Udm.Mappings.rule_field
    tengen.Udm.Tables.consumed_paths tengen.Normalizers.Building.make_event
returns = refl

parse-KeepsAll_example : KeepsAll other denied outcome.0
parse-KeepsAll_example =
    parse-KeepsAll env fromisoformat other dump (λ k. k) (λ k. "t") denied none true (some [])
      outcome.0 outcome.1 returns
