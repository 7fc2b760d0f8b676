-- ===== src/Agents/Query/Correlation.antt =====
-- agents/query.py: the search for an address in all sources.
pub mod Counts
use tengen.Prelude.{
  ℕ, zero, suc, ◌+◌, ◌-◌, ◌*◌, ◌/◌, ◌%◌, ◌≤◌, ◌<◌, String, Bool, true, false, not, ◌&&◌, ◌||◌,
  Option, none, some, List, [], ◌∷◌, ◌++◌, ◌≡◌, ◌≢◌, refl, sym, ap, subst, ◌∙◌, ◌⊎◌, inl, inr, ◌↔◌,
  Result, ok, raised, Done, ◌>>=◌, if◌then◌else◌, ◌==◌, eq_iff, arith, map, append-nil,
  append_assoc, is_some, get_or, length, all, any, All, Dict, lookup, insert, eqb, ltb, leb, one_of,
  Bool-cases, Option-cases, type_error, attribute_error, key_error, index_error, value_error,
  runtime_error, is_ok, value_or, IsIn, IsIn-append, IsIn-last, All-map, All-IsIn, some-injective,
  ok-injective, Error,
}
use tengen.Value.{no_items, item, obj, field, str, end}
use tengen.Agents.Query.CloudTrail.{Event, query_cloudtrail_by_ip}
use tengen.Value.{Value, Items, Fields, arr, item, int, pos}
use tengen.Enrichment.Requests.{World}
use tengen.Enrichment.Reputation.{lookup_ip_reputation, lookup_ip_geo}
use tengen.Agents.Json.{count_items}

-- `len(ct_events) if isinstance(ct_events, list) else ct_events`
abbrev pub cloudtrail_entry : Value → Value
cloudtrail_entry (arr vs) = int (pos (count_items vs))
cloudtrail_entry v = v

-- No call inside the two `try` blocks raises: each tool answers with JSON in any case.
module _ (lookup_events : Fields → Result (List Event)) (w : World)
    (score : Value → Value → Result Value) (describe : Error → String) where
  unfoldable pub correlate_ip_across_sources : String → String → String → Value
  unfolding query_cloudtrail_by_ip lookup_ip_reputation lookup_ip_geo count_items
  correlate_ip_across_sources ip_address start_time end_time =
      let ct_events =
        query_cloudtrail_by_ip lookup_events describe ip_address start_time end_time (pos 10) in
      obj (
        field "ip" (str ip_address) (
          field "sources"
            (obj (
              field "cloudtrail" (cloudtrail_entry ct_events) (
                field "ip_reputation" (lookup_ip_reputation w score describe ip_address)
                  (field "ip_geo" (lookup_ip_geo w score describe ip_address) end))))
            end))
