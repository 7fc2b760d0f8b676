-- ===== src/Agents/Orchestrator.antt =====
-- agents/orchestrator.py: the tools of the orchestrator.
pub mod Validity
mod Samples
use tengen.Prelude.{
  ℕ, zero, suc, ◌+◌, ◌-◌, ◌*◌, ◌/◌, ◌%◌, ◌≤◌, ◌<◌, String, Bool, true, false, not, ◌&&◌, ◌||◌,
  Option, none, some, List, [], ◌∷◌, ◌++◌, ◌≡◌, ◌≢◌, refl, sym, ap, subst, ◌∙◌, ◌⊎◌, inl, inr, ◌↔◌,
  Result, ok, raised, Done, ◌>>=◌, if◌then◌else◌, ◌==◌, eq_iff, arith, map, append-nil,
  append_assoc, is_some, get_or, length, all, any, All, Dict, lookup, insert, eqb, ltb, leb, one_of,
  Bool-cases, Option-cases, type_error, attribute_error, key_error, index_error, value_error,
  runtime_error, is_ok, value_or, IsIn, IsIn-append, IsIn-last, All-map, All-IsIn, some-injective,
  ok-injective, Error,
}
use tengen.Models.NormalizedEvent.{NormalizedEvent, source_value}
use tengen.Normalizers.Building.{Environment}
use tengen.Models.Alert.{Alert, AlertCodec}
use tengen.Consumers.Ingestion.{Stamp, new_alert}
use tengen.N8n.Response.{EnrichedAlert, parse_response, well_known_fields}
use tengen.Agents.Normalizer.{read_event, answered_event}
use tengen.Agents.Json.{parsed}
use tengen.Value.{Value, Fields, obj, str, field, end, truthy, holds}
use tengen.Text.{cat, take_chars}

-- Pydantic, for `NormalizedEvent`: `model_dump_json` and `model_validate_json`
pub record EventCodec : Type 0 where
  pub dump : NormalizedEvent → Value
  pub validate : Value → Option NormalizedEvent

-- What `parse_response` raises on a response that is true and no dictionary: a field that is in it
-- cannot be read by its name, and `enrichment` has to be a dictionary.
unfoldable pub refusal : List String → Value → Error
unfolding holds
refusal [] v = value_error
refusal (key ∷ keys) v = elim (holds key v) [
  | raised e ↦ e
  | ok true ↦ type_error
  | ok false ↦ refusal keys v
]

abbrev pub response_of : Value → Result (Option Fields)
response_of (obj fs) = ok (some fs)
response_of v = if truthy v then raised (refusal well_known_fields v) else ok none

-- `Alert(source="unknown", raw_payload=raw)`
abbrev pub unknown_alert : Stamp → Value → Result Alert
unknown_alert stamp (obj raw) = ok (new_alert stamp "unknown" raw end)
unknown_alert stamp _ = raised value_error

module _ (loads : String → Option Value) (describe : Error → String) where
  abbrev pub failure_of : String → Error → Value
  failure_of raw_event_json e = obj (
      field "error" (str (cat "normalization_failed: " (describe e)))
        (field "raw_preview" (str (take_chars 200 raw_event_json)) end))

  module _ (codec : EventCodec) where
    unfoldable pub normalize_event : Environment → String → Value
    unfolding read_event
    normalize_event env raw_event_json =
        answered_event env loads describe codec.dump (failure_of raw_event_json)
          (read_event env loads describe raw_event_json)

    -- The verdict on an event; a source type is a member of its enumeration, whose values are not
    -- empty.
    abbrev pub validity : Option NormalizedEvent → String
    validity none = cat "invalid: " (describe value_error)
    validity (some event) =
        if source_value event.source_type == ""
        then "invalid: missing source_type"
        else if event.event_id == ""
        then "invalid: missing event_id"
        else "valid"

    -- The argument is what the text holds, where it is JSON.
    unfoldable pub validate_normalized_event : Option Value → String
    unfolding source_value
    validate_normalized_event none = validity none
    validate_normalized_event (some event) = validity (codec.validate event)

  module _ (codec : AlertCodec) (stamp : Stamp) (now : String) where
    -- The original as an alert, or as the payload of a new one
    abbrev pub original_alert : String → Result Alert
    original_alert original_event_json = parsed loads original_event_json >>= λ v.
        elim (codec.validate v) [ some alert ↦ ok alert | none ↦ unknown_alert stamp v ]

    unfoldable pub parse_n8n : String → String → String → Result EnrichedAlert
    unfolding refusal truthy parse_response
    parse_n8n n8n_response_json original_event_json route_path =
        parsed loads n8n_response_json >>= λ n8n_data.
        original_alert original_event_json >>= λ alert.
        response_of n8n_data >>= λ response. ok (parse_response now response alert route_path)

    -- `dump` is `model_dump_json` of the enriched alert.
    module _ (dump : EnrichedAlert → Value) where
      abbrev pub answered_alert : Result EnrichedAlert → Value
      answered_alert (ok enriched) = dump enriched
      answered_alert (raised e) = obj (field "error" (str (cat "parse_failed: " (describe e))) end)

      unfoldable pub parse_n8n_response : String → String → String → Value
      unfolding parse_n8n
      parse_n8n_response n8n_response_json original_event_json route_path =
          answered_alert (parse_n8n n8n_response_json original_event_json route_path)
