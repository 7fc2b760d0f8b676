-- ===== src/Agents/Normalizer.antt =====
-- agents/normalizer.py: the tools of the normalizer agent, and the reading of an event that the
-- orchestrator shares with it.
use tengen.Prelude.{String, Option, none, Result, ok, raised, ◌>>=◌, attribute_error, Error}
use tengen.Normalizers.Building.{Environment}
use tengen.Normalizers.Registry.{normalize, detect_source_type}
use tengen.Models.NormalizedEvent.{NormalizedEvent, LogSourceType, source_value}
use tengen.Agents.Json.{parsed}
use tengen.Value.{Value, Fields, obj, str, field, end}
use tengen.Text.{cat, take_chars}

-- What a normalizer is called on: only a dictionary has the method `get` that each begins with.
abbrev pub on_dict : {A : Type 0} → (Fields → Result A) → Value → Result A
on_dict f (obj raw) = f raw
on_dict f _ = raised attribute_error

module _ (env : Environment) (loads : String → Option Value) (describe : Error → String) where
  unfoldable pub read_event : String → Result NormalizedEvent
  unfolding normalize
  read_event raw_event_json =
      parsed loads raw_event_json >>= λ raw_event. on_dict (λ raw. normalize env raw none) raw_event

  -- `dump` is `model_dump_json` of the event.
  module _ (dump : NormalizedEvent → Value) where
    abbrev pub answered_event : (Error → Value) → Result NormalizedEvent → Value
    answered_event failed (ok e) = dump e
    answered_event failed (raised e) = failed e

    unfoldable pub detect_and_normalize : String → Value
    unfolding read_event take_chars
    detect_and_normalize raw_event_json =
        answered_event
          (λ e. obj (
            field "error" (str (describe e))
              (field "raw_event_preview" (str (take_chars 200 raw_event_json)) end)))
          (read_event raw_event_json)

  abbrev pub source_or_error : Result LogSourceType → String
  source_or_error (ok s) = source_value s
  source_or_error (raised e) = cat "error: " (describe e)

  unfoldable pub detect_source_type_tool : String → String
  unfolding detect_source_type source_value
  detect_source_type_tool raw_event_json =
      source_or_error
        (parsed loads raw_event_json >>= λ raw_event. on_dict (detect_source_type env) raw_event)
