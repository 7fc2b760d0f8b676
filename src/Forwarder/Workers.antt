-- ===== src/Forwarder/Workers.antt =====
-- forwarder/enriched_forwarder.py and forwarder/dlq_forwarder.py: the callbacks that hand the
-- messages of a queue to Splunk.
pub mod Losses
use tengen.Prelude.{
  ℕ, zero, suc, ◌+◌, ◌-◌, ◌*◌, ◌/◌, ◌%◌, ◌≤◌, ◌<◌, String, Bool, true, false, not, ◌&&◌, ◌||◌,
  Option, none, some, List, [], ◌∷◌, ◌++◌, ◌≡◌, ◌≢◌, refl, sym, ap, subst, ◌∙◌, ◌⊎◌, inl, inr, ◌↔◌,
  Result, ok, raised, Done, ◌>>=◌, if◌then◌else◌, ◌==◌, eq_iff, arith, map, append-nil,
  append_assoc, is_some, get_or, length, all, any, All, Dict, lookup, insert, eqb, ltb, leb, one_of,
  Bool-cases, Option-cases, type_error, attribute_error, key_error, index_error, value_error,
  runtime_error, is_ok, value_or, IsIn, IsIn-append, IsIn-last, All-map, All-IsIn, some-injective,
  ok-injective, Error,
}
use tengen.Value.{Value, Fields, str, obj, field, end, get_in}
use tengen.Value.Native.{Native, Dump, json, datetime, get_native, dump_of}
use tengen.Models.Alert.{Alert, severity_value}
use tengen.Forwarder.Splunk.{Answer, SplunkClient, Event, send, build_event}

-- What the callback is given: a model, by its `model_dump`, or another object, by its text
pub data Arrival : Type 0 where
  model : Dump → Arrival
  other : String → Arrival

-- `alert.model_dump()`: the time of the reception stays a datetime.
unfoldable pub model_dump : Alert → Dump
unfolding severity_value
model_dump a =
    ("id", json (str a.id))
    ∷ ("source", json (str a.source))
    ∷ ("received_at", datetime a.received_at)
    ∷ ("raw_payload", json (obj a.raw_payload))
    ∷ ("metadata", json (obj a.metadata))
    ∷ ("alert_id", json (str a.alert_id))
    ∷ ("severity", json (str (severity_value a.severity)))
    ∷ ("event_type", json (str a.event_type))
    ∷ ("timestamp", json (str a.timestamp))
    ∷ ("account_id", json (str a.account_id))
    ∷ ("region", json (str a.region))
    ∷ ("project_id", json (str a.project_id))
    ∷ []

-- A forwarder: the Splunk client that is open while it runs, and the metrics that it emitted
pub record Worker : Type 0 where
  pub splunk : SplunkClient
  pub emitted : List (String × Fields)

abbrev pub emitting : Bool → String → String → String → Worker → Worker
emitting true event key value w = record w {
  emitted = w.emitted ++ (event, field key (str value) end) ∷ [];
}
emitting false event key value w = w

-- `index` is the client's, `time` what its clock gives, `describe` the text of an exception.
module _ (answers : ℕ → Answer) (index : String) (time : Value) (emits : Bool) where
  -- `data`; what is no dictionary has no method `get` for its source.
  abbrev pub loaded_data : Option Value → Result Dump
  loaded_data none = raised value_error
  loaded_data (some (obj fs)) = ok (dump_of fs)
  loaded_data (some _) = raised attribute_error

  abbrev pub enriched_data : (String → Option Value) → Arrival → Result Dump
  enriched_data loads (model d) = ok d
  enriched_data loads (other s) = loaded_data (loads s)

  abbrev pub sent_to : Worker → Done × SplunkClient → Done × Worker
  sent_to w (r, c) = (r, record w { splunk = c })

  -- `build_event` and `send`
  abbrev pub send_built : String → Native → Dump → Worker → Done × Worker
  send_built sourcetype source event_data w =
      sent_to w (send answers (build_event index time event_data source sourcetype) w.splunk)

  abbrev pub try_enriched : Result Dump → Worker → Done × Worker
  try_enriched (raised e) w = (raised e, w)
  try_enriched (ok d) w =
      send_built "tengen:enriched_alert" (get_native "runbook" (json (str "tengen")) d) d w

  -- What is raised is logged and counted, so that the callback always returns.
  abbrev pub enriched_outcome : (Error → String) → Done × Worker → Worker
  enriched_outcome describe (ok _, w) = emitting emits "forwarding_success" "destination" "splunk" w
  enriched_outcome describe (raised e, w) =
      emitting emits "forwarding_failure" "error" (describe e) w

  unfoldable pub forward_enriched :
      (String → Option Value) → (Error → String) → Arrival → Worker → Worker
  unfolding send get_native dump_of
  forward_enriched loads describe arrival w =
      enriched_outcome describe (try_enriched (enriched_data loads arrival) w)

  abbrev pub dlq_data : Arrival → Dump
  dlq_data (model d) = d
  dlq_data (other s) = ("raw", json (str s)) ∷ []

  -- The forwarder of dead letters logs what is raised, and does not count it.
  abbrev pub dlq_outcome : Done × Worker → Worker
  dlq_outcome (ok _, w) = emitting emits "forwarding_success" "destination" "splunk_dlq" w
  dlq_outcome (raised e, w) = w

  unfoldable pub forward_dlq : Arrival → Worker → Worker
  unfolding send
  forward_dlq arrival w =
      dlq_outcome (send_built "tengen:dlq_alert" (json (str "tengen.dlq")) (dlq_data arrival) w)

  unfoldable pub forward_dlq_all : List Arrival → Worker → Worker
  unfolding forward_dlq
  forward_dlq_all [] w = w
  forward_dlq_all (a ∷ arrivals) w = forward_dlq_all arrivals (forward_dlq a w)
