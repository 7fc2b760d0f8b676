-- ===== src/Metrics/Samples.antt =====
-- Concrete runs: two events, a service that is stopped, and the theorems at them.
use tengen.Prelude.{
  ◌+◌, ◌≤◌, String, true, false, Option, none, some, List, [], ◌∷◌, ◌≡◌, refl, map, lookup, insert,
}
use tengen.Value.{Value, Fields, str, obj, field, end, get, arr, no_items, is_text, get?}
use tengen.Metrics.Store.{Bucket, count, bucket_of, drain, record_event}
use tengen.Metrics.Store.Counting.{drain-counts, tally}
use tengen.Metrics.Store.Rows.{empty_store, start, save_to_db, load_rows}
use tengen.Metrics.Store.Rows.Restart.{
  Reach, first, restart-le, restart_stopped, after, here, counted, flushed, restarted,
}
use tengen.Metrics.Store.Keys.{named, is_key}
use tengen.Metrics.Emitter.{MetricsEmitter, absent, closed, emit_all, message}
use tengen.Metrics.Emitter.Pipeline.{drain-emit_all, event_tally}
use tengen.Queue.Consumer.{ack, nack}
use tengen.Metrics.Store.Rows.Soundness.{Service, NamesTexts}

abbrev matched : Fields
matched = field "route" (str "azure.signin") end

abbrev body_of : String → Value → Value
body_of event fields = obj (field "event" (str event) (field "data" fields end))

-- Two messages that count, one of an event that nothing counts, one whose key is a list, and one
-- that is not JSON.
abbrev bodies : List (Option Value)
bodies =
    some (body_of "route_matched" (obj matched))
    ∷ some (body_of "route_matched" (obj matched))
    ∷ some (body_of "event_suppressed" (obj matched))
    ∷ some (body_of "dlq_enqueued" (obj (field "reason" (arr no_items) end)))
    ∷ none
    ∷ []

replies_run : (drain bodies empty_store).0 ≡ ack ∷ ack ∷ ack ∷ nack false ∷ nack false ∷ []
unfolding drain get is_text is_key
replies_run = refl

drain_run :
    count (named "azure.signin") (bucket_of Bucket.route_counts (drain bodies empty_store).1) ≡ 2
unfolding drain get is_text is_key
drain_run = refl

drain-counts_example :
    count (named "azure.signin") (bucket_of Bucket.route_counts (drain bodies empty_store).1)
    ≡ count (named "azure.signin") [] + tally Bucket.route_counts (named "azure.signin") bodies
drain-counts_example = drain-counts Bucket.route_counts (named "azure.signin") bodies empty_store

abbrev show_value : Value → String
show_value v = "None"

matched-NamesTexts : NamesTexts matched
unfolding get
matched-NamesTexts Bucket.route_counts = ("azure.signin", refl)
matched-NamesTexts Bucket.runbook_success = ("unknown", refl)
matched-NamesTexts Bucket.runbook_error = ("unknown", refl)
matched-NamesTexts Bucket.alert_ingested = ("unknown", refl)
matched-NamesTexts Bucket.dlq_counts = ("unknown", refl)
matched-NamesTexts Bucket.containment_executed = ("unknown", refl)
matched-NamesTexts Bucket.normalization_counts = ("unknown", refl)

-- A service that counted a route, was flushed, and was started again
abbrev served : Service
served = record (first show_value) {
  store = (record_event (str "route_matched") (obj matched) (first show_value).store).1;
}

abbrev flushed_service : Service
flushed_service = record served { db = save_to_db show_value "t1" served.store served.db }

abbrev served_again : Service
served_again = record { store = (start flushed_service.db).0; db = (start flushed_service.db).1 }

served_again-Reach : Reach show_value (first show_value) served_again
served_again-Reach =
    after flushed_service served_again
      (after served flushed_service
        (after (first show_value) served here
          (counted (str "route_matched") matched (first show_value) matched-NamesTexts))
        (flushed "t1" served))
      (restarted flushed_service)

restart_run : count (named "azure.signin") (bucket_of Bucket.route_counts served_again.store) ≡ 1
unfolding start load_rows save_to_db record_event get is_text is_key count get? lookup insert
restart_run = refl

restart-le_example :
    count (named "azure.signin") (bucket_of Bucket.route_counts (start served_again.db).0)
    ≤ count (named "azure.signin") (bucket_of Bucket.route_counts served_again.store)
restart-le_example =
    restart-le show_value served_again served_again-Reach Bucket.route_counts "azure.signin"

restart_stopped_example :
    count (named "azure.signin") (
      bucket_of Bucket.route_counts
        (start (save_to_db show_value "t2" served_again.store served_again.db)).0)
    ≡ count (named "azure.signin") (bucket_of Bucket.route_counts served_again.store)
restart_stopped_example =
    restart_stopped show_value "t2" served_again served_again-Reach Bucket.route_counts
      "azure.signin"

-- An emitter whose channel was closed, over a broker that refuses one connection
abbrev emitter : MetricsEmitter
emitter = record {
  connection = absent;
  channel = closed;
  sent = [];
  connection_faults = true ∷ [];
  publish_faults = [];
}

abbrev calm : MetricsEmitter
calm = record emitter { connection_faults = [] }

abbrev events : List (String × Option Fields)
events = ("route_matched", some matched) ∷ ("runbook_error", none) ∷ []

emit_run : (emit_all "now" events emitter).sent ≡ message "now" "runbook_error" none ∷ []
unfolding emit_all
emit_run = refl

drain-emit_all_example :
    count (named "unknown") (
      bucket_of Bucket.runbook_error
        (drain (map some (emit_all "now" events calm).sent) empty_store).1)
    ≡ count (named "unknown") [] + event_tally Bucket.runbook_error (named "unknown") events
drain-emit_all_example =
    drain-emit_all "now" Bucket.runbook_error (named "unknown") events calm empty_store refl
      (refl, refl)
