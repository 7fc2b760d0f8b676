-- ===== src/Metrics/Store.antt =====
-- dashboard/metrics_store.py and dashboard/metrics_consumer.py: the counters, their rows in SQLite,
-- and the messages that count.
pub mod Keys
pub mod Buckets
pub mod Targets
pub mod Counting
pub mod Rows
use tengen.Prelude.{
  ℕ, zero, suc, ◌+◌, ◌-◌, ◌*◌, ◌/◌, ◌%◌, ◌≤◌, ◌<◌, String, Bool, true, false, not, ◌&&◌, ◌||◌,
  Option, none, some, List, [], ◌∷◌, ◌++◌, ◌≡◌, ◌≢◌, refl, sym, ap, ◌∙◌, ◌⊎◌, inl, inr, ◌↔◌, Result,
  ok, raised, Done, ◌>>=◌, if◌then◌else◌, ◌==◌, eq_iff, arith, map, append-nil, append_assoc,
  is_some, get_or, length, all, any, All, Dict, lookup, insert, eqb, ltb, leb, one_of, Bool-cases,
  Option-cases, type_error, attribute_error, key_error, index_error, value_error, runtime_error,
  is_ok, value_or, some-injective, ok-injective,
}
use tengen.Value.{Value, str, obj, get, get_in, is_text, empty_obj}
use tengen.Text.{cat, partition}
use tengen.Metrics.Store.Keys.{Key, key_of, is_key}
use Prim.Native.String.{String, []}
use Prim.Native.Nat.{ℕ}
use tengen.Queue.Consumer.{Reply, nack, ack}

-- A counter: its keys as they were first given, and their counts
abbrev pub Counter : Type 0
Counter = List (Value × ℕ)

-- The seven counters of the store
pub data Bucket : Type 0 where
  route_counts runbook_success runbook_error alert_ingested dlq_counts : Bucket
  containment_executed normalization_counts : Bucket

pub record MetricsStore : Type 0 where
  pub route_counts : Counter
  pub runbook_success : Counter
  pub runbook_error : Counter
  pub alert_ingested : Counter
  pub dlq_counts : Counter
  pub containment_executed : Counter
  pub normalization_counts : Counter

-- `counter.get(key, 0)`
unfoldable pub count : Key → Counter → ℕ
count k [] = 0
count k ((v, n) ∷ c) = if is_key k v then n else count k c

-- `counter[key] = n`: a key keeps its place and its first spelling.
unfoldable pub put : Key → Value → ℕ → Counter → Counter
put k v n [] = (v, n) ∷ []
put k v n ((w, m) ∷ c) = if is_key k w then (w, n) ∷ c else (w, m) ∷ put k v n c

-- The key is hashed before anything is counted: a dictionary or a list raises.
unfoldable pub increment : Value → ℕ → Counter → Result Counter
unfolding count put key_of
increment v amount c = key_of v >>= λ k. ok (put k v (count k c + amount) c)

abbrev pub bucket_of : Bucket → MetricsStore → Counter
bucket_of Bucket.route_counts s = s.route_counts
bucket_of Bucket.runbook_success s = s.runbook_success
bucket_of Bucket.runbook_error s = s.runbook_error
bucket_of Bucket.alert_ingested s = s.alert_ingested
bucket_of Bucket.dlq_counts s = s.dlq_counts
bucket_of Bucket.containment_executed s = s.containment_executed
bucket_of Bucket.normalization_counts s = s.normalization_counts

abbrev pub with_bucket : Bucket → Counter → MetricsStore → MetricsStore
with_bucket Bucket.route_counts c s = record s { route_counts = c }
with_bucket Bucket.runbook_success c s = record s { runbook_success = c }
with_bucket Bucket.runbook_error c s = record s { runbook_error = c }
with_bucket Bucket.alert_ingested c s = record s { alert_ingested = c }
with_bucket Bucket.dlq_counts c s = record s { dlq_counts = c }
with_bucket Bucket.containment_executed c s = record s { containment_executed = c }
with_bucket Bucket.normalization_counts c s = record s { normalization_counts = c }

-- The counter and the field of the data that name what an event counts
unfoldable pub target_counter : Value → Option (Bucket × String)
unfolding is_text
target_counter e =
    if is_text e "alert_ingested"
    then some (Bucket.alert_ingested, "source")
    else if is_text e "route_matched"
    then some (Bucket.route_counts, "route")
    else if is_text e "dlq_enqueued"
    then some (Bucket.dlq_counts, "reason")
    else if is_text e "runbook_success"
    then some (Bucket.runbook_success, "runbook")
    else if is_text e "runbook_error"
    then some (Bucket.runbook_error, "runbook")
    else if is_text e "containment_executed"
    then some (Bucket.containment_executed, "action")
    else if is_text e "event_normalized"
    then some (Bucket.normalization_counts, "source_type")
    else none

-- The counter after an increment that returned goes back into the store.
abbrev pub stored : Bucket → MetricsStore → Result Counter → Done × MetricsStore
stored b s (raised e) = (raised e, s)
stored b s (ok c) = (ok tt, with_bucket b c s)

abbrev pub record_target : Option (Bucket × String) → Value → MetricsStore → Done × MetricsStore
record_target none fields s = (ok tt, s)
record_target (some (b, name)) fields s =
    stored b s (get_in fields name (str "unknown") >>= λ v. increment v 1 (bucket_of b s))

unfoldable pub record_event : Value → Value → MetricsStore → Done × MetricsStore
unfolding target_counter increment get_in
record_event event fields s = record_target (target_counter event) fields s

-- `on_message`: `none` is a body that is not JSON.
abbrev pub reply_to : Done × MetricsStore → Reply × MetricsStore
reply_to (ok _, s) = (ack, s)
reply_to (raised _, s) = (nack false, s)

abbrev pub record_message : Value → MetricsStore → Done × MetricsStore
record_message (obj msg) s = record_event (get "event" (str "") msg) (get "data" empty_obj msg) s
record_message _ s = (raised attribute_error, s)

unfoldable pub on_message : Option Value → MetricsStore → Reply × MetricsStore
unfolding record_event get
on_message none s = (nack false, s)
on_message (some msg) s = reply_to (record_message msg s)

-- `start_consuming`: the messages of the queue, one after another
unfoldable pub drain : List (Option Value) → MetricsStore → List Reply × MetricsStore
unfolding on_message
drain [] s = ([], s)
drain (body ∷ bodies) s =
    let (reply, s') = on_message body s in
    let (replies, s'') = drain bodies s' in (reply ∷ replies, s'')

-- The names of the counters, in the order of the snapshot
abbrev pub bucket_name : Bucket → String
bucket_name Bucket.route_counts = "route_counts"
bucket_name Bucket.runbook_success = "runbook_success"
bucket_name Bucket.runbook_error = "runbook_error"
bucket_name Bucket.alert_ingested = "alert_ingested"
bucket_name Bucket.dlq_counts = "dlq_counts"
bucket_name Bucket.containment_executed = "containment_executed"
bucket_name Bucket.normalization_counts = "normalization_counts"

abbrev pub buckets : List Bucket
buckets =
    Bucket.route_counts ∷ Bucket.runbook_success ∷ Bucket.runbook_error ∷ Bucket.alert_ingested
    ∷ Bucket.dlq_counts ∷ Bucket.containment_executed ∷ Bucket.normalization_counts ∷ []

unfoldable pub bucket_by_name : String → Option Bucket
bucket_by_name name =
    if name == "route_counts"
    then some Bucket.route_counts
    else if name == "runbook_success"
    then some Bucket.runbook_success
    else if name == "runbook_error"
    then some Bucket.runbook_error
    else if name == "alert_ingested"
    then some Bucket.alert_ingested
    else if name == "dlq_counts"
    then some Bucket.dlq_counts
    else if name == "containment_executed"
    then some Bucket.containment_executed
    else if name == "normalization_counts"
    then some Bucket.normalization_counts
    else none
