-- ===== src/Metrics/Store/Rows.antt =====
-- dashboard/metrics_store.py: the counters as rows of a table, saved and loaded. What SQLite promises
-- of an upsert and of a transaction is `insert`, all of them or none.
pub mod Saving
pub mod Loading
pub mod Soundness
pub mod Restart
use tengen.Prelude.{
  ℕ, zero, suc, ◌+◌, ◌-◌, ◌*◌, ◌/◌, ◌%◌, ◌≤◌, ◌<◌, String, Bool, true, false, not, ◌&&◌, ◌||◌,
  Option, none, some, List, [], ◌∷◌, ◌++◌, ◌≡◌, ◌≢◌, refl, sym, ap, subst, ◌∙◌, ◌⊎◌, inl, inr, ◌↔◌,
  Result, ok, raised, Done, ◌>>=◌, if◌then◌else◌, ◌==◌, eq_iff, arith, map, append-nil,
  append_assoc, is_some, get_or, length, all, any, All, Dict, lookup, insert, eqb, ltb, leb, one_of,
  Bool-cases, Option-cases, type_error, attribute_error, key_error, index_error, value_error,
  runtime_error, is_ok, value_or, some-injective, ok-injective,
}
use tengen.Value.{Value, str, to_text}
use tengen.Text.{cat, partition}
use tengen.Metrics.Store.Keys.{Key, named}
use tengen.Metrics.Store.{
  Counter, Bucket, MetricsStore, bucket_of, with_bucket, put, bucket_name, buckets, bucket_by_name,
}

-- The table, when it was created_table, by its primary key: a value, and when it was written
abbrev pub Table : Type 0
Table = Dict (ℕ × String)

-- A file that SQLite can open now, or cannot
pub record Database : Type 0 where
  pub reachable : Bool
  pub table : Option Table

abbrev pub created_table : Option Table → Table
created_table none = []
created_table (some rows) = rows

unfoldable pub init_db : Database → Database
init_db db = if db.reachable then record db { table = some (created_table db.table) } else db

abbrev pub row_key : Bucket → String → String
row_key b name = cat (bucket_name b) (cat ":" name)

-- `show` prints a key that is not a text.
module _ (show : Value → String) (now : String) where
  unfoldable pub save_bucket : Bucket → Counter → Table → Table
  unfolding to_text
  save_bucket b [] rows = rows
  save_bucket b ((v, n) ∷ c) rows =
      save_bucket b c (insert (row_key b (to_text show v)) (n, now) rows)

  unfoldable pub save_buckets : List Bucket → MetricsStore → Table → Table
  unfolding save_bucket
  save_buckets [] s rows = rows
  save_buckets (b ∷ bs) s rows = save_buckets bs s (save_bucket b (bucket_of b s) rows)

  -- Whatever SQLite raises is logged: a table that was never created_table is not written.
  abbrev save_table : MetricsStore → Option Table → Option Table
  save_table s none = none
  save_table s (some rows) = some (save_buckets buckets s rows)

  unfoldable pub save_to_db : MetricsStore → Database → Database
  unfolding save_buckets
  save_to_db s db = if db.reachable then record db { table = save_table s db.table } else db

abbrev pub load_row : Option Bucket → String → ℕ → MetricsStore → MetricsStore
load_row none name n s = s
load_row (some b) name n s = with_bucket b (put (named name) (str name) n (bucket_of b s)) s

unfoldable pub load_rows : Table → MetricsStore → MetricsStore
unfolding bucket_by_name partition put
load_rows [] s = s
load_rows ((key, (n, _)) ∷ rows) s =
    let (bucket, name) = partition 58 key in
    load_rows rows (load_row (bucket_by_name bucket) name n s)

abbrev load_table : Option Table → MetricsStore → MetricsStore
load_table none s = s
load_table (some rows) s = load_rows rows s

unfoldable pub load_from_db : Database → MetricsStore → MetricsStore
unfolding load_rows
load_from_db db s = if db.reachable then load_table db.table s else s

abbrev pub empty_store : MetricsStore
empty_store = record {
  route_counts = [];
  runbook_success = [];
  runbook_error = [];
  alert_ingested = [];
  dlq_counts = [];
  containment_executed = [];
  normalization_counts = [];
}

-- `__init__`: the store that a process starts with, and the database after it
unfoldable pub start : Database → MetricsStore × Database
unfolding init_db load_from_db
start db = (load_from_db (init_db db) empty_store, init_db db)

-- The snapshot thread: whether it was started, and `_running`
pub record Flusher : Type 0 where
  pub thread : Bool
  pub running : Bool
  pub counters : MetricsStore
  pub file : Database

unfoldable pub start_snapshot_thread : Flusher → Flusher
start_snapshot_thread f = if f.thread then f else record f { thread = true; running = true }

module _ (show : Value → String) (now : String) where
  unfoldable pub stop : Flusher → Flusher
  unfolding save_to_db
  stop f = record f { running = false; file = save_to_db show now f.counters f.file }

  -- One pass of `_flush_loop`, after the sleep
  unfoldable pub flush_pass : Flusher → Flusher
  unfolding save_to_db
  flush_pass f = if f.running then record f { file = save_to_db show now f.counters f.file } else f
