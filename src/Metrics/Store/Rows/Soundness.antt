-- ===== src/Metrics/Store/Rows/Soundness.antt =====
-- What a service over a file that SQLite can open keeps to, whatever happens to it.
use tengen.Prelude.{
  ℕ, ◌+◌, ◌≤◌, String, true, some, List, [], ◌∷◌, ◌≡◌, refl, inl, inr, ◌==◌, arith, lookup, insert,
  Bool-cases, HasDistinctKeys, HasDistinctKeys-insert,
}
use tengen.Value.{Value, Fields, str, get, obj, to_text, get_in}
use tengen.Metrics.Store.Rows.{
  Table, Database, row_key, save_to_db, start, Bucket, MetricsStore, save_bucket, init_db,
  empty_store, save_buckets, load_from_db, named, load_rows, to_text,
}
use tengen.Metrics.Store.Rows.Loading.{
  IsKeyed, value_in, count-load_rows, load_rows-IsNamed, count_absent, with_bucket-Each,
  put-IsNamed,
}
use tengen.Metrics.Store.Rows.Saving.{IsNamed, has_name, lookup-save_all}
use tengen.Metrics.Store.{
  record_event, MetricsStore, Bucket, bucket_of, count, Key, Counter, buckets, get_in, increment,
  record_target, put,
}
use tengen.Metrics.Store.Targets.{field_of, target-Targets}
use tengen.Metrics.Store.Keys.{named}
use tengen.Metrics.Store.Counting.{record_event-counts}

pub record Service : Type 0 where
  pub store : MetricsStore
  pub db : Database

-- The data of an event that names texts, as every event of the program does
abbrev pub NamesTexts : Fields → Type 0
NamesTexts fs = (b : Bucket) → (name : String) × (get (field_of b) (str "unknown") fs ≡ str name)

-- What the file would give back for a name
abbrev pub saved : Bucket → String → Table → ℕ
saved b name rows = value_in (lookup (row_key b name) rows) 0

-- The file can be opened, its rows are of counters and names, the counters' keys are texts, and no
-- row is ahead of its counter.
pub record IsSound (v : Service) (rows : Table) : Type 0 where
  pub opens : v.db ≡ record { reachable = true; table = some rows }
  pub keyed : IsKeyed rows
  pub distinct : HasDistinctKeys rows
  pub named : (b : Bucket) → IsNamed (bucket_of b v.store)
  pub behind :
      (b : Bucket) (name : String)
      → saved b name rows ≤ count (Key.named name) (bucket_of b v.store)

-- The tables that saving writes stay keyed and distinct.
module _ (show : Value → String) (now : String) where
  insert-IsKeyed :
      (b : Bucket) (name : String) (x : ℕ × String) (rows : Table)
      → IsKeyed rows
      → IsKeyed (insert (row_key b name) x rows)
  unfolding insert
  insert-IsKeyed b name x [] h = ((b, name, refl), tt)
  insert-IsKeyed b name x ((k, y) ∷ rows) (p, h) = elim (Bool-cases (k == row_key b name)) [
    | inl e ↦ rw e (p, h)
    | inr e ↦ rw e (p, insert-IsKeyed b name x rows h)
  ]

  save_bucket-IsKeyed :
      (b : Bucket) (c : Counter) (rows : Table)
      → IsKeyed rows
      → IsKeyed (save_bucket show now b c rows)
  unfolding save_bucket
  save_bucket-IsKeyed b [] rows h = h
  save_bucket-IsKeyed b ((v, n) ∷ c) rows h =
      save_bucket-IsKeyed b c _ (insert-IsKeyed b (to_text show v) (n, now) rows h)

  pub save_buckets-IsKeyed :
      (bs : List Bucket) (s : MetricsStore) (rows : Table)
      → IsKeyed rows
      → IsKeyed (save_buckets show now bs s rows)
  unfolding save_buckets
  save_buckets-IsKeyed [] s rows h = h
  save_buckets-IsKeyed (b ∷ bs) s rows h =
      save_buckets-IsKeyed bs s _ (save_bucket-IsKeyed b (bucket_of b s) rows h)

  save_bucket-HasDistinctKeys :
      (b : Bucket) (c : Counter) (rows : Table)
      → HasDistinctKeys rows
      → HasDistinctKeys (save_bucket show now b c rows)
  unfolding save_bucket
  save_bucket-HasDistinctKeys b [] rows h = h
  save_bucket-HasDistinctKeys b ((v, n) ∷ c) rows h =
      save_bucket-HasDistinctKeys b c _
        (HasDistinctKeys-insert (row_key b (to_text show v)) (n, now) rows h)

  save_buckets-HasDistinctKeys :
      (bs : List Bucket) (s : MetricsStore) (rows : Table)
      → HasDistinctKeys rows
      → HasDistinctKeys (save_buckets show now bs s rows)
  unfolding save_buckets
  save_buckets-HasDistinctKeys [] s rows h = h
  save_buckets-HasDistinctKeys (b ∷ bs) s rows h =
      save_buckets-HasDistinctKeys bs s _ (save_bucket-HasDistinctKeys b (bucket_of b s) rows h)

  -- After a flush, the file gives back what the store counts.
  pub saved-save_all :
      (v : Service) (rows : Table)
      → IsSound v rows
      → (b : Bucket) (name : String)
      → saved b name (save_buckets show now buckets v.store rows)
        ≡ count (named name) (bucket_of b v.store)
  saved-save_all v rows h b name = elim (Bool-cases (has_name name (bucket_of b v.store))) [
    | inl e ↦ rw (lookup-save_all show now b name v.store rows h.named, e) refl
    | inr e ↦
        rw (lookup-save_all show now b name v.store rows h.named, e)
          (let p = h.behind b name in
            let q = count_absent name (bucket_of b v.store) e in omega arith)
  ]

  pub flushed-IsSound :
      (v : Service) (rows : Table)
      → IsSound v rows
      → IsSound
          (record v { db = save_to_db show now v.store v.db })
          (save_buckets show now buckets v.store rows)
  unfolding save_to_db
  flushed-IsSound v rows h = record {
    opens = rw h.opens refl;
    keyed = save_buckets-IsKeyed buckets v.store rows h.keyed;
    distinct = save_buckets-HasDistinctKeys buckets v.store rows h.distinct;
    named = h.named;
    behind = λ b name. rw (saved-save_all v rows h b name) (omega arith);
  }

pub empty-IsNamed : (b : Bucket) → IsNamed (bucket_of b empty_store)
empty-IsNamed Bucket.route_counts = tt
empty-IsNamed Bucket.runbook_success = tt
empty-IsNamed Bucket.runbook_error = tt
empty-IsNamed Bucket.alert_ingested = tt
empty-IsNamed Bucket.dlq_counts = tt
empty-IsNamed Bucket.containment_executed = tt
empty-IsNamed Bucket.normalization_counts = tt

pub count-empty : (k : Key) (b : Bucket) → count k (bucket_of b empty_store) ≡ 0
unfolding count
count-empty k Bucket.route_counts = refl
count-empty k Bucket.runbook_success = refl
count-empty k Bucket.runbook_error = refl
count-empty k Bucket.alert_ingested = refl
count-empty k Bucket.dlq_counts = refl
count-empty k Bucket.containment_executed = refl
count-empty k Bucket.normalization_counts = refl

pub start-store :
    (v : Service) (rows : Table) → IsSound v rows → (start v.db).0 ≡ load_rows rows empty_store
unfolding start init_db load_from_db
start-store v rows h = rw h.opens refl

pub restarted-IsSound :
    (v : Service) (rows : Table)
    → IsSound v rows
    → IsSound (record { store = (start v.db).0; db = (start v.db).1 }) rows
unfolding start init_db
restarted-IsSound v rows h = record {
  opens = rw h.opens refl;
  keyed = h.keyed;
  distinct = h.distinct;
  named =
      λ b. rw (start-store v rows h) (load_rows-IsNamed rows empty_store h.keyed empty-IsNamed b);
  behind = λ b name.
      rw
        (
          start-store v rows h,
          count-load_rows b name rows empty_store h.keyed h.distinct,
          count-empty (named name) b,
        )
        (omega arith);
}

target-IsNamed :
    (o : Bucket) (fs : Fields) (s : MetricsStore)
    → NamesTexts fs
    → ((b : Bucket) → IsNamed (bucket_of b s))
    → (b : Bucket) → IsNamed (bucket_of b (record_target (some (o, field_of o)) (obj fs) s).1)
unfolding get_in increment
target-IsNamed o fs s t h b =
    let (name, p) = t o in
    rw p (
      with_bucket-Each (λ c. IsNamed c) o
        (put (named name) (str name) (count (named name) (bucket_of o s) + 1) (bucket_of o s)) s
        (put-IsNamed name (count (named name) (bucket_of o s) + 1) (bucket_of o s) (h o)) h b)

record_event-IsNamed :
    (e : Value) (fs : Fields) (s : MetricsStore)
    → NamesTexts fs
    → ((b : Bucket) → IsNamed (bucket_of b s))
    → (b : Bucket) → IsNamed (bucket_of b (record_event e (obj fs) s).1)
unfolding record_event
record_event-IsNamed e fs s t h b = elim (target-Targets e) [
  | inl (p, _) ↦ rw p (h b)
  | inr (o, p, _) ↦ rw p (target-IsNamed o fs s t h b)
]

pub counted-IsSound :
    (e : Value) (fs : Fields) (v : Service) (rows : Table)
    → NamesTexts fs
    → IsSound v rows
    → IsSound (record v { store = (record_event e (obj fs) v.store).1 }) rows
counted-IsSound e fs v rows t h = record {
  opens = h.opens;
  keyed = h.keyed;
  distinct = h.distinct;
  named = record_event-IsNamed e fs v.store t h.named;
  behind = λ b name.
      omega (arith, h.behind b name, record_event-counts b (named name) e (obj fs) v.store);
}
