-- ===== src/Metrics/Store/Rows/Restart.antt =====
-- dashboard/metrics_store.py: a process that counts, flushes, stops and starts again, over a file
-- that SQLite can open.
use tengen.Prelude.{◌≤◌, String, true, none, [], ◌≡◌, refl, arith, lookup}
use tengen.Value.{Value, Fields, obj}
use tengen.Metrics.Store.Rows.{
  Table, save_to_db, start, Bucket, init_db, empty_store, save_buckets, load_from_db, named,
  load_rows,
}
use tengen.Metrics.Store.Rows.Loading.{count-load_rows}
use tengen.Metrics.Store.{record_event, Bucket, bucket_of, count, buckets}
use tengen.Metrics.Store.Keys.{named}
use tengen.Metrics.Store.Rows.Soundness.{
  Service, NamesTexts, IsSound, saved-save_all, flushed-IsSound, empty-IsNamed, count-empty,
  start-store, restarted-IsSound, counted-IsSound,
}

-- What can happen to the service: an event is counted, the counters are flushed, by the thread or by
-- `stop`, or the process dies and another one starts.
pub data Step (show : Value → String) : Service → Service → Type 0 where
  counted :
      (e : Value) (fs : Fields) (v : Service)
      → NamesTexts fs
      → Step show v (record v { store = (record_event e (obj fs) v.store).1 })
  flushed :
      (now : String) (v : Service)
      → Step show v (record v { db = save_to_db show now v.store v.db })
  restarted : (v : Service) → Step show v (record { store = (start v.db).0; db = (start v.db).1 })

pub data Reach (show : Value → String) (v : Service) : Service → Type 0 where
  here : Reach show v v
  after : (u w : Service) → Reach show v u → Step show u w → Reach show v w

module _ (show : Value → String) where
  Step-IsSound :
      (v w : Service)
      → Step show v w
      → (rows : Table) → IsSound v rows
      → (rows' : Table) × IsSound w rows'
  Step-IsSound v w (counted e fs _ t) rows h = (rows, counted-IsSound e fs v rows t h)
  Step-IsSound v w (flushed now _) rows h =
      (save_buckets show now buckets v.store rows, flushed-IsSound show now v rows h)
  Step-IsSound v w (restarted _) rows h = (rows, restarted-IsSound v rows h)

  -- The service over a file that is not there yet
  abbrev pub first : Service
  first = record {
    store = (start (record { reachable = true; table = none })).0;
    db = (start (record { reachable = true; table = none })).1;
  }

  first-IsSound : IsSound first []
  unfolding start init_db load_from_db load_rows lookup count
  first-IsSound = record {
    opens = refl;
    keyed = tt;
    distinct = tt;
    named = empty-IsNamed;
    behind = λ b name. omega arith;
  }

  Reach-IsSound : (w : Service) → Reach show first w → (rows : Table) × IsSound w rows
  Reach-IsSound w here = ([], first-IsSound)
  Reach-IsSound w (after u _ r step) =
      let (rows, h) = Reach-IsSound u r in Step-IsSound u w step rows h

  -- However a service has counted, flushed and been started again, a process that starts on its file
  -- now counts no name more often than the service does.
  pub restart-le :
      (w : Service)
      → Reach show first w
      → (b : Bucket) (name : String)
      → count (named name) (bucket_of b (start w.db).0) ≤ count (named name) (bucket_of b w.store)
  restart-le w r b name =
      let (rows, h) = Reach-IsSound w r in
      rw
        (
          start-store w rows h,
          count-load_rows b name rows empty_store h.keyed h.distinct,
          count-empty (named name) b,
        )
        (h.behind b name)

  -- However a service has come about, a process that starts after it was stopped counts every name
  -- as often as the service did.
  pub restart_stopped :
      (now : String) (w : Service)
      → Reach show first w
      → (b : Bucket) (name : String)
      → count (named name) (bucket_of b (start (save_to_db show now w.store w.db)).0)
        ≡ count (named name) (bucket_of b w.store)
  restart_stopped now w r b name =
      let (rows, h) = Reach-IsSound w r in
      let f = flushed-IsSound show now w rows h in
      let rows' = save_buckets show now buckets w.store rows in
      rw
        (
          start-store (record w { db = save_to_db show now w.store w.db }) rows' f,
          count-load_rows b name rows' empty_store f.keyed f.distinct,
          count-empty (named name) b,
        )
        (saved-save_all show now w rows h b name)
