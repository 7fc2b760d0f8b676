-- ===== src/Metrics/Emitter/Pipeline.antt =====
-- What becomes of the events: from the emitter over the queue into the store.
use tengen.Prelude.{
  ℕ, ◌+◌, String, Bool, false, ◌&&◌, Option, some, List, [], ◌∷◌, ◌++◌, ◌≡◌, refl, ap, ◌⊎◌,
  if◌then◌else◌, ◌==◌, arith, map,
}
use tengen.Metrics.Store.Keys.{Key}
use tengen.Metrics.Store.{Bucket, MetricsStore, count, bucket_of, drain}
use tengen.Metrics.Store.Targets.{event_of}
use tengen.Value.{Fields, get, Value, get?, is_text, obj}
use tengen.Metrics.Emitter.{
  MetricsEmitter, absent, opened, emit, message, emit_all, Value, first_fault, obj, data_or_empty,
}
use tengen.Metrics.Store.{Bucket}
use tengen.Metrics.Store.Counting.{drain-counts, counts, tally, names}

-- The events that count in a counter under a key
abbrev pub event_counts : Bucket → Key → String × Option Fields → Bool
event_counts b k (event, fields) = event == event_of b && names b k (obj (data_or_empty fields))

abbrev pub event_tally : Bucket → Key → List (String × Option Fields) → ℕ
event_tally b k [] = 0
event_tally b k (e ∷ es) = (if event_counts b k e then 1 else 0) + event_tally b k es

module _ (now : String) where
  -- An event is sent last and the emitter is connected, or it is dropped with the connection.
  pub emit-settles :
      (event : String) (fields : Option Fields) (m : MetricsEmitter)
      → ((emit now event fields m).sent ≡ m.sent ++ message now event fields ∷ [])
          × ((emit now event fields m).connection ≡ opened)
          × ((emit now event fields m).channel ≡ opened)
        ⊎ ((emit now event fields m).sent ≡ m.sent)
          × ((emit now event fields m).connection ≡ absent)
          × ((emit now event fields m).channel ≡ absent)
  unfolding emit
  emit-settles event fields m = ground arith

  -- When the broker accepts the next connection and the next publication, an event is sent, in
  -- whatever state the emitter is.
  pub emit-sent :
      (event : String) (fields : Option Fields) (m : MetricsEmitter)
      → first_fault m.connection_faults ≡ false
      → first_fault m.publish_faults ≡ false
      → (emit now event fields m).sent ≡ m.sent ++ message now event fields ∷ []
  unfolding emit
  emit-sent event fields m h k = ground arith

  -- What is taken from the queue counts as it was emitted.
  message-counts :
      (b : Bucket) (k : Key) (event : String) (fields : Option Fields)
      → counts b k (some (message now event fields)) ≡ event_counts b k (event, fields)
  unfolding get get? is_text
  message-counts b k event fields = refl

  abbrev IsCalm : MetricsEmitter → Type 0
  IsCalm m = (m.connection_faults ≡ []) × (m.publish_faults ≡ [])

  emit-IsCalm :
      (event : String) (fields : Option Fields) (m : MetricsEmitter)
      → IsCalm m
      → IsCalm (emit now event fields m)
  unfolding emit
  emit-IsCalm event fields m h = ground arith

  tally-append :
      (b : Bucket) (k : Key) (xs ys : List (Option Value))
      → tally b k (xs ++ ys) ≡ tally b k xs + tally b k ys
  tally-append b k [] ys = omega arith
  tally-append b k (x ∷ xs) ys = omega (arith, tally-append b k xs ys)

  map-append : (xs ys : List Value) → map some (xs ++ ys) ≡ map some xs ++ map some ys
  map-append [] ys = refl
  map-append (x ∷ xs) ys = ap (λ l. some x ∷ l) (map-append xs ys)

  emit_all-tally :
      (b : Bucket) (k : Key) (es : List (String × Option Fields)) (m : MetricsEmitter)
      → IsCalm m
      → tally b k (map some (emit_all now es m).sent)
        ≡ tally b k (map some m.sent) + event_tally b k es
  unfolding emit_all
  emit_all-tally b k [] m h = omega arith
  emit_all-tally b k ((event, fields) ∷ es) m h =
      rw
        (
          emit_all-tally b k es (emit now event fields m) (emit-IsCalm event fields m h),
          emit-sent event fields m (rw h.0 refl) (rw h.1 refl),
          map-append m.sent (message now event fields ∷ []),
          tally-append b k (map some m.sent) (some (message now event fields) ∷ []),
          message-counts b k event fields,
        )
        (omega arith)

  -- With a broker that raises nothing, every event that is emitted is counted once by the consumer
  -- that drains the queue, in the counter and under the key that it names.
  pub drain-emit_all :
      (b : Bucket) (k : Key) (es : List (String × Option Fields)) (m : MetricsEmitter)
      (s : MetricsStore)
      → m.sent ≡ []
      → IsCalm m
      → count k (bucket_of b (drain (map some (emit_all now es m).sent) s).1)
        ≡ count k (bucket_of b s) + event_tally b k es
  drain-emit_all b k es m s e h =
      rw (drain-counts b k (map some (emit_all now es m).sent) s, emit_all-tally b k es m h, e)
        (omega arith)
