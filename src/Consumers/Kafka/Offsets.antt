-- ===== src/Consumers/Kafka/Offsets.antt =====
-- consumers/kafka_consumer.py: which offsets are committed.
use tengen.Prelude.{
  ℕ, ◌+◌, String, Bool, true, false, Option, List, [], ◌∷◌, ◌++◌, ◌≡◌, refl, sym, ap, ◌∙◌, ◌⊎◌, inl,
  inr, Result, ok, raised, Done, if◌then◌else◌, arith, append-nil, append_assoc, value_error, is_ok,
}
use tengen.Value.{Value, Fields, str, int, pos, get, get?, null}
use tengen.Models.Alert.{Alert}
use tengen.Consumers.Ingestion.{Hooks, Ingest, Call, ingest, ingest-calls}
use tengen.Consumers.Kafka.{
  KafkaMessage, Poll, no_message, error, message, Commit, KafkaConsumer, decoded_key, load_bytes,
  metadata_of, commit_of, commit, after_callback, handle_key, handle_payload, handle, poll_loop,
}

abbrev text_in : Value → String
text_in (str s) = s
text_in _ = ""

abbrev number_in : Value → ℕ
number_in (int (pos n)) = n
number_in _ = 0

-- The commit that the metadata of an alert asks for
abbrev pub commit_read : Fields → Commit
commit_read fs = record {
  topic = text_in (get "topic" null fs);
  partition = number_in (get "partition" null fs);
  next_offset = number_in (get "offset" null fs) + 1;
}

-- The commits for the calls that returned, in their order
abbrev pub commits_of : List Call → List Commit
commits_of [] = []
commits_of (call ∷ calls) =
    (if call.returned then commit_read call.alert.metadata ∷ [] else []) ++ commits_of calls

commits_of-append : (xs ys : List Call) → commits_of (xs ++ ys) ≡ commits_of xs ++ commits_of ys
commits_of-append [] ys = refl
commits_of-append (call ∷ xs) ys =
    rw
      (
        commits_of-append xs ys,
        append_assoc (if call.returned then commit_read call.alert.metadata ∷ [] else [])
            (commits_of xs) (commits_of ys),
      )
      refl

-- No commit fails, and there is one for each call that returned.
abbrev pub IsExact : {C : Type 0} → KafkaConsumer C → Type 0
IsExact c = (c.commit_faults ≡ []) × (c.commits ≡ commits_of c.ingested.calls)

module _ (loads : String → Option Value) {C : Type 0} (h : Hooks C) where
  commit_read-metadata_of :
      (msg : KafkaMessage) (key : Value)
      → commit_read (metadata_of loads msg key) ≡ commit_of loads h msg
  unfolding get get?
  commit_read-metadata_of msg key = refl

  commit-IsExact :
      (msg : KafkaMessage) (c : KafkaConsumer C) (faults : List Bool) (cs : List Commit)
      → faults ≡ []
      → c.commits ++ commit_of loads h msg ∷ [] ≡ commits_of c.ingested.calls
      → c.commit_faults ≡ faults
      → IsExact (commit loads h faults msg c)
  commit-IsExact msg c [] cs e k f = (f, k)
  commit-IsExact msg c (b ∷ faults) cs e k f = ground arith

  after-IsExact :
      (msg : KafkaMessage) (key : Value) (c : KafkaConsumer C) (r : Done × Ingest C)
      → (r.1 ≡ c.ingested) × (r.0 ≡ raised value_error)
        ⊎ ((alert : Alert) × (alert.metadata ≡ metadata_of loads msg key)
            × (r.1.calls ≡ c.ingested.calls ++ record { alert = alert; returned = is_ok r.0 } ∷ []))
      → IsExact c
      → IsExact (after_callback loads h msg c r)
  after-IsExact msg key c (raised e, s) (inl (p, q)) (f, k) =
      (f, k ∙ ap (λ t. commits_of t.calls) (sym p))
  after-IsExact msg key c (raised e, s) (inr (alert, p, q)) (f, k) = (
    f,
    k
        ∙ sym (append-nil (commits_of c.ingested.calls))
        ∙ sym (
            ap commits_of q
            ∙ commits_of-append c.ingested.calls (record { alert = alert; returned = false } ∷ [])),
  )
  after-IsExact msg key c (ok x, s) (inl (p, q)) k = ground arith
  after-IsExact msg key c (ok x, s) (inr (alert, p, q)) (f, k) =
      commit-IsExact msg (record c { ingested = s }) c.commit_faults [] f
        (ap (λ l. l ++ commit_of loads h msg ∷ []) k
          ∙ ap (λ x. commits_of c.ingested.calls ++ x ∷ [])
              (sym (ap commit_read p ∙ commit_read-metadata_of msg key))
          ∙ sym (
              ap commits_of q
              ∙ commits_of-append c.ingested.calls
                  (record { alert = alert; returned = true } ∷ [])))
        refl

  key-IsExact :
      (msg : KafkaMessage) (payload : Value) (r : Result Value) (c : KafkaConsumer C)
      → IsExact c
      → IsExact (handle_key loads h msg payload r c)
  key-IsExact msg payload (raised e) c k = k
  key-IsExact msg payload (ok key) c k =
      after-IsExact msg key c (ingest h "kafka" payload (metadata_of loads msg key) c.ingested)
        (ingest-calls h "kafka" payload (metadata_of loads msg key) c.ingested) k

  payload-IsExact :
      (msg : KafkaMessage) (r : Result Value) (c : KafkaConsumer C)
      → IsExact c
      → IsExact (handle_payload loads h msg r c)
  payload-IsExact msg (raised e) c k = k
  payload-IsExact msg (ok payload) c k = key-IsExact msg payload (decoded_key msg.key) c k

  -- While no commit fails, whatever is polled, the commits are those of the alerts on which the
  -- callback has returned, in their order: a failed one between them holds nothing back.
  pub poll_loop-IsExact :
      (polls : List Poll) (c : KafkaConsumer C) → IsExact c → IsExact (poll_loop loads h polls c)
  unfolding poll_loop handle
  poll_loop-IsExact [] c k = k
  poll_loop-IsExact (no_message ∷ polls) c k = poll_loop-IsExact polls c k
  poll_loop-IsExact (error ∷ polls) c k = poll_loop-IsExact polls c k
  poll_loop-IsExact (message msg ∷ polls) c k =
      poll_loop-IsExact polls (handle loads h msg c)
        (payload-IsExact msg (load_bytes loads msg.value) c k)
