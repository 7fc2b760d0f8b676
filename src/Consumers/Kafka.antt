-- ===== src/Consumers/Kafka.antt =====
-- consumers/kafka_consumer.py. A poll of Kafka gives nothing, an error, or a record; `commit` may
-- raise, as a schedule says. The broker keeps, for a partition, the offset after the committed one.
pub mod Offsets
use tengen.Prelude.{
  ℕ, zero, suc, ◌+◌, ◌-◌, ◌*◌, ◌/◌, ◌%◌, ◌≤◌, ◌<◌, String, Bool, true, false, not, ◌&&◌, ◌||◌,
  Option, none, some, List, [], ◌∷◌, ◌++◌, ◌≡◌, ◌≢◌, refl, sym, ap, subst, ◌∙◌, ◌⊎◌, inl, inr, ◌↔◌,
  Result, ok, raised, Done, ◌>>=◌, if◌then◌else◌, ◌==◌, eq_iff, arith, map, append-nil,
  append_assoc, is_some, get_or, length, all, any, All, Dict, lookup, insert, eqb, ltb, leb, one_of,
  Bool-cases, Option-cases, type_error, attribute_error, key_error, index_error, value_error,
  runtime_error, is_ok, value_or, IsIn, IsIn-append, IsIn-last, All-map, All-IsIn, some-injective,
  ok-injective,
}
use tengen.Value.{Value, Fields, str, obj, field, end, null, int, pos}
use tengen.Consumers.Ingestion.{Hooks, Ingest, ingest}

-- A record: its value, or a tombstone; its place; and its key, which may be no text
pub record KafkaMessage : Type 0 where
  pub value : Option String
  pub topic : String
  pub partition : ℕ
  pub offset : ℕ
  pub key : Option (Option String)

pub data Poll : Type 0 where
  no_message error : Poll
  message : KafkaMessage → Poll

-- The offset that was committed for a partition of a topic
pub record Commit : Type 0 where
  pub topic : String
  pub partition : ℕ
  pub next_offset : ℕ

pub record KafkaConsumer (C : Type 0) : Type 0 where
  pub connected : Bool
  pub running : Bool
  pub ingested : Ingest C
  pub commits : List Commit
  pub commit_faults : List Bool

unfoldable pub connect : {C : Type 0} → KafkaConsumer C → KafkaConsumer C
connect c = record c { connected = true; running = true }

unfoldable pub stop : {C : Type 0} → KafkaConsumer C → KafkaConsumer C
stop c = record c { running = false }

unfoldable pub disconnect : {C : Type 0} → KafkaConsumer C → KafkaConsumer C
disconnect c = record c { connected = false; running = false }

-- `committed` of the broker: the last commit for the partition, none if there is none
unfoldable pub committed : String → ℕ → List Commit → Option ℕ
committed topic partition [] = none
committed topic partition (c ∷ cs) =
    let later = committed topic partition cs in
    elim later [
      | some n ↦ some n
      | none ↦ if c.topic == topic && eqb c.partition partition then some c.next_offset else none
    ]

-- `msg.key().decode() if msg.key() else None`
abbrev pub decoded_key : Option (Option String) → Result Value
decoded_key none = ok null
decoded_key (some none) = raised value_error
decoded_key (some (some key)) = if key == "" then ok null else ok (str key)

-- `loads` is `json.loads` of a text.
module _ (loads : String → Option Value) where
  abbrev pub load_bytes : Option String → Result Value
  load_bytes none = raised type_error
  load_bytes (some t) = elim (loads t) [ none ↦ raised value_error | some v ↦ ok v ]

  abbrev pub metadata_of : KafkaMessage → Value → Fields
  metadata_of msg key = field "topic" (str msg.topic) (
      field "partition" (int (pos msg.partition))
        (field "offset" (int (pos msg.offset)) (field "key" key end)))

  module _ {C : Type 0} (h : Hooks C) where
    abbrev pub commit_of : KafkaMessage → Commit
    commit_of msg = record {
      topic = msg.topic;
      partition = msg.partition;
      next_offset = msg.offset + 1;
    }

    abbrev pub commit : List Bool → KafkaMessage → KafkaConsumer C → KafkaConsumer C
    commit [] msg c = record c { commits = c.commits ++ commit_of msg ∷ [] }
    commit (false ∷ faults) msg c = record c {
      commits = c.commits ++ commit_of msg ∷ [];
      commit_faults = faults;
    }
    commit (true ∷ faults) msg c = record c { commit_faults = faults }

    abbrev pub after_callback : KafkaMessage → KafkaConsumer C → Done × Ingest C → KafkaConsumer C
    after_callback msg c (raised e, s) = record c { ingested = s }
    after_callback msg c (ok _, s) = commit c.commit_faults msg (record c { ingested = s })

    -- The parts of the alert are computed in their order; what is raised is logged.
    abbrev pub handle_key : KafkaMessage → Value → Result Value → KafkaConsumer C → KafkaConsumer C
    handle_key msg payload (raised e) c = c
    handle_key msg payload (ok key) c =
        after_callback msg c (ingest h "kafka" payload (metadata_of msg key) c.ingested)

    abbrev pub handle_payload : KafkaMessage → Result Value → KafkaConsumer C → KafkaConsumer C
    handle_payload msg (raised e) c = c
    handle_payload msg (ok payload) c = handle_key msg payload (decoded_key msg.key) c

    unfoldable pub handle : KafkaMessage → KafkaConsumer C → KafkaConsumer C
    unfolding ingest
    handle msg c = handle_payload msg (load_bytes msg.value) c

    -- The loop over the polls to come, until `stop` ends it
    unfoldable pub poll_loop : List Poll → KafkaConsumer C → KafkaConsumer C
    unfolding handle
    poll_loop [] c = c
    poll_loop (no_message ∷ polls) c = poll_loop polls c
    poll_loop (error ∷ polls) c = poll_loop polls c
    poll_loop (message msg ∷ polls) c = poll_loop polls (handle msg c)

    -- `while self._running`: only `connect` sets it.
    unfoldable pub consume : List Poll → KafkaConsumer C → Done × KafkaConsumer C
    unfolding poll_loop
    consume polls c =
        if c.connected
        then (ok tt, if c.running then poll_loop polls c else c)
        else (raised runtime_error, c)
