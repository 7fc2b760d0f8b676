-- ===== src/Consumers/PubSub.antt =====
-- consumers/pubsub_consumer.py. A pull is interrupted, fails, or gives messages; `acknowledge` may
-- raise, as a schedule says, and then leaves the loop.
pub mod Acknowledged
use tengen.Prelude.{
  ℕ, zero, suc, ◌+◌, ◌-◌, ◌*◌, ◌/◌, ◌%◌, ◌≤◌, ◌<◌, String, Bool, true, false, not, ◌&&◌, ◌||◌,
  Option, none, some, List, [], ◌∷◌, ◌++◌, ◌≡◌, ◌≢◌, refl, sym, ap, subst, ◌∙◌, ◌⊎◌, inl, inr, ◌↔◌,
  Result, ok, raised, Done, ◌>>=◌, if◌then◌else◌, ◌==◌, eq_iff, arith, map, append-nil,
  append_assoc, is_some, get_or, length, all, any, All, Dict, lookup, insert, eqb, ltb, leb, one_of,
  Bool-cases, Option-cases, type_error, attribute_error, key_error, index_error, value_error,
  runtime_error, is_ok, value_or, IsIn, IsIn-append, IsIn-last, All-map, All-IsIn, some-injective,
  ok-injective,
}
use tengen.Value.{Value, Fields, str, obj, field, end}
use tengen.Consumers.Ingestion.{Hooks, Ingest, ingest}

pub record Received : Type 0 where
  pub data_text : String
  pub message_id : String
  pub publish_time : String
  pub attributes : Fields
  pub ack_id : String

pub data Pull : Type 0 where
  interrupted pull_error : Pull
  received : List Received → Pull

pub record PubSubConsumer (C : Type 0) : Type 0 where
  pub connected : Bool
  pub running : Bool
  pub ingested : Ingest C
  pub acknowledged : List String
  pub acknowledge_faults : List Bool

unfoldable pub connect : {C : Type 0} → PubSubConsumer C → PubSubConsumer C
connect c = record c { connected = true; running = true }

unfoldable pub stop : {C : Type 0} → PubSubConsumer C → PubSubConsumer C
stop c = record c { running = false }

unfoldable pub disconnect : {C : Type 0} → PubSubConsumer C → PubSubConsumer C
disconnect c = record c { connected = false; running = false }

abbrev pub metadata_of : Received → Fields
metadata_of m =
    field "message_id" (str m.message_id)
      (field "publish_time" (str m.publish_time) (field "attributes" (obj m.attributes) end))

-- `loads` is `json.loads` of a text.
module _ (loads : String → Option Value) {C : Type 0} (h : Hooks C) where
  abbrev pub process_payload : Received → Option Value → Ingest C → Done × Ingest C
  process_payload m none s = (raised value_error, s)
  process_payload m (some payload) s = ingest h "pubsub" payload (metadata_of m) s

  -- The body of the `try`, up to `ack_ids.append`
  unfoldable pub process : Received → Ingest C → Done × Ingest C
  unfolding ingest
  process m s = process_payload m (loads m.data_text) s

  abbrev pub ack_if : Received → Done → List String
  ack_if m (ok _) = m.ack_id ∷ []
  ack_if m (raised e) = []

  -- The messages of a pull: the ids to acknowledge, and what is left of the state
  unfoldable pub process_all : List Received → Ingest C → List String × Ingest C
  unfolding process
  process_all [] s = ([], s)
  process_all (m ∷ ms) s =
      let (r, s') = process m s in let (ids, s'') = process_all ms s' in (ack_if m r ++ ids, s'')

  abbrev acknowledge_with : List Bool → List String → PubSubConsumer C → Done × PubSubConsumer C
  acknowledge_with [] ids c = (ok tt, record c { acknowledged = c.acknowledged ++ ids })
  acknowledge_with (false ∷ faults) ids c =
      (ok tt, record c { acknowledged = c.acknowledged ++ ids; acknowledge_faults = faults })
  acknowledge_with (true ∷ faults) ids c =
      (raised runtime_error, record c { acknowledge_faults = faults })

  -- `if ack_ids:`
  abbrev pub acknowledge : List String → PubSubConsumer C → Done × PubSubConsumer C
  acknowledge [] c = (ok tt, c)
  acknowledge (id ∷ ids) c = acknowledge_with c.acknowledge_faults (id ∷ ids) c

  abbrev pub handle_pull : List Received → PubSubConsumer C → Done × PubSubConsumer C
  handle_pull ms c =
      let (ids, s) = process_all ms c.ingested in acknowledge ids (record c { ingested = s })

  -- The loop over the pulls to come, until `stop` ends it
  unfoldable pub pull_loop : List Pull → PubSubConsumer C → Done × PubSubConsumer C
  unfolding process_all
  pull_loop [] c = (ok tt, c)
  pull_loop (interrupted ∷ pulls) c = (ok tt, c)
  pull_loop (pull_error ∷ pulls) c = pull_loop pulls c
  pull_loop (received ms ∷ pulls) c =
      let rest = pull_loop pulls (handle_pull ms c).1 in
      elim ((handle_pull ms c).0) [ ok _ ↦ rest | raised e ↦ (raised e, (handle_pull ms c).1) ]

  -- `while self._running`: only `connect` sets it.
  unfoldable pub consume : List Pull → PubSubConsumer C → Done × PubSubConsumer C
  unfolding pull_loop
  consume pulls c =
      if c.connected
      then if c.running then pull_loop pulls c else (ok tt, c)
      else (raised runtime_error, c)
