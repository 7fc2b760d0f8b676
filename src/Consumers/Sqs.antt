-- ===== src/Consumers/Sqs.antt =====
-- consumers/sqs_consumer.py. A poll of SQS is interrupted, fails for a while, or gives messages; the
-- queue's `delete_message` may raise, as a schedule says.
pub mod Deletion
pub mod Envelopes
use tengen.Prelude.{
  ℕ, zero, suc, ◌+◌, ◌-◌, ◌*◌, ◌/◌, ◌%◌, ◌≤◌, ◌<◌, String, Bool, true, false, not, ◌&&◌, ◌||◌,
  Option, none, some, List, [], ◌∷◌, ◌++◌, ◌≡◌, ◌≢◌, refl, sym, ap, subst, ◌∙◌, ◌⊎◌, inl, inr, ◌↔◌,
  Result, ok, raised, Done, ◌>>=◌, if◌then◌else◌, ◌==◌, eq_iff, arith, map, append-nil,
  append_assoc, is_some, get_or, length, all, any, All, Dict, lookup, insert, eqb, ltb, leb, one_of,
  Bool-cases, Option-cases, type_error, attribute_error, key_error, index_error, value_error,
  runtime_error, is_ok, value_or, IsIn, IsIn-append, IsIn-last, All-map, some-injective,
  ok-injective,
}
use tengen.Value.{Value, Fields, str, obj, field, end, null, get, get?, has, is_text}
use tengen.Consumers.Ingestion.{Hooks, Ingest, ingest}

pub data Poll : Type 0 where
  interrupted transient_error : Poll
  messages : List Fields → Poll

pub record SqsConsumer (C : Type 0) : Type 0 where
  pub connected : Bool
  pub running : Bool
  pub ingested : Ingest C
  pub deleted : List Value
  pub delete_faults : List Bool
  pub backoffs : ℕ

unfoldable pub connect : {C : Type 0} → SqsConsumer C → SqsConsumer C
connect c = record c { connected = true; running = true }

unfoldable pub stop : {C : Type 0} → SqsConsumer C → SqsConsumer C
stop c = record c { running = false }

unfoldable pub disconnect : {C : Type 0} → SqsConsumer C → SqsConsumer C
disconnect c = record c { connected = false; running = false }

-- `loads` is `json.loads` of a text: `none` is a JSONDecodeError.
module _ (loads : String → Option Value) where
  abbrev pub load_value : Value → Result (Option Value)
  load_value (str t) = ok (loads t)
  load_value _ = raised type_error

  -- The message of an SNS envelope: what is no JSON is kept as it is.
  abbrev pub notified : Value → Result (Option Value) → Value
  notified message (ok (some payload)) = payload
  notified message _ = obj (field "message" message end)

  unfoldable pub unwrap : Fields → Value
  unfolding get has is_text get?
  unwrap body =
      if is_text (get "Type" null body) "Notification" && has "Message" body
      then notified (get "Message" null body) (load_value (get "Message" null body))
      else obj body

  abbrev pub metadata_of : Fields → Fields → Fields
  metadata_of msg body = field "message_id" (get "MessageId" null msg) (
      field "receipt_handle" (get "ReceiptHandle" null msg)
        (field "topic_arn" (get "TopicArn" null body) end))

  module _ {C : Type 0} (h : Hooks C) where
    abbrev delete_of : List Bool → Value → SqsConsumer C → Done × SqsConsumer C
    delete_of [] handle c = (ok tt, record c { deleted = c.deleted ++ handle ∷ [] })
    delete_of (false ∷ faults) handle c =
        (ok tt, record c { deleted = c.deleted ++ handle ∷ []; delete_faults = faults })
    delete_of (true ∷ faults) handle c = (raised runtime_error, record c { delete_faults = faults })

    -- `msg["ReceiptHandle"]`, when the callback has returned
    abbrev delete_handle : Option Value → SqsConsumer C → Done × SqsConsumer C
    delete_handle none c = (raised key_error, c)
    delete_handle (some handle) c = delete_of c.delete_faults handle c

    abbrev after_callback : Fields → SqsConsumer C → Done × Ingest C → Done × SqsConsumer C
    after_callback msg c (raised e, s) = (raised e, record c { ingested = s })
    after_callback msg c (ok _, s) =
        delete_handle (get? "ReceiptHandle" msg) (record c { ingested = s })

    abbrev handle_body : Fields → Result (Option Value) → SqsConsumer C → Done × SqsConsumer C
    handle_body msg (raised e) c = (raised e, c)
    handle_body msg (ok none) c = (ok tt, c)
    handle_body msg (ok (some (obj body))) c =
        after_callback msg c (ingest h "sqs" (unwrap body) (metadata_of msg body) c.ingested)
    handle_body msg (ok (some _)) c = (raised attribute_error, c)

    unfoldable pub handle_message : Fields → SqsConsumer C → Done × SqsConsumer C
    unfolding ingest unwrap get get?
    handle_message msg c = handle_body msg (load_value (get "Body" (str "{}") msg)) c

    -- A message that fails is logged, and the next one is handled.
    unfoldable pub handle_all : List Fields → SqsConsumer C → SqsConsumer C
    unfolding handle_message
    handle_all [] c = c
    handle_all (msg ∷ msgs) c = handle_all msgs (handle_message msg c).1

    -- The loop over the polls to come, until one is interrupted or `stop` ends it
    unfoldable pub poll_loop : List Poll → SqsConsumer C → SqsConsumer C
    unfolding handle_all
    poll_loop [] c = c
    poll_loop (interrupted ∷ polls) c = c
    poll_loop (transient_error ∷ polls) c = poll_loop polls (record c { backoffs = c.backoffs + 1 })
    poll_loop (messages msgs ∷ polls) c = poll_loop polls (handle_all msgs c)

    -- The consumption needs a client.
    abbrev pub consume_if : Bool → List Poll → SqsConsumer C → Done × SqsConsumer C
    consume_if true polls c = (ok tt, poll_loop polls (record c { running = true }))
    consume_if false polls c = (raised runtime_error, c)

    unfoldable pub consume : List Poll → SqsConsumer C → Done × SqsConsumer C
    unfolding poll_loop
    consume polls c = consume_if c.connected polls c
