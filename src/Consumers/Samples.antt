-- ===== src/Consumers/Samples.antt =====
-- Concrete runs of the consumers, and the theorems at them.
use tengen.Prelude.{
  ℕ, zero, suc, String, true, false, Option, none, some, List, [], ◌∷◌, ◌≡◌, refl, if◌then◌else◌,
  ◌==◌, map, All,
}
use tengen.Value.{Value, Fields, str, obj, field, end, null, get?, get, has, is_text}
use tengen.Models.Alert.Sample.{sample_codec}
use tengen.Queue.Publisher.{Publisher, publish}
use tengen.Consumers.Ingestion.{Stamp, Hooks, Ingest}
use tengen.Consumers.Publishing.{to_publisher, serve, IsAnswered, serve-queued}
use tengen.Consumers.Sqs.Deletion
use tengen.Consumers.Sqs.Deletion.{consume-IsSafe}
use tengen.Consumers.Sqs
use tengen.Consumers.Sqs.{SqsConsumer}
use tengen.Consumers.Kafka
use tengen.Consumers.Kafka.{KafkaMessage, KafkaConsumer, Commit}
use tengen.Consumers.Kafka.Offsets.{IsExact, poll_loop-IsExact}
use tengen.Consumers.PubSub
use tengen.Consumers.PubSub.{Received, PubSubConsumer}
use tengen.Consumers.PubSub.Acknowledged.{messages_of, IsSafe, pull_loop-IsSafe}
use tengen.Consumers.Http
use tengen.Consumers.Http.{
  IngestRequest, HttpConsumer, Response, unauthorized, accepted, bearer, alert_of,
}
use tengen.Consumers.Http.Access.{ingest-accepted}

abbrev stamps : ℕ → Stamp
stamps zero = record { id = "a0"; alert_id = "b0"; received_at = "t0" }
stamps (suc n) = record { id = "a1"; alert_id = "b1"; received_at = "t1" }

abbrev event : Fields
event = field "eventName" (str "StopLogging") end

-- The texts that are JSON here
abbrev loads : String → Option Value
loads t =
    if t == "event"
    then some (obj event)
    else if t == "envelope"
    then some (obj (field "Type" (str "Notification") (field "Message" (str "event") end)))
    else if t == "number"
    then some null
    else none

abbrev publisher : Publisher
publisher = record { connected = true; published = []; faults = false ∷ true ∷ [] }

abbrev ingest_state : Ingest Publisher
ingest_state = record { client = publisher; made = 0; counted = []; calls = [] }

abbrev hooks : Hooks Publisher
hooks = to_publisher stamps true sample_codec

abbrev sqs : SqsConsumer Publisher
sqs = record {
  connected = true;
  running = false;
  ingested = ingest_state;
  deleted = [];
  delete_faults = [];
  backoffs = 0;
}

abbrev sqs_message : String → String → Fields
sqs_message body receipt = field "Body" (str body) (field "ReceiptHandle" (str receipt) end)

-- An envelope, a text that is no JSON, a body that is no dictionary, and a second alert whose
-- publication fails
abbrev sqs_polls : List Sqs.Poll
sqs_polls =
    Sqs.transient_error
    ∷ Sqs.messages (
        sqs_message "envelope" "r1"
        ∷ sqs_message "?" "r2"
        ∷ sqs_message "number" "r3"
        ∷ sqs_message "event" "r4"
        ∷ [])
    ∷ Sqs.interrupted
    ∷ []

sqs_run : (Sqs.consume loads hooks sqs_polls sqs).1.deleted ≡ str "r1" ∷ []
unfolding Sqs.consume get get? has is_text publish
sqs_run = refl

consume-IsSafe_example : Deletion.IsSafe (Sqs.consume loads hooks sqs_polls sqs).1
consume-IsSafe_example = consume-IsSafe loads hooks sqs_polls sqs tt

abbrev kafka : KafkaConsumer Publisher
kafka = record {
  connected = true;
  running = true;
  ingested = record ingest_state { client = record publisher { faults = true ∷ [] } };
  commits = [];
  commit_faults = [];
}

abbrev kafka_message : ℕ → KafkaMessage
kafka_message n = record {
  value = some "event";
  topic = "security-alerts";
  partition = 0;
  offset = n;
  key = none;
}

-- The publication of the first alert fails, and the offset is committed past it by the second.
kafka_run :
    Kafka.committed "security-alerts" 0
      (Kafka.poll_loop loads hooks
        (Kafka.message (kafka_message 7) ∷ Kafka.message (kafka_message 8) ∷ [])
        kafka).commits
    ≡ some 9
unfolding Kafka.committed Kafka.poll_loop publish
kafka_run = refl

poll_loop-IsExact_example : IsExact (
    Kafka.poll_loop loads hooks
      (Kafka.message (kafka_message 7) ∷ Kafka.message (kafka_message 8) ∷ [])
      kafka)
poll_loop-IsExact_example =
    poll_loop-IsExact loads hooks
      (Kafka.message (kafka_message 7) ∷ Kafka.message (kafka_message 8) ∷ []) kafka (refl, refl)

abbrev pubsub : PubSubConsumer Publisher
pubsub = record {
  connected = true;
  running = true;
  ingested = ingest_state;
  acknowledged = [];
  acknowledge_faults = [];
}

abbrev pubsub_message : String → String → Received
pubsub_message t id = record {
  data_text = t;
  message_id = id;
  publish_time = "t";
  attributes = end;
  ack_id = id;
}

abbrev pulls : List PubSub.Pull
pulls =
    PubSub.pull_error
    ∷ PubSub.received
        (pubsub_message "event" "x1" ∷ pubsub_message "?" "x2" ∷ pubsub_message "event" "x3" ∷ [])
    ∷ []

pubsub_run : (PubSub.consume loads hooks pulls pubsub).1.acknowledged ≡ "x1" ∷ []
unfolding PubSub.consume publish
pubsub_run = refl

pull_loop-IsSafe_example :
    IsSafe loads (messages_of pulls) (PubSub.pull_loop loads hooks pulls pubsub).1
pull_loop-IsSafe_example = pull_loop-IsSafe loads hooks pulls pubsub refl

abbrev http : HttpConsumer Publisher
http = record {
  token = some "secret";
  built = true;
  ready = true;
  serving = true;
  should_exit = false;
  ingested = ingest_state;
}

abbrev request : Option String → IngestRequest
request header = record {
  raw_payload = event;
  metadata = end;
  source = "universal";
  remote_addr = some "10.0.0.1";
  authorization = header;
}

ingest-accepted_example :
    let a = alert_of hooks (request (some "Bearer secret")) ingest_state in
    (a.id ≡ "a0")
    × (a.raw_payload ≡ event)
    × ((Http.ingest hooks (request (some "Bearer secret")) http).1.ingested.calls
        ≡ record { alert = a; returned = true } ∷ [])
unfolding Http.ingest publish
ingest-accepted_example = ingest-accepted hooks "a0" (request (some "Bearer secret")) http refl

-- Two requests, of which the second has no token, and a third whose publication fails
abbrev requests : List IngestRequest
requests = request (some "Bearer secret") ∷ request none ∷ request (some "Bearer secret") ∷ []

serve_run :
    map (λ x. x.1) (serve sample_codec stamps true requests http).0
    ≡ accepted "a0" ∷ unauthorized ∷ Http.failed ∷ []
unfolding serve Http.ingest publish
serve_run = refl

serve-queued_example :
    All
      (IsAnswered sample_codec (serve sample_codec stamps true requests http).1.ingested.client)
      (serve sample_codec stamps true requests http).0
serve-queued_example = serve-queued sample_codec stamps true requests http
