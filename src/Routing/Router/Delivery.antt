-- ===== src/Routing/Router/Delivery.antt =====
-- Where an alert ends up, for every registry and every schedule of failing publications.
use tengen.Prelude.{
  String, Bool, true, false, none, some, List, [], ◌∷◌, ◌++◌, ◌≡◌, arith, is_ok, Option, Done,
  append-nil, refl,
}
use tengen.Models.Alert.{Alert, AlertCodec}
use tengen.Queue.Publisher.{Message, queue_dlq}
use tengen.Routing.Registry.{Route, Registry, match}
use tengen.Routing.Router.{Router, Metric, one_field, dlq_message, route_alert, dispatch}
use tengen.Queue.Consumer.{on_message, ack}

-- How a delivery can end, by the route that was found and the broker's next answers.
pub data Ending : Type 0 where
  published lost dead_lettered failed : Ending

abbrev pub ending : Option Route → List Bool → Ending
ending none (true ∷ _) = lost
ending none _ = published
ending (some _) (true ∷ true ∷ _) = failed
ending (some _) (true ∷ _) = dead_lettered
ending (some _) _ = published

-- Whether the callback returns, so that the consumer acknowledges the message
abbrev pub returns : Ending → Bool
returns published = true
returns lost = true
returns dead_lettered = false
returns failed = false

module _ (codec : AlertCodec) (now detail : String) where
  -- The message that an alert should become: of its route, or a dead letter.
  abbrev pub message_for : Alert → Option Route → Message
  message_for alert (some route) = record { queue = route.queue; body = codec.dump alert }
  message_for alert none = record {
    queue = queue_dlq;
    body = dlq_message codec now detail alert "no_route_matched" "";
  }

  abbrev pub failed_message : Alert → Message
  failed_message alert = record {
    queue = queue_dlq;
    body = dlq_message codec now detail alert "publish_failed" detail;
  }

  abbrev pub messages : Ending → Alert → Option Route → List Message
  messages published alert route = message_for alert route ∷ []
  messages dead_lettered alert route = failed_message alert ∷ []
  messages lost alert route = []
  messages failed alert route = []

  abbrev pub metric_for : Ending → Option Route → List Metric
  metric_for published (some route) =
      record { event = "route_matched"; fields = one_field "route" route.name } ∷ []
  metric_for published none =
      record { event = "dlq_enqueued"; fields = one_field "reason" "no_route_matched" } ∷ []
  metric_for dead_lettered route =
      record { event = "dlq_enqueued"; fields = one_field "reason" "publish_failed" } ∷ []
  metric_for lost route = []
  metric_for failed route = []

  -- The three things that a delivery leaves, as one statement.
  abbrev pub Leaves : Alert → Option Route → Router → Done × Router → Ending → Type 0
  Leaves alert route r (result, after) e =
      (is_ok result ≡ returns e)
      × (after.publisher.published ≡ r.publisher.published ++ messages e alert route)
      × (after.emitted ≡ r.emitted ++ metric_for e route)

  dispatch-Leaves :
      (alert : Alert) (route : Option Route) (faults : List Bool) (r : Router)
      → r.publisher.connected ≡ true
      → r.emitting ≡ true
      → r.publisher.faults ≡ faults
      → Leaves alert route r (dispatch codec now detail alert route r) (ending route faults)
  unfolding route_alert
  dispatch-Leaves alert none [] r on emitting e = ground arith
  dispatch-Leaves alert none (true ∷ fs) r on emitting e =
      ground (arith, append-nil r.publisher.published, append-nil r.emitted)
  dispatch-Leaves alert none (false ∷ fs) r on emitting e = ground arith
  dispatch-Leaves alert (some route) [] r on emitting e = ground arith
  dispatch-Leaves alert (some route) (true ∷ []) r on emitting e = ground arith
  dispatch-Leaves alert (some route) (true ∷ true ∷ fs) r on emitting e =
      ground (arith, append-nil r.publisher.published, append-nil r.emitted)
  dispatch-Leaves alert (some route) (true ∷ false ∷ fs) r on emitting e = ground arith
  dispatch-Leaves alert (some route) (false ∷ fs) r on emitting e = ground arith

  -- For a connected router with an emitter, every registry, alert and schedule of failing
  -- publications: whether the callback returns, what is published and which metrics are emitted are
  -- those of the ending that the route and the broker's next two answers fix.
  pub route_alert-ending :
      (registry : Registry) (alert : Alert) (r : Router)
      → r.publisher.connected ≡ true
      → r.emitting ≡ true
      → Leaves alert
          (match alert.raw_payload registry)
          r
          (route_alert codec now detail registry alert r)
          (ending (match alert.raw_payload registry) r.publisher.faults)
  unfolding route_alert
  route_alert-ending registry alert r on emitting =
      dispatch-Leaves alert (match alert.raw_payload registry) r.publisher.faults r on emitting refl

  -- A message that is acknowledged, when its alert has a route, is in the route's queue.
  pub ack-routed :
      (registry : Registry) (alert : Alert) (route : Route) (r : Router)
      → match alert.raw_payload registry ≡ some route
      → (on_message codec (route_alert codec now detail registry) (codec.dump alert) r).0 ≡ ack
      → (on_message codec
          (route_alert codec now detail registry)
          (codec.dump alert)
          r).1.publisher.published
        ≡ r.publisher.published ++ record { queue = route.queue; body = codec.dump alert } ∷ []
  unfolding on_message route_alert
  ack-routed registry alert route r found acked = ground (arith, codec.validate-dump alert)
