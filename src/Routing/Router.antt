-- ===== src/Routing/Router.antt =====
-- routing/router.py: `_route_alert` and `_publish_to_dlq`, over the publisher and the metrics that
-- the emitter is given. The emitter itself never raises.
pub mod Delivery
pub mod DeadLetters
use tengen.Prelude.{
  String, Bool, true, false, Option, none, some, Result, ok, raised, Error, if◌then◌else◌, List,
  ◌++◌, ◌∷◌, [], Done,
}
use tengen.Value.{Value, Fields, field, obj, str, end}
use tengen.Models.Alert.{Alert, AlertCodec}
use tengen.Queue.Publisher.{Publisher, publish_to_queue, queue_dlq}
use tengen.Routing.Registry.{Route, Registry, match}

pub record Metric : Type 0 where
  pub event : String
  pub fields : Fields

-- `emitting` is whether the router was given an emitter.
pub record Router : Type 0 where
  pub publisher : Publisher
  pub emitting : Bool
  pub emitted : List Metric

abbrev pub one_field : String → String → Fields
one_field k v = field k (str v) end

abbrev emit : String → Fields → Router → Router
emit event fields r =
    if r.emitting
    then record r { emitted = r.emitted ++ record { event = event; fields = fields } ∷ [] }
    else r

-- The call's own exception is logged and dropped.
abbrev after_dlq : String → Done → Router → Router
after_dlq reason (ok _) r = emit "dlq_enqueued" (one_field "reason" reason) r
after_dlq reason (raised _) r = r

abbrev after_publish : Router → Publisher → Router
after_publish r p = record r { publisher = p }

-- `now` is the time that the message is stamped with, `detail` the text of the exception.
module _ (codec : AlertCodec) (now detail : String) where
  unfoldable pub dlq_message : Alert → String → String → Value
  dlq_message alert reason error_detail = obj (
      field "alert" (codec.dump alert) (
        field "dlq_reason" (str reason)
          (field "dlq_at" (str now) (field "error_detail" (str error_detail) end))))

  unfoldable pub publish_to_dlq : Alert → String → String → Router → Router
  unfolding dlq_message
  publish_to_dlq alert reason error_detail r =
      let (result, p) =
        publish_to_queue queue_dlq (dlq_message alert reason error_detail) r.publisher in
      after_dlq reason result (after_publish r p)

  -- `except Exception: … _publish_to_dlq(…); raise`
  abbrev settle : Alert → Route → Done → Router → Done × Router
  settle alert route (ok _) r = (ok tt, emit "route_matched" (one_field "route" route.name) r)
  settle alert route (raised e) r = (raised e, publish_to_dlq alert "publish_failed" detail r)

  abbrev pub dispatch : Alert → Option Route → Router → Done × Router
  dispatch alert none r = (ok tt, publish_to_dlq alert "no_route_matched" "" r)
  dispatch alert (some route) r =
      let (result, p) = publish_to_queue route.queue (codec.dump alert) r.publisher in
      settle alert route result (after_publish r p)

  unfoldable pub route_alert : Registry → Alert → Router → Done × Router
  unfolding publish_to_dlq publish_to_queue
  route_alert registry alert r = dispatch alert (match alert.raw_payload registry) r
