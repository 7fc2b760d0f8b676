-- ===== src/Routing/Router/DeadLetters.antt =====
-- What becomes of dead letters: a queue whose messages the consumer redelivers, and the consumer of
-- the dead letters themselves (forwarder/dlq_forwarder.py).
use tengen.Prelude.{
  ℕ, zero, suc, String, Bool, true, false, some, List, [], ◌∷◌, ◌++◌, ◌≡◌, refl, sym, ◌∙◌, Done,
  arith, append-nil, append_assoc, length,
}
use tengen.Value.{Value, has, Fields, field, str, end}
use tengen.Models.Alert.{Alert, AlertCodec}
use tengen.Queue.Publisher.{Message}
use tengen.Queue.Consumer.{Reply, nack, on_message}
use tengen.Routing.Registry.{Route, Registry, match}
use tengen.Routing.Router.{Router, dlq_message, route_alert, Fields, field, str, end}
use tengen.Routing.Router.Delivery.{failed_message}

-- The route's queue refuses, the dead-letter queue accepts, at each of `n` deliveries.
unfoldable pub refusals : ℕ → List Bool
refusals zero = []
refusals (suc n) = true ∷ false ∷ refusals n

module _ (codec : AlertCodec) (now detail : String) where
  -- The dead letters of the router do not validate as alerts, so their consumer drops each one.
  pub on_message-dlq_message :
      {S : Type 0} (callback : Alert → S → Done × S) (alert : Alert) (reason error_detail : String)
      (s : S)
      → on_message codec callback (dlq_message codec now detail alert reason error_detail) s
        ≡ (nack false, s)
  unfolding on_message dlq_message has
  on_message-dlq_message callback alert reason error_detail s =
      let fields : Fields = field "alert" (codec.dump alert) (
        field "dlq_reason" (str reason)
          (field "dlq_at" (str now) (field "error_detail" (str error_detail) end))) in
      rw (codec.requires_payload fields refl)

-- A dead letter of the alert for each of these deliveries
unfoldable pub letters : AlertCodec → Alert → List (String × String) → List Message
letters codec alert [] = []
letters codec alert ((now, detail) ∷ later) =
    failed_message codec now detail alert ∷ letters codec alert later

module _ (codec : AlertCodec) (registry : Registry) where
  abbrev handle : String → String → Value → Router → Reply × Router
  handle now detail = on_message codec (route_alert codec now detail registry)

  -- The broker gives the message back until it is acknowledged: one delivery for each time of the
  -- clock, with what the publication that fails then says.
  unfoldable pub redeliver : List (String × String) → Value → Router → Router
  redeliver [] body r = r
  redeliver ((now, detail) ∷ later) body r = redeliver later body (handle now detail body r).1

  handle-failing :
      (now detail : String) (alert : Alert) (route : Route) (faults : List Bool) (r : Router)
      → match alert.raw_payload registry ≡ some route
      → r.publisher.connected ≡ true
      → r.publisher.faults ≡ true ∷ false ∷ faults
      → ((handle now detail (codec.dump alert) r).0 ≡ nack true)
        × ((handle now detail (codec.dump alert) r).1.publisher.connected ≡ true)
        × ((handle now detail (codec.dump alert) r).1.publisher.faults ≡ faults)
        × ((handle now detail (codec.dump alert) r).1.publisher.published
            ≡ r.publisher.published ++ failed_message codec now detail alert ∷ [])
  unfolding on_message route_alert
  handle-failing now detail alert route faults r found on e =
      ground (arith, codec.validate-dump alert)

  -- While the route's queue refuses an alert and the dead-letter queue accepts, the deliveries of its
  -- message, each at its own time and with its own exception, publish one dead letter each, which is
  -- stamped with that time and says that exception.
  pub redeliver-letters :
      (deliveries : List (String × String)) (alert : Alert) (route : Route) (r : Router)
      → match alert.raw_payload registry ≡ some route
      → r.publisher.connected ≡ true
      → r.publisher.faults ≡ refusals (length deliveries)
      → (redeliver deliveries (codec.dump alert) r).publisher.published
        ≡ r.publisher.published ++ letters codec alert deliveries
  unfolding redeliver refusals letters
  redeliver-letters [] alert route r found on e = sym (append-nil r.publisher.published)
  redeliver-letters ((now, detail) ∷ later) alert route r found on e =
      let step = handle-failing now detail alert route (refusals (length later)) r found on e in
      redeliver-letters later alert route (handle now detail (codec.dump alert) r).1 found step.1
        step.2
      ∙ rw step.3
          (append_assoc r.publisher.published (failed_message codec now detail alert ∷ []) _)
