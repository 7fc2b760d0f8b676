-- ===== src/Consumers/Publishing.antt =====
-- consumers/universal_consumer.py: `_main`, which hands the alerts of the endpoint to the publisher of
-- queue/rabbitmq.py.
use tengen.Prelude.{
  ℕ, ◌+◌, String, Bool, true, false, List, [], ◌∷◌, ◌≡◌, refl, subst, ok, raised, Done,
  if◌then◌else◌, arith, All, runtime_error, is_ok, IsIn, IsIn-append, IsIn-last,
}
use tengen.Models.Alert.{Alert, AlertCodec}
use tengen.Queue.Publisher.{Publisher, Message, send, publish, queue_alerts}
use tengen.Consumers.Ingestion.{Hooks, Ingest, Stamp, counting, called}
use tengen.Consumers.Http.{
  IngestRequest, Response, unauthorized, unavailable, failed, accepted, HttpConsumer, ingest,
  alert_of, received, responded, check_auth,
}

-- `publisher.publish(alert)`
abbrev pub publish_alert : AlertCodec → Alert → Publisher → Done × Publisher
publish_alert codec alert p = publish (codec.dump alert) p

abbrev pub to_publisher : (ℕ → Stamp) → Bool → AlertCodec → Hooks Publisher
to_publisher stamps emits codec = record {
  stamps = stamps;
  emits = emits;
  callback = publish_alert codec;
}

module _ (codec : AlertCodec) where
  abbrev pub alert_message : Alert → Message
  alert_message alert = record { queue = queue_alerts; body = codec.dump alert }

  -- A publication adds messages only, and one that returns adds its own.
  abbrev Publishes : Alert → Publisher → Done × Publisher → Type 0
  Publishes alert p (r, p') =
      ((m : Message) → IsIn m p.published → IsIn m p'.published)
      × (is_ok r ≡ true → IsIn (alert_message alert) p'.published)

  sent-Publishes :
      (alert : Alert) (faults : List Bool) (p : Publisher)
      → Publishes alert p (send (alert_message alert) faults p)
  sent-Publishes alert [] p = (
    λ m x. IsIn-append m p.published (alert_message alert ∷ []) x,
    λ e. IsIn-last (alert_message alert) p.published,
  )
  sent-Publishes alert (false ∷ faults) p = (
    λ m x. IsIn-append m p.published (alert_message alert ∷ []) x,
    λ e. IsIn-last (alert_message alert) p.published,
  )
  sent-Publishes alert (true ∷ faults) p = (λ m x. x, λ e. ground arith)

  either-Publishes :
      (b : Bool) (alert : Alert) (p : Publisher) (r r' : Done × Publisher)
      → Publishes alert p r
      → Publishes alert p r'
      → Publishes alert p (if b then r else r')
  either-Publishes true alert p r r' h k = h
  either-Publishes false alert p r r' h k = k

  publish-Publishes :
      (alert : Alert) (p : Publisher) → Publishes alert p (publish (codec.dump alert) p)
  unfolding publish
  publish-Publishes alert p =
      either-Publishes p.connected alert p (send (alert_message alert) p.faults p)
        (raised runtime_error, p) (sent-Publishes alert p.faults p) (λ m x. x, λ x. ground arith)

  -- If the response accepts an id, the queue of alerts holds an alert of this id with the payload of
  -- the request.
  abbrev pub IsAnswered : Publisher → IngestRequest × Response → Type 0
  IsAnswered p (request, accepted id) =
      (alert : Alert) × (alert.id ≡ id)
      × (alert.raw_payload ≡ request.raw_payload)
      × IsIn (alert_message alert) p.published
  IsAnswered p (request, _) = Unit

  -- A request takes no message from a queue, and is answered.
  abbrev Answers : IngestRequest → Publisher → Response × HttpConsumer Publisher → Type 0
  Answers request p (response, c) =
      ((m : Message) → IsIn m p.published → IsIn m c.ingested.client.published)
      × IsAnswered c.ingested.client (request, response)

  module _ (stamps : ℕ → Stamp) (emits : Bool) where
    abbrev hooks : Hooks Publisher
    hooks = to_publisher stamps emits codec

    called-Answers :
        (request : IngestRequest) (alert : Alert) (c : HttpConsumer Publisher)
        (s : Ingest Publisher) (p : Publisher) (r : Done × Publisher)
        → alert.raw_payload ≡ request.raw_payload
        → Publishes alert p r
        → Answers request p (responded hooks alert c (called alert r s))
    called-Answers request alert c s p (ok x, p') e (f, g) = (f, (alert, refl, e, g refl))
    called-Answers request alert c s p (raised x, p') e (f, g) = (f, tt)

    counting-client :
        (b : Bool) (source : String) (s : Ingest Publisher)
        → (counting b source s).client ≡ s.client
    counting-client true source s = refl
    counting-client false source s = refl

    ready-Answers :
        (b : Bool) (request : IngestRequest) (c : HttpConsumer Publisher) (s : Ingest Publisher)
        → s.client ≡ c.ingested.client
        → let alert = alert_of hooks request c.ingested in
          Answers request s.client (
            if b
            then responded hooks alert c (called alert (publish (codec.dump alert) s.client) s)
            else (unavailable, record c { ingested = s }))
    ready-Answers true request c s e =
        let alert = alert_of hooks request c.ingested in
        called-Answers request alert c s s.client (publish (codec.dump alert) s.client) refl
          (publish-Publishes alert s.client)
    ready-Answers false request c s e = (λ m x. x, tt)

    received-Answers :
        (request : IngestRequest) (c : HttpConsumer Publisher)
        → Answers request c.ingested.client (received hooks request c)
    received-Answers request c =
        let s = counting emits request.source (record c.ingested { made = c.ingested.made + 1 }) in
        let e =
          counting-client emits request.source (record c.ingested { made = c.ingested.made + 1 }) in
        subst (λ p. Answers request p (received hooks request c)) e
          (ready-Answers c.ready request c s e)

    auth-Answers :
        (b : Bool) (request : IngestRequest) (c : HttpConsumer Publisher)
        → Answers request c.ingested.client
            (if b then received hooks request c else (unauthorized, c))
    auth-Answers true request c = received-Answers request c
    auth-Answers false request c = (λ m x. x, tt)

    ingest-Answers :
        (request : IngestRequest) (c : HttpConsumer Publisher)
        → Answers request c.ingested.client (ingest hooks request c)
    unfolding ingest
    ingest-Answers request c = auth-Answers (check_auth c.token request.authorization) request c

    -- The server takes one request after another: each with its response, and what is left
    unfoldable pub serve :
        List IngestRequest
        → HttpConsumer Publisher
        → List (IngestRequest × Response) × HttpConsumer Publisher
    unfolding ingest
    serve [] c = ([], c)
    serve (request ∷ requests) c =
        let (response, c') = ingest hooks request c in
        let (answered, c'') = serve requests c' in ((request, response) ∷ answered, c'')

    IsAnswered-later :
        (p p' : Publisher) (request : IngestRequest) (response : Response)
        → ((m : Message) → IsIn m p.published → IsIn m p'.published)
        → IsAnswered p (request, response)
        → IsAnswered p' (request, response)
    IsAnswered-later p p' request (accepted id) f (alert, e, k, x) =
        (alert, e, k, f (alert_message alert) x)
    IsAnswered-later p p' request unauthorized f x = tt
    IsAnswered-later p p' request unavailable f x = tt
    IsAnswered-later p p' request failed f x = tt

    serve-Answers :
        (requests : List IngestRequest) (c : HttpConsumer Publisher)
        → let (answered, c') = serve requests c in
          ((m : Message) → IsIn m c.ingested.client.published → IsIn m c'.ingested.client.published)
          × All (IsAnswered c'.ingested.client) answered
    unfolding serve
    serve-Answers [] c = (λ m x. x, tt)
    serve-Answers (request ∷ requests) c =
        let c' = (ingest hooks request c).1 in
        let (f, x) = ingest-Answers request c in
        let (g, xs) = serve-Answers requests c' in
        (
          λ m y. g m (f m y),
          (
            IsAnswered-later c'.ingested.client (serve requests c').1.ingested.client request
                (ingest hooks request c).0 g x,
            xs,
          ),
        )

    -- Whatever requests come, and whichever publications fail, for each id that a response accepts
    -- the queue of alerts at last holds an alert of this id with the payload of the request.
    pub serve-queued :
        (requests : List IngestRequest) (c : HttpConsumer Publisher)
        → let (answered, c') = serve requests c in All (IsAnswered c'.ingested.client) answered
    serve-queued requests c = (serve-Answers requests c).1
