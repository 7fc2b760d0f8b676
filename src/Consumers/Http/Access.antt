-- ===== src/Consumers/Http/Access.antt =====
-- consumers/universal_consumer.py: who is let in, and what a response says.
use tengen.Prelude.{
  ◌+◌, String, Bool, true, false, some, [], ◌∷◌, ◌++◌, ◌≡◌, refl, ap, ok, raised, Done,
  if◌then◌else◌, ◌==◌, arith,
}
use tengen.Consumers.Ingestion.{Ingest, Hooks, called, counting, counting-calls}
use tengen.Models.Alert.{Alert}
use tengen.Consumers.Http.{
  responded, IngestRequest, Response, unauthorized, unavailable, accepted, HttpConsumer, ingest,
  check_auth, alert_of, received, bearer,
}

abbrev id_in : Response → String
id_in (accepted id) = id
id_in _ = ""

module _ {C : Type 0} where
  -- What an accepting response tells of an alert
  abbrev Accepts : String → Alert → HttpConsumer C → Response × HttpConsumer C → Type 0
  Accepts id a c (response, c') =
      response ≡ accepted id
      → (a.id ≡ id)
        × (c'.ingested.calls ≡ c.ingested.calls ++ record { alert = a; returned = true } ∷ [])

module _ {C : Type 0} (h : Hooks C) where
  -- When a token is set, a request whose header does not hold it changes nothing.
  pub ingest-unauthorized :
      (token : String) (r : IngestRequest) (c : HttpConsumer C)
      → c.token ≡ some token
      → (token == "") ≡ false
      → bearer token r.authorization ≡ false
      → ingest h r c ≡ (unauthorized, c)
  unfolding ingest check_auth
  ingest-unauthorized token r c e p q = rw (e, p, q) refl

  called-Accepts :
      (id : String) (a : Alert) (c : HttpConsumer C) (s : Ingest C) (r : Done × C)
      → s.calls ≡ c.ingested.calls
      → Accepts id a c (responded h a c (called a r s))
  called-Accepts id a c s (ok x, cl) k e =
      (ap id_in e, ap (λ l. l ++ record { alert = a; returned = true } ∷ []) k)
  called-Accepts id a c s (raised x, cl) k e = ground arith

  ready-Accepts :
      (b : Bool) (id : String) (r : IngestRequest) (c : HttpConsumer C) (s : Ingest C)
      → s.calls ≡ c.ingested.calls
      → let a = alert_of h r c.ingested in
        Accepts id a c (
          if b
          then responded h a c (called a (h.callback a s.client) s)
          else (unavailable, record c { ingested = s }))
  ready-Accepts true id r c s k e =
      let a = alert_of h r c.ingested in called-Accepts id a c s (h.callback a s.client) k e
  ready-Accepts false id r c s k e = ground arith

  received-Accepts :
      (id : String) (r : IngestRequest) (c : HttpConsumer C)
      → Accepts id (alert_of h r c.ingested) c (received h r c)
  received-Accepts id r c =
      let s = record c.ingested { made = c.ingested.made + 1 } in
      ready-Accepts c.ready id r c (counting h.emits r.source s) (counting-calls h.emits r.source s)

  auth-Accepts :
      (b : Bool) (id : String) (r : IngestRequest) (c : HttpConsumer C)
      → Accepts id (alert_of h r c.ingested) c (if b then received h r c else (unauthorized, c))
  auth-Accepts true id r c e = received-Accepts id r c e
  auth-Accepts false id r c e = ground arith

  -- A response accepts an id only after the callback has returned on the alert of this id, and that
  -- alert holds the payload of the request.
  pub ingest-accepted :
      (id : String) (r : IngestRequest) (c : HttpConsumer C)
      → (ingest h r c).0 ≡ accepted id
      → let a = alert_of h r c.ingested in
        (a.id ≡ id)
        × (a.raw_payload ≡ r.raw_payload)
        × ((ingest h r c).1.ingested.calls
            ≡ c.ingested.calls ++ record { alert = a; returned = true } ∷ [])
  unfolding ingest
  ingest-accepted id r c e =
      let (p, q) = auth-Accepts (check_auth c.token r.authorization) id r c e in (p, refl, q)
