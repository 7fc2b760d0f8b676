-- ===== src/Consumers/Http.antt =====
-- consumers/universal_consumer.py: the endpoint, its token, and the life of the server.
pub mod Access
use tengen.Prelude.{
  ℕ, zero, suc, ◌+◌, ◌-◌, ◌*◌, ◌/◌, ◌%◌, ◌≤◌, ◌<◌, String, Bool, true, false, not, ◌&&◌, ◌||◌,
  Option, none, some, List, [], ◌∷◌, ◌++◌, ◌≡◌, ◌≢◌, refl, sym, ap, subst, ◌∙◌, ◌⊎◌, inl, inr, ◌↔◌,
  Result, ok, raised, Done, ◌>>=◌, if◌then◌else◌, ◌==◌, eq_iff, arith, map, append-nil,
  append_assoc, is_some, get_or, length, all, any, All, Dict, lookup, insert, eqb, ltb, leb, one_of,
  Bool-cases, Option-cases, type_error, attribute_error, key_error, index_error, value_error,
  runtime_error, is_ok, value_or, IsIn, IsIn-append, IsIn-last, All-map, All-IsIn, some-injective,
  ok-injective,
}
use tengen.Text.{cat}
use tengen.Value.{Value, Fields, str, obj, set, null}
use tengen.Models.Alert.{Alert}
use tengen.Consumers.Ingestion.{Ingest, Hooks, Stamp, new_alert, counting, called}

-- A request whose body is valid
pub record IngestRequest : Type 0 where
  pub raw_payload : Fields
  pub metadata : Fields
  pub source : String
  pub remote_addr : Option String
  pub authorization : Option String

-- A response: 401, 503, 202 with the id of the alert, or 500 for what the callback raises
pub data Response : Type 0 where
  unauthorized unavailable failed : Response
  accepted : String → Response

-- The consumer: its token, whether its server was built, whether its callback is set, and whether
-- the server was told to exit.
pub record HttpConsumer (C : Type 0) : Type 0 where
  pub token : Option String
  pub built : Bool
  pub ready : Bool
  pub serving : Bool
  pub should_exit : Bool
  pub ingested : Ingest C

-- `_check_auth`, when a token that is not empty is set
abbrev pub bearer : String → Option String → Bool
bearer token none = false
bearer token (some header) = header == cat "Bearer " token

unfoldable pub check_auth : Option String → Option String → Bool
check_auth none header = true
check_auth (some token) header = token == "" || bearer token header

abbrev pub address : Option String → Value
address none = null
address (some host) = str host

abbrev pub answer : Alert → Done → Response
answer alert (ok _) = accepted alert.id
answer alert (raised e) = failed

module _ {C : Type 0} (h : Hooks C) where
  abbrev pub alert_of : IngestRequest → Ingest C → Alert
  alert_of r s =
      new_alert (h.stamps s.made) r.source r.raw_payload
        (set "remote_addr" (address r.remote_addr) r.metadata)

  abbrev pub responded : Alert → HttpConsumer C → Done × Ingest C → Response × HttpConsumer C
  responded alert c (r, s) = (answer alert r, record c { ingested = s })

  -- The alert is made and counted before the consumer is known to be ready.
  abbrev pub received : IngestRequest → HttpConsumer C → Response × HttpConsumer C
  received r c =
      let alert = alert_of r c.ingested in
      let s = counting h.emits r.source (record c.ingested { made = c.ingested.made + 1 }) in
      if c.ready
      then responded alert c (called alert (h.callback alert s.client) s)
      else (unavailable, record c { ingested = s })

  unfoldable pub ingest : IngestRequest → HttpConsumer C → Response × HttpConsumer C
  unfolding check_auth set
  ingest r c = if check_auth c.token r.authorization then received r c else (unauthorized, c)

module _ {C : Type 0} where
  unfoldable pub connect : HttpConsumer C → HttpConsumer C
  connect c = record c { built = true }

  -- `consume` sets the callback, and the server runs until it exits.
  unfoldable pub consume : HttpConsumer C → Done × HttpConsumer C
  consume c =
      if c.built
      then (ok tt, record c { ready = true; serving = true; should_exit = false })
      else (raised runtime_error, c)

  unfoldable pub stop : HttpConsumer C → HttpConsumer C
  stop c = if c.serving then record c { should_exit = true } else c

  unfoldable pub disconnect : HttpConsumer C → HttpConsumer C
  disconnect c = record c { ready = false; serving = false; built = false }
