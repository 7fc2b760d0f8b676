-- ===== src/Forwarder/Splunk.antt =====
-- forwarder/splunk_client.py. The server answers each request as it likes: `answers` is a function
-- of the number of the request. A payload is kept as the list of its events.
pub mod Batches
pub mod Delivery
use tengen.Prelude.{
  ℕ, zero, suc, ◌+◌, ◌-◌, ◌*◌, ◌/◌, ◌%◌, ◌≤◌, ◌<◌, String, Bool, true, false, not, ◌&&◌, ◌||◌,
  Option, none, some, List, [], ◌∷◌, ◌++◌, ◌≡◌, ◌≢◌, refl, sym, ap, subst, ◌∙◌, ◌⊎◌, inl, inr, ◌↔◌,
  Result, ok, raised, Done, ◌>>=◌, if◌then◌else◌, ◌==◌, eq_iff, arith, map, append-nil,
  append_assoc, is_some, get_or, length, all, any, All, Dict, lookup, insert, eqb, ltb, leb, one_of,
  Bool-cases, Option-cases, type_error, attribute_error, key_error, index_error, value_error,
  runtime_error, is_ok, value_or, IsIn, IsIn-append, IsIn-last, All-map, All-IsIn, some-injective,
  ok-injective,
}
use tengen.Value.Native.{Native, Dump, dumps_native, dumps_dict}
use tengen.Value.{Value, obj, field, str, end}

-- The status of a response, or a `RequestException`
pub data Answer : Type 0 where
  status : ℕ → Answer
  request_exception : Answer

abbrev pub max_retry_attempts : ℕ
max_retry_attempts = 3

pub data Verdict : Type 0 where
  accepted retry refused : Verdict

unfoldable pub judge : Answer → Verdict
judge request_exception = retry
judge (status code) =
    if eqb code 200 then accepted else if eqb code 429 || leb 500 code then retry else refused

-- The requests that were made, and the seconds of each sleep
pub record Wire : Type 0 where
  pub requests : ℕ
  pub delays : List ℕ

abbrev pub asked : Wire → Wire
asked w = record w { requests = w.requests + 1 }

abbrev pub slept : ℕ → Wire → Wire
slept delay w = record w { delays = w.delays ++ delay ∷ [] }

module _ (answers : ℕ → Answer) where
  -- The loop of `_post_with_retry`, with the attempts that are left
  unfoldable pub attempts : ℕ → ℕ → Wire → Done × Wire
  unfolding judge
  attempts zero delay w = (raised runtime_error, w)
  attempts (suc left) delay w =
      let again = attempts left (delay * 2) (slept delay (asked w)) in
      elim (judge (answers w.requests)) [
        | accepted ↦ (ok tt, asked w)
        | retry ↦ again
        | refused ↦ (raised runtime_error, asked w)
      ]

  unfoldable pub post_with_retry : Wire → Done × Wire
  unfolding attempts
  post_with_retry w = attempts max_retry_attempts 1 w

-- An event, as `build_event` puts it together: only its source and its data may hold times.
pub record Event : Type 0 where
  pub time : Value
  pub host : String
  pub source : Native
  pub sourcetype : String
  pub index : String
  pub data_part : Dump

-- `json.dumps(evt)` returns.
abbrev pub dumps : Event → Bool
dumps e = is_ok (dumps_native e.source) && dumps_dict e.data_part

-- The client, and with it every batch that it has taken from its buffer and whether the server
-- accepted it.
pub record SplunkClient : Type 0 where
  pub batch_size : ℕ
  pub buffer : List Event
  pub batches : List (List Event × Bool)
  pub wire : Wire

abbrev pub posted_batch : SplunkClient → Done × Wire → Done × SplunkClient
posted_batch c (result, w) = (
  result,
  record c { buffer = []; batches = c.batches ++ (c.buffer, is_ok result) ∷ []; wire = w },
)

-- The payload is put together after the buffer is cleared.
abbrev pub post_batch : (ℕ → Answer) → Bool → Wire → Done × Wire
post_batch answers true w = post_with_retry answers w
post_batch answers false w = (raised type_error, w)

abbrev pub dumps_all : List Event → Bool
dumps_all es = all dumps es

abbrev pub flush_buffer : (ℕ → Answer) → SplunkClient → List Event → Done × SplunkClient
flush_buffer answers c [] = (ok tt, c)
flush_buffer answers c (e ∷ es) = posted_batch c (post_batch answers (dumps_all (e ∷ es)) c.wire)

unfoldable pub flush : (ℕ → Answer) → SplunkClient → Done × SplunkClient
flush answers c = flush_buffer answers c c.buffer

abbrev pub buffered : Event → SplunkClient → SplunkClient
buffered event c = record c { buffer = c.buffer ++ event ∷ [] }

unfoldable pub send : (ℕ → Answer) → Event → SplunkClient → Done × SplunkClient
unfolding flush
send answers event c =
    if leb c.batch_size (length (buffered event c).buffer)
    then flush answers (buffered event c)
    else (ok tt, buffered event c)

-- `close` flushes, and leaves the session, if nothing is raised.
unfoldable pub close : (ℕ → Answer) → SplunkClient → Done × SplunkClient
unfolding flush
close answers c = flush answers c

-- `build_event`: `time` is the time that the clock gives.
abbrev pub build_event : String → Value → Dump → Native → String → Event
build_event index time event_data source sourcetype = record {
  time = time;
  host = "tengen";
  source = source;
  sourcetype = sourcetype;
  index = index;
  data_part = event_data;
}
