-- ===== src/Forwarder/Samples.antt =====
-- The theorems on delivery at concrete servers and events.
use tengen.Prelude.{
  ℕ, zero, suc, String, true, false, none, [], ◌∷◌, ◌++◌, ◌≡◌, refl, raised, runtime_error,
}
use tengen.Value.{str}
use tengen.Value.Native.{json, dumps_native, dumps_dict}
use tengen.Models.Alert.{Alert}
use tengen.Models.Alert.Sample.{sample_alert}
use tengen.Value.{null, field, end}
use tengen.Forwarder.Workers.{
  Worker, model, model_dump, other, forward_dlq, forward_enriched, forward_dlq_all,
}
use tengen.Forwarder.Workers.Losses.{IsLost, arrivals, forward_dlq_all-IsLost}
use tengen.Forwarder.Splunk.{
  build_event, Answer, Event, status, request_exception, Wire, SplunkClient, flush, judge,
}
use tengen.Forwarder.Splunk.Batches.{taken, send_all, taken-send_all}
use tengen.Forwarder.Splunk.Delivery.{flush-lost}

-- A server that is too busy for its first request, cannot be reached for the second, and accepts the others
abbrev busy : ℕ → Answer
busy zero = status 503
busy (suc zero) = request_exception
busy _ = status 200

-- A server that is never well
abbrev down : ℕ → Answer
down n = status 500

abbrev start : Wire
start = record { requests = 0; delays = [] }

abbrev event : String → Event
event s = build_event "main" null (("message", json (str s)) ∷ []) (json (str "test")) "test"

abbrev client : SplunkClient
client = record { batch_size = 2; buffer = event "a" ∷ []; batches = []; wire = start }

taken-send_all_example :
    taken (send_all busy (event "b" ∷ event "c" ∷ []) client)
    ≡ taken client ++ event "b" ∷ event "c" ∷ []
taken-send_all_example = taken-send_all busy (event "b" ∷ event "c" ∷ []) client

flush-lost_example : flush down client ≡ (
  raised runtime_error,
  record {
    batch_size = 2;
    buffer = [];
    batches = (event "a" ∷ [], false) ∷ [];
    wire = record { requests = 3; delays = 1 ∷ 2 ∷ 4 ∷ [] };
  },
)
unfolding judge dumps_native dumps_dict
flush-lost_example = flush-lost down client (event "a") [] refl refl (refl, (refl, (refl, tt)))

abbrev alert : Alert
alert = sample_alert end

-- A forwarder of dead letters with batches of one
abbrev worker : Worker
worker = record {
  splunk = record { batch_size = 1; buffer = []; batches = []; wire = start };
  emitted = [];
}

-- A healthy server is never asked.
dlq_run : (forward_dlq busy "main" null true (model (model_dump alert)) worker).splunk.wire ≡ start
unfolding forward_dlq dumps_native dumps_dict model_dump
dlq_run = refl

enriched_run :
    (forward_enriched busy "main" null true (λ t. none) (λ e. "bad") (other "?") worker).emitted
    ≡ ("forwarding_failure", field "error" (str "bad") end) ∷ []
unfolding forward_enriched
enriched_run = refl

forward_dlq_all-IsLost_example :
    IsLost
      (forward_dlq_all busy "main" null true
        (arrivals busy "main" null true (alert ∷ alert ∷ []))
        worker).splunk
forward_dlq_all-IsLost_example =
    forward_dlq_all-IsLost busy "main" null true (alert ∷ alert ∷ []) worker refl refl
