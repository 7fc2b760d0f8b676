-- ===== src/Forwarder/Workers/Losses.antt =====
-- forwarder/dlq_forwarder.py: what becomes of alerts, whose `model_dump` holds times.
use tengen.Prelude.{
  ℕ, String, Bool, true, false, List, [], ◌∷◌, ◌≡◌, refl, sym, subst, ok, raised, Done,
  if◌then◌else◌, map, length, All, leb, All-append,
}
use tengen.Value.{Value, str}
use tengen.Value.Native.{json, dumps_dict, dumps_native}
use tengen.Models.Alert.{Alert}
use tengen.Forwarder.Splunk.{
  Answer, SplunkClient, Event, send, flush, flush_buffer, buffered, build_event, dumps,
}
use tengen.Forwarder.Workers.{
  Arrival, model, Worker, forward_dlq, forward_dlq_all, dlq_outcome, sent_to, emitting, model_dump,
}

-- No batch was accepted, and every event of the buffer cannot be dumped.
abbrev pub IsLost : SplunkClient → Type 0
IsLost c = All (λ batch. batch.1 ≡ false) c.batches × All (λ e. dumps e ≡ false) c.buffer

module _ (answers : ℕ → Answer) where
  flushed-IsLost :
      (c : SplunkClient) (es : List Event)
      → All (λ e. dumps e ≡ false) es
      → IsLost c
      → IsLost (flush_buffer answers c es).1
  flushed-IsLost c [] h k = k
  flushed-IsLost c (e ∷ es) (p, h) (k, l) =
      (All-append (λ batch. batch.1 ≡ false) c.batches _ k (rw p refl, tt), tt)

  if-IsLost :
      (b : Bool) (x y : Done × SplunkClient)
      → IsLost x.1
      → IsLost y.1
      → IsLost (if b then x else y).1
  if-IsLost true x y h k = h
  if-IsLost false x y h k = k

  send-IsLost :
      (event : Event) (c : SplunkClient)
      → dumps event ≡ false
      → IsLost c
      → IsLost (send answers event c).1
  unfolding send flush
  send-IsLost event c h (k, l) =
      let full = All-append (λ e. dumps e ≡ false) c.buffer (event ∷ []) l (h, tt) in
      if-IsLost (leb c.batch_size (length (buffered event c).buffer))
        (flush answers (buffered event c)) (ok tt, buffered event c)
        (flushed-IsLost (buffered event c) (buffered event c).buffer full (k, full)) (k, full)

  module _ (index : String) (time : Value) (emits : Bool) where
    emitting-splunk :
        (event key value : String) (b : Bool) (w : Worker)
        → (emitting b event key value w).splunk ≡ w.splunk
    emitting-splunk event key value true w = refl
    emitting-splunk event key value false w = refl

    outcome-splunk :
        (r : Done × Worker) → (dlq_outcome answers index time emits r).splunk ≡ r.1.splunk
    outcome-splunk (ok x, w) =
        emitting-splunk "forwarding_success" "destination" "splunk_dlq" emits w
    outcome-splunk (raised e, w) = refl

    -- Alerts, as the consumer of the queue gives them
    abbrev pub arrivals : List Alert → List Arrival
    arrivals alerts = map (λ a. model (model_dump a)) alerts

    model_dump-dumps : (a : Alert) → dumps_dict (model_dump a) ≡ false
    unfolding dumps_dict dumps_native model_dump
    model_dump-dumps a = refl

    event-dumps :
        (a : Alert)
        → dumps (build_event index time (model_dump a) (json (str "tengen.dlq")) "tengen:dlq_alert")
          ≡ false
    unfolding dumps_native
    event-dumps a = model_dump-dumps a

    lose_all-IsLost :
        (alerts : List Alert) (w : Worker)
        → IsLost w.splunk
        → IsLost (forward_dlq_all answers index time emits (arrivals alerts) w).splunk
    unfolding forward_dlq_all
    lose_all-IsLost [] w h = h
    lose_all-IsLost (a ∷ alerts) w h =
        let event =
          build_event index time (model_dump a) (json (str "tengen.dlq")) "tengen:dlq_alert" in
        lose_all-IsLost alerts (forward_dlq answers index time emits (model (model_dump a)) w) (
          subst (λ c. IsLost c)
            (sym
              (outcome-splunk (sent_to answers index time emits w (send answers event w.splunk))))
            (send-IsLost event w.splunk (event-dumps a) h))

    -- When a forwarder of dead letters whose client is new is given alerts, none reaches Splunk,
    -- whatever Splunk answers: no batch was accepted, and every event that is still in the buffer
    -- cannot be dumped. `model_dump` keeps the time of an alert, which json.dumps refuses after the
    -- buffer was cleared, and the exception is logged.
    pub forward_dlq_all-IsLost :
        (alerts : List Alert) (w : Worker)
        → w.splunk.buffer ≡ []
        → w.splunk.batches ≡ []
        → IsLost (forward_dlq_all answers index time emits (arrivals alerts) w).splunk
    forward_dlq_all-IsLost alerts w p q = lose_all-IsLost alerts w (rw q tt, rw p tt)
