-- ===== src/Forwarder/Splunk/Delivery.antt =====
-- How often a batch is posted.
use tengen.Prelude.{
  ℕ, zero, suc, ◌+◌, ◌*◌, ◌<◌, true, false, List, [], ◌∷◌, ◌++◌, ◌≡◌, ap, ◌∙◌, ok, raised, arith,
  append-nil, append_assoc, runtime_error,
}
use tengen.Forwarder.Splunk.{
  SplunkClient, Event, dumps_all, post_batch, flush, flush_buffer, posted_batch, Answer, accepted,
  retry, judge, Wire, asked, slept, attempts, post_with_retry, max_retry_attempts,
}

-- The answers from request `r` on, as many as `n`, are all to be retried.
abbrev pub AllRetried : (ℕ → Answer) → ℕ → ℕ → Type 0
AllRetried answers r zero = Unit
AllRetried answers r (suc n) = (judge (answers r) ≡ retry) × AllRetried answers (r + 1) n

-- Sleeps that double, as many as `n`
abbrev pub doubling : ℕ → ℕ → List ℕ
doubling delay zero = []
doubling delay (suc n) = delay ∷ doubling (delay * 2) n

module _ (answers : ℕ → Answer) where
  step-retry :
      (left delay : ℕ) (w : Wire)
      → judge (answers w.requests) ≡ retry
      → attempts answers (suc left) delay w
        ≡ attempts answers left (delay * 2) (slept delay (asked w))
  unfolding attempts
  step-retry left delay w h = rw (h, attempts)

  step-accepted :
      (left delay : ℕ) (w : Wire)
      → judge (answers w.requests) ≡ accepted
      → attempts answers (suc left) delay w ≡ (ok tt, asked w)
  unfolding attempts
  step-accepted left delay w h = rw (h, attempts)

  attempts-accepted :
      (n left delay : ℕ) (w : Wire)
      → n < left
      → AllRetried answers w.requests n
      → judge (answers (w.requests + n)) ≡ accepted
      → attempts answers left delay w
        ≡ (ok tt, record { requests = w.requests + (n + 1); delays = w.delays ++ doubling delay n })
  attempts-accepted zero (suc left) delay w fits before here =
      let e : w.requests + 0 ≡ w.requests = omega arith in
      step-accepted left delay w (rw e at here) ∙ ground (arith, append-nil w.delays)
  attempts-accepted (suc n) (suc left) delay w fits (h, before) here =
      let e : w.requests + suc n ≡ w.requests + 1 + n = omega arith in
      step-retry left delay w h
      ∙ attempts-accepted n left (delay * 2) (slept delay (asked w)) (omega arith) before
          (rw e at here)
      ∙ ground (arith, append_assoc w.delays (delay ∷ []) (doubling (delay * 2) n))
  attempts-accepted n zero delay w fits before here = absurd (omega arith)

  attempts-exhausted :
      (left delay : ℕ) (w : Wire)
      → AllRetried answers w.requests left
      → attempts answers left delay w ≡ (
        raised runtime_error,
        record { requests = w.requests + left; delays = w.delays ++ doubling delay left },
      )
  attempts-exhausted zero delay w before = unfold attempts in ground (arith, append-nil w.delays)
  attempts-exhausted (suc left) delay w (h, before) =
      step-retry left delay w h
      ∙ attempts-exhausted left (delay * 2) (slept delay (asked w)) before
      ∙ ground (arith, append_assoc w.delays (delay ∷ []) (doubling (delay * 2) left))

  -- When the first answer that is not to be retried accepts the payload, and it is one of the first
  -- three, the call returns after that request, with sleeps of 1, 2, … seconds before it.
  pub post_with_retry-delivered :
      (n : ℕ) (w : Wire)
      → n < max_retry_attempts
      → AllRetried answers w.requests n
      → judge (answers (w.requests + n)) ≡ accepted
      → post_with_retry answers w
        ≡ (ok tt, record { requests = w.requests + (n + 1); delays = w.delays ++ doubling 1 n })
  unfolding post_with_retry
  post_with_retry-delivered n w fits before here =
      attempts-accepted n max_retry_attempts 1 w fits before here

  -- When the next three answers are all to be retried, flushing a buffer with events that all can be
  -- dumped raises after three requests and sleeps of 1, 2 and 4 seconds, and leaves the buffer empty
  -- with the batch not accepted.
  pub flush-lost :
      (c : SplunkClient) (event : Event) (more : List Event)
      → c.buffer ≡ event ∷ more
      → dumps_all (event ∷ more) ≡ true
      → AllRetried answers c.wire.requests 3
      → flush answers c ≡ (
        raised runtime_error,
        record c {
          buffer = [];
          batches = c.batches ++ (c.buffer, false) ∷ [];
          wire = record {
            requests = c.wire.requests + 3;
            delays = c.wire.delays ++ 1 ∷ 2 ∷ 4 ∷ [];
          };
        },
      )
  unfolding flush post_with_retry
  flush-lost c event more full dumps before =
      ap (flush_buffer answers c) full
      ∙ ap (λ b. posted_batch c (post_batch answers b c.wire)) dumps
      ∙ ap (posted_batch c) (attempts-exhausted 3 1 c.wire before)
