-- ===== src/N8n/Client/Retries.antt =====
-- How often the client posts, when it stops, and what it reports.
use tengen.Prelude.{
  ℕ, zero, suc, ◌+◌, ◌≤◌, ◌<◌, String, Option, none, some, List, [], ◌∷◌, ◌++◌, ◌≡◌, arith, refl,
  ap, append-nil, ◌∙◌, append_assoc,
}
use tengen.N8n.Client.{
  N8nClient, Answer, Outcome, Trace, Last, final, retry, request_failed, judge, attempts_from,
  execute, pause, posted, Value, response, take_chars,
}
use tengen.Value.{Value}
use tengen.Text.{take_chars}

-- The attempts from `a` up to `k`, and not `k` itself, are all to be retried.
abbrev pub Retried : String → (ℕ → Answer) → ℕ → ℕ → Type 0
Retried url answers a k =
    (j : ℕ) → a ≤ j → j < k → (last : Last) × (judge url (answers j) ≡ retry last)

-- The exponents `start`, `start + 1`, …, as many as `n`.
abbrev pub exponents_from : ℕ → ℕ → List ℕ
exponents_from start zero = []
exponents_from start (suc n) = start ∷ exponents_from (start + 1) n

module _ (max_retries : ℕ) (url : String) (answers : ℕ → Answer) where
  pause-delays :
      (a : ℕ) (t : Trace)
      → a + 1 < max_retries
      → pause max_retries a (posted t) ≡ record { posts = t.posts + 1; delays = t.delays ++ a ∷ [] }
  pause-delays a t h = ground arith

  step-final :
      (left a : ℕ) (last : Last) (t : Trace) (outcome : Outcome)
      → judge url (answers a) ≡ final outcome
      → attempts_from max_retries url answers (suc left) a last t ≡ (outcome, posted t)
  unfolding attempts_from
  step-final left a last t outcome h = rw (h, attempts_from)

  step-retry :
      (left a : ℕ) (last l : Last) (t : Trace)
      → judge url (answers a) ≡ retry l
      → attempts_from max_retries url answers (suc left) a last t
        ≡ attempts_from max_retries url answers left (a + 1) l (pause max_retries a (posted t))
  unfolding attempts_from
  step-retry left a last l t h = rw (h, attempts_from)

  -- From attempt `a` on, the first final answer is that of attempt `k`, which is `n` later.
  attempts_from-final :
      (left n a k : ℕ) (last : Last) (t : Trace) (outcome : Outcome)
      → a + n ≡ k
      → a + left ≡ max_retries
      → k < max_retries
      → Retried url answers a k
      → judge url (answers k) ≡ final outcome
      → attempts_from max_retries url answers left a last t
        ≡ (outcome, record { posts = t.posts + (n + 1); delays = t.delays ++ exponents_from a n })
  attempts_from-final zero n a k last t outcome at fits below before here = absurd (omega arith)
  attempts_from-final (suc left) zero a k last t outcome at fits below before here =
      let e : k ≡ a = omega arith in
      step-final left a last t outcome (rw e at here) ∙ ground (arith, append-nil t.delays)
  attempts_from-final (suc left) (suc n) a k last t outcome at fits below before here =
      let (l, again) = before a (omega arith) (omega arith) in
      step-retry left a last l t again
      ∙ rw (pause-delays a t (omega arith)) (
          attempts_from-final left n (a + 1) k l
            (record { posts = t.posts + 1; delays = t.delays ++ a ∷ [] }) outcome (omega arith)
            (omega arith) below (λ j p q. before j (omega arith) q) here
          ∙ ground (arith, append_assoc t.delays (a ∷ []) (exponents_from (a + 1) n)))

  abbrev pub failed_after : Last → Outcome
  failed_after l =
      request_failed
        (record { url = url; status = l.status; detail = l.error; attempts = max_retries })

  step-zero :
      (a : ℕ) (l : Last) (t : Trace)
      → attempts_from max_retries url answers zero a l t ≡ (failed_after l, t)
  unfolding attempts_from
  step-zero a l t = refl

  -- From attempt `a` on, every answer is to be retried; the last one leaves `l`.
  attempts_from-exhausted :
      (n a k : ℕ) (last l : Last) (t : Trace)
      → a + n ≡ k
      → k + 1 ≡ max_retries
      → Retried url answers a max_retries
      → judge url (answers k) ≡ retry l
      → attempts_from max_retries url answers (suc n) a last t ≡ (
        failed_after l,
        record { posts = t.posts + (n + 1); delays = t.delays ++ exponents_from a n },
      )
  attempts_from-exhausted zero a k last l t at fits before here =
      let e : k ≡ a = omega arith in
      step-retry 0 a last l t (rw e at here)
      ∙ step-zero (a + 1) l _
      ∙ ground (arith, append-nil t.delays)
  attempts_from-exhausted (suc n) a k last l t at fits before here =
      let (again, h) = before a (omega arith) (omega arith) in
      step-retry (suc n) a last again t h
      ∙ rw (pause-delays a t (omega arith)) (
          attempts_from-exhausted n (a + 1) k again l
            (record { posts = t.posts + 1; delays = t.delays ++ a ∷ [] }) (omega arith) fits
            (λ j p q. before j (omega arith) q) here
          ∙ ground (arith, append_assoc t.delays (a ∷ []) (exponents_from (a + 1) n)))

module _ (client : N8nClient) (url : String) (answers : ℕ → Answer) where
  -- When the first answer that is not to be retried is that of attempt `k`, the call ends with what
  -- it stands for, after k + 1 POSTs and the delays of 0, 1, …, k - 1.
  pub execute-final :
      (k : ℕ) (outcome : Outcome)
      → k < client.max_retries
      → Retried url answers 0 k
      → judge url (answers k) ≡ final outcome
      → execute client url answers
        ≡ (outcome, record { posts = k + 1; delays = exponents_from 0 k })
  unfolding execute
  execute-final k outcome below before here =
      attempts_from-final client.max_retries url answers client.max_retries k 0 k
        (record { error = ""; status = none }) (record { posts = 0; delays = [] }) outcome
        (omega arith) (omega arith) below before here
      ∙ ground arith

  -- When every answer is to be retried, the call fails with what the last one left, after as many
  -- POSTs as there are attempts, and no delay after the last.
  pub execute-exhausted :
      (n : ℕ) (last : Last)
      → client.max_retries ≡ n + 1
      → Retried url answers 0 client.max_retries
      → judge url (answers n) ≡ retry last
      → execute client url answers ≡ (
        failed_after client.max_retries url answers last,
        record { posts = client.max_retries; delays = exponents_from 0 n },
      )
  unfolding execute
  execute-exhausted n last size before here =
      let e : client.max_retries ≡ suc n = omega arith in
      let start : Last = record { error = ""; status = none } in
      let none_yet : Trace = record { posts = 0; delays = [] } in
      ap (λ m. attempts_from client.max_retries url answers m 0 start none_yet) e
      ∙ attempts_from-exhausted client.max_retries url answers n 0 n start last none_yet
          (omega arith) (omega arith) before here
      ∙ ground arith

  -- A client error is reported as the failure of one attempt, whichever attempt met it.
  pub execute-client_error :
      (k status : ℕ) (text : String) (json : Option Value)
      → k < client.max_retries
      → Retried url answers 0 k
      → answers k ≡ response status text json
      → 400 ≤ status
      → status < 500
      → execute client url answers ≡ (
        request_failed (record {
          url = url;
          status = some status;
          detail = take_chars 500 text;
          attempts = 1;
        }),
        record { posts = k + 1; delays = exponents_from 0 k },
      )
  execute-client_error k status text json below before e low high =
      execute-final k _ below before (rw e (unfold judge in ground arith))
