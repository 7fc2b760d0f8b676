-- ===== src/N8n/Client.antt =====
-- n8n/client.py: `N8nClient.execute`. The server's answers are a function of the attempt.
pub mod Retries
use tengen.Prelude.{
  ℕ, zero, suc, ◌+◌, ◌-◌, String, Option, none, some, List, [], ◌∷◌, ◌++◌, leb, ltb, if◌then◌else◌,
  ◌&&◌,
}
use tengen.Value.{Value}
use tengen.Text.{take_chars}

-- What a POST comes to: a response, whose body may be no JSON, or a timeout or connection error.
pub data Answer : Type 0 where
  response : ℕ → String → Option Value → Answer
  connection_error : String → Answer

-- N8nRequestFailed
pub record RequestFailed : Type 0 where
  pub url : String
  pub status : Option ℕ
  pub detail : String
  pub attempts : ℕ

-- The result of the call: the parsed body, the client's exception, or the one of a body that does
-- not parse, which leaves the call as it is.
pub data Outcome : Type 0 where
  returned : Value → Outcome
  request_failed : RequestFailed → Outcome
  invalid_json : Outcome

-- What was done: the number of POSTs, and the exponents of the delays that were slept.
pub record Trace : Type 0 where
  pub posts : ℕ
  pub delays : List ℕ

pub record N8nClient : Type 0 where
  pub max_retries : ℕ

-- `last_error` and `last_status`
pub record Last : Type 0 where
  pub error : String
  pub status : Option ℕ

abbrev pub parsed : Option Value → Outcome
parsed none = invalid_json
parsed (some v) = returned v

-- An answer ends the loop by a return or an exception, or is kept as the last one.
pub data Verdict : Type 0 where
  final : Outcome → Verdict
  retry : Last → Verdict

unfoldable pub judge : String → Answer → Verdict
judge url (connection_error message) = retry (record { error = message; status = none })
judge url (response status text json) =
    if ltb status 400
    then final (parsed json)
    else if leb 400 status && ltb status 500
    then final (
        request_failed
          (record { url = url; status = some status; detail = take_chars 500 text; attempts = 1 }))
    else retry (record { error = take_chars 500 text; status = some status })

-- `if attempt < self._max_retries - 1: sleep(backoff_base ** attempt)`
abbrev pause : ℕ → ℕ → Trace → Trace
pause max_retries attempt t =
    if ltb (attempt + 1) max_retries then record t { delays = t.delays ++ attempt ∷ [] } else t

abbrev posted : Trace → Trace
posted t = record t { posts = t.posts + 1 }

-- `for attempt in range(max_retries)`, with the attempts that are left
unfoldable pub attempts_from : ℕ → String → (ℕ → Answer) → ℕ → ℕ → Last → Trace → Outcome × Trace
unfolding judge
attempts_from max_retries url answers zero attempt last t = (
  request_failed
      (record { url = url; status = last.status; detail = last.error; attempts = max_retries }),
  t,
)
attempts_from max_retries url answers (suc left) attempt last t =
    elim (judge url (answers attempt)) [
      | final outcome ↦ (outcome, posted t)
      | retry last' ↦
          attempts_from max_retries url answers left (attempt + 1) last'
            (pause max_retries attempt (posted t))
    ]

unfoldable pub execute : N8nClient → String → (ℕ → Answer) → Outcome × Trace
unfolding attempts_from
execute client url answers =
    attempts_from client.max_retries url answers client.max_retries 0
      (record { error = ""; status = none }) (record { posts = 0; delays = [] })
