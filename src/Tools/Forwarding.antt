-- ===== src/Tools/Forwarding.antt =====
-- tools/forwarder_tools.py and the tools of agents/forwarder.py. `post` is `httpx.post`: a status,
-- a `RequestError`, or another exception.
use tengen.Prelude.{
  ℕ, String, Bool, false, Option, none, some, Result, ok, raised, ◌>>=◌, if◌then◌else◌, ◌==◌, ltb,
  value_error, Error,
}
use tengen.Value.{Value, str, obj, field, end}
use tengen.Models.Incident.{Finding}
use tengen.Models.Alert.{severity_value, provider_value}

pub data Posted : Type 0 where
  status : ℕ → Posted
  request_error : Posted
  other_error : Error → Posted

-- `resp.status_code < 300`, or the `except` of a tool
abbrev pub accepted : Posted → Result Bool
accepted (status code) = ok (ltb code 300)
accepted request_error = ok false
accepted (other_error e) = raised e

module _ (post : String → Value → Posted) where
  -- `dump` is `model_dump` of a finding.
  unfoldable pub forward_to_siem : (Finding → Value) → String → Finding → Result Bool
  forward_to_siem dump siem_endpoint finding =
      if siem_endpoint == "" then ok false else accepted (post siem_endpoint (dump finding))

  abbrev pub pagerduty_payload : String → Finding → Value
  pagerduty_payload key finding = obj (
      field "routing_key" (str key) (
        field "event_action" (str "trigger") (
          field "payload"
            (obj (
              field "summary" (str finding.title) (
                field "severity" (str (severity_value finding.severity)) (
                  field "source" (str (provider_value finding.source))
                    (field "custom_details" (obj finding.enrichment) end)))))
            end)))

  unfoldable pub forward_to_pagerduty : String → Finding → Result Bool
  unfolding severity_value provider_value
  forward_to_pagerduty key finding =
      if key == ""
      then ok false
      else accepted (post "https://events.pagerduty.com/v2/enqueue" (pagerduty_payload key finding))

  -- The tools of the agent: `none` is a text that does not validate as a finding.
  abbrev pub valid : Option Finding → Result Finding
  valid none = raised value_error
  valid (some finding) = ok finding

  unfoldable pub forward_finding_to_siem :
      (Finding → Value) → String → Option Finding → Result String
  unfolding forward_to_siem
  forward_finding_to_siem dump siem_endpoint f = valid f >>= λ finding.
      forward_to_siem dump siem_endpoint finding >>= λ success.
      ok (if success then "forwarded_to_siem" else "siem_unavailable")

  unfoldable pub forward_finding_to_pagerduty : String → Option Finding → Result String
  unfolding forward_to_pagerduty
  forward_finding_to_pagerduty key f = valid f >>= λ finding.
      forward_to_pagerduty key finding >>= λ success.
      ok (if success then "forwarded_to_pagerduty" else "pagerduty_unavailable")
