-- ===== src/Models/Projection/Verdict.antt =====
-- The verdict and the names of an event, read off its projection.
use tengen.Prelude.{String, false, ◌≡◌, ◌≢◌, refl, Option, List, [], ◌∷◌, ◌==◌, eq_iff, arith}
use tengen.Models.Alert.{AlertSeverity}
use tengen.Models.NormalizedEvent.{Outcome, NormalizedEvent, LogSourceType}
use tengen.Models.Udm.Enums.{UdmSeverity, UdmSecurityAction}
use tengen.Models.Udm.Event.{Datetime, SecurityResult}
use tengen.Models.Projection.{
  to_udm, vendor_of, metadata_of, udm_action, udm_severity, or_else, security_result_of,
}

-- The outcome and the severity that the verdict shows.
abbrev outcome_of : UdmSecurityAction → Outcome
outcome_of UdmSecurityAction.allow = Outcome.success
outcome_of UdmSecurityAction.block = Outcome.failure
outcome_of _ = Outcome.unknown

abbrev severity_of : UdmSeverity → AlertSeverity
severity_of UdmSeverity.critical = AlertSeverity.critical
severity_of UdmSeverity.high = AlertSeverity.high
severity_of UdmSeverity.medium = AlertSeverity.medium
severity_of UdmSeverity.low = AlertSeverity.low
severity_of _ = AlertSeverity.info

abbrev first_outcome : List UdmSecurityAction → Outcome
first_outcome [] = Outcome.unknown
first_outcome (a ∷ _) = outcome_of a

abbrev pub verdict_of : List SecurityResult → Outcome × AlertSeverity
verdict_of [] = (Outcome.unknown, AlertSeverity.info)
verdict_of (r ∷ _) = (first_outcome r.action, severity_of r.severity)

outcome_of-udm_action : (o : Outcome) → outcome_of (udm_action o) ≡ o
unfolding udm_action
outcome_of-udm_action Outcome.success = refl
outcome_of-udm_action _ = refl

severity_of-udm_severity : (s : AlertSeverity) → severity_of (udm_severity s) ≡ s
unfolding udm_severity
severity_of-udm_severity AlertSeverity.critical = refl
severity_of-udm_severity _ = refl

-- The outcome and the severity can be read off the projected event's security result.
pub verdict_of-to_udm :
    (fromisoformat : String → Option Datetime) (e : NormalizedEvent)
    → verdict_of (to_udm fromisoformat e).security_result ≡ (e.outcome, e.severity)
unfolding to_udm security_result_of
verdict_of-to_udm fromisoformat e =
    rw (outcome_of-udm_action e.outcome, severity_of-udm_severity e.severity) refl

or_else-filled : (s t : String) → (t == "") ≡ false → or_else s t ≢ ""
or_else-filled s t h = ground (arith, eq_iff s "", eq_iff t "")

vendor_of-named :
    (s : LogSourceType)
    → (((vendor_of s).vendor_name == "") ≡ false) × (((vendor_of s).product_name == "") ≡ false)
unfolding vendor_of
vendor_of-named LogSourceType.aws = (refl, refl)
vendor_of-named _ = (refl, refl)

-- The projected event names a vendor and a product, whatever the event holds.
pub to_udm-named :
    (fromisoformat : String → Option Datetime) (e : NormalizedEvent)
    → ((to_udm fromisoformat e).metadata.vendor_name ≢ "")
      × ((to_udm fromisoformat e).metadata.product_name ≢ "")
unfolding to_udm metadata_of
to_udm-named fromisoformat e =
    let named = vendor_of-named e.source_type in
    (or_else-filled e.vendor_name _ named.0, or_else-filled e.product_name _ named.1)
