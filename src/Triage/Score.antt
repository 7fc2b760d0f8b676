-- ===== src/Triage/Score.antt =====
-- `score_incident`, in exact arithmetic: severities, weights and factors are in tenths, and their
-- product in units of 0.0001. `round(…, 2)` of the floating-point product is a parameter.
pub mod Bounds
pub mod Growth
use tengen.Prelude.{
  ℕ, ◌+◌, ◌*◌, ◌-◌, ◌≤◌, Bool, true, false, List, [], ◌∷◌, length, any, min, max, if◌then◌else◌,
}
use tengen.Models.Alert.{AlertSeverity, critical, high, medium, low, info}
use tengen.Models.NormalizedEvent.{NormalizedEvent, LogSourceType}
use tengen.Models.Incident.{Incident}

unfoldable pub severity_score : AlertSeverity → ℕ
severity_score critical = 100
severity_score high = 70
severity_score medium = 40
severity_score low = 20
severity_score info = 5

unfoldable pub source_weight : LogSourceType → ℕ
source_weight LogSourceType.crowdstrike = 15
source_weight LogSourceType.aws = 12
source_weight LogSourceType.gcp = 12
source_weight LogSourceType.azure = 12
source_weight LogSourceType.k8s = 13
source_weight LogSourceType.openshift = 13
source_weight LogSourceType.firewall = 9
source_weight LogSourceType.ddos = 10
source_weight LogSourceType.unknown = 5

-- `max(…)` over the events; every score is above 0
unfoldable pub max_severity : List NormalizedEvent → ℕ
max_severity [] = 0
max_severity (e ∷ es) = max (severity_score e.severity) (max_severity es)

-- `min(1.0 + (len(events) - 1) * 0.2, 3.0)`
unfoldable pub recurrence_factor : ℕ → ℕ
recurrence_factor n = min (10 + (n - 1) * 2) 30

abbrev pub is_privileged : NormalizedEvent → Bool
is_privileged e = e.actor.is_privileged

-- The factor of an actor with privileges
unfoldable pub boost : List NormalizedEvent → ℕ
boost es = if any is_privileged es then 15 else 10

-- The rounding of Python's product of the four factors, in hundredths: it is off by half of a
-- hundredth at most, either way at a tie.
pub record Rounding : Type 0 where
  pub round2 : ℕ → ℕ → ℕ → ℕ → ℕ
  pub from_above : (s w r b : ℕ) → 100 * round2 s w r b ≤ s * w * r * b + 50
  pub from_below : (s w r b : ℕ) → s * w * r * b ≤ 100 * round2 s w r b + 50

module _ (rounding : Rounding) where
  abbrev score_events : List NormalizedEvent → ℕ
  score_events [] = 0
  score_events (first ∷ more) =
      rounding.round2 (max_severity (first ∷ more)) (source_weight first.source_type)
        (recurrence_factor (length (first ∷ more))) (boost (first ∷ more))

  unfoldable pub score_incident : Incident → ℕ
  unfolding max_severity severity_score source_weight recurrence_factor boost
  score_incident incident = score_events incident.events
