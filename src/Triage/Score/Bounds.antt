-- ===== src/Triage/Score/Bounds.antt =====
-- The range of a score.
use native.Mathlib.Nat.{mul-le-mul}
use tengen.Prelude.{ℕ, ◌≤◌, ◌*◌, List, [], ◌∷◌, arith, length}
use tengen.Models.Alert.{AlertSeverity, critical}
use tengen.Models.NormalizedEvent.{NormalizedEvent, LogSourceType}
use tengen.Models.Incident.{Incident}
use tengen.Triage.Score.{
  severity_score, source_weight, max_severity, recurrence_factor, boost, Rounding, score_incident,
  score_events,
}

pub severity_score_bounds : (s : AlertSeverity) → (5 ≤ severity_score s) × (severity_score s ≤ 100)
unfolding severity_score
severity_score_bounds critical = omega arith
severity_score_bounds _ = omega arith

pub source_weight_bounds : (s : LogSourceType) → (5 ≤ source_weight s) × (source_weight s ≤ 15)
unfolding source_weight
source_weight_bounds LogSourceType.aws = omega arith
source_weight_bounds _ = omega arith

pub max_severity-le : (es : List NormalizedEvent) → max_severity es ≤ 100
unfolding max_severity
max_severity-le [] = omega arith
max_severity-le (e ∷ es) = omega (arith, max_severity-le es, severity_score_bounds e.severity)

pub recurrence_factor_bounds : (n : ℕ) → (10 ≤ recurrence_factor n) × (recurrence_factor n ≤ 30)
unfolding recurrence_factor
recurrence_factor_bounds n = omega arith

pub boost_bounds : (es : List NormalizedEvent) → (10 ≤ boost es) × (boost es ≤ 15)
unfolding boost
boost_bounds es = ground arith

product-le : (s w r b : ℕ) → s ≤ 100 → w ≤ 15 → r ≤ 30 → b ≤ 15 → s * w * r * b ≤ 675000
product-le s w r b p q u v = mul-le-mul (mul-le-mul (mul-le-mul p q) u) v

events-le : (rounding : Rounding) (es : List NormalizedEvent) → score_events rounding es ≤ 6750
events-le rounding [] = omega arith
events-le rounding (e ∷ es) =
    let s = max_severity (e ∷ es) in
    let w = source_weight e.source_type in
    let r = recurrence_factor (length (e ∷ es)) in
    let b = boost (e ∷ es) in
    omega (
      arith,
      rounding.from_above s w r b,
      product-le s w r b (max_severity-le (e ∷ es)) (source_weight_bounds e.source_type).1
          (recurrence_factor_bounds (length (e ∷ es))).1 (boost_bounds (e ∷ es)).1,
    )

-- No score is above 67.50.
pub score_incident-le :
    (rounding : Rounding) (incident : Incident) → score_incident rounding incident ≤ 6750
unfolding score_incident
score_incident-le rounding incident = events-le rounding incident.events
