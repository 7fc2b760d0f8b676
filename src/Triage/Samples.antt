-- ===== src/Triage/Samples.antt =====
-- The theorems on triage at concrete incidents.
use tengen.Prelude.{
  ℕ, zero, ◌+◌, ◌*◌, ◌/◌, ◌≤◌, String, Bool, false, none, some, List, [], ◌∷◌, ◌++◌, ◌≡◌, refl, ◌⊎◌,
  Result, ok, raised, if◌then◌else◌, ◌==◌, arith, All, ltb, type_error,
}
use tengen.Value.{
  Value, end, obj, field, str, arr, item, no_items, int, float, pos, get_in, get, get?, holds,
  has_item, is_text,
}
use tengen.Models.NormalizedEvent.{
  NormalizedEvent, ActorContext, TargetContext, NetworkContext, Outcome, LogSourceType,
}
use tengen.Models.NormalizedEvent.Sample.{event_of}
use tengen.Models.Incident.{Incident, opened}
use tengen.Triage.Correlation.{Stamp, unreadable, naive, aware, correlate_event, extend}
use tengen.Triage.Correlation.Chosen.{
  CannotJoin, MayJoin, Extends, HoldsAlone, correlate_event-chosen,
}
use tengen.Triage.Correlation.Uniform.{IsUniform, correlate_event-IsUniform}
use tengen.Triage.Score.{Rounding, score_incident}
use tengen.Triage.Score.Bounds.{score_incident-le}
use tengen.Triage.Score.Growth.{score_incident-extend}
use tengen.Triage.Suppression.{known_good_identity, check_suppression}
use tengen.Triage.Suppression.Joining.{scored, IsMonotone, check_suppression-extend}

abbrev incident_of : String → String → Incident
incident_of identity updated_at = record {
  incident_id = "i1";
  events = event_of identity ∷ [];
  findings = [];
  status = opened;
  priority_score = 0;
  suppressed = false;
  suppression_reason = "";
  created_at = "t0";
  updated_at = updated_at;
  labels = end;
}

-- "t0" is long ago, "now" is the time of the call, and the rest is no time at all.
unfoldable stamp_of : String → Stamp
stamp_of s =
    if s == "t0"
    then aware 1
    else if s == "now"
    then aware 2000000000
    else if s == "no zone"
    then naive
    else unreadable

abbrev store : List Incident
store = incident_of "bob" "t0" ∷ incident_of "alice" "now" ∷ incident_of "bob" "now" ∷ []

found :
    correlate_event stamp_of 2000000001 "now" "i2" (event_of "bob") store
    ≡ ok (extend stamp_of 2000000001 "now" "i2" (event_of "bob") (incident_of "bob" "now"))
unfolding correlate_event stamp_of tengen.Models.NormalizedEvent.same_source
found = refl

-- An incident whose time of update has no zone raises.
no_zone :
    correlate_event stamp_of 2000000001 "now" "i2"
      (event_of "bob")
      (incident_of "alice" "no zone" ∷ [])
    ≡ raised type_error
unfolding correlate_event stamp_of
no_zone = refl

abbrev joined : Incident
joined = extend stamp_of 2000000001 "now" "i2" (event_of "bob") (incident_of "bob" "now")

correlate_event-chosen_example :
    ((before : List Incident) × (i : Incident) × (after : List Incident) × (store
        ≡ before ++ i ∷ after)
      × All (CannotJoin stamp_of 2000000001 "now" "i2" (event_of "bob")) before
      × MayJoin stamp_of 2000000001 (event_of "bob") i
      × Extends stamp_of 2000000001 "now" "i2" (event_of "bob") i joined)
    ⊎ (All (CannotJoin stamp_of 2000000001 "now" "i2" (event_of "bob")) store
        × HoldsAlone stamp_of 2000000001 "now" "i2" (event_of "bob") joined)
correlate_event-chosen_example =
    correlate_event-chosen stamp_of 2000000001 "now" "i2" (event_of "bob") store joined found

correlate_event-IsUniform_example :
    IsUniform (extend stamp_of 2000000001 "now" "i2" (event_of "bob") (incident_of "bob" "now"))
correlate_event-IsUniform_example =
    correlate_event-IsUniform stamp_of 2000000001 "now" "i2" (event_of "bob") store
      (extend stamp_of 2000000001 "now" "i2" (event_of "bob") (incident_of "bob" "now"))
      (tt, (tt, (tt, tt))) found

-- Rounding with ties upwards
abbrev half_up : Rounding
half_up = record {
  round2 = λ s w r b. (s * w * r * b + 50) / 100;
  from_above = λ s w r b. omega arith;
  from_below = λ s w r b. omega arith;
}

score : score_incident half_up (incident_of "bob" "now") ≡ 1365
unfolding score_incident
score = refl

score_incident-le_example : score_incident half_up (incident_of "bob" "now") ≤ 6750
score_incident-le_example = score_incident-le half_up (incident_of "bob" "now")

score_incident-extend_example :
    score_incident half_up (incident_of "bob" "now")
    ≤ score_incident half_up
        (extend stamp_of 2000000001 "now" "i2" (event_of "bob") (incident_of "bob" "now"))
score_incident-extend_example =
    score_incident-extend half_up stamp_of 2000000001 "now" "i2" (event_of "bob")
      (incident_of "bob" "now")

-- Whole numbers as floats, in hundredths
abbrev float_of : Value → Result ℕ
float_of (int (pos n)) = ok (n * 100)
float_of (float (pos n) zero) = ok (n * 100)
float_of _ = raised type_error

abbrev below : ℕ → ℕ → Bool
below p least = ltb p least

below-IsMonotone : IsMonotone float_of below
below-IsMonotone p q least h k = ground arith

abbrev known : Value
known = arr (item (str "backup") no_items)

abbrev known_rules : Value
known_rules = obj (field "known_good_identities" known end)

check_suppression-extend_example :
    check_suppression float_of below known_rules (scored float_of below half_up joined) ≡ ok none
unfolding check_suppression score_incident get_in get get? holds has_item is_text
check_suppression-extend_example =
    check_suppression-extend float_of below half_up stamp_of 2000000001 "now" "i2" known_rules known
      (event_of "bob") (incident_of "bob" "now") below-IsMonotone refl refl refl

-- A text in place of the list is searched for the identity.
substring_run :
    check_suppression float_of below
      (obj (field "known_good_identities" (str "bob, backup") end))
      (scored float_of below half_up (incident_of "bob" "now"))
    ≡ ok (some (known_good_identity "bob"))
unfolding check_suppression score_incident get_in get get? holds tengen.Text.contains
substring_run = refl
