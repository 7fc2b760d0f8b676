-- ===== src/Triage/Correlation.antt =====
-- `correlate_event`. Times are microseconds; `parse` is `datetime.fromisoformat`, and a time with no
-- zone cannot be compared with the window's start.
pub mod First
pub mod Uniform
pub mod Chosen
use tengen.Prelude.{
  ℕ, ◌-◌, String, Bool, true, false, List, [], ◌∷◌, ◌++◌, ◌||◌, ◌&&◌, ◌==◌, Result, ok, raised,
  type_error, ltb, if◌then◌else◌, ◌>>=◌, ◌*◌,
}
use tengen.Value.{end}
use tengen.Models.NormalizedEvent.{NormalizedEvent, same_source}
use tengen.Models.Incident.{
  Incident, IncidentStatus, opened, triaging, contained, closed, suppressed,
}

pub data Stamp : Type 0 where
  unreadable naive : Stamp
  aware : ℕ → Stamp

abbrev pub correlation_window_minutes : ℕ
correlation_window_minutes = 15

-- `incident.status in (CLOSED, SUPPRESSED)`
abbrev pub is_over : IncidentStatus → Bool
is_over closed = true
is_over suppressed = true
is_over opened = false
is_over triaging = false
is_over contained = false

-- The last test of the loop
unfoldable pub same_actor : NormalizedEvent → NormalizedEvent → Bool
same_actor first event =
    first.actor.identity == event.actor.identity && same_source first.source_type event.source_type

-- The body of the loop, for one incident: whether the event joins it.
abbrev in_window : ℕ → Stamp → Bool → Result Bool
in_window cutoff unreadable same = ok false
in_window cutoff naive same = raised type_error
in_window cutoff (aware t) same = if ltb t cutoff then ok false else ok same

abbrev tests : ℕ → Stamp → List NormalizedEvent → NormalizedEvent → Result Bool
tests cutoff stamp [] event = ok false
tests cutoff stamp (first ∷ _) event = in_window cutoff stamp (same_actor first event)

-- `now` is the clock when the call begins, `stamp` the text of it when the incident is written, and
-- `new_id` what `uuid4` gives.
module _ (parse : String → Stamp) (now : ℕ) (stamp new_id : String) where
  unfoldable pub joins : NormalizedEvent → Incident → Result Bool
  unfolding same_actor
  joins event incident =
      if incident.suppressed || is_over incident.status
      then ok false
      else tests (now - correlation_window_minutes * 60000000) (parse incident.updated_at)
          incident.events event

  unfoldable pub extend : NormalizedEvent → Incident → Incident
  extend event incident = record incident {
    events = incident.events ++ event ∷ [];
    status = triaging;
    updated_at = stamp;
  }

  unfoldable pub new_incident : NormalizedEvent → Incident
  new_incident event = record {
    incident_id = new_id;
    events = event ∷ [];
    findings = [];
    status = opened;
    priority_score = 0;
    suppressed = false;
    suppression_reason = "";
    created_at = stamp;
    updated_at = stamp;
    labels = end;
  }

  unfoldable pub correlate_event : NormalizedEvent → List Incident → Result Incident
  unfolding joins extend new_incident
  correlate_event event [] = ok (new_incident event)
  correlate_event event (incident ∷ store) =
      let rest = correlate_event event store in
      joins event incident >>= λ joined. if joined then ok (extend event incident) else rest
