-- ===== src/Triage/Correlation/Chosen.antt =====
-- Which incident an event joins, and what becomes of it, in the words of the code's documentation.
use tengen.Prelude.{
  ℕ, ◌+◌, ◌-◌, ◌*◌, ◌≤◌, String, true, false, List, [], ◌∷◌, ◌++◌, ◌≡◌, ◌≢◌, refl, ◌⊎◌, inl, inr,
  ok, arith, All, All-map, eq_refl,
}
use tengen.Models.NormalizedEvent.{NormalizedEvent, source_value, same_source}
use tengen.Models.Incident.{
  Incident, IncidentStatus, opened, triaging, contained, closed, suppressed,
}
use tengen.Triage.Correlation.{
  Stamp, unreadable, naive, aware, joins, extend, new_incident, correlate_event, same_actor, tests,
  is_over, correlation_window_minutes,
}
use tengen.Triage.Correlation.First.{correlate_event-first}
use tengen.Triage.Correlation.Uniform.{Same, same_actor-Same}

-- Fifteen minutes, in microseconds
abbrev pub window : ℕ
window = 900000000

module _ (parse : String → Stamp) (now : ℕ) (event : NormalizedEvent) where
  -- The incident is neither suppressed nor closed, its first event is of the same actor and source,
  -- and it was updated in the window before the call.
  pub record MayJoin (incident : Incident) : Type 0 where
    pub not_suppressed : incident.suppressed ≡ false
    pub not_closed : incident.status ≢ closed
    pub not_set_aside : incident.status ≢ suppressed
    pub first : NormalizedEvent
    pub more : List NormalizedEvent
    pub holds : incident.events ≡ first ∷ more
    pub time : ℕ
    pub updated : parse incident.updated_at ≡ aware time
    pub recent : now ≤ time + window
    pub same : Same first event

is_over-open : (s : IncidentStatus) → is_over s ≡ false → (s ≢ closed) × (s ≢ suppressed)
is_over-open opened h = (λ e. cc, λ e. cc)
is_over-open triaging h = (λ e. cc, λ e. cc)
is_over-open contained h = (λ e. cc, λ e. cc)
is_over-open closed h = cc
is_over-open suppressed h = cc

open-is_over : (s : IncidentStatus) → s ≢ closed → s ≢ suppressed → is_over s ≡ false
open-is_over opened h k = refl
open-is_over triaging h k = refl
open-is_over contained h k = refl
open-is_over closed h k = elim (h refl) [ ]
open-is_over suppressed h k = elim (k refl) [ ]

-- What the tests on the events and the time come to
abbrev Passes : ℕ → Stamp → List NormalizedEvent → NormalizedEvent → Type 0
Passes cutoff stamp events event =
    (first : NormalizedEvent) × (more : List NormalizedEvent) × (time : ℕ) × (events ≡ first ∷ more)
    × (stamp ≡ aware time)
    × (cutoff ≤ time)
    × Same first event

tests-Passes :
    (cutoff : ℕ) (stamp : Stamp) (events : List NormalizedEvent) (event : NormalizedEvent)
    → tests cutoff stamp events event ≡ ok true
    → Passes cutoff stamp events event
tests-Passes cutoff stamp [] event h = cc
tests-Passes cutoff unreadable (first ∷ more) event h = cc
tests-Passes cutoff naive (first ∷ more) event h = cc
tests-Passes cutoff (aware time) (first ∷ more) event h =
    (first, more, time, refl, refl, ground arith, same_actor-Same first event (ground arith))

Same-same_actor : (first event : NormalizedEvent) → Same first event → same_actor first event ≡ true
unfolding same_actor same_source
Same-same_actor first event (i, s) =
    rw (i, s)
      (ground (arith, eq_refl event.actor.identity, eq_refl (source_value event.source_type)))

Passes-tests :
    (cutoff : ℕ) (stamp : Stamp) (events : List NormalizedEvent) (event : NormalizedEvent)
    → Passes cutoff stamp events event
    → tests cutoff stamp events event ≡ ok true
Passes-tests cutoff stamp events event (first, more, time, e, t, recent, same) =
    rw (e, t) (ground (arith, Same-same_actor first event same))

module _ (parse : String → Stamp) (now : ℕ) (stamp new_id : String) (event : NormalizedEvent) where
  joins-MayJoin :
      (i : Incident) → joins parse now stamp new_id event i ≡ ok true → MayJoin parse now event i
  unfolding joins
  joins-MayJoin i h =
      let (not_closed, not_set_aside) = is_over-open i.status (ground arith) in
      let (first, more, time, e, t, recent, same) =
        tests-Passes (now - correlation_window_minutes * 60000000) (parse i.updated_at) i.events
          event (ground arith) in
      record {
        not_suppressed = ground arith;
        not_closed = not_closed;
        not_set_aside = not_set_aside;
        first = first;
        more = more;
        holds = e;
        time = time;
        updated = t;
        recent = omega arith;
        same = same;
      }

  MayJoin-joins :
      (i : Incident) → MayJoin parse now event i → joins parse now stamp new_id event i ≡ ok true
  unfolding joins
  MayJoin-joins i m =
      let recent : now - correlation_window_minutes * 60000000 ≤ m.time =
        let r = m.recent in omega arith in
      rw (m.not_suppressed, open-is_over i.status m.not_closed m.not_set_aside)
        (Passes-tests (now - correlation_window_minutes * 60000000) (parse i.updated_at) i.events
          event (m.first, m.more, m.time, m.holds, m.updated, recent, m.same))

  passed-over :
      (i : Incident)
      → joins parse now stamp new_id event i ≡ ok false
      → MayJoin parse now event i
      → ⊥
  passed-over i h m = let k = MayJoin-joins i m in cc

  -- The incident with the event behind its own: it is being triaged, was updated now, and is the
  -- same otherwise.
  abbrev pub Extends : Incident → Incident → Type 0
  Extends i result =
      (result.events ≡ i.events ++ event ∷ [])
      × (result.status ≡ triaging)
      × (result.updated_at ≡ stamp)
      × (result.incident_id ≡ i.incident_id)
      × (result.findings ≡ i.findings)
      × (result.priority_score ≡ i.priority_score)
      × (result.suppressed ≡ i.suppressed)
      × (result.suppression_reason ≡ i.suppression_reason)
      × (result.created_at ≡ i.created_at)
      × (result.labels ≡ i.labels)

  -- A new incident that holds the event alone
  abbrev pub HoldsAlone : Incident → Type 0
  HoldsAlone result =
      (result.events ≡ event ∷ [])
      × (result.status ≡ opened)
      × (result.incident_id ≡ new_id)
      × (result.findings ≡ [])
      × (result.priority_score ≡ 0)
      × (result.suppressed ≡ false)
      × (result.created_at ≡ stamp)
      × (result.updated_at ≡ stamp)

  abbrev pub CannotJoin : Incident → Type 0
  CannotJoin i = ¬ MayJoin parse now event i

  -- When correlation returns an incident, either it is the first incident of the store that the event
  -- may join, with the event behind its own, or the event may join none and the incident is a new one
  -- that holds the event alone. An event may join an incident that is not suppressed or closed, whose
  -- first event is of the same actor and source, and that was updated at most 15 minutes ago.
  pub correlate_event-chosen :
      (store : List Incident) (result : Incident)
      → correlate_event parse now stamp new_id event store ≡ ok result
      → ((before : List Incident) × (i : Incident) × (after : List Incident) × (store
            ≡ before ++ i ∷ after)
          × All CannotJoin before
          × MayJoin parse now event i
          × Extends i result)
        ⊎ (All CannotJoin store × HoldsAlone result)
  unfolding extend new_incident
  correlate_event-chosen store result h =
      elim (correlate_event-first parse now stamp new_id event store result h) [
        | inl j ↦ inl (
          j.before,
          j.incident,
          j.after,
          j.split,
          All-map (λ i p. passed-over i p) j.before j.passed,
          joins-MayJoin j.incident j.joined,
          rw j.extended (refl, refl, refl, refl, refl, refl, refl, refl, refl, refl),
        )
        | inr (passed, new) ↦ inr (
          All-map (λ i p. passed-over i p) store passed,
          rw new (refl, refl, refl, refl, refl, refl, refl, refl),
        )
      ]
