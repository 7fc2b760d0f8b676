-- ===== src/Triage/Correlation/Uniform.antt =====
-- The events of an incident are of one actor and one source.
use tengen.Prelude.{
  ℕ, String, ◌≡◌, true, ok, List, [], ◌∷◌, ◌++◌, arith, All, eq_iff, refl, All-append, inr, ◌-◌,
  inl, ◌*◌,
}
use tengen.Models.NormalizedEvent.{NormalizedEvent, LogSourceType, same_source}
use tengen.Models.Incident.{Incident}
use tengen.Triage.Correlation.{
  Stamp, same_actor, joins, extend, new_incident, correlate_event, tests,
  correlation_window_minutes,
}
use tengen.Triage.Correlation.First.{correlate_event-first}

-- The two events are of the same actor and the same source.
abbrev pub Same : NormalizedEvent → NormalizedEvent → Type 0
Same first event =
    (first.actor.identity ≡ event.actor.identity) × (first.source_type ≡ event.source_type)

abbrev pub AllSame : List NormalizedEvent → Type 0
AllSame [] = Unit
AllSame (first ∷ more) = All (Same first) more

abbrev pub IsUniform : Incident → Type 0
IsUniform incident = AllSame incident.events

same_source_lem : (a b : LogSourceType) → same_source a b ≡ true → a ≡ b
unfolding same_source
same_source_lem LogSourceType.aws LogSourceType.aws h = refl
same_source_lem LogSourceType.aws _ h = cc
same_source_lem LogSourceType.gcp LogSourceType.gcp h = refl
same_source_lem LogSourceType.gcp _ h = cc
same_source_lem LogSourceType.azure LogSourceType.azure h = refl
same_source_lem LogSourceType.azure _ h = cc
same_source_lem LogSourceType.crowdstrike LogSourceType.crowdstrike h = refl
same_source_lem LogSourceType.crowdstrike _ h = cc
same_source_lem LogSourceType.firewall LogSourceType.firewall h = refl
same_source_lem LogSourceType.firewall _ h = cc
same_source_lem LogSourceType.ddos LogSourceType.ddos h = refl
same_source_lem LogSourceType.ddos _ h = cc
same_source_lem LogSourceType.k8s LogSourceType.k8s h = refl
same_source_lem LogSourceType.k8s _ h = cc
same_source_lem LogSourceType.openshift LogSourceType.openshift h = refl
same_source_lem LogSourceType.openshift _ h = cc
same_source_lem LogSourceType.unknown LogSourceType.unknown h = refl
same_source_lem LogSourceType.unknown _ h = cc

pub same_actor-Same :
    (first event : NormalizedEvent) → same_actor first event ≡ true → Same first event
unfolding same_actor
same_actor-Same first event h =
    let identity : first.actor.identity ≡ event.actor.identity =
      ground (arith, eq_iff first.actor.identity event.actor.identity) in
    let source : same_source first.source_type event.source_type ≡ true = ground arith in
    (identity, same_source_lem first.source_type event.source_type source)

tests-same_actor :
    (cutoff : ℕ) (stamp : Stamp) (first event : NormalizedEvent) (more : List NormalizedEvent)
    → tests cutoff stamp (first ∷ more) event ≡ ok true
    → same_actor first event ≡ true
tests-same_actor cutoff stamp first event more h = ground arith

AllSame-append :
    (cutoff : ℕ) (stamp : Stamp) (events : List NormalizedEvent) (event : NormalizedEvent)
    → tests cutoff stamp events event ≡ ok true
    → AllSame events
    → AllSame (events ++ event ∷ [])
AllSame-append cutoff stamp [] event h u = cc
AllSame-append cutoff stamp (first ∷ more) event h u =
    All-append (Same first) more (event ∷ []) u
      (same_actor-Same first event (tests-same_actor cutoff stamp first event more h), tt)

All-middle {ℓ} :
    {A : Type 0} (P : A → Type ℓ) (before : List A) (a : A) (after : List A)
    → All P (before ++ a ∷ after)
    → P a
All-middle P [] a after h = h.0
All-middle P (b ∷ before) a after h = All-middle P before a after h.1

module _ (parse : String → Stamp) (now : ℕ) (stamp new_id : String) (event : NormalizedEvent) where
  joins-tests :
      (incident : Incident)
      → joins parse now stamp new_id event incident ≡ ok true
      → tests
          (now - correlation_window_minutes * 60000000)
          (parse incident.updated_at)
          incident.events
          event
        ≡ ok true
  unfolding joins
  joins-tests incident h = ground arith

  extend-IsUniform :
      (incident : Incident)
      → joins parse now stamp new_id event incident ≡ ok true
      → IsUniform incident
      → IsUniform (extend parse now stamp new_id event incident)
  unfolding extend
  extend-IsUniform incident h u =
      AllSame-append (now - correlation_window_minutes * 60000000) (parse incident.updated_at)
        incident.events event (joins-tests incident h) u

  -- If every incident of the store holds events of one actor and one source, so does the result.
  pub correlate_event-IsUniform :
      (store : List Incident) (result : Incident)
      → All IsUniform store
      → correlate_event parse now stamp new_id event store ≡ ok result
      → IsUniform result
  unfolding new_incident
  correlate_event-IsUniform store result u h =
      elim (correlate_event-first parse now stamp new_id event store result h) [
        | inr (passed, new) ↦ rw new tt
        | inl j ↦
            let all : All IsUniform (j.before ++ j.incident ∷ j.after) = rw j.split at u in
            rw j.extended (
              extend-IsUniform j.incident j.joined
                (All-middle IsUniform j.before j.incident j.after all))
      ]
