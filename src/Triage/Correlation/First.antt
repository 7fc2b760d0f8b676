-- ===== src/Triage/Correlation/First.antt =====
-- Which incident an event joins.
use tengen.Prelude.{
  String, ◌≡◌, refl, true, false, ok, List, [], ◌∷◌, ◌++◌, All, ◌⊎◌, ℕ, Result, inl, inr, sym, Bool,
  ap, ok-injective, ◌>>=◌, if◌then◌else◌, raised,
}
use tengen.Models.NormalizedEvent.{NormalizedEvent}
use tengen.Models.Incident.{Incident}
use tengen.Triage.Correlation.{Stamp, joins, extend, new_incident, correlate_event}

module _ (parse : String → Stamp) (now : ℕ) (stamp new_id : String) (event : NormalizedEvent) where
  abbrev pub Passed : Incident → Type 0
  Passed incident = joins parse now stamp new_id event incident ≡ ok false

  -- `incident` is the first of the store that the event joins, and `result` is it with the event.
  pub record Joined (store : List Incident) (result : Incident) : Type 0 where
    pub before : List Incident
    pub incident : Incident
    pub after : List Incident
    pub split : store ≡ before ++ incident ∷ after
    pub passed : All Passed before
    pub joined : joins parse now stamp new_id event incident ≡ ok true
    pub extended : result ≡ extend parse now stamp new_id event incident

  abbrev pub Answer : List Incident → Incident → Type 0
  Answer store result =
      Joined store result
      ⊎ (All Passed store × (result ≡ new_incident parse now stamp new_id event))

  Answer-cons :
      (i : Incident) (store : List Incident) (result : Incident)
      → Passed i
      → Answer store result
      → Answer (i ∷ store) result
  Answer-cons i store result p (inl j) = inl (record {
    before = i ∷ j.before;
    incident = j.incident;
    after = j.after;
    split = ap (λ s. i ∷ s) j.split;
    passed = (p, j.passed);
    joined = j.joined;
    extended = j.extended;
  })
  Answer-cons i store result p (inr (all, new)) = inr ((p, all), new)

  step-Answer :
      (i : Incident) (store : List Incident) (result : Incident) (verdict : Result Bool)
      → joins parse now stamp new_id event i ≡ verdict
      → (verdict >>= λ joined.
          if joined
          then ok (extend parse now stamp new_id event i)
          else correlate_event parse now stamp new_id event store)
        ≡ ok result
      → (correlate_event parse now stamp new_id event store ≡ ok result → Answer store result)
      → Answer (i ∷ store) result
  step-Answer i store result (ok true) e h rec = inl (record {
    before = [];
    incident = i;
    after = store;
    split = refl;
    passed = tt;
    joined = e;
    extended = sym (ok-injective h);
  })
  step-Answer i store result (ok false) e h rec = Answer-cons i store result e (rec h)
  step-Answer i store result (raised x) e h rec = cc

  -- The incident that is returned is the first of the store that the event may join, with the event
  -- behind its own; or every one is passed over, and it is a new one that holds the event alone.
  pub correlate_event-first :
      (store : List Incident) (result : Incident)
      → correlate_event parse now stamp new_id event store ≡ ok result
      → Answer store result
  unfolding correlate_event
  correlate_event-first [] result h = inr (tt, sym (ok-injective h))
  correlate_event-first (i ∷ store) result h =
      step-Answer i store result (joins parse now stamp new_id event i) refl h
        (λ k. correlate_event-first store result k)
