-- ===== src/Triage/Suppression/Joining.antt =====
-- An incident that is not suppressed, when an event joins it.
use tengen.Prelude.{
  ℕ, ◌≤◌, String, Bool, true, false, Option, none, some, List, [], ◌∷◌, ◌++◌, ◌≡◌, refl, ap, inl,
  inr, Result, ok, raised, ◌>>=◌, if◌then◌else◌, arith, all, Bool-cases, ok-injective,
  length-append,
}
use tengen.Models.NormalizedEvent.{NormalizedEvent}
use tengen.Value.{Value, holds}
use tengen.Triage.Suppression.{
  first_known_good, has_info, rule_3, check_suppression, known_identities, Reason, rule_2,
  below_threshold, Incident, later_rules, min_score,
}
use tengen.Triage.Score.{Rounding, score_incident}
use tengen.Models.Incident.{Incident}
use tengen.Triage.Correlation.{extend, Stamp}
use tengen.Triage.Score.Growth.{score_incident-extend}

all-append_false :
    {A : Type 0} (p : A → Bool) (xs ys : List A) → all p xs ≡ false → all p (xs ++ ys) ≡ false
all-append_false p [] ys h = cc
all-append_false p (x ∷ xs) ys h = ground (arith, all-append_false p xs ys)

first_known_good-append :
    (known : Value) (es : List NormalizedEvent) (event : NormalizedEvent)
    → first_known_good known es ≡ ok none
    → holds event.actor.identity known ≡ ok false
    → first_known_good known (es ++ event ∷ []) ≡ ok none
unfolding first_known_good
first_known_good-append known [] event h k = rw k refl
first_known_good-append known (e ∷ es) event h k =
    ground (arith, first_known_good-append known es event)

module _ {F : Type 0} (float_of : Value → Result F) (below : ℕ → F → Bool) where
  rule_3-append :
      (es : List NormalizedEvent) (event : NormalizedEvent)
      → rule_3 float_of below es ≡ none
      → rule_3 float_of below (es ++ event ∷ []) ≡ none
  rule_3-append es event h =
      ground (arith, all-append_false has_info es (event ∷ []), length-append es (event ∷ []))

  found-append :
      (known : Value) (es : List NormalizedEvent) (event : NormalizedEvent)
      (found : Result (Option String))
      → first_known_good known es ≡ found
      → (found >>= λ f. ok (rule_2 float_of below es f)) ≡ ok none
      → holds event.actor.identity known ≡ ok false
      → (first_known_good known (es ++ event ∷ []) >>= λ f.
          ok (rule_2 float_of below (es ++ event ∷ []) f))
        ≡ ok none
  found-append known es event (raised x) e h k = cc
  found-append known es event (ok (some s)) e h k = cc
  found-append known es event (ok none) e h k =
      rw (first_known_good-append known es event e k)
        (ap ok (rule_3-append es event (ok-injective h)))

  -- Less is below, where more is.
  abbrev pub IsMonotone : Type 0
  IsMonotone = (p q : ℕ) (least : F) → p ≤ q → below q least ≡ true → below p least ≡ true

  -- The incident with the score that is computed for it
  abbrev pub scored : Rounding → Incident → Incident
  scored rounding i = record i { priority_score = score_incident rounding i }

  later_rules-append :
      (rules known : Value) (es : List NormalizedEvent) (event : NormalizedEvent)
      → known_identities rules ≡ ok known
      → holds event.actor.identity known ≡ ok false
      → later_rules float_of below rules es ≡ ok none
      → later_rules float_of below rules (es ++ event ∷ []) ≡ ok none
  later_rules-append rules known es event e k h =
      let h' : (first_known_good known es >>= λ f. ok (rule_2 float_of below es f)) ≡ ok none =
        rw e at h in
      rw e (found-append known es event (first_known_good known es) refl h' k)

  threshold-append :
      (least : Result F) (p q : ℕ) (rest rest' : Result (Option (Reason F)))
      → IsMonotone
      → p ≤ q
      → (rest ≡ ok none → rest' ≡ ok none)
      → (least >>= λ l. if below p l then ok (some (below_threshold p l)) else rest) ≡ ok none
      → (least >>= λ l. if below q l then ok (some (below_threshold q l)) else rest') ≡ ok none
  threshold-append (raised x) p q rest rest' mono le keep h = cc
  threshold-append (ok l) p q rest rest' mono le keep h = elim (Bool-cases (below q l)) [
    | inl e ↦
        let e' = mono p q l le e in
        let h' : ok (some (below_threshold p l)) ≡ ok none = rw e' at h in cc
    | inr e ↦ elim (Bool-cases (below p l)) [
      | inl d ↦ let h' : ok (some (below_threshold p l)) ≡ ok none = rw d at h in cc
      | inr d ↦ let h' : rest ≡ ok none = rw d at h in rw e (keep h')
    ]
  ]

  -- When an incident is not suppressed under its score, and an event joins it whose actor is not one
  -- of the identities that the rules know to be good, the incident is not suppressed under its new
  -- score either, as long as a score is below a minimum whenever a higher one is, and the rounding of
  -- the scores is off by half of a hundredth at most.
  pub check_suppression-extend :
      (rounding : Rounding) (parse : String → Stamp) (now : ℕ) (stamp new_id : String)
      (rules known : Value) (event : NormalizedEvent) (incident : Incident)
      → IsMonotone
      → known_identities rules ≡ ok known
      → holds event.actor.identity known ≡ ok false
      → check_suppression float_of below rules (scored rounding incident) ≡ ok none
      → check_suppression float_of below rules
          (scored rounding (extend parse now stamp new_id event incident))
        ≡ ok none
  unfolding check_suppression extend
  check_suppression-extend rounding parse now stamp new_id rules known event incident mono e k h =
      threshold-append (min_score float_of below rules) (score_incident rounding incident)
        (score_incident rounding (extend parse now stamp new_id event incident))
        (later_rules float_of below rules incident.events)
        (later_rules float_of below rules (incident.events ++ event ∷ [])) mono
        (score_incident-extend rounding parse now stamp new_id event incident)
        (later_rules-append rules known incident.events event e k) h
