-- ===== src/Triage/Suppression.antt =====
-- `check_suppression`, on rules of any shape. A priority score is in hundredths; `float_of` is
-- `float(v)`, and `below` compares a score with the float that it gives.
pub mod Joining
use tengen.Prelude.{
  ℕ, zero, suc, ◌+◌, ◌-◌, ◌*◌, ◌/◌, ◌%◌, ◌≤◌, ◌<◌, String, Bool, true, false, not, ◌&&◌, ◌||◌,
  Option, none, some, List, [], ◌∷◌, ◌++◌, ◌≡◌, ◌≢◌, refl, sym, ap, subst, ◌∙◌, ◌⊎◌, inl, inr, ◌↔◌,
  Result, ok, raised, Done, ◌>>=◌, if◌then◌else◌, ◌==◌, eq_iff, arith, map, append-nil,
  append_assoc, is_some, get_or, length, all, any, All, Dict, lookup, insert, eqb, ltb, leb, one_of,
  Bool-cases, Option-cases, type_error, attribute_error, key_error, index_error, value_error,
  runtime_error, is_ok, value_or, IsIn, IsIn-append, IsIn-last, All-map, All-IsIn, some-injective,
  ok-injective,
}
use tengen.Models.Alert.{AlertSeverity, critical, high, medium, low, info}
use tengen.Models.NormalizedEvent.{NormalizedEvent}
use tengen.Models.Incident.{Incident}
use tengen.Value.{Value, pos, float, arr, no_items, get_in, holds}

-- The reasons that the answer can give
pub data Reason (F : Type 0) : Type 0 where
  below_threshold : ℕ → F → Reason F
  known_good_identity : String → Reason F
  info_only_low_recurrence : Reason F

-- The loop of rule 2: `known` may be a list, or anything else that `in` takes or refuses.
unfoldable pub first_known_good : Value → List NormalizedEvent → Result (Option String)
unfolding holds
first_known_good known [] = ok none
first_known_good known (e ∷ es) =
    let rest = first_known_good known es in
    holds e.actor.identity known >>= λ b. if b then ok (some e.actor.identity) else rest

abbrev pub is_info : AlertSeverity → Bool
is_info info = true
is_info critical = false
is_info high = false
is_info medium = false
is_info low = false

abbrev pub has_info : NormalizedEvent → Bool
has_info e = is_info e.severity

abbrev pub known_identities : Value → Result Value
known_identities rules = get_in rules "known_good_identities" (arr no_items)

module _ {F : Type 0} (float_of : Value → Result F) (below : ℕ → F → Bool) where
  abbrev pub min_score : Value → Result F
  min_score rules = get_in rules "min_priority_score" (float (pos 1) 0) >>= λ v. float_of v

  abbrev pub rule_3 : List NormalizedEvent → Option (Reason F)
  rule_3 events =
      if all has_info events && ltb (length events) 3 then some info_only_low_recurrence else none

  abbrev pub rule_2 : List NormalizedEvent → Option String → Option (Reason F)
  rule_2 events (some identity) = some (known_good_identity identity)
  rule_2 events none = rule_3 events

  abbrev pub later_rules : Value → List NormalizedEvent → Result (Option (Reason F))
  later_rules rules events = known_identities rules >>= λ known.
      first_known_good known events >>= λ found. ok (rule_2 events found)

  -- The reason to suppress the incident, or none.
  unfoldable pub check_suppression : Value → Incident → Result (Option (Reason F))
  unfolding first_known_good get_in
  check_suppression rules incident = min_score rules >>= λ least.
      if below incident.priority_score least
      then ok (some (below_threshold incident.priority_score least))
      else later_rules rules incident.events
