-- ===== src/Agents/Azure/Escalation.antt =====
-- agents/azure_runbook.py: which operations the check can find.
use tengen.Prelude.{
  String, false, List, [], ◌∷◌, ◌≡◌, refl, ap, inl, inr, Result, ok, raised, ◌>>=◌, arith,
  Bool-cases,
}
use tengen.Text.{lower, contains}
use tengen.Text.Laws.{contains-has_char, lower-has_char}
use tengen.Value.{get_in, empty_obj, str, Value, text}
use tengen.Agents.Json.{lower_of}
use tengen.Agents.Azure.{
  nested, escalation_ops, indicators, escalation, operation, check_escalation,
}

-- The operations of the list that are written in small letters
abbrev pub found_ops : List String
found_ops =
    "microsoft.authorization/roleassignments/write"
    ∷ "microsoft.authorization/roledefinitions/write"
    ∷ "microsoft.authorization/policyassignments/write" ∷ "microsoft.aad/directoryrolemembers/write"
    ∷ []

abbrev credentials_op : String
credentials_op = "microsoft.directory/servicePrincipals/credentials/update"

-- The text of an operation is in small letters, and the fifth operation has a capital.
never_contains : (s : String) → contains (lower s) credentials_op ≡ false
never_contains s = elim (Bool-cases (contains (lower s) credentials_op)) [
  | inl e ↦ ground (arith, contains-has_char 80 (lower s) credentials_op e (lower-has_char s))
  | inr e ↦ e
]

indicators-lower :
    (s : String) → indicators escalation_ops (lower s) ≡ indicators found_ops (lower s)
unfolding indicators
indicators-lower s = rw (never_contains s) refl

abbrev OnLower : Result String → Type 0
OnLower r =
    (r >>= λ op. ok (escalation (indicators escalation_ops op)))
    ≡ (r >>= λ op. ok (escalation (indicators found_ops op)))

lowered : (r : Result String) → OnLower (r >>= λ s. ok (lower s))
lowered (ok s) = ap (λ l. ok (escalation l)) (indicators-lower s)
lowered (raised e) = refl

bind-OnLower :
    (r : Result Value) (k : Value → Result String)
    → ((v : Value) → OnLower (k v))
    → OnLower (r >>= k)
bind-OnLower (ok v) k h = h v
bind-OnLower (raised e) k h = refl

-- For every event, the check finds the operations that are written in small letters, and never the
-- update of a service principal's credentials, which the list writes with a capital.
pub check_escalation-found :
    (event : Value)
    → check_escalation event ≡ (operation event >>= λ op. ok (escalation (indicators found_ops op)))
unfolding check_escalation
check_escalation-found event =
    bind-OnLower (get_in event "raw_event" empty_obj)
      (λ raw. nested raw ("operationName" ∷ "value" ∷ []) (str "") >>= λ v. lower_of v)
      (λ raw.
        bind-OnLower (nested raw ("operationName" ∷ "value" ∷ []) (str "")) (λ v. lower_of v)
          (λ v. lowered (text v)))
