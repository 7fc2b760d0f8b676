-- ===== src/Udm/Updater/Known.antt =====
-- The suggestions of the mappings, as proposals.
use tengen.Prelude.{
  String, Bool, true, false, ◌&&◌, ◌||◌, List, [], ◌∷◌, ◌≡◌, refl, ◌==◌, if◌then◌else◌, arith, All,
  Dict, Result, ok, raised, ◌>>=◌, ◌⊎◌, inl, inr, sym, ok-injective, all, not, any,
}
use tengen.Value.{Value}
use tengen.Udm.Tables.{rules}
use tengen.Text.{drop_char, contains, lower}
use tengen.Udm.Mappings.{
  target_words, suggest_udm_field, first_rule, rule_field, ip_field, is_ip_field, leaf_name,
}
use tengen.Udm.Updater.{target_model, field_name, exists_on}

-- The model of the field has a field of that name.
abbrev pub is_known : String → Bool
is_known s = not (s == "") && exists_on (target_model s) (field_name s "")

abbrev known_rule : String × String → Bool
known_rule (_, udm_field) = is_known udm_field

rules-known : all known_rule rules ≡ true
unfolding target_model field_name exists_on tengen.Prelude.lookup
rules-known = refl

first_rule-known :
    (d : Dict String) (leaf : String)
    → all known_rule d ≡ true
    → (first_rule d leaf ≡ "") ⊎ (is_known (first_rule d leaf) ≡ true)
unfolding first_rule
first_rule-known [] leaf h = inl refl
first_rule-known ((token, f) ∷ d) leaf h = ground (arith, first_rule-known d leaf)

choice-known : (b : Bool) → is_known (if b then "target.ip" else "principal.ip") ≡ true
unfolding target_model field_name exists_on tengen.Prelude.lookup
choice-known true = refl
choice-known false = refl

ip_field-known : (path : String) → is_known (ip_field path) ≡ true
unfolding ip_field
ip_field-known path = choice-known (any (contains (lower path)) target_words)

field_name-any :
    (s path : String) → is_known s ≡ true → exists_on (target_model s) (field_name s path) ≡ true
unfolding field_name
field_name-any s path h = ground arith

rule_field-known : (leaf : String) → (rule_field leaf ≡ "") ⊎ (is_known (rule_field leaf) ≡ true)
unfolding rule_field
rule_field-known leaf = first_rule-known rules (drop_char 45 (drop_char 95 leaf)) rules-known

field-known :
    (ip : Bool) (path leaf : String)
    → ((if ip then ip_field path else rule_field leaf) ≡ "")
      ⊎ (is_known (if ip then ip_field path else rule_field leaf) ≡ true)
field-known true path leaf = inr (ip_field-known path)
field-known false path leaf = rule_field-known leaf

after-known :
    (verdict : Result Bool) (path leaf s : String)
    → (verdict >>= λ ip. ok (if ip then ip_field path else rule_field leaf)) ≡ ok s
    → (s ≡ "") ⊎ (is_known s ≡ true)
after-known (raised e) path leaf s h = cc
after-known (ok ip) path leaf s h = rw (← ok-injective h) (field-known ip path leaf)

-- A suggestion that is not empty names a field that its model already has.
pub suggest_udm_field-known :
    (other : String → Result Bool) (path : String) (value : Value) (s : String)
    → suggest_udm_field other path value ≡ ok s
    → (s ≡ "") ⊎ (exists_on (target_model s) (field_name s path) ≡ true)
unfolding suggest_udm_field
suggest_udm_field-known other path value s h =
    elim (after-known (is_ip_field other (leaf_name path) value) path (leaf_name path) s h) [
      | inl e ↦ inl e
      | inr k ↦ inr (field_name-any s path k)
    ]
