-- ===== src/Udm/Mappings.antt =====
-- udm/mappings.py. `other` says whether a part with characters outside ASCII passes
-- `p.isdigit() and 0 <= int(p) <= 255`, or raises.
pub mod Leaves
use Prim.Native.String
use Prim.Native.Char.{code}
use tengen.Prelude.{
  ℕ, zero, ◌+◌, ◌*◌, ◌-◌, String, Bool, true, false, not, ◌&&◌, ◌||◌, List, [], ◌∷◌, ◌++◌, Dict,
  lookup, insert, Option, some, none, length, any, leb, eqb, if◌then◌else◌, Result, ok, raised,
  ◌>>=◌, is_some, ◌==◌,
}
use tengen.Text.{
  text_length, cat, contains, ends_with, lower, split, last_part, drop_char, drop_brackets,
}
use tengen.Value.{
  Value, Fields, Items, str, obj, arr, bool, int, float, null, field, end, item, no_items,
}
use tengen.Udm.Tables.{rules}

-- `out.update(…)` and `out.setdefault(path, item)`
unfoldable pub merge : Dict Value → Dict Value → Dict Value
merge out [] = out
merge out ((k, v) ∷ d) = merge (insert k v out) d

unfoldable pub set_default : String → Value → Dict Value → Dict Value
set_default k v out = if is_some (lookup k out) then out else out ++ (k, v) ∷ []

abbrev pub sub_path : String → String → String
sub_path prefix key = if prefix == "" then key else cat prefix (cat "." key)

abbrev pub leaf_at : String → Value → Dict Value
leaf_at prefix v = if prefix == "" then [] else (prefix, v) ∷ []

unfoldable mutual
  pub flatten : Value → String → Dict Value
  flatten (obj fs) prefix = flatten_fields fs prefix []
  flatten (arr vs) prefix = flatten_items vs (cat prefix "[]") []
  flatten (str s) prefix = leaf_at prefix (str s)
  flatten (bool b) prefix = leaf_at prefix (bool b)
  flatten (int z) prefix = leaf_at prefix (int z)
  flatten (float z k) prefix = leaf_at prefix (float z k)
  flatten null prefix = leaf_at prefix null

  pub flatten_fields : Fields → String → Dict Value → Dict Value
  flatten_fields end prefix out = out
  flatten_fields (field k v fs) prefix out =
      flatten_fields fs prefix (merge out (flatten v (sub_path prefix k)))

  pub flatten_items : Items → String → Dict Value → Dict Value
  flatten_items no_items path out = out
  flatten_items (item (obj fs) vs) path out =
      flatten_items vs path (merge out (flatten_fields fs path []))
  flatten_items (item (arr ws) vs) path out =
      flatten_items vs path (merge out (flatten_items ws (cat path "[]") []))
  flatten_items (item v vs) path out = flatten_items vs path (set_default path v out)

-- The characters of a text that are digits of ASCII, and the number they write
unfoldable pub is_ascii : String → Bool
is_ascii String.[] = true
is_ascii (String.◌∷◌ c s) = leb (code c) 127 && is_ascii s

unfoldable pub all_digits : String → Bool
all_digits String.[] = true
all_digits (String.◌∷◌ c s) = leb 48 (code c) && leb (code c) 57 && all_digits s

unfoldable pub number_from : ℕ → String → ℕ
number_from n String.[] = n
number_from n (String.◌∷◌ c s) = number_from (n * 10 + (code c - 48)) s

abbrev holds_one : String → List String → Bool
holds_one s ts = any (contains s) ts

abbrev hex_digits : List String
hex_digits =
    "a" ∷ "b" ∷ "c" ∷ "d" ∷ "e" ∷ "f" ∷ "A" ∷ "B" ∷ "C" ∷ "D" ∷ "E" ∷ "F" ∷ "0" ∷ "1" ∷ "2" ∷ "3"
    ∷ "4" ∷ "5" ∷ "6" ∷ "7" ∷ "8" ∷ "9" ∷ []

-- The last part of the path in lower case, without brackets.
unfoldable pub leaf_name : String → String
unfolding split last_part drop_brackets lower
leaf_name raw_path = lower (drop_brackets (last_part "" (split 46 raw_path)))

abbrev pub target_words : List String
target_words = "dst" ∷ "dest" ∷ "target" ∷ "external" ∷ "remote" ∷ "destination" ∷ []

-- Both of the other directions, and none of them, give the principal.
unfoldable pub ip_field : String → String
unfolding lower contains
ip_field raw_path = if holds_one (lower raw_path) target_words then "target.ip" else "principal.ip"

-- The loop over the rules
unfoldable pub first_rule : Dict String → String → String
unfolding contains
first_rule [] normalized = ""
first_rule ((token, udm_field) ∷ more) normalized =
    let rest = first_rule more normalized in if contains normalized token then udm_field else rest

unfoldable pub rule_field : String → String
unfolding first_rule drop_char
rule_field leaf = first_rule rules (drop_char 45 (drop_char 95 leaf))

module _ (other : String → Result Bool) where
  -- `p.isdigit() and 0 <= int(p) <= 255`
  unfoldable pub is_octet : String → Result Bool
  unfolding is_ascii all_digits number_from
  is_octet p =
      if is_ascii p
      then ok (not (p == "") && all_digits p && leb (number_from 0 p) 255)
      else other p

  unfoldable pub all_octets : List String → Result Bool
  unfolding is_octet
  all_octets [] = ok true
  all_octets (p ∷ ps) =
      let rest = all_octets ps in is_octet p >>= λ octet. if octet then rest else ok false

  unfoldable pub looks_like_ip : Value → Result Bool
  unfolding all_octets split contains
  looks_like_ip (str s) =
      (if eqb (length (split 46 s)) 4 then all_octets (split 46 s) else ok false) >>= λ v4.
      ok (v4 || (contains s ":" && leb (text_length s) 45 && holds_one s hex_digits))
  looks_like_ip _ = ok false

  -- `"ip" in leaf and (…)`
  unfoldable pub is_ip_field : String → Value → Result Bool
  unfolding looks_like_ip contains ends_with
  is_ip_field leaf value =
      if contains leaf "ip"
      then (looks_like_ip value >>= λ ip.
          ok (ip || ends_with leaf "ip" || contains leaf "ipaddress"))
      else ok false

  unfoldable pub suggest_udm_field : String → Value → Result String
  suggest_udm_field raw_path value = is_ip_field (leaf_name raw_path) value >>= λ ip.
      ok (if ip then ip_field raw_path else rule_field (leaf_name raw_path))
