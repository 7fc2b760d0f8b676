-- ===== src/Value.antt =====
-- The values that `json.loads` and `yaml.safe_load` give, and the calls of the program on them. A
-- float is the finite number m / 2 ^ k; an infinity or a NaN is not modelled.
pub mod Laws
pub mod Native
use tengen.Prelude.{
  ℕ, String, Bool, true, false, ◌&&◌, ◌||◌, Option, none, some, List, [], ◌∷◌, ◌==◌, eqb, get_or,
  if◌then◌else◌, one_of, Result, ok, raised, Error, attribute_error, type_error, ◌>>=◌, is_some,
  not,
}
use tengen.Text.{contains}

pub data ℤ : Type 0 where
  pos : ℕ → ℤ
  negsuc : ℕ → ℤ

mutual
  pub data Value : Type 0 where
    str : String → Value
    bool : Bool → Value
    int : ℤ → Value
    float : ℤ → ℕ → Value
    obj : Fields → Value
    arr : Items → Value
    null : Value

  -- The entries of a dictionary, in insertion order.
  pub data Fields : Type 0 where
    field : String → Value → Fields → Fields
    end : Fields

  pub data Items : Type 0 where
    item : Value → Items → Items
    no_items : Items

abbrev pub empty_obj : Value
empty_obj = obj end

-- `d.get(k)`, where `none` is the absence of the key
unfoldable pub get? : String → Fields → Option Value
get? k end = none
get? k (field j v fs) = if j == k then some v else get? k fs

-- `d.get(k, default)`
unfoldable pub get : String → Value → Fields → Value
unfolding get?
get k d fs = get_or (get? k fs) d

-- `k in d`
unfoldable pub has : String → Fields → Bool
unfolding get?
has k fs = is_some (get? k fs)

-- `v.get(k, default)` on a value of any type: only a dictionary has the method.
unfoldable pub get_in : Value → String → Value → Result Value
unfolding get
get_in (obj fs) k d = ok (get k d fs)
get_in _ k d = raised attribute_error

-- A method of `str` on a value of any type
unfoldable pub text : Value → Result String
text (str s) = ok s
text _ = raised attribute_error

-- `v == "…"`
unfoldable pub is_text : Value → String → Bool
is_text (str s) t = s == t
is_text _ t = false

-- `v in ("…", "…")`
unfoldable pub is_one_of : Value → List String → Bool
is_one_of (str s) ts = one_of s ts
is_one_of _ ts = false

-- `"…" in xs` on a list
unfoldable pub has_item : String → Items → Bool
unfolding is_text
has_item t no_items = false
has_item t (item v vs) = is_text v t || has_item t vs

-- `"…" in v`
unfoldable pub holds : String → Value → Result Bool
unfolding contains has has_item
holds t (str s) = ok (contains s t)
holds t (arr vs) = ok (has_item t vs)
holds t (obj fs) = ok (has t fs)
holds t _ = raised type_error

-- `bool(v)`
abbrev pub is_zero : ℤ → Bool
is_zero (pos n) = eqb n 0
is_zero (negsuc n) = false

unfoldable pub truthy : Value → Bool
truthy null = false
truthy (bool b) = b
truthy (int z) = not (is_zero z)
truthy (float z k) = not (is_zero z)
truthy (str s) = not (s == "")
truthy (arr no_items) = false
truthy (arr (item v vs)) = true
truthy (obj end) = false
truthy (obj (field k v fs)) = true

-- `str(v)`: a text is itself, and `show` prints the other values.
unfoldable pub to_text : (Value → String) → Value → String
to_text show (str s) = s
to_text show v = show v

-- `isinstance(v, dict)` and `isinstance(v, str)`
abbrev pub is_dict : Value → Bool
is_dict (obj fs) = true
is_dict _ = false

abbrev pub is_str : Value → Bool
is_str (str s) = true
is_str _ = false

-- `d[k] = v`
unfoldable pub set : String → Value → Fields → Fields
set k v end = field k v end
set k v (field j w fs) = if j == k then field j v fs else field j w (set k v fs)

-- `d.update(e)`
unfoldable pub update : Fields → Fields → Fields
unfolding set
update d end = d
update d (field k v e) = update (set k v d) e

abbrev pub is_null : Value → Bool
is_null null = true
is_null _ = false
