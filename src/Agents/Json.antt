-- ===== src/Agents/Json.antt =====
-- The expressions on JSON values that the tools share. Each raises what Python raises.
use tengen.Prelude.{
  ℕ, zero, suc, String, Bool, false, ◌||◌, Option, none, some, List, [], ◌∷◌, ◌≡◌, refl, ◌⊎◌, inl,
  inr, Result, ok, raised, ◌>>=◌, if◌then◌else◌, ◌==◌, arith, type_error, value_error, is_ok, Error,
}
use tengen.Value.{
  Value, Fields, Items, str, obj, arr, field, end, item, no_items, get_in, text, empty_obj,
}
use tengen.Text.{lower, contains}

-- `v.get(k₁, {}).get(k₂, {})….get(k, d)`
unfoldable pub get_path : Value → List String → Value → Result Value
unfolding get_in
get_path v [] d = ok v
get_path v (k ∷ []) d = get_in v k d
get_path v (k ∷ j ∷ ks) d = get_in v k empty_obj >>= λ u. get_path u (j ∷ ks) d

-- A dictionary display, whose values are computed in their order
unfoldable pub dict_of : List (String × Result Value) → Result Fields
dict_of [] = ok end
dict_of ((k, r) ∷ es) = r >>= λ v. dict_of es >>= λ fs. ok (field k v fs)

abbrev pub json_dict : List (String × Result Value) → Result Value
json_dict es = dict_of es >>= λ fs. ok (obj fs)

-- `v.lower()`
abbrev pub lower_of : Value → Result String
lower_of v = text v >>= λ s. ok (lower s)

abbrev keys_of : Fields → Items
keys_of end = no_items
keys_of (field k v fs) = item (str k) (keys_of fs)

-- `for x in v`, on the values that a tool can meet: the characters of a text have no methods that
-- the tools call, so that the text is kept as one item.
unfoldable pub elements : Value → Result Items
elements (arr vs) = ok vs
elements (obj fs) = ok (keys_of fs)
elements (str s) = ok (if s == "" then no_items else item (str s) no_items)
elements _ = raised type_error

-- `[f(x) for x in xs]`
unfoldable pub texts_of : (Value → Result String) → Items → Result (List String)
texts_of f no_items = ok []
texts_of f (item v vs) = f v >>= λ s. texts_of f vs >>= λ ss. ok (s ∷ ss)

-- `len(xs)` of a JSON list
unfoldable pub count_items : Items → ℕ
count_items no_items = 0
count_items (item v vs) = suc (count_items vs)

-- `xs[:n]`, where n is not negative
abbrev pub take_items : ℕ → Items → Items
take_items zero vs = no_items
take_items (suc n) no_items = no_items
take_items (suc n) (item v vs) = item v (take_items n vs)

-- `any(k in s for k in ks)`
unfoldable pub any_in : List String → String → Bool
unfolding contains
any_in [] s = false
any_in (k ∷ ks) s = contains s k || any_in ks s

-- `except Exception`: what was raised, as the tool says it
module _ (describe : Error → String) where
  abbrev pub error_json : Error → Value
  error_json e = obj (field "error" (str (describe e)) end)

  abbrev pub or_error : Result Value → Value
  or_error (ok v) = v
  or_error (raised e) = error_json e

abbrev pub json_value : Option Value → Result Value
json_value none = raised value_error
json_value (some v) = ok v

-- `json.loads(t)`
abbrev pub parsed : (String → Option Value) → String → Result Value
parsed loads t = json_value (loads t)

-- What holds of a value that a computation returns
abbrev pub OnOk : {V : Type 0} → (V → Type 0) → Result V → Type 0
OnOk P (ok v) = P v
OnOk P (raised e) = Unit

pub OnOk-bind :
    {V W : Type 0} (P : W → Type 0) (r : Result V) (f : V → Result W)
    → ((v : V) → OnOk P (f v))
    → OnOk P (r >>= f)
OnOk-bind P (ok v) f h = h v
OnOk-bind P (raised e) f h = tt

pub rest-fails :
    {V W : Type 0} (r : Result V) (f : V → Result W) → is_ok r ≡ false → is_ok (r >>= f) ≡ false
rest-fails (raised e) f h = refl
rest-fails (ok v) f h = ground arith

-- A dictionary display raises when one of its values does.
pub head-fails :
    (k : String) (r : Result Value) (es : List (String × Result Value))
    → is_ok r ≡ false
    → is_ok (dict_of ((k, r) ∷ es)) ≡ false
unfolding dict_of
head-fails k (raised e) es h = refl
head-fails k (ok v) es h = ground arith

pub later-fails :
    (k : String) (r : Result Value) (es : List (String × Result Value))
    → is_ok (dict_of es) ≡ false
    → is_ok (dict_of ((k, r) ∷ es)) ≡ false
unfolding dict_of
later-fails k (raised e) es h = refl
later-fails k (ok v) es h = rest-fails (dict_of es) (λ fs. ok (field k v fs)) h

abbrev Displays : String → Value → Result Value → Type 0
Displays key v r =
    ((e : Error) × (r ≡ raised e)) ⊎ ((fs : Fields) × (r ≡ ok (obj (field key v fs))))

displayed :
    (key : String) (v : Value) (r : Result Fields)
    → Displays key v ((r >>= λ fs. ok (field key v fs)) >>= λ fs. ok (obj fs))
displayed key v (ok fs) = inr (fs, refl)
displayed key v (raised e) = inl (e, refl)

-- A display raises, or it begins with its first entry.
pub json_dict-first :
    (key : String) (v : Value) (es : List (String × Result Value))
    → ((e : Error) × (json_dict ((key, ok v) ∷ es) ≡ raised e))
      ⊎ ((fs : Fields) × (json_dict ((key, ok v) ∷ es) ≡ ok (obj (field key v fs))))
unfolding dict_of
json_dict-first key v es = displayed key v (dict_of es)
