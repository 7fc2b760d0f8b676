-- ===== src/N8n/Resolver.antt =====
-- n8n/route_resolver.py. `NoRouteError` is the result `none`; the other exceptions are `raised`.
pub mod Order
pub mod Reload
use tengen.Prelude.{
  ℕ, String, Bool, true, false, Option, none, some, Result, ok, raised, attribute_error, type_error,
  ◌==◌, not, if◌then◌else◌, ◌>>=◌, eqb, Done, suc,
}
use tengen.Value.{
  Value, Fields, obj, str, get?, get, has, end, item, arr, null, empty_obj, get_in, field,
}
use tengen.Text.{cat}

pub record RouteMatch : Type 0 where
  pub webhook_url : Value
  pub route_path : String
  pub description : Value

abbrev pub dotted : String → String → String
dotted a b = cat a (cat "." b)

-- `node and isinstance(node, dict) and "webhook" in node`, and the match that it gives
unfoldable pub leaf : String → Option Value → Option RouteMatch
unfolding get has get?
leaf path (some (obj fs)) = elim (get? "webhook" fs) [
  | none ↦ none
  | some url ↦
      some (record {
        webhook_url = url;
        route_path = path;
        description = get "description" (str "") fs;
      })
]
leaf path _ = none

-- `node and isinstance(node, dict) and "webhook" not in node`
unfoldable pub branch : Option Value → Option Fields
unfolding has get?
branch (some (obj end)) = none
branch (some (obj (field k v fs))) =
    if has "webhook" (field k v fs) then none else some (field k v fs)
branch _ = none

-- An early return, or what comes after it
abbrev pub else_try {ℓ} : {A : Type ℓ} → Option A → Option A → Option A
else_try (some a) o = some a
else_try none o = o

-- `if event_type:` and its block
unfoldable pub event_level : String → Option String → Fields → Option RouteMatch
unfolding leaf
event_level path none cat_node = none
event_level path (some event_type) cat_node =
    if event_type == "" then none else leaf (dotted path event_type) (get? event_type cat_node)

-- The blocks under `cat_node`
abbrev category_level : String → Option String → Option Value → Option Fields → Option RouteMatch
category_level path event_type cat_node (some fields) =
    else_try (event_level path event_type fields)
      (leaf (dotted path "_default") (get? "_default" fields))
category_level path event_type cat_node none = leaf path cat_node

-- The blocks under `vendor_node`
abbrev vendor_level :
    String → String → Option String → Option Value → Option Fields → Option RouteMatch
vendor_level vendor category event_type vendor_node (some fields) =
    else_try
      (category_level (dotted vendor category) event_type (get? category fields)
        (branch (get? category fields)))
      (leaf (dotted vendor "_default") (get? "_default" fields))
vendor_level vendor category event_type vendor_node none = leaf vendor vendor_node

unfoldable pub find_route : String → String → Option String → Fields → Option RouteMatch
unfolding leaf branch event_level
find_route vendor category event_type routes =
    else_try
      (vendor_level vendor category event_type (get? vendor routes) (branch (get? vendor routes)))
      (leaf "_default" (get? "_default" routes))

-- The file as the resolver finds it: its time of modification and what `yaml.safe_load` gives.
-- Without a file `getmtime` raises.
pub record File : Type 0 where
  pub mtime : ℕ
  pub loaded : Value

pub record RouteResolver : Type 0 where
  pub mtime : ℕ
  pub routes : Value

-- `len(self._routes)` in the log line: numbers, booleans and null have no length.
abbrev has_len : Value → Bool
has_len (str _) = true
has_len (arr _) = true
has_len (obj _) = true
has_len _ = false

-- `_load`: what `data.get` raises leaves the state as it was, what `len` raises does not.
unfoldable pub load : File → RouteResolver → Done × RouteResolver
unfolding get_in get
load file r = elim (get_in file.loaded "routes" empty_obj) [
  | raised e ↦ (raised e, r)
  | ok routes ↦ (
    if has_len routes then ok tt else raised type_error,
    record { mtime = file.mtime; routes = routes },
  )
]

unfoldable pub reload_if_changed : Option File → RouteResolver → Done × RouteResolver
unfolding load
reload_if_changed none r = (ok tt, r)
reload_if_changed (some file) r = if eqb file.mtime r.mtime then (ok tt, r) else load file r

abbrev find_in : String → String → Option String → Value → Result (Option RouteMatch)
find_in vendor category event_type (obj routes) = ok (find_route vendor category event_type routes)
find_in vendor category event_type _ = raised attribute_error

unfoldable pub resolve :
    String
    → String
    → Option String
    → Option File
    → RouteResolver
    → Result (Option RouteMatch) × RouteResolver
unfolding reload_if_changed
resolve vendor category event_type file r =
    let (done, r') = reload_if_changed file r in
    (done >>= λ _. find_in vendor category event_type r'.routes, r')
