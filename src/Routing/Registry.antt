-- ===== src/Routing/Registry.antt =====
-- routing/registry.py. `_routes` is a dictionary from names to routes, in registration order.
pub mod Matching
pub mod Registering
use tengen.Prelude.{
  String, Bool, true, false, Option, none, some, List, [], ◌∷◌, ◌≡◌, insert, lookup, Result, Dict,
  if◌then◌else◌, ok, raised, ◌>>=◌, is_some, value_error,
}
use tengen.Value.{Fields}

-- A matcher may raise, although it should not.
pub record Route : Type 0 where
  pub name : String
  pub queue : String
  pub matcher : Fields → Result Bool
  pub description : String

abbrev pub Registry : Type 0
Registry = Dict Route

unfoldable pub contains_route : String → Registry → Bool
unfolding lookup
contains_route name routes = is_some (lookup name routes)

unfoldable pub register : Route → Registry → Result Registry
unfolding contains_route insert
register route routes =
    if contains_route route.name routes
    then raised value_error
    else ok (insert route.name route routes)

-- `except Exception: result = False`
abbrev pub verdict : Result Bool → Bool
verdict (ok b) = b
verdict (raised e) = false

unfoldable pub match : Fields → Registry → Option Route
match raw_payload [] = none
match raw_payload ((name, route) ∷ routes) =
    let rest = match raw_payload routes in
    if verdict (route.matcher raw_payload) then some route else rest

unfoldable pub all_routes : Registry → List Route
all_routes [] = []
all_routes ((name, route) ∷ routes) = route ∷ all_routes routes

-- The registrations that a program makes, one after another: the first that raises ends them.
unfoldable pub register_all : List Route → Registry → Result Registry
unfolding register
register_all [] routes = ok routes
register_all (route ∷ more) routes = register route routes >>= register_all more
