-- ===== src/Routing/Routes/Loading.antt =====
-- The registry that the program starts with.
use tengen.Prelude.{String, ◌≡◌, refl, [], ok}
use tengen.Value.{Value}
use tengen.Routing.Registry.{register_all, all_routes}
use tengen.Routing.Routes.{routes, loaded}

-- The names of the registered routes are distinct, so that no registration raises, and the routes
-- are tried in the order of the imports.
pub register_all-routes :
    (show : Value → String)
    → (register_all (routes show) [] ≡ ok (loaded show)) × (all_routes (loaded show) ≡ routes show)
unfolding register_all all_routes
register_all-routes show = (refl, refl)
