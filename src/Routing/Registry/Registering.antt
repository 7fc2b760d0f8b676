-- ===== src/Routing/Registry/Registering.antt =====
-- What registration keeps.
use tengen.Prelude.{
  String, ◌≡◌, refl, false, [], ◌∷◌, ◌++◌, ap, ok, IsFresh, Bool-cases, inl, ◌==◌, lookup, inr,
  insert, ok-injective, insert_fresh,
}
use tengen.Routing.Registry.{Route, Registry, contains_route, register, all_routes}

IsFresh-of_contains :
    (name : String) (routes : Registry) → contains_route name routes ≡ false → IsFresh name routes
unfolding contains_route
IsFresh-of_contains name [] h = tt
IsFresh-of_contains name ((k, r) ∷ rs) h = elim (Bool-cases (k == name)) [
  | inl e ↦ cc (rw (e, lookup) at h)
  | inr e ↦ (e, IsFresh-of_contains name rs (rw e at h))
]

all_routes-append :
    (rs : Registry) (k : String) (r : Route)
    → all_routes (rs ++ (k, r) ∷ []) ≡ all_routes rs ++ r ∷ []
unfolding all_routes
all_routes-append [] k r = refl
all_routes-append ((j, s) ∷ rs) k r = ap (λ t. s ∷ t) (all_routes-append rs k r)

-- A registration that succeeds puts the route last, under a name that was not there.
pub register-all_routes :
    (route : Route) (routes result : Registry)
    → register route routes ≡ ok result
    → (all_routes result ≡ all_routes routes ++ route ∷ []) × IsFresh route.name routes
unfolding register
register-all_routes route routes result h = elim (Bool-cases (contains_route route.name routes)) [
  | inl e ↦ cc (rw e at h)
  | inr e ↦
      let fresh = IsFresh-of_contains route.name routes e in
      let same : ok (insert route.name route routes) ≡ ok result = rw e at h in
      (
        rw (← ok-injective same, insert_fresh route.name route routes fresh)
            (all_routes-append routes route.name route),
        fresh,
      )
]
