-- ===== src/Routing/Registry/Matching.antt =====
-- Which route an alert takes.
use tengen.Prelude.{
  ◌≡◌, refl, true, false, none, some, List, [], ◌∷◌, ◌++◌, All, ap, ◌⊎◌, Bool-cases, Option-cases,
  inl, inr, some-injective,
}
use tengen.Value.{Fields}
use tengen.Routing.Registry.{Route, Registry, verdict, match, all_routes}

abbrev pub Misses : Fields → Route → Type 0
Misses raw route = verdict (route.matcher raw) ≡ false

-- `route` is the first of the routes that matches.
pub record IsFirst (raw : Fields) (routes : List Route) (route : Route) : Type 0 where
  pub before : List Route
  pub after : List Route
  pub split : routes ≡ before ++ route ∷ after
  pub missed : All (Misses raw) before
  pub matched : verdict (route.matcher raw) ≡ true

IsFirst-cons :
    {raw : Fields} (r : Route) {rs : List Route} {route : Route}
    → Misses raw r
    → IsFirst raw rs route
    → IsFirst raw (r ∷ rs) route
IsFirst-cons r m f = record {
  before = r ∷ f.before;
  after = f.after;
  split = ap (λ rs. r ∷ rs) f.split;
  missed = (m, f.missed);
  matched = f.matched;
}

pub match-IsFirst :
    (raw : Fields) (routes : Registry) (route : Route)
    → match raw routes ≡ some route
    → IsFirst raw (all_routes routes) route
unfolding match all_routes
match-IsFirst raw [] route h = cc
match-IsFirst raw ((n, r) ∷ rs) route h = elim (Bool-cases (verdict (r.matcher raw))) [
  | inl hit ↦
      let same : some r ≡ some route = rw hit at h in
      let e : r ≡ route = some-injective same in
      record {
        before = [];
        after = all_routes rs;
        split = ap (λ x. x ∷ all_routes rs) e;
        missed = tt;
        matched = rw (← e) hit;
      }
  | inr miss ↦ IsFirst-cons r miss (match-IsFirst raw rs route (rw miss at h))
]

-- No route matches exactly when every route misses.
pub match-eq-none :
    (raw : Fields) (routes : Registry)
    → match raw routes ≡ none
    → All (Misses raw) (all_routes routes)
unfolding match all_routes
match-eq-none raw [] h = tt
match-eq-none raw ((n, r) ∷ rs) h = elim (Bool-cases (verdict (r.matcher raw))) [
  | inl hit ↦ cc
  | inr miss ↦ (miss, match-eq-none raw rs (rw miss at h))
]

pub match_of_All :
    (raw : Fields) (routes : Registry)
    → All (Misses raw) (all_routes routes)
    → match raw routes ≡ none
unfolding match all_routes
match_of_All raw [] h = refl
match_of_All raw ((n, r) ∷ rs) (m, h) = rw m (match_of_All raw rs h)

-- What the router does with an alert: the first route that matches, or the statement that none does.
pub match_lem :
    (raw : Fields) (routes : Registry)
    → ((route : Route) × (match raw routes ≡ some route) × IsFirst raw (all_routes routes) route)
      ⊎ ((match raw routes ≡ none) × All (Misses raw) (all_routes routes))
match_lem raw routes = elim (Option-cases (match raw routes)) [
  | inl e ↦ inr (e, match-eq-none raw routes e)
  | inr (r, e) ↦ inl (r, e, match-IsFirst raw routes r e)
]
