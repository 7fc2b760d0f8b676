-- ===== src/N8n/Resolver/Order.antt =====
-- The order of resolution, against a description by paths through the table.
use tengen.Prelude.{
  String, Option, none, some, List, [], ◌∷◌, ◌++◌, ◌≡◌, arith, refl, ◌==◌, if◌then◌else◌,
  Bool-cases, Option-cases, inl, inr,
}
use tengen.Value.{Value, Fields, obj, get?, has, field, end}
use tengen.N8n.Resolver.{
  RouteMatch, leaf, dotted, else_try, branch, category_level, vendor_level, event_level, false,
  true, find_route,
}

-- The node at the end of a path below `v`. Only dictionaries without a webhook are entered.
abbrev descend : List String → Value → Option Value
descend [] v = some v
descend (k ∷ ks) (obj fs) =
    if has "webhook" fs then none else elim (get? k fs) [ none ↦ none | some w ↦ descend ks w ]
descend (k ∷ ks) _ = none

abbrev below : List String → Option Value → Option Value
below ks none = none
below ks (some v) = descend ks v

-- A path through the table, with the name that a match on it is given.
abbrev pub Candidate : Type 0
Candidate = String × List String

abbrev pub node_at : List String → Fields → Option Value
node_at [] fs = none
node_at (k ∷ ks) fs = below ks (get? k fs)

abbrev pub event_paths : String → String → Option String → List Candidate
event_paths vendor category none = []
event_paths vendor category (some event_type) =
    if event_type == ""
    then []
    else (dotted (dotted vendor category) event_type, vendor ∷ category ∷ event_type ∷ []) ∷ []

-- The paths that are tried, the most specific first.
abbrev pub candidates : String → String → Option String → List Candidate
candidates vendor category event_type =
    event_paths vendor category event_type
    ++ (dotted (dotted vendor category) "_default", vendor ∷ category ∷ "_default" ∷ [])
      ∷ (dotted vendor category, vendor ∷ category ∷ [])
      ∷ (dotted vendor "_default", vendor ∷ "_default" ∷ [])
      ∷ (vendor, vendor ∷ [])
      ∷ ("_default", "_default" ∷ [])
      ∷ []

-- The first path that ends in a node with a webhook.
abbrev pub first_leaf : List Candidate → Fields → Option RouteMatch
first_leaf [] fs = none
first_leaf ((name, path) ∷ ps) fs = else_try (leaf name (node_at path fs)) (first_leaf ps fs)

abbrev event_at : String → Option String → Option Value → Option RouteMatch
event_at path none o = none
event_at path (some e) o = if e == "" then none else leaf (dotted path e) (below (e ∷ []) o)

category_level-below :
    (path : String) (event_type : Option String) (o : Option Value)
    → category_level path event_type o (branch o)
      ≡ else_try
          (event_at path event_type o)
          (else_try (leaf (dotted path "_default") (below ("_default" ∷ []) o)) (leaf path o))
unfolding branch leaf event_level has
category_level-below path none none = refl
category_level-below path (some e) none = ground arith
category_level-below path none (some (obj end)) = refl
category_level-below path (some e) (some (obj end)) = ground arith
category_level-below path none (some (obj (field k v fs))) = ground arith
category_level-below path (some e) (some (obj (field k v fs))) = ground arith
category_level-below path none (some _) = refl
category_level-below path (some e) (some _) = ground arith

below-cons :
    (c e : String) (o : Option Value) → below (c ∷ e ∷ []) o ≡ below (e ∷ []) (below (c ∷ []) o)
below-cons c e none = refl
below-cons c e (some (obj fs)) = ground arith
below-cons c e (some _) = refl

below-nil : (o : Option Value) → below [] o ≡ o
below-nil none = refl
below-nil (some v) = refl

leaf-none : (path : String) → leaf path none ≡ none
unfolding leaf
leaf-none path = refl

event_at-none : (path : String) (event_type : Option String) → event_at path event_type none ≡ none
unfolding leaf
event_at-none path none = refl
event_at-none path (some e) = ground arith

leaf_of_branch :
    (path : String) (fs : Fields) → has "webhook" fs ≡ false → leaf path (some (obj fs)) ≡ none
unfolding leaf has
leaf_of_branch path fs h = ground arith

branch_of_leaf :
    (k : String) (v : Value) (fs : Fields)
    → has "webhook" (field k v fs) ≡ true
    → branch (some (obj (field k v fs))) ≡ none
unfolding branch
branch_of_leaf k v fs h = rw h

branch_of_branch :
    (k : String) (v : Value) (fs : Fields)
    → has "webhook" (field k v fs) ≡ false
    → branch (some (obj (field k v fs))) ≡ some (field k v fs)
unfolding branch
branch_of_branch k v fs h = rw h

below_of_branch :
    (k : String) (fs : Fields)
    → has "webhook" fs ≡ false
    → below (k ∷ []) (some (obj fs)) ≡ get? k fs
below_of_branch k fs h = elim (Option-cases (get? k fs)) [
  | inl e ↦ rw (h, e) refl
  | inr (v, e) ↦ rw (h, e) refl
]

else_try_chain :
    (a b c d : Option RouteMatch)
    → else_try (else_try a (else_try b c)) d
      ≡ else_try a (else_try b (else_try c (else_try d none)))
else_try_chain a b c d = ground arith

else_try_flat :
    (a b c d f g : Option RouteMatch)
    → else_try (else_try a (else_try b (else_try c (else_try d f)))) g
      ≡ else_try a (else_try b (else_try c (else_try d (else_try f (else_try g none)))))
else_try_flat (some _) b c d f g = refl
else_try_flat none (some _) c d f g = refl
else_try_flat none none (some _) d f g = refl
else_try_flat none none none d f g = ground arith

-- The five tries at or below a vendor's node, in order
abbrev tries : String → String → Option String → Option Value → Option RouteMatch
tries vendor category event_type o =
    else_try (event_at (dotted vendor category) event_type (below (category ∷ []) o)) (
      else_try
        (leaf (dotted (dotted vendor category) "_default")
          (below ("_default" ∷ []) (below (category ∷ []) o)))
        (else_try (leaf (dotted vendor category) (below (category ∷ []) o))
          (else_try (leaf (dotted vendor "_default") (below ("_default" ∷ []) o)) (leaf vendor o))))

module _ (vendor category : String) (event_type : Option String) where
  entered-tries :
      (fs : Fields)
      → has "webhook" fs ≡ false
      → vendor_level vendor category event_type (some (obj fs)) (some fs)
        ≡ tries vendor category event_type (some (obj fs))
  entered-tries fs h =
      rw
        (
          below_of_branch category fs h,
          below_of_branch "_default" fs h,
          leaf_of_branch vendor fs h,
          category_level-below (dotted vendor category) event_type (get? category fs),
        )
        (else_try_chain (event_at (dotted vendor category) event_type (get? category fs))
          (leaf (dotted (dotted vendor category) "_default")
            (below ("_default" ∷ []) (get? category fs)))
          (leaf (dotted vendor category) (get? category fs))
          (leaf (dotted vendor "_default") (get? "_default" fs)))

  -- A node that is not entered is tried itself, and nothing below it.
  unopened-tries :
      (o : Option Value)
      → branch o ≡ none
      → ((k : String) → below (k ∷ []) o ≡ none)
      → vendor_level vendor category event_type o (branch o) ≡ tries vendor category event_type o
  unopened-tries o shut nothing =
      rw (shut, nothing category, nothing "_default", event_at-none) (simp leaf-none)

  vendor_level-tries :
      (o : Option Value)
      → vendor_level vendor category event_type o (branch o) ≡ tries vendor category event_type o
  vendor_level-tries none = unopened-tries none (unfold branch in refl) (λ k. refl)
  vendor_level-tries (some (obj end)) =
      unopened-tries (some (obj end)) (unfold branch in refl) (λ k. unfold has in refl)
  vendor_level-tries (some (obj (field k v fs))) =
      elim (Bool-cases (has "webhook" (field k v fs))) [
        | inl e ↦
            unopened-tries (some (obj (field k v fs))) (branch_of_leaf k v fs e) (λ j. rw e refl)
        | inr e ↦ rw (branch_of_branch k v fs e) (entered-tries (field k v fs) e)
      ]
  vendor_level-tries (some other) = unopened-tries (some other) (unfold branch in refl) (λ k. refl)

-- The resolver's nested tests give the first of the candidates that ends in a node with a webhook.
pub find_route-first_leaf :
    (vendor category : String) (event_type : Option String) (routes : Fields)
    → find_route vendor category event_type routes
      ≡ first_leaf (candidates vendor category event_type) routes
unfolding find_route
find_route-first_leaf vendor category none routes = ground (
  arith,
  vendor_level-tries vendor category none (get? vendor routes),
  below-cons category "_default" (get? vendor routes),
)
find_route-first_leaf vendor category (some e) routes =
    rw (vendor_level-tries vendor category (some e) (get? vendor routes))
      (elim (Bool-cases (e == "")) [
        | inl empty ↦ rw (empty, below-cons category "_default" (get? vendor routes)) (ground arith)
        | inr filled ↦
            rw
              (
                filled,
                below-nil (get? vendor routes),
                below-nil (get? "_default" routes),
                below-cons category e (get? vendor routes),
                below-cons category "_default" (get? vendor routes),
              )
              (else_try_flat
                (leaf (dotted (dotted vendor category) e)
                  (below (e ∷ []) (below (category ∷ []) (get? vendor routes))))
                (leaf (dotted (dotted vendor category) "_default")
                  (below ("_default" ∷ []) (below (category ∷ []) (get? vendor routes))))
                (leaf (dotted vendor category) (below (category ∷ []) (get? vendor routes)))
                (leaf (dotted vendor "_default") (below ("_default" ∷ []) (get? vendor routes)))
                (leaf vendor (get? vendor routes)) (leaf "_default" (get? "_default" routes)))
      ])
