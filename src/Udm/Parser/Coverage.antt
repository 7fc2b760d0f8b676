-- ===== src/Udm/Parser/Coverage.antt =====
-- What becomes of the paths that flattening finds in a payload.
use tengen.Prelude.{
  ℕ, String, Bool, true, false, Option, none, some, List, [], ◌∷◌, ◌++◌, ◌≡◌, refl, sym, ap, ◌∙◌,
  ◌⊎◌, inl, inr, Result, ok, raised, ◌>>=◌, ◌==◌, arith, All, Dict, lookup, insert, one_of,
  Bool-cases, Option-cases, ok-injective, eq_refl, IsFresh, HasDistinctKeys, HasDistinctKeys-insert,
}
use tengen.Value.{
  Value, Fields, Items, field, end, item, no_items, obj, arr, str, bool, int, float, null, get?,
  set, get, empty_obj,
}
use tengen.Value.Laws.{get?-set}
use tengen.Text.{cat}
use tengen.Udm.Mappings.{
  flatten, flatten_fields, flatten_items, merge, set_default, sub_path, leaf_at, suggest_udm_field,
}
use tengen.Udm.FieldRegistry.{Row, Sighting}
use tengen.Udm.Parser.{
  observation, unmapped_of, collect, with_unmapped, entries, discover_unmapped, LogSourceType,
  consumed_paths, parse, ParseResult, Environment, Datetime, source_or_detected, normalize, to_udm,
}
use tengen.Models.NormalizedEvent.{LogSourceType, source_value}
use tengen.Udm.Tables.{consumed_paths}
use tengen.Normalizers.Building.{Environment}
use tengen.Models.Udm.Event.{Datetime}
use tengen.Normalizers.Registry.{normalize}
use tengen.Models.Projection.{to_udm}

-- No path of the flattened payload stands twice.
merge-HasDistinctKeys : (out d : Dict Value) → HasDistinctKeys out → HasDistinctKeys (merge out d)
unfolding merge
merge-HasDistinctKeys out [] h = h
merge-HasDistinctKeys out ((k, v) ∷ d) h =
    merge-HasDistinctKeys (insert k v out) d (HasDistinctKeys-insert k v out h)

insert-absent :
    (k : String) (v : Value) (d : Dict Value) → lookup k d ≡ none → insert k v d ≡ d ++ (k, v) ∷ []
unfolding insert lookup
insert-absent k v [] h = refl
insert-absent k v ((j, w) ∷ d) h = ground (arith, insert-absent k v d)

set_default-HasDistinctKeys :
    (k : String) (v : Value) (out : Dict Value)
    → HasDistinctKeys out
    → HasDistinctKeys (set_default k v out)
unfolding set_default
set_default-HasDistinctKeys k v out h = elim (Option-cases (lookup k out)) [
  | inl e ↦
      let kept = HasDistinctKeys-insert k v out h in rw e (rw (← insert-absent k v out e) kept)
  | inr (w, e) ↦ rw e h
]

leaf_at-HasDistinctKeys : (p : String) (v : Value) → HasDistinctKeys (leaf_at p v)
leaf_at-HasDistinctKeys p v = ground arith

collect-other :
    (p : String) (os : List Sighting) (fs : Fields)
    → All (λ o. (o.raw_path == p) ≡ false) os
    → get? p (collect os fs) ≡ get? p fs
unfolding collect
collect-other p [] fs h = refl
collect-other p (o ∷ os) fs (k, h) =
    collect-other p os _ h ∙ ground (arith, get?-set o.raw_path p o.sample_value fs)

mutual
  unfolding flatten flatten_fields flatten_items

  distinct : (v : Value) (prefix : String) → HasDistinctKeys (flatten v prefix)
  distinct (obj fs) prefix = distinct_fields fs prefix [] tt
  distinct (arr vs) prefix = distinct_items vs (cat prefix "[]") [] tt
  distinct (str s) prefix = leaf_at-HasDistinctKeys prefix (str s)
  distinct (bool b) prefix = leaf_at-HasDistinctKeys prefix (bool b)
  distinct (int z) prefix = leaf_at-HasDistinctKeys prefix (int z)
  distinct (float z k) prefix = leaf_at-HasDistinctKeys prefix (float z k)
  distinct null prefix = leaf_at-HasDistinctKeys prefix null

  distinct_fields :
      (fs : Fields) (prefix : String) (out : Dict Value)
      → HasDistinctKeys out
      → HasDistinctKeys (flatten_fields fs prefix out)
  distinct_fields end prefix out h = h
  distinct_fields (field k v fs) prefix out h =
      distinct_fields fs prefix _ (merge-HasDistinctKeys out (flatten v (sub_path prefix k)) h)

  distinct_items :
      (vs : Items) (path : String) (out : Dict Value)
      → HasDistinctKeys out
      → HasDistinctKeys (flatten_items vs path out)
  distinct_items no_items path out h = h
  distinct_items (item (obj fs) vs) path out h =
      distinct_items vs path _ (merge-HasDistinctKeys out _ h)
  distinct_items (item (arr ws) vs) path out h =
      distinct_items vs path _ (merge-HasDistinctKeys out _ h)
  distinct_items (item (str s) vs) path out h =
      distinct_items vs path _ (set_default-HasDistinctKeys path (str s) out h)
  distinct_items (item (bool b) vs) path out h =
      distinct_items vs path _ (set_default-HasDistinctKeys path (bool b) out h)
  distinct_items (item (int z) vs) path out h =
      distinct_items vs path _ (set_default-HasDistinctKeys path (int z) out h)
  distinct_items (item (float z k) vs) path out h =
      distinct_items vs path _ (set_default-HasDistinctKeys path (float z k) out h)
  distinct_items (item null vs) path out h =
      distinct_items vs path _ (set_default-HasDistinctKeys path null out h)

-- A step of the loop that observes a path returned after the rest of the loop.
observing :
    (source path : String) (value : Value) (verdict : Result String) (rest : Result (List Sighting))
    (os : List Sighting)
    → (verdict >>= λ s. rest >>= λ more. ok (observation source path value s ∷ more)) ≡ ok os
    → (s : String) × (more : List Sighting) × (rest ≡ ok more)
      × (os ≡ observation source path value s ∷ more)
observing source path value (ok s) (ok more) os h = (s, more, refl, sym (ok-injective h))
observing source path value (ok s) (raised e) os h = cc
observing source path value (raised e) rest os h = cc

module _ (other : String → Result Bool) (consumed : List String) (source : String) where
  unmapped_of-fresh :
      (p : String) (d : Dict Value) (os : List Sighting)
      → IsFresh p d
      → unmapped_of other consumed source d ≡ ok os
      → All (λ o. (o.raw_path == p) ≡ false) os
  unfolding unmapped_of
  unmapped_of-fresh p [] os f h = rw (← ok-injective h) tt
  unmapped_of-fresh p ((path, value) ∷ d) os (q, f) h = elim (Bool-cases (one_of path consumed)) [
    | inl e ↦ unmapped_of-fresh p d os f (rw e at h)
    | inr e ↦
        let k =
          observing source path value (suggest_udm_field other path value)
            (unmapped_of other consumed source d) os (rw e at h) in
        rw k.3 (q, unmapped_of-fresh p d k.1 f k.2)
  ]

  -- The path is in the table of the source, or its value stands under it.
  abbrev pub IsKept : Fields → String × Value → Type 0
  IsKept kept (path, value) = (one_of path consumed ≡ true) ⊎ (get? path kept ≡ some value)

  All-IsKept :
      (os more : List Sighting) (fs : Fields) (d : Dict Value)
      → os ≡ more
      → All (IsKept (collect more fs)) d
      → All (IsKept (collect os fs)) d
  All-IsKept os more fs d e h = rw e h

  unmapped_of-IsKept :
      (d : Dict Value) (os : List Sighting) (fs : Fields)
      → HasDistinctKeys d
      → unmapped_of other consumed source d ≡ ok os
      → All (IsKept (collect os fs)) d
  unfolding unmapped_of collect
  unmapped_of-IsKept [] os fs f h = tt
  unmapped_of-IsKept ((path, value) ∷ d) os fs (f, g) h = elim (Bool-cases (one_of path consumed)) [
    | inl e ↦ (inl e, unmapped_of-IsKept d os fs g (rw e at h))
    | inr e ↦
        let k =
          observing source path value (suggest_udm_field other path value)
            (unmapped_of other consumed source d) os (rw e at h) in
        let found =
          collect-other path k.1 (set path value fs) (unmapped_of-fresh path d k.1 f k.2) in
        All-IsKept os (observation source path value k.0 ∷ k.1) fs ((path, value) ∷ d) k.3 (
          inr (found ∙ ground (arith, get?-set path path value fs, eq_refl path)),
          unmapped_of-IsKept d k.1 (set path value fs) g k.2,
        )
  ]

-- The value that stands under a key of a dictionary, as a dictionary
abbrev pub under : String → Fields → Fields
under k fs = entries (get k empty_obj fs)

under-set : (k : String) (kept fs : Fields) → under k (set k (obj kept) fs) ≡ kept
unfolding get
under-set k kept fs = ground (arith, get?-set k k (obj kept) fs, eq_refl k)

under-with_unmapped :
    (os : List Sighting) (additional : Fields)
    → under "unmapped" (with_unmapped os additional) ≡ collect os (under "unmapped" additional)
unfolding with_unmapped
under-with_unmapped [] additional = unfold collect in refl
under-with_unmapped (o ∷ os) additional = unfold collect in under-set "unmapped" _ additional

discover_unmapped-IsKept :
    (other : String → Result Bool) (raw additional : Fields) (source : LogSourceType)
    (os : List Sighting)
    → discover_unmapped other raw source ≡ ok os
    → All
        (IsKept other
          (consumed_paths source)
          (source_value source)
          (under "unmapped" (with_unmapped os additional)))
        (flatten (obj raw) "")
unfolding discover_unmapped
discover_unmapped-IsKept other raw additional source os h = rw (under-with_unmapped os additional) (
    unmapped_of-IsKept other (consumed_paths source) (source_value source) (flatten (obj raw) "") os
      (under "unmapped" additional) (distinct (obj raw) "") h)

first_returned {ℓ κ} :
    {A : Type ℓ} {B : Type κ} (r : Result A) (next : A → Result B) (b : B)
    → (r >>= next) ≡ ok b
    → (a : A) × (r ≡ ok a) × (next a ≡ ok b)
first_returned (raised e) next b h = cc
first_returned (ok a) next b h = (a, refl, h)

-- Every leaf that flattening finds in a payload is listed in CONSUMED_PATHS for the event's source,
-- or stands in additional["unmapped"] of the UDM event with its value.
abbrev pub KeepsAll : (String → Result Bool) → Fields → ParseResult → Type 0
KeepsAll other raw r =
    All
      (IsKept other (consumed_paths r.normalized.source_type)
        (source_value r.normalized.source_type) (under "unmapped" r.udm.additional))
      (flatten (obj raw) "")

KeepsAll-same :
    (other : String → Result Bool) (raw : Fields) (r q : ParseResult)
    → r ≡ q
    → KeepsAll other raw r
    → KeepsAll other raw q
KeepsAll-same other raw r q e h = rw (← e) h

-- For every payload, source, registry and argument of the model, when a parse returns, every path
-- that flattening finds in the payload is listed in CONSUMED_PATHS for the event's source, or stands
-- in additional["unmapped"] of the UDM event with its value.
pub parse-KeepsAll :
    (env : Environment) (fromisoformat : String → Option Datetime) (other : String → Result Bool)
    (dump : Value → String) (ids : ℕ → ℕ) (now : ℕ → String) (raw : Fields)
    (source : Option LogSourceType) (write : Bool) (rows : Option (List Row)) (r : ParseResult)
    (after : Option (List Row))
    → parse env fromisoformat other dump ids now raw source write rows ≡ ok (r, after)
    → KeepsAll other raw r
unfolding parse
parse-KeepsAll env fromisoformat other dump ids now raw source write rows r after h =
    let (s, hs, h1) = first_returned (source_or_detected env raw source) _ (r, after) h in
    let (e, he, h2) = first_returned (normalize env raw (some s)) _ (r, after) h1 in
    let (os, ho, h3) = first_returned (discover_unmapped other raw e.source_type) _ (r, after) h2 in
    KeepsAll-same other raw _ r (ap (λ x. x.0) (ok-injective h3))
      (discover_unmapped-IsKept other raw (to_udm fromisoformat e).additional e.source_type os ho)
