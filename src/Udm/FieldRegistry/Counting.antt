-- ===== src/Udm/FieldRegistry/Counting.antt =====
-- How often a field has been seen.
use tengen.Prelude.{
  ℕ, ◌+◌, String, Bool, ◌&&◌, List, [], ◌∷◌, ◌≡◌, ◌==◌, eq_iff, if◌then◌else◌, arith, false, All,
  Bool-cases, map, inl, inr,
}
use tengen.Value.{Value}
use tengen.Udm.FieldRegistry.{Row, Sighting, is_row_of, observe, seen_again}

-- The occurrences that the table holds for the field of a sighting
unfoldable pub count_of : Sighting → List Row → ℕ
count_of s [] = 0
count_of s (r ∷ rows) = if is_row_of s r then r.occurrence_count else count_of s rows

abbrev pub same_field : Sighting → Sighting → Bool
same_field s t = s.source_type == t.source_type && s.raw_path == t.raw_path

-- How many of the sightings are of this field
unfoldable pub sightings_of : Sighting → List Sighting → ℕ
sightings_of s [] = 0
sightings_of s (t ∷ ts) = (if same_field s t then 1 else 0) + sightings_of s ts

-- A sighting with the id and the time that a new row would get
pub record Call : Type 0 where
  pub new_id : ℕ
  pub now : String
  pub sighting : Sighting

module _ (dump : Value → String) where
  -- The table after the calls, the last of the list first
  unfoldable pub observe_all : List Call → List Row → List Row
  observe_all [] rows = rows
  observe_all (c ∷ cs) rows = observe dump c.new_id c.now c.sighting (observe_all cs rows)

  count_of-observe :
      (new_id : ℕ) (now : String) (s t : Sighting) (rows : List Row)
      → count_of s (observe dump new_id now t rows)
        ≡ (if same_field s t then 1 else 0) + count_of s rows
  unfolding count_of observe
  count_of-observe new_id now s t [] = ground (
    arith,
    eq_iff s.source_type t.source_type,
    eq_iff t.source_type s.source_type,
    eq_iff s.raw_path t.raw_path,
    eq_iff t.raw_path s.raw_path,
  )
  count_of-observe new_id now s t (r ∷ rows) = ground (
    arith,
    eq_iff s.source_type t.source_type,
    eq_iff r.source_type s.source_type,
    eq_iff r.source_type t.source_type,
    eq_iff s.raw_path t.raw_path,
    eq_iff r.raw_path s.raw_path,
    eq_iff r.raw_path t.raw_path,
    count_of-observe new_id now s t rows,
  )

  -- After any sequence of sightings, the occurrences of a field are those that the table held before
  -- and one for each sighting of it, however sightings of other fields come between.
  pub count_of-observe_all :
      (s : Sighting) (cs : List Call) (rows : List Row)
      → count_of s (observe_all cs rows)
        ≡ sightings_of s (map (λ c. c.sighting) cs) + count_of s rows
  unfolding observe_all sightings_of
  count_of-observe_all s [] rows = omega arith
  count_of-observe_all s (c ∷ cs) rows = omega (
    arith,
    count_of-observe c.new_id c.now s c.sighting (observe_all cs rows),
    count_of-observe_all s cs rows,
  )

-- Two rows of different fields
abbrev pub Differ : Row → Row → Type 0
Differ r q = (q.source_type == r.source_type && q.raw_path == r.raw_path) ≡ false

-- No field has two rows.
abbrev pub IsUnique : List Row → Type 0
IsUnique [] = Unit
IsUnique (r ∷ rows) = All (Differ r) rows × IsUnique rows

module _ (dump : Value → String) (new_id : ℕ) (now : String) (s : Sighting) where
  Differ-observe :
      (r : Row) (rows : List Row)
      → is_row_of s r ≡ false
      → All (Differ r) rows
      → All (Differ r) (observe dump new_id now s rows)
  unfolding observe
  Differ-observe r [] h _ = (
    ground (
      arith,
      eq_iff s.source_type r.source_type,
      eq_iff r.source_type s.source_type,
      eq_iff s.raw_path r.raw_path,
      eq_iff r.raw_path s.raw_path,
    ),
    tt,
  )
  Differ-observe r (q ∷ rows) h (d, all) = ground (arith, Differ-observe r rows h all)

  Differ-seen :
      (r : Row) (rows : List Row)
      → All (Differ r) rows
      → All (Differ (seen_again dump new_id now s r)) rows
  unfolding seen_again
  Differ-seen r [] h = tt
  Differ-seen r (q ∷ rows) (d, h) = (d, Differ-seen r rows h)

  -- A table with at most one row for each field stays so.
  pub observe-IsUnique :
      (rows : List Row) → IsUnique rows → IsUnique (observe dump new_id now s rows)
  unfolding observe
  observe-IsUnique [] h = (tt, tt)
  observe-IsUnique (r ∷ rows) (d, h) = elim (Bool-cases (is_row_of s r)) [
    | inl e ↦ rw e (Differ-seen r rows d, h)
    | inr e ↦ rw e (Differ-observe r rows e d, observe-IsUnique rows h)
  ]
