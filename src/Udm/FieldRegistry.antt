-- ===== src/Udm/FieldRegistry.antt =====
-- udm/field_registry.py: the table of candidates, one function per SQL statement. The id of a new row,
-- which SQLite chooses, and the clock are arguments; `dump` is `json.dumps` of a value that is no text.
-- Rows that the ORDER BY does not tell apart are listed as they stand in the table.
pub mod Counting
pub mod Summary
use tengen.Prelude.{
  ℕ, zero, suc, ◌+◌, ◌-◌, ◌*◌, ◌/◌, ◌%◌, ◌≤◌, ◌<◌, String, Bool, true, false, not, ◌&&◌, ◌||◌,
  Option, none, some, List, [], ◌∷◌, ◌++◌, ◌≡◌, ◌≢◌, refl, sym, ap, subst, ◌∙◌, ◌⊎◌, inl, inr, ◌↔◌,
  Result, ok, raised, Done, ◌>>=◌, if◌then◌else◌, ◌==◌, eq_iff, arith, map, append-nil,
  append_assoc, is_some, get_or, length, all, any, All, Dict, lookup, insert, eqb, ltb, leb, one_of,
  Bool-cases, Option-cases, type_error, attribute_error, key_error, index_error, value_error,
  runtime_error, is_ok, value_or, IsIn, IsIn-append, IsIn-last, All-map, All-IsIn, some-injective,
  ok-injective,
}
use Prim.Native.String
use Prim.Native.Char.{code}
use tengen.Value.{ℤ, pos, negsuc}
use tengen.Text.{take_chars}
use tengen.Value.{Value, str, bool, int, float, arr, obj, null}

pub data FieldStatus : Type 0 where
  created approved promoted ignored : FieldStatus

unfoldable pub status_value : FieldStatus → String
status_value created = "new"
status_value approved = "approved"
status_value promoted = "promoted"
status_value ignored = "ignored"

unfoldable pub value_type : Value → String
value_type (bool b) = "bool"
value_type (int z) = "int"
value_type (float z k) = "float"
value_type (arr vs) = "list"
value_type (obj fs) = "dict"
value_type (str s) = "str"
value_type null = "str"

abbrev pub text_of : (Value → String) → Value → String
text_of dump (str s) = s
text_of dump v = dump v

unfoldable pub sample : (Value → String) → Value → String
sample dump v = take_chars 512 (text_of dump v)

pub record Row : Type 0 where
  pub id : ℕ
  pub source_type : String
  pub raw_path : String
  pub suggested_udm_field : String
  pub value_type : String
  pub sample_value : String
  pub occurrence_count : ℕ
  pub status : String
  pub notes : String
  pub first_seen : String
  pub last_seen : String

-- One call of `observe`
pub record Sighting : Type 0 where
  pub source_type : String
  pub raw_path : String
  pub sample_value : Value
  pub suggested_udm_field : String

-- Equality of the UNIQUE columns
unfoldable pub is_row_of : Sighting → Row → Bool
is_row_of s r = r.source_type == s.source_type && r.raw_path == s.raw_path

module _ (dump : Value → String) (new_id : ℕ) (now : String) where
  unfoldable pub new_row : Sighting → Row
  unfolding tengen.Udm.FieldRegistry.value_type sample
  new_row s = record {
    id = new_id;
    source_type = s.source_type;
    raw_path = s.raw_path;
    suggested_udm_field = s.suggested_udm_field;
    value_type = tengen.Udm.FieldRegistry.value_type s.sample_value;
    sample_value = sample dump s.sample_value;
    occurrence_count = 1;
    status = "new";
    notes = "";
    first_seen = now;
    last_seen = now;
  }

  -- ON CONFLICT DO UPDATE
  unfoldable pub seen_again : Sighting → Row → Row
  unfolding sample
  seen_again s r = record r {
    occurrence_count = r.occurrence_count + 1;
    last_seen = now;
    sample_value = sample dump s.sample_value;
    suggested_udm_field =
        if r.suggested_udm_field == "" then s.suggested_udm_field else r.suggested_udm_field;
  }

  unfoldable pub observe : Sighting → List Row → List Row
  unfolding new_row seen_again is_row_of
  observe s [] = new_row s ∷ []
  observe s (r ∷ rows) =
      let rest = observe s rows in if is_row_of s r then seen_again s r ∷ rows else r ∷ rest

-- `notes` where it is given
abbrev pub noted : Option String → Row → Row
noted none r = r
noted (some notes) r = record r { notes = notes }

abbrev pub has_id : ℕ → Row → Bool
has_id field_id r = eqb r.id field_id

-- UPDATE … WHERE id = ?, and whether a row was changed
unfoldable pub set_status : ℕ → String → Option String → String → List Row → List Row × Bool
set_status field_id status notes now rows = (
  map
      (λ r.
        if has_id field_id r
        then noted notes (record r { status = status; last_seen = now })
        else r)
      rows,
  any (has_id field_id) rows,
)

unfoldable pub set_suggested_field : ℕ → String → String → List Row → List Row × Bool
set_suggested_field field_id suggested now rows = (
  map
      (λ r.
        if has_id field_id r
        then record r { suggested_udm_field = suggested; last_seen = now }
        else r)
      rows,
  any (has_id field_id) rows,
)

unfoldable pub get_row : ℕ → List Row → Option Row
get_row field_id [] = none
get_row field_id (r ∷ rows) = if has_id field_id r then some r else get_row field_id rows

-- The filters of `list_fields`
abbrev pub wanted : Option String → String → Bool
wanted none value = true
wanted (some w) value = value == w

unfoldable pub selected : Option String → Option String → List Row → List Row
selected status source [] = []
selected status source (r ∷ rows) =
    let rest = selected status source rows in
    if wanted status r.status && wanted source r.source_type then r ∷ rest else rest

abbrev pub take_rows : ℕ → List Row → List Row
take_rows zero rows = []
take_rows (suc n) [] = []
take_rows (suc n) (r ∷ rows) = r ∷ take_rows n rows

-- LIMIT ?: a negative limit is none.
abbrev pub limited : ℤ → List Row → List Row
limited (pos n) rows = take_rows n rows
limited (negsuc n) rows = rows

-- `order_by` is SQLite's ORDER BY occurrence_count DESC, last_seen DESC.
unfoldable pub list_fields :
    (List Row → List Row) → Option String → Option String → ℤ → List Row → List Row
unfolding selected
list_fields order_by status source limit rows =
    limited limit (order_by (selected status source rows))

-- SELECT …, COUNT(*) … GROUP BY
unfoldable pub counts_by : (Row → String) → List Row → Dict ℕ
counts_by column [] = []
counts_by column (r ∷ rows) =
    let rest = counts_by column rows in
    insert (column r) (get_or (lookup (column r) rest) 0 + 1) rest

pub record Totals : Type 0 where
  pub total : ℕ
  pub created : ℕ
  pub approved : ℕ
  pub promoted : ℕ
  pub ignored : ℕ
  pub by_status : Dict ℕ
  pub by_source : Dict ℕ

abbrev status_of : Row → String
status_of r = r.status

abbrev source_of : Row → String
source_of r = r.source_type

unfoldable pub summary : List Row → Totals
unfolding counts_by
summary rows =
    let by_status = counts_by status_of rows in
    record {
      total = length rows;
      created = get_or (lookup "new" by_status) 0;
      approved = get_or (lookup "approved" by_status) 0;
      promoted = get_or (lookup "promoted" by_status) 0;
      ignored = get_or (lookup "ignored" by_status) 0;
      by_status = by_status;
      by_source = counts_by source_of rows;
    }
