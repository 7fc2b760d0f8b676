-- ===== src/Udm/Parser.antt =====
-- udm/parser.py. The ids of new rows and the clock at each sighting are functions of its number.
pub mod Coverage
use tengen.Prelude.{
  ℕ, suc, String, Bool, true, false, List, [], ◌∷◌, Option, none, some, Result, ok, raised, ◌>>=◌,
  if◌then◌else◌, one_of, Dict,
}
use tengen.Value.{Value, Fields, obj, empty_obj, end, get, set}
use tengen.Models.NormalizedEvent.{LogSourceType, source_value, NormalizedEvent}
use tengen.Models.Projection.{to_udm}
use tengen.Models.Udm.Event.{UdmEvent, Datetime}
use tengen.Normalizers.Building.{Environment}
use tengen.Normalizers.Registry.{normalize, detect_source_type}
use tengen.Udm.Tables.{consumed_paths}
use tengen.Udm.Mappings.{flatten, suggest_udm_field}
use tengen.Udm.FieldRegistry.{Row, Sighting, observe}

-- A `FieldObservation` has the fields of a sighting.
abbrev pub observation : String → String → Value → String → Sighting
observation source path value suggested = record {
  source_type = source;
  raw_path = path;
  sample_value = value;
  suggested_udm_field = suggested;
}

-- The loop of `discover_unmapped`
unfoldable pub unmapped_of :
    (String → Result Bool) → List String → String → Dict Value → Result (List Sighting)
unmapped_of other consumed source [] = ok []
unmapped_of other consumed source ((path, value) ∷ d) =
    let rest = unmapped_of other consumed source d in
    if one_of path consumed
    then rest
    else (suggest_udm_field other path value >>= λ suggested.
        rest >>= λ more. ok (observation source path value suggested ∷ more))

unfoldable pub discover_unmapped :
    (String → Result Bool) → Fields → LogSourceType → Result (List Sighting)
discover_unmapped other raw source_type =
    unmapped_of other (consumed_paths source_type) (source_value source_type) (flatten (obj raw) "")

-- `additional["unmapped"]` with an entry for each observation
unfoldable pub collect : List Sighting → Fields → Fields
collect [] fs = fs
collect (o ∷ os) fs = collect os (set o.raw_path o.sample_value fs)

abbrev pub entries : Value → Fields
entries (obj fs) = fs
entries _ = end

unfoldable pub with_unmapped : List Sighting → Fields → Fields
unfolding collect
with_unmapped [] additional = additional
with_unmapped (o ∷ os) additional =
    set "unmapped" (obj (collect (o ∷ os) (entries (get "unmapped" empty_obj additional))))
      additional

-- `for obs in unmapped: self.registry.observe(…)`, from the sighting of number `k` on
unfoldable pub record_all :
    (Value → String) → (ℕ → ℕ) → (ℕ → String) → ℕ → List Sighting → List Row → List Row
record_all dump ids now k [] rows = rows
record_all dump ids now k (o ∷ os) rows =
    record_all dump ids now (suc k) os (observe dump (ids k) (now k) o rows)

abbrev pub recorded :
    (Value → String)
    → (ℕ → ℕ)
    → (ℕ → String)
    → Bool
    → List Sighting
    → Option (List Row)
    → Option (List Row)
recorded dump ids now write os none = none
recorded dump ids now write os (some rows) =
    some (if write then record_all dump ids now 0 os rows else rows)

pub record ParseResult : Type 0 where
  pub udm : UdmEvent
  pub normalized : NormalizedEvent
  pub unmapped : List Sighting

abbrev pub source_or_detected : Environment → Fields → Option LogSourceType → Result LogSourceType
source_or_detected env raw none = detect_source_type env raw
source_or_detected env raw (some source_type) = ok source_type

module _ (env : Environment) (fromisoformat : String → Option Datetime)
    (other : String → Result Bool) (dump : Value → String) (ids : ℕ → ℕ) (now : ℕ → String) where
  -- The result, and the registry's rows behind it if the parser has a registry.
  abbrev pub parsed_event :
      Bool → Option (List Row) → NormalizedEvent → List Sighting → ParseResult × Option (List Row)
  parsed_event write rows e os =
      let udm = to_udm fromisoformat e in
      (
        record {
          udm = record udm { additional = with_unmapped os udm.additional };
          normalized = e;
          unmapped = os;
        },
        recorded dump ids now write os rows,
      )

  unfoldable pub parse :
      Fields
      → Option LogSourceType
      → Bool
      → Option (List Row)
      → Result (ParseResult × Option (List Row))
  parse raw source_type write rows = source_or_detected env raw source_type >>= λ source.
      normalize env raw (some source) >>= λ e.
      discover_unmapped other raw e.source_type >>= λ os. ok (parsed_event write rows e os)
