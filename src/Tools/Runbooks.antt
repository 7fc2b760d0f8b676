-- ===== src/Tools/Runbooks.antt =====
-- tools/runbook_loader.py and models/runbook.py. The directory of the runbooks is a function that
-- gives, for a provider, the names of its files with what `yaml.safe_load` reads from them.
pub mod Listed
use tengen.Prelude.{
  ℕ, String, Bool, Option, none, some, List, [], ◌∷◌, Result, ok, raised, ◌>>=◌, if◌then◌else◌, map,
  Dict, lookup, eqb, type_error, attribute_error, value_error,
}
use Prim.Native.Char.{code}
use Prim.Native.String
use tengen.Text.{lower, cat, join}
use tengen.Value.{Value, Fields, Items, obj, arr, item, no_items, get}
use tengen.Agents.Json.{elements}

pub record RunbookStep : Type 0 where
  pub order : ℕ
  pub name : String
  pub description : String
  pub tool : String
  pub parameters : Fields
  pub automated : Bool

pub record Runbook : Type 0 where
  pub name : String
  pub event_type : String
  pub cloud_provider : String
  pub severity : String
  pub steps : List RunbookStep
  pub description : String

-- `s.replace(" ", "_")`
unfoldable pub underscored : String → String
underscored String.[] = ""
underscored (String.◌∷◌ c s) =
    let rest = underscored s in if eqb (code c) 32 then String.◌++◌ "_" rest else String.◌∷◌ c rest

unfoldable pub slug : String → String
unfolding underscored lower
slug event_type = underscored (lower event_type)

-- What is under the directory: for a provider that has one, its YAML files by their stems
abbrev pub Directory : Type 0
Directory = String → Option (Dict Value)

-- `RunbookStep(**step)` and `Runbook(**data)`, which pydantic validates
pub record RunbookCodec : Type 0 where
  pub step : Fields → Option RunbookStep
  pub runbook : Fields → List RunbookStep → Option Runbook

module _ (codec : RunbookCodec) where
  abbrev step_of : Value → Result RunbookStep
  step_of (obj fs) = elim (codec.step fs) [ none ↦ raised value_error | some s ↦ ok s ]
  step_of _ = raised type_error

  unfoldable pub steps_of : Items → Result (List RunbookStep)
  steps_of no_items = ok []
  steps_of (item v vs) = step_of v >>= λ s. steps_of vs >>= λ ss. ok (s ∷ ss)

  abbrev pub built : Fields → List RunbookStep → Result Runbook
  built fs steps = elim (codec.runbook fs steps) [ none ↦ raised value_error | some r ↦ ok r ]

  abbrev pub read_runbook : Value → Result Runbook
  read_runbook (obj fs) =
      elements (get "steps" (arr no_items) fs) >>= λ vs. steps_of vs >>= λ steps. built fs steps
  read_runbook _ = raised attribute_error

  abbrev pub found : Option Value → Result (Option Runbook)
  found none = ok none
  found (some contents) = read_runbook contents >>= λ r. ok (some r)

  abbrev pub in_directory : Option (Dict Value) → String → Result (Option Runbook)
  in_directory none name = ok none
  in_directory (some files) name = found (lookup name files)

  unfoldable pub load_runbook : Directory → String → String → Result (Option Runbook)
  unfolding slug steps_of elements get
  load_runbook dir cloud_provider event_type = in_directory (dir cloud_provider) (slug event_type)

  -- `_load_…_runbook` of the agents: `print` is `model_dump_json`.
  abbrev pub described : (Runbook → String) → String → Option Runbook → String
  described print event_type none = cat "no runbook found for event_type=" event_type
  described print event_type (some r) = print r

  unfoldable pub load_provider_runbook :
      (Runbook → String) → Directory → String → String → Result String
  unfolding load_runbook
  load_provider_runbook print dir provider event_type =
      load_runbook dir provider event_type >>= λ r. ok (described print event_type r)

abbrev pub names_of : Option (Dict Value) → List String
names_of none = []
names_of (some files) = map (λ f. f.0) files

unfoldable pub list_runbooks : Directory → String → List String
list_runbooks dir cloud_provider = names_of (dir cloud_provider)

-- `_list_…_runbooks` of the agents
abbrev pub listed : List String → String
listed [] = "no runbooks found"
listed (name ∷ names) = join ", " (name ∷ names)

unfoldable pub list_provider_runbooks : Directory → String → String
unfolding list_runbooks join
list_provider_runbooks dir provider = listed (list_runbooks dir provider)
