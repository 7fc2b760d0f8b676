-- ===== src/N8n/Response.antt =====
-- n8n/response_parser.py and models/enriched_alert.py.
pub mod Extraction
use tengen.Prelude.{String, Bool, true, false, Option, none, some, List, [], ◌∷◌, if◌then◌else◌}
use tengen.Value.{Value, Fields, end, field, get?}
use tengen.Text.{cat}
use tengen.Models.Alert.{Alert}

pub data Destination : Type 0 where
  splunk universal pagerduty : Destination

pub record EnrichedAlert : Type 0 where
  pub alert : Alert
  pub runbook : String
  pub enriched_at : String
  pub extracted : Fields
  pub runbook_error : Option String
  pub destination : Destination
  pub enrichment : Fields
  pub enrichment_error : Bool
  pub n8n_route_path : String

abbrev pub well_known_fields : List String
well_known_fields = "severity" ∷ "recommendations" ∷ "iocs" ∷ "verdict" ∷ []

-- `if key in raw_response: extracted[key] = raw_response[key]`
abbrev keep : String → Option Value → Fields → Fields
keep key none rest = rest
keep key (some v) rest = field key v rest

unfoldable pub extract : List String → Fields → Fields
extract [] raw = end
extract (key ∷ keys) raw = keep key (get? key raw) (extract keys raw)

-- `not raw_response`
abbrev is_empty : Option Fields → Bool
is_empty none = true
is_empty (some end) = true
is_empty (some (field _ _ _)) = false

abbrev fields_of : Option Fields → Fields
fields_of none = end
fields_of (some fs) = fs

-- `now` is the time that the model stamps itself with.
unfoldable pub parse_response : String → Option Fields → Alert → String → EnrichedAlert
unfolding extract
parse_response now raw_response original_alert route_path =
    if is_empty raw_response
    then record {
      alert = original_alert;
      runbook = cat "n8n." route_path;
      enriched_at = now;
      extracted = end;
      runbook_error = none;
      destination = splunk;
      enrichment = end;
      enrichment_error = true;
      n8n_route_path = route_path;
    }
    else record {
      alert = original_alert;
      runbook = cat "n8n." route_path;
      enriched_at = now;
      extracted = extract well_known_fields (fields_of raw_response);
      runbook_error = none;
      destination = splunk;
      enrichment = fields_of raw_response;
      enrichment_error = false;
      n8n_route_path = route_path;
    }
