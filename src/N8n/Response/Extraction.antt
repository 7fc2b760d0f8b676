-- ===== src/N8n/Response/Extraction.antt =====
-- What is taken out of a response.
use tengen.Prelude.{
  List, [], ◌∷◌, String, true, false, Option, none, some, ◌≡◌, arith, refl, one_of, eq_iff,
  if◌then◌else◌, Option-cases, inl, inr, ◌↔◌, ◌≢◌, ◌⊎◌,
}
use tengen.Value.{Fields, get?, end}
use tengen.N8n.Response.{extract, List, ◌∷◌, parse_response, Alert, end, well_known_fields, field}
use tengen.Models.Alert.{Alert}

get?-extract :
    (k : String) (keys : List String) (raw : Fields)
    → get? k (extract keys raw) ≡ (if one_of k keys then get? k raw else none)
unfolding extract get?
get?-extract k [] raw = refl
get?-extract k (key ∷ keys) raw = elim (Option-cases (get? key raw)) [
  | inl absent ↦ rw absent (ground (arith, eq_iff key k, get?-extract k keys raw))
  | inr (v, present) ↦ rw present (ground (arith, eq_iff key k, get?-extract k keys raw))
]

-- The answer to a response that holds something, field by field; the alert is left as it was.
pub parse_response-extracted :
    (now path : String) (raw : Fields) (alert : Alert) (k : String)
    → raw ≢ end
    → (get? k (parse_response now (some raw) alert path).extracted
        ≡ (if one_of k well_known_fields then get? k raw else none))
      × ((parse_response now (some raw) alert path).enrichment ≡ raw)
      × ((parse_response now (some raw) alert path).enrichment_error ≡ false)
      × ((parse_response now (some raw) alert path).alert ≡ alert)
unfolding parse_response
parse_response-extracted now path end alert k h = absurd (h refl)
parse_response-extracted now path (field j v fs) alert k h =
    (get?-extract k well_known_fields (field j v fs), refl, refl, refl)

-- An empty response, or none, is marked as an error and gives nothing.
pub parse_response-error_iff :
    (now path : String) (raw : Option Fields) (alert : Alert)
    → ((parse_response now raw alert path).enrichment_error ≡ true)
      ↔ ((raw ≡ none) ⊎ (raw ≡ some end))
unfolding parse_response
parse_response-error_iff now path none alert = (λ _. inl refl, λ _. refl)
parse_response-error_iff now path (some end) alert = (λ _. inr refl, λ _. refl)
parse_response-error_iff now path (some (field k v fs)) alert = ground arith
