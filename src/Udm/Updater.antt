-- ===== src/Udm/Updater.antt =====
-- udm/model_updater.py: proposals from the registry's rows, and the marking of the promoted ones.
pub mod Fresh
pub mod Known
use tengen.Prelude.{
  ℕ, zero, suc, ◌+◌, ◌-◌, ◌*◌, ◌/◌, ◌%◌, ◌≤◌, ◌<◌, String, Bool, true, false, not, ◌&&◌, ◌||◌,
  Option, none, some, List, [], ◌∷◌, ◌++◌, ◌≡◌, ◌≢◌, refl, sym, ap, subst, ◌∙◌, ◌⊎◌, inl, inr, ◌↔◌,
  Result, ok, raised, Done, ◌>>=◌, if◌then◌else◌, ◌==◌, eq_iff, arith, map, append-nil,
  append_assoc, is_some, get_or, length, all, any, All, Dict, lookup, insert, eqb, ltb, leb, one_of,
  Bool-cases, Option-cases, type_error, attribute_error, key_error, index_error, value_error,
  runtime_error, is_ok, value_or, IsIn, IsIn-append, IsIn-last, All-map, All-IsIn, some-injective,
  ok-injective,
}
use Prim.Native.Char.{Char, code}
use Prim.Native.String
use tengen.Text.{begins, contains, cat, lower, split, last_part, drop_brackets}
use tengen.Udm.FieldRegistry.{Row, list_fields, set_status}
use tengen.Value.{pos}

-- `_MODEL_REGISTRY`, with the `model_fields` of each model
abbrev pub registered : Dict (List String)
registered =
    (
      "Metadata",
      "event_timestamp" ∷ "collected_timestamp" ∷ "ingested_timestamp" ∷ "event_type"
          ∷ "product_event_type" ∷ "product_name" ∷ "vendor_name" ∷ "product_version"
          ∷ "product_log_id" ∷ "log_type" ∷ "description" ∷ "url_back_to_product" ∷ "id" ∷ [],
    )
    ∷ (
      "Noun",
      "hostname" ∷ "asset_id" ∷ "ip" ∷ "port" ∷ "mac" ∷ "administrative_domain" ∷ "namespace"
          ∷ "url" ∷ "domain" ∷ "email" ∷ "application" ∷ "platform" ∷ "platform_version" ∷ "user"
          ∷ "process" ∷ "file" ∷ "registry" ∷ "resource" ∷ "cloud" ∷ "location" ∷ "labels" ∷ [],
    )
    ∷ (
      "User",
      "userid" ∷ "user_display_name" ∷ "email_addresses" ∷ "windows_sid" ∷ "product_object_id"
          ∷ "group_identifiers" ∷ "attribute_roles" ∷ [],
    )
    ∷ (
      "Process",
      "pid" ∷ "command_line" ∷ "product_specific_process_id" ∷ "parent_pid" ∷ "file" ∷ [],
    )
    ∷ ("File", "full_path" ∷ "file_type" ∷ "mime_type" ∷ "size" ∷ "md5" ∷ "sha1" ∷ "sha256" ∷ [])
    ∷ ("RegistryEntry", "registry_key" ∷ "registry_value_name" ∷ "registry_value_data" ∷ [])
    ∷ (
      "Resource",
      "name" ∷ "resource_type" ∷ "resource_subtype" ∷ "product_object_id" ∷ "attribute_labels" ∷ [],
    )
    ∷ ("CloudContext", "environment" ∷ "project_id" ∷ "availability_zone" ∷ [])
    ∷ ("Location", "name" ∷ "city" ∷ "state" ∷ "country_or_region" ∷ [])
    ∷ (
      "Network",
      "ip_protocol" ∷ "direction" ∷ "application_protocol" ∷ "session_id" ∷ "sent_bytes"
          ∷ "received_bytes" ∷ "http" ∷ [],
    )
    ∷ ("NetworkHttp", "method" ∷ "user_agent" ∷ "response_code" ∷ "referral_url" ∷ [])
    ∷ (
      "SecurityResult",
      "action" ∷ "category" ∷ "severity" ∷ "severity_details" ∷ "rule_name" ∷ "rule_id"
          ∷ "threat_name" ∷ "description" ∷ "summary" ∷ "confidence" ∷ "priority" ∷ "alert_state"
          ∷ "rule_labels" ∷ [],
    )
    ∷ []

unfoldable pub model_fields : String → List String
model_fields model = get_or (lookup model registered) []

unfoldable pub target_model : String → String
unfolding begins contains
target_model s =
    if begins s "metadata."
    then "Metadata"
    else if begins s "network.http."
    then "NetworkHttp"
    else if begins s "network."
    then "Network"
    else if begins s "security_result."
    then "SecurityResult"
    else if contains s ".user."
    then "User"
    else if contains s ".process."
    then "Process"
    else if contains s ".file."
    then "File"
    else if contains s ".registry."
    then "RegistryEntry"
    else if contains s ".cloud."
    then "CloudContext"
    else if contains s ".resource."
    then "Resource"
    else if contains s ".location."
    then "Location"
    else "Noun"

abbrev is_upper : ℕ → Bool
is_upper n = leb 65 n && leb n 90

abbrev is_lower : ℕ → Bool
is_lower n = leb 97 n && leb n 122

abbrev is_digit : ℕ → Bool
is_digit n = leb 48 n && leb n 57

-- A text whose first character is a small letter of ASCII
abbrev starts_lower : String → Bool
starts_lower String.[] = false
starts_lower (String.◌∷◌ d s) = is_lower (code d)

-- The first substitution: an underscore between two capitals, the second before a small letter.
-- `capital` says whether the character before is a capital.
unfoldable pub split_acronyms : Bool → String → String
split_acronyms capital String.[] = ""
split_acronyms capital (String.◌∷◌ c s) =
    let rest = String.◌∷◌ c (split_acronyms (is_upper (code c)) s) in
    if capital && is_upper (code c) && starts_lower s then cat "_" rest else rest

-- The second: an underscore between a small letter or a digit and a capital
unfoldable pub split_words : Bool → String → String
split_words small String.[] = ""
split_words small (String.◌∷◌ c s) =
    let rest = String.◌∷◌ c (split_words (is_lower (code c) || is_digit (code c)) s) in
    if small && is_upper (code c) then cat "_" rest else rest

abbrev is_alnum : ℕ → Bool
is_alnum n = is_digit n || is_upper n || is_lower n

-- The runs of characters that are no letters and no digits become one underscore each, and the
-- underscores of the text are such characters too. `inside` says whether a run is being read.
unfoldable pub underscored : Bool → String → String
underscored inside String.[] = ""
underscored inside (String.◌∷◌ c s) =
    let kept = String.◌∷◌ c (underscored false s) in
    let first = cat "_" (underscored true s) in
    let more = underscored true s in
    if is_alnum (code c) then kept else if inside then more else first

-- `.strip("_")`, for a text with no two underscores together
unfoldable pub trim_end : String → String
trim_end String.[] = ""
trim_end (String.◌∷◌ c String.[]) = if eqb (code c) 95 then "" else String.◌∷◌ c ""
trim_end (String.◌∷◌ c (String.◌∷◌ d s)) = String.◌∷◌ c (trim_end (String.◌∷◌ d s))

abbrev trimmed : String → String
trimmed String.[] = ""
trimmed (String.◌∷◌ c s) = if eqb (code c) 95 then trim_end s else trim_end (String.◌∷◌ c s)

abbrev starts_digit : String → Bool
starts_digit String.[] = false
starts_digit (String.◌∷◌ c s) = is_digit (code c)

abbrev safe_name : String → String
safe_name name = if name == "" then "field" else if starts_digit name then cat "f_" name else name

unfoldable pub identifier : String → String
unfolding split_acronyms split_words underscored trim_end lower
identifier text =
    safe_name (lower (trimmed (underscored false (split_words false (split_acronyms false text)))))

unfoldable pub field_name : String → String → String
unfolding identifier split last_part drop_brackets
field_name suggested_udm_field raw_path =
    if suggested_udm_field == ""
    then identifier (drop_brackets (last_part "" (split 46 raw_path)))
    else identifier (last_part "" (split 46 suggested_udm_field))

pub record FieldProposal : Type 0 where
  pub field_id : ℕ
  pub source_type : String
  pub raw_path : String
  pub suggested_udm_field : String
  pub value_type : String
  pub sample_value : String
  pub occurrence_count : ℕ
  pub target_model : String
  pub field_name : String
  pub is_new : Bool

-- `name in set(_MODEL_REGISTRY[target].model_fields)`
unfoldable pub exists_on : String → String → Bool
unfolding model_fields
exists_on target name = one_of name (model_fields target)

abbrev pub Key : Type 0
Key = String × String

unfoldable pub was_seen : Key → List Key → Bool
was_seen (target, name) [] = false
was_seen (target, name) ((t, n) ∷ seen) = (t == target && n == name) || was_seen (target, name) seen

abbrev pub row_target : Row → String
row_target r = target_model r.suggested_udm_field

abbrev pub row_name : Row → String
row_name r = field_name r.suggested_udm_field r.raw_path

abbrev pub row_exists : Row → Bool
row_exists r = exists_on (row_target r) (row_name r)

unfoldable pub proposal : Row → List Key → FieldProposal
proposal r seen = record {
  field_id = r.id;
  source_type = r.source_type;
  raw_path = r.raw_path;
  suggested_udm_field = r.suggested_udm_field;
  value_type = r.value_type;
  sample_value = r.sample_value;
  occurrence_count = r.occurrence_count;
  target_model = row_target r;
  field_name = row_name r;
  is_new = not (row_exists r) && not (was_seen (row_target r, row_name r) seen);
}

abbrev pub seen_with : Row → List Key → List Key
seen_with r seen = if row_exists r then seen else (row_target r, row_name r) ∷ seen

-- The loop over the rows
unfoldable pub proposals_from : List String → List Key → List Row → List FieldProposal
unfolding proposal
proposals_from statuses seen [] = []
proposals_from statuses seen (r ∷ rows) =
    let skipped = proposals_from statuses seen rows in
    let rest = proposals_from statuses (seen_with r seen) rows in
    if one_of r.status statuses then proposal r seen ∷ rest else skipped

-- The rows come in the order that SQLite gives them.
unfoldable pub propose_from_registry :
    (List Row → List Row) → List String → List Row → List FieldProposal
unfolding proposals_from
propose_from_registry order_by statuses rows =
    proposals_from statuses [] (list_fields order_by none none (pos 10000) rows)

-- The loop of `create_update_branch` that marks the rows of all proposals
unfoldable pub mark_promoted : String → String → List FieldProposal → List Row → List Row
mark_promoted branch now [] rows = rows
mark_promoted branch now (p ∷ ps) rows =
    mark_promoted branch now ps
      (set_status p.field_id "promoted" (some (cat "branch=" branch)) now rows).0
