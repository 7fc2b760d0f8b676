-- ===== src/Agents/Query/Sources.antt =====
-- agents/query.py: the queries of the audit logs of GCP, of Azure's activity logs and of
-- CrowdStrike's detections.
use tengen.Prelude.{
  String, none, some, List, [], ◌∷◌, Result, ok, raised, ◌>>=◌, if◌then◌else◌, ◌==◌, get_or,
  key_error, Error,
}
use tengen.Value.{
  Value, ℤ, Items, Fields, truthy, no_items, get_in, field, item, arr, str, end, int,
}
use tengen.Enrichment.Requests.{World, post_request, get_request}
use tengen.Text.{cat, join}
use tengen.Agents.Json.{or_error}
use tengen.Enrichment.Requests.{access_token}

abbrev quoted : String → String → String → String
quoted before s after = cat before (cat s after)

abbrev pub audit_filter : String → String → String → List String
audit_filter start_time end_time principal_email =
    "logName:\"cloudaudit.googleapis.com\""
    ∷ quoted "timestamp>=\"" start_time "\""
    ∷ quoted "timestamp<=\"" end_time "\""
    ∷ (if principal_email == ""
        then []
        else quoted "protoPayload.authenticationInfo.principalEmail=\"" principal_email "\"" ∷ [])

-- `[dict(e) for e in entries]`, printed with `default=str`
abbrev pub dicts_of : {E : Type 0} → (E → Result Value) → List E → Result Items
dicts_of as_dict [] = ok no_items
dicts_of as_dict (e ∷ es) = as_dict e >>= λ v. dicts_of as_dict es >>= λ vs. ok (item v vs)

-- `list_entries` is the request of the client for a project; `as_dict` is what printing makes of
-- `dict(e)`.
module _ {E : Type 0} (gcp_project_id : String)
    (list_entries : String → String → ℤ → Result (List E)) (as_dict : E → Result Value)
    (describe : Error → String) where
  unfoldable pub query_gcp_audit : String → String → String → String → ℤ → Value
  query_gcp_audit project_id start_time end_time principal_email max_results = or_error describe (
      list_entries (if project_id == "" then gcp_project_id else project_id)
        (join " AND " (audit_filter start_time end_time principal_email)) max_results
      >>= λ es. dicts_of as_dict es >>= λ vs. ok (arr vs))

-- `os.environ[name]`
abbrev pub required : World → String → Result String
required w name = elim (w.env name) [ none ↦ raised key_error | some v ↦ ok v ]

abbrev pub activity_filter : String → String → String → List String
activity_filter start_time end_time caller =
    quoted "eventTimestamp ge '" start_time "'"
    ∷ quoted "eventTimestamp le '" end_time "'"
    ∷ (if caller == "" then [] else quoted "caller eq '" caller "'" ∷ [])

abbrev pub fql : String → String → String → String
fql start_time end_time severity = cat "created_timestamp:>'" (
    cat start_time (
      cat "'+created_timestamp:<'" (
        cat end_time (
          cat "'"
            (if severity == "" then "" else quoted "+max_severity_displayname:'" severity "'")))))

module _ (w : World) (describe : Error → String) where
  -- `token_resp.json()["access_token"]`, which the headers of the next requests hold
  abbrev pub azure_token : Result Value
  azure_token = required w "AZURE_TENANT_ID" >>= λ tenant_id.
      required w "AZURE_CLIENT_ID" >>= λ client_id.
      required w "AZURE_CLIENT_SECRET" >>= λ client_secret.
      w.fetch (
        post_request (quoted "https://login.microsoftonline.com/" tenant_id "/oauth2/v2.0/token") (
          field "grant_type" (str "client_credentials") (
            field "client_id" (str client_id) (
              field "client_secret" (str client_secret)
                (field "scope" (str "https://management.azure.com/.default") end)))))
      >>= λ answer. access_token answer

  abbrev pub activity_url : String → String
  activity_url subscription_id =
      quoted "https://management.azure.com/subscriptions/" subscription_id
        "/providers/microsoft.insights/eventtypes/management/values"

  abbrev pub activity_params : String → String → String → ℤ → Fields
  activity_params start_time end_time caller max_results = field "api-version" (str "2015-04-01") (
      field "$filter" (str (join " and " (activity_filter start_time end_time caller)))
        (field "$top" (int max_results) end))

  unfoldable pub query_azure_activity : String → String → String → String → ℤ → Value
  unfolding get_in join
  query_azure_activity subscription_id start_time end_time caller max_results = or_error describe (
      azure_token >>= λ token.
      w.fetch (
        get_request (activity_url subscription_id)
          (activity_params start_time end_time caller max_results))
      >>= λ answer. get_in answer "value" (arr no_items))

  abbrev pub base_url : String
  base_url = get_or (w.env "CROWDSTRIKE_BASE_URL") "https://api.crowdstrike.com"

  abbrev pub crowdstrike_token : Result Value
  crowdstrike_token = required w "CROWDSTRIKE_CLIENT_ID" >>= λ client_id.
      required w "CROWDSTRIKE_CLIENT_SECRET" >>= λ client_secret.
      w.fetch (
        post_request (cat base_url "/oauth2/token")
          (field "client_id" (str client_id) (field "client_secret" (str client_secret) end)))
      >>= λ answer. access_token answer

  abbrev pub details_of : Value → Result Value
  details_of ids =
      if truthy ids
      then (w.fetch
            (post_request (cat base_url "/detects/entities/summaries/GET/v1") (field "ids" ids end))
          >>= λ answer. get_in answer "resources" (arr no_items))
      else ok (arr no_items)

  unfoldable pub query_crowdstrike_detections : String → String → String → ℤ → Value
  unfolding get_in truthy
  query_crowdstrike_detections start_time end_time severity max_results = or_error describe (
      crowdstrike_token >>= λ token.
      w.fetch (
        get_request (cat base_url "/detects/queries/detects/v1") (
          field "filter" (str (fql start_time end_time severity))
            (field "limit" (int max_results) end)))
      >>= λ answer. get_in answer "resources" (arr no_items) >>= λ ids. details_of ids)
