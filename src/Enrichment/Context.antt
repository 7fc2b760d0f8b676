-- ===== src/Enrichment/Context.antt =====
-- tools/enrichment.py: the lookups of users and assets.
use tengen.Prelude.{String, Bool, true, not, ◌&&◌, [], ◌∷◌, Result, ok, if◌then◌else◌, ◌==◌, Error}
use tengen.Normalizers.Reading.{◌>>=◌, first_of}
use tengen.Text.{cat, strip, begins, split, last_part}
use tengen.Value.{
  Value, str, bool, arr, null, no_items, field, end, empty_obj, get_in, is_null, is_text, to_text,
  truthy,
}
use tengen.Agents.Json.{json_dict, get_path}
use tengen.Enrichment.Requests.{
  access_token, World, setting, get_request, post_request, failure, or_failure,
}

-- `show` is `str` of a value that is no text.
module _ (w : World) (show : Value → String) where
  -- `f"{first} {last}".strip()`
  abbrev pub display_name : Value → Value → Value
  display_name first last = str (strip (cat (to_text show first) (cat " " (to_text show last))))

  abbrev pub okta : String → Result Value
  okta identifier =
      w.fetch (
        get_request
          (cat "https://" (cat (setting w "OKTA_DOMAIN") (cat "/api/v1/users/" identifier))) end)
      >>= λ user. get_in user "profile" empty_obj >>= λ profile. json_dict (
          ("id", get_in user "id" (str ""))
          ∷ ("email", get_in profile "email" (str ""))
          ∷ (
            "display_name",
            get_in profile "firstName" (str "") >>= λ first.
                get_in profile "lastName" (str "") >>= λ last. ok (display_name first last),
          )
          ∷ ("department", get_in profile "department" (str ""))
          ∷ ("title", get_in profile "title" (str ""))
          ∷ ("manager", get_in profile "manager" (str ""))
          ∷ (
            "mfa_enrolled",
            get_path user ("credentials" ∷ "factors" ∷ []) null >>= λ factors.
                ok (bool (not (is_null factors))),
          )
          ∷ ("last_login", get_in user "lastLogin" (str ""))
          ∷ (
            "account_enabled",
            get_in user "status" null >>= λ status. ok (bool (is_text status "ACTIVE")),
          )
          ∷ ("groups", ok (arr no_items))
          ∷ ("source", ok (str "okta"))
          ∷ [])

  abbrev pub azure_graph : String → Result Value
  azure_graph identifier =
      w.fetch (
        post_request
          (cat "https://login.microsoftonline.com/"
            (cat (setting w "AZURE_TENANT_ID") "/oauth2/v2.0/token"))
          (field "grant_type" (str "client_credentials") (
            field "client_id" (str (setting w "AZURE_CLIENT_ID")) (
              field "client_secret" (str (setting w "AZURE_CLIENT_SECRET"))
                (field "scope" (str "https://graph.microsoft.com/.default") end)))))
      >>= λ answer. access_token answer >>= λ token.
          w.fetch (
            get_request
              (cat "https://graph.microsoft.com/v1.0/users/" (
                cat identifier
                  "?$select=id,displayName,mail,department,jobTitle,accountEnabled,signInActivity"))
              end)
          >>= λ u. json_dict (
              ("id", get_in u "id" (str ""))
              ∷ ("email", get_in u "mail" (str ""))
              ∷ ("display_name", get_in u "displayName" (str ""))
              ∷ ("department", get_in u "department" (str ""))
              ∷ ("title", get_in u "jobTitle" (str ""))
              ∷ ("manager", ok (str ""))
              ∷ ("mfa_enrolled", ok null)
              ∷ ("last_login", get_path u ("signInActivity" ∷ "lastSignInDateTime" ∷ []) (str ""))
              ∷ ("account_enabled", get_in u "accountEnabled" (bool true))
              ∷ ("groups", ok (arr no_items))
              ∷ ("source", ok (str "azure_graph"))
              ∷ [])

  abbrev is_set : String → Bool
  is_set name = not (setting w name == "")

  abbrev pub user_context : String → Result Value
  user_context identifier =
      if is_set "OKTA_API_TOKEN" && is_set "OKTA_DOMAIN"
      then okta identifier
      else if is_set "AZURE_TENANT_ID" && is_set "AZURE_CLIENT_ID" && is_set "AZURE_CLIENT_SECRET"
      then azure_graph identifier
      else ok (failure "identifier" identifier "no identity provider configured")

  abbrev pub cmdb : String → Result Value
  cmdb asset_id =
      w.fetch (get_request (cat (setting w "CMDB_ENDPOINT") (cat "/assets/" asset_id)) end) >>= λ d.
      json_dict (
        ("asset_id", ok (str asset_id))
        ∷ ("name", get_in d "name" (str ""))
        ∷ ("type", get_in d "type" (str ""))
        ∷ ("owner", get_in d "owner" (str ""))
        ∷ ("env", get_in d "environment" (str ""))
        ∷ ("tags", get_in d "tags" empty_obj)
        ∷ ("compliance_violations", get_in d "compliance_violations" (arr no_items))
        ∷ ("source", ok (str "cmdb"))
        ∷ [])

  abbrev pub config_item : String → Value → Result Value
  config_item asset_id entry = json_dict (
      ("asset_id", ok (str asset_id))
      ∷ ("name", get_in entry "resourceName" (str ""))
      ∷ ("type", get_in entry "resourceType" (str ""))
      ∷ ("owner", ok (str ""))
      ∷ ("env", get_path entry ("tags" ∷ "Environment" ∷ []) (str ""))
      ∷ ("tags", get_in entry "tags" empty_obj)
      ∷ ("compliance_violations", ok (arr no_items))
      ∷ ("source", ok (str "aws_config"))
      ∷ [])

  abbrev pub no_asset_source : String → Value
  no_asset_source asset_id = failure "asset_id" asset_id "no asset source configured"

  -- `history` is `get_resource_config_history` of AWS Config, for a resource id.
  module _ (history : String → Result Value) where
    abbrev pub aws_config : String → Result Value
    aws_config asset_id = history (last_part "" (split 47 asset_id)) >>= λ answer.
        get_in answer "configurationItems" (arr no_items) >>= λ items.
        if truthy items
        then (first_of items >>= λ entry. config_item asset_id entry)
        else ok (no_asset_source asset_id)

    abbrev pub asset_context : String → Result Value
    asset_context asset_id =
        if is_set "CMDB_ENDPOINT"
        then cmdb asset_id
        else if begins asset_id "arn:"
        then aws_config asset_id
        else ok (no_asset_source asset_id)

    module _ (describe : Error → String) where
      unfoldable pub lookup_asset_context : String → Value
      unfolding ◌>>=◌ get_in get_path first_of begins split last_part truthy
      lookup_asset_context asset_id =
          or_failure describe "asset_id" asset_id (asset_context asset_id)

  module _ (describe : Error → String) where
    unfoldable pub lookup_user_context : String → Value
    unfolding ◌>>=◌ get_in get_path strip to_text is_text
    lookup_user_context identifier =
        or_failure describe "identifier" identifier (user_context identifier)
