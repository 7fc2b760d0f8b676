-- ===== src/Enrichment/Samples.antt =====
-- A concrete environment and servers, and the theorem at them.
use tengen.Prelude.{
  String, none, some, ◌≡◌, refl, Result, ok, raised, if◌then◌else◌, ◌==◌, runtime_error, Error,
}
use tengen.Value.{Value, str, obj, field, end}
use tengen.Enrichment.Requests.{World}
use tengen.Enrichment.Reputation.{
  lookup_ip_reputation, lookup_ip_geo, lookup_domain, lookup_file_hash,
}
use tengen.Enrichment.Context.{lookup_asset_context, lookup_user_context}
use tengen.Enrichment.Names.{Names, lookups-Names}

-- Only VirusTotal is configured, and its server answers; every other request fails.
abbrev world : World
world = record {
  env = λ name. if name == "VT_API_KEY" then some "key" else none;
  fetch = λ r.
      if r.url == "https://www.virustotal.com/api/v3/files/abc"
      then ok (
          obj (
            field "data"
              (obj (field "attributes" (obj (field "type_description" (str "ELF") end)) end)) end))
      else raised runtime_error;
}

abbrev score : Value → Value → Result Value
score malicious stats = ok malicious

abbrev describe_error : Error → String
describe_error e = "error"

abbrev show : Value → String
show v = "None"

abbrev history : String → Result Value
history id = raised runtime_error

reputation_run :
    lookup_ip_reputation world score describe_error "8.8.8.8"
    ≡ obj (field "ip" (str "8.8.8.8") (field "error" (str "error") end))
unfolding lookup_ip_reputation
reputation_run = refl

user_run :
    lookup_user_context world show describe_error "ann"
    ≡ obj
        (field "identifier" (str "ann") (field "error" (str "no identity provider configured") end))
unfolding lookup_user_context
user_run = refl

lookups-Names_example :
    Names "ip" "abc" (lookup_ip_reputation world score describe_error "abc")
    × Names "ip" "abc" (lookup_ip_geo world score describe_error "abc")
    × Names "domain" "abc" (lookup_domain world score describe_error "abc")
    × Names "sha256" "abc" (lookup_file_hash world score describe_error "abc")
    × Names "asset_id" "abc" (lookup_asset_context world show history describe_error "abc")
lookups-Names_example = lookups-Names world score show history describe_error "abc"
