-- ===== src/Enrichment/Reputation.antt =====
-- tools/enrichment.py: the lookups of addresses, domains and files.
use tengen.Prelude.{
  String, true, false, not, [], ◌∷◌, Result, ok, raised, if◌then◌else◌, ◌==◌, type_error, Error,
}
use tengen.Normalizers.Reading.{◌>>=◌}
use tengen.Text.{cat, take_chars}
use tengen.Value.{
  Value, pos, str, obj, int, bool, arr, null, no_items, field, end, empty_obj, get_in,
}
use tengen.Agents.Json.{take_items, json_dict, get_path}
use tengen.Enrichment.Requests.{World, setting, get_request, failure, or_failure}

abbrev zero_value : Value
zero_value = int (pos 0)

-- `score` is `int(malicious / max(sum(stats.values()), 1) * 100)`, on the floats of Python.
module _ (w : World) (score : Value → Value → Result Value) where
  abbrev pub abuseipdb : String → Result Value
  abuseipdb ip =
      w.fetch (
        get_request "https://api.abuseipdb.com/api/v2/check" (
          field "ipAddress" (str ip)
            (field "maxAgeInDays" (int (pos 90)) (field "verbose" (bool true) end))))
      >>= λ answer. get_in answer "data" empty_obj >>= λ data_part. json_dict (
          ("ip", ok (str ip))
          ∷ ("abuse_score", get_in data_part "abuseConfidenceScore" zero_value)
          ∷ ("country", get_in data_part "countryCode" (str ""))
          ∷ ("isp", get_in data_part "isp" (str ""))
          ∷ ("total_reports", get_in data_part "totalReports" zero_value)
          ∷ ("is_tor", get_in data_part "isTor" (bool false))
          ∷ ("source", ok (str "abuseipdb"))
          ∷ [])

  abbrev pub virustotal_ip : String → Result Value
  virustotal_ip ip =
      w.fetch (get_request (cat "https://www.virustotal.com/api/v3/ip_addresses/" ip) end)
      >>= λ answer. get_path answer ("data" ∷ "attributes" ∷ []) empty_obj >>= λ attrs.
          get_in attrs "last_analysis_stats" empty_obj >>= λ stats. json_dict (
            ("ip", ok (str ip))
            ∷ (
              "abuse_score",
              get_in stats "malicious" zero_value >>= λ malicious. score malicious stats,
            )
            ∷ ("country", get_in attrs "country" (str ""))
            ∷ ("isp", get_in attrs "as_owner" (str ""))
            ∷ ("total_reports", get_in stats "malicious" zero_value)
            ∷ ("is_tor", ok (bool false))
            ∷ ("source", ok (str "virustotal"))
            ∷ [])

  abbrev pub no_ip_source : String → Value
  no_ip_source ip = obj (
      field "ip" (str ip)
        (field "error" (str "no API key configured") (field "source" (str "none") end)))

  abbrev pub ip_reputation : String → Result Value
  ip_reputation ip =
      if not (setting w "ABUSE_IPDB_KEY" == "")
      then abuseipdb ip
      else if not (setting w "VT_API_KEY" == "")
      then virustotal_ip ip
      else ok (no_ip_source ip)

  abbrev pub ip_geo : String → Result Value
  ip_geo ip = w.fetch (get_request (cat "https://ipinfo.io/" (cat ip "/json")) end) >>= λ d.
      json_dict (
        ("ip", ok (str ip))
        ∷ ("city", get_in d "city" (str ""))
        ∷ ("region", get_in d "region" (str ""))
        ∷ ("country", get_in d "country" (str ""))
        ∷ ("org", get_in d "org" (str ""))
        ∷ ("timezone", get_in d "timezone" (str ""))
        ∷ ("loc", get_in d "loc" (str ""))
        ∷ [])

  abbrev pub securitytrails : String → Result Value
  securitytrails domain =
      w.fetch (get_request (cat "https://api.securitytrails.com/v1/domain/" domain) end) >>= λ d.
      get_in d "alexa_rank" null >>= λ alexa. json_dict (
        ("domain", ok (str domain))
        ∷ ("registrar", get_in d "registrar" (str ""))
        ∷ ("created", get_in d "created" (str ""))
        ∷ ("expires", get_in d "expires" (str ""))
        ∷ ("name_servers", get_path d ("current_dns" ∷ "ns" ∷ "values" ∷ []) (arr no_items))
        ∷ ("categories", get_in d "tags" (arr no_items))
        ∷ ("alexa_rank", ok alexa)
        ∷ ("source", ok (str "securitytrails"))
        ∷ [])

  abbrev pub domain_context : String → Result Value
  domain_context domain =
      if not (setting w "SECURITYTRAILS_API_KEY" == "")
      then securitytrails domain
      else ok (failure "domain" domain "SECURITYTRAILS_API_KEY not set")

  -- `v[:5]`
  abbrev pub first_five : Value → Result Value
  first_five (arr vs) = ok (arr (take_items 5 vs))
  first_five (str s) = ok (str (take_chars 5 s))
  first_five _ = raised type_error

  abbrev pub virustotal_file : String → Result Value
  virustotal_file sha256 =
      w.fetch (get_request (cat "https://www.virustotal.com/api/v3/files/" sha256) end)
      >>= λ answer. get_path answer ("data" ∷ "attributes" ∷ []) empty_obj >>= λ attrs.
          get_in attrs "last_analysis_stats" empty_obj >>= λ stats. json_dict (
            ("sha256", ok (str sha256))
            ∷ ("malicious", get_in stats "malicious" zero_value)
            ∷ ("suspicious", get_in stats "suspicious" zero_value)
            ∷ ("harmless", get_in stats "harmless" zero_value)
            ∷ ("undetected", get_in stats "undetected" zero_value)
            ∷ ("names", get_in attrs "names" (arr no_items) >>= λ names. first_five names)
            ∷ ("tags", get_in attrs "tags" (arr no_items))
            ∷ ("type_description", get_in attrs "type_description" (str ""))
            ∷ ("source", ok (str "virustotal"))
            ∷ [])

  abbrev pub file_hash : String → Result Value
  file_hash sha256 =
      if setting w "VT_API_KEY" == ""
      then ok (failure "sha256" sha256 "VT_API_KEY not set")
      else virustotal_file sha256

  module _ (describe : Error → String) where
    unfoldable pub lookup_ip_reputation : String → Value
    unfolding ◌>>=◌ get_in get_path
    lookup_ip_reputation ip = or_failure describe "ip" ip (ip_reputation ip)

    unfoldable pub lookup_ip_geo : String → Value
    unfolding ◌>>=◌ get_in get_path
    lookup_ip_geo ip = or_failure describe "ip" ip (ip_geo ip)

    unfoldable pub lookup_domain : String → Value
    unfolding ◌>>=◌ get_in get_path
    lookup_domain domain = or_failure describe "domain" domain (domain_context domain)

    unfoldable pub lookup_file_hash : String → Value
    unfolding ◌>>=◌ get_in get_path
    lookup_file_hash sha256 = or_failure describe "sha256" sha256 (file_hash sha256)
