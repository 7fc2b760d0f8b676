-- ===== src/Enrichment/Names.antt =====
-- tools/enrichment.py: what every lookup answers, whatever the environment and the servers are.
use tengen.Prelude.{
  String, Bool, true, false, not, some, List, ◌∷◌, ◌≡◌, refl, inl, inr, Result, ok, raised,
  if◌then◌else◌, ◌==◌, arith, eq_refl, Error,
}
use tengen.Normalizers.Reading.{◌>>=◌, first_of}
use tengen.Normalizers.Sources.{OnOk, OnOk-bind, failed, returned}
use tengen.Text.{begins}
use tengen.Value.{end, Value, Fields, str, obj, field, get?, truthy}
use tengen.Agents.Json.{json_dict-first, json_dict}
use tengen.Enrichment.Requests.{World, setting, failure, or_failure}
use tengen.Enrichment.Reputation.{
  securitytrails, virustotal_file, ip_reputation, ip_geo, domain_context, file_hash,
  lookup_ip_reputation, lookup_ip_geo, lookup_domain, lookup_file_hash, abuseipdb, virustotal_ip,
  no_ip_source,
}
use tengen.Enrichment.Context.{
  no_asset_source, asset_context, aws_config, cmdb, config_item, lookup_asset_context,
}

-- A dictionary that names what was asked
abbrev pub Names : String → String → Value → Type 0
Names key id v = (fs : Fields) × (v ≡ obj fs) × (get? key fs ≡ some (str id))

first-Names : (key id : String) (fs : Fields) → Names key id (obj (field key (str id) fs))
unfolding get?
first-Names key id fs = (field key (str id) fs, refl, ground (arith, eq_refl key))

json_dict-Names :
    (key id : String) (es : List (String × Result Value))
    → OnOk (Names key id) (json_dict ((key, ok (str id)) ∷ es))
json_dict-Names key id es = elim (json_dict-first key (str id) es) [
  | inl (e, h) ↦ rw h (failed e)
  | inr (fs, h) ↦ rw h (returned (obj (field key (str id) fs)) (first-Names key id fs))
]

if-Names :
    (key id : String) (b : Bool) (x y : Result Value)
    → OnOk (Names key id) x
    → OnOk (Names key id) y
    → OnOk (Names key id) (if b then x else y)
if-Names key id true x y h k = h
if-Names key id false x y h k = k

failure-Names : (key id error : String) → OnOk (Names key id) (ok (failure key id error))
failure-Names key id error =
    returned (failure key id error) (first-Names key id (field "error" (str error) end))

or_failure-Names :
    (describe : Error → String) (key id : String) (r : Result Value)
    → OnOk (Names key id) r
    → Names key id (or_failure describe key id r)
or_failure-Names describe key id (raised e) h =
    first-Names key id (field "error" (str (describe e)) end)
or_failure-Names describe key id (ok v) (returned _ p) = p

module _ (w : World) (score : Value → Value → Result Value) where
  abuseipdb-Names : (ip : String) → OnOk (Names "ip" ip) (abuseipdb w score ip)
  abuseipdb-Names ip = OnOk-bind _ _ (λ answer. OnOk-bind _ _ (λ d. json_dict-Names "ip" ip _))

  virustotal_ip-Names : (ip : String) → OnOk (Names "ip" ip) (virustotal_ip w score ip)
  virustotal_ip-Names ip =
      OnOk-bind _ _
        (λ answer. OnOk-bind _ _ (λ attrs. OnOk-bind _ _ (λ stats. json_dict-Names "ip" ip _)))

  ip_reputation-Names : (ip : String) → OnOk (Names "ip" ip) (ip_reputation w score ip)
  ip_reputation-Names ip =
      if-Names "ip" ip (not (setting w "ABUSE_IPDB_KEY" == "")) (abuseipdb w score ip) _
        (abuseipdb-Names ip)
        (if-Names "ip" ip (not (setting w "VT_API_KEY" == "")) (virustotal_ip w score ip)
          (ok (no_ip_source w score ip)) (virustotal_ip-Names ip)
          (returned (no_ip_source w score ip) (first-Names "ip" ip _)))

  ip_geo-Names : (ip : String) → OnOk (Names "ip" ip) (ip_geo w score ip)
  ip_geo-Names ip = OnOk-bind _ _ (λ d. json_dict-Names "ip" ip _)

  securitytrails-Names :
      (domain : String) → OnOk (Names "domain" domain) (securitytrails w score domain)
  securitytrails-Names domain =
      OnOk-bind _ _ (λ d. OnOk-bind _ _ (λ alexa. json_dict-Names "domain" domain _))

  domain-Names : (domain : String) → OnOk (Names "domain" domain) (domain_context w score domain)
  domain-Names domain =
      if-Names "domain" domain (not (setting w "SECURITYTRAILS_API_KEY" == ""))
        (securitytrails w score domain)
        (ok (failure "domain" domain "SECURITYTRAILS_API_KEY not set"))
        (securitytrails-Names domain)
        (failure-Names "domain" domain "SECURITYTRAILS_API_KEY not set")

  virustotal_file-Names :
      (sha256 : String) → OnOk (Names "sha256" sha256) (virustotal_file w score sha256)
  virustotal_file-Names sha256 = OnOk-bind _ _ (λ answer.
      OnOk-bind _ _ (λ attrs. OnOk-bind _ _ (λ stats. json_dict-Names "sha256" sha256 _)))

  file_hash-Names : (sha256 : String) → OnOk (Names "sha256" sha256) (file_hash w score sha256)
  file_hash-Names sha256 =
      if-Names "sha256" sha256 (setting w "VT_API_KEY" == "")
        (ok (failure "sha256" sha256 "VT_API_KEY not set")) (virustotal_file w score sha256)
        (failure-Names "sha256" sha256 "VT_API_KEY not set") (virustotal_file-Names sha256)

  module _ (show : Value → String) (history : String → Result Value) where
    cmdb-Names : (id : String) → OnOk (Names "asset_id" id) (cmdb w show id)
    cmdb-Names id = OnOk-bind _ _ (λ d. json_dict-Names "asset_id" id _)

    item-Names :
        (id : String) (items : Value)
        → OnOk (Names "asset_id" id) (first_of items >>= λ entry. config_item w show id entry)
    item-Names id items = OnOk-bind _ _ (λ entry. json_dict-Names "asset_id" id _)

    aws_config-Names : (id : String) → OnOk (Names "asset_id" id) (aws_config w show history id)
    aws_config-Names id = OnOk-bind _ _ (λ answer. OnOk-bind _ _ (λ items.
        if-Names "asset_id" id (truthy items)
          (first_of items >>= λ entry. config_item w show id entry) (ok (no_asset_source w show id))
          (item-Names id items) (failure-Names "asset_id" id "no asset source configured")))

    asset_context-Names :
        (id : String) → OnOk (Names "asset_id" id) (asset_context w show history id)
    asset_context-Names id =
        if-Names "asset_id" id (not (setting w "CMDB_ENDPOINT" == "")) (cmdb w show id) _
          (cmdb-Names id)
          (if-Names "asset_id" id (begins id "arn:") (aws_config w show history id)
            (ok (no_asset_source w show id)) (aws_config-Names id)
            (failure-Names "asset_id" id "no asset source configured"))

  -- Whatever the environment holds and the servers answer or raise, each lookup of an address, a
  -- domain, a file or an asset returns a dictionary that names what was asked.
  pub lookups-Names :
      (show : Value → String) (history : String → Result Value) (describe : Error → String)
      (id : String)
      → Names "ip" id (lookup_ip_reputation w score describe id)
        × Names "ip" id (lookup_ip_geo w score describe id)
        × Names "domain" id (lookup_domain w score describe id)
        × Names "sha256" id (lookup_file_hash w score describe id)
        × Names "asset_id" id (lookup_asset_context w show history describe id)
  unfolding lookup_ip_reputation lookup_ip_geo lookup_domain lookup_file_hash lookup_asset_context
  lookups-Names show history describe id = (
    or_failure-Names describe "ip" id (ip_reputation w score id) (ip_reputation-Names id),
    or_failure-Names describe "ip" id (ip_geo w score id) (ip_geo-Names id),
    or_failure-Names describe "domain" id (domain_context w score id) (domain-Names id),
    or_failure-Names describe "sha256" id (file_hash w score id) (file_hash-Names id),
    or_failure-Names describe "asset_id" id (asset_context w show history id)
        (asset_context-Names show history id),
  )
