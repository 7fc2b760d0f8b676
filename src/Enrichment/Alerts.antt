-- ===== src/Enrichment/Alerts.antt =====
-- tools/enrichment.py: `enrich_cloudtrail_alert` and `enrich_gcp_audit_alert`, of an alert's payload.
use tengen.Prelude.{[], ◌∷◌, Result, ◌>>=◌}
use tengen.Value.{Value, Fields, str, obj, arr, no_items, empty_obj, get_in}
use tengen.Agents.Json.{get_path, json_dict}

-- `getattr(alert, "raw_payload", None) or getattr(alert, "raw_event", {})` of an `Alert`, which has
-- no raw event
abbrev pub payload_of : Fields → Value
payload_of fs = obj fs

unfoldable pub enrich_cloudtrail_alert : Fields → Result Value
unfolding get_in get_path
enrich_cloudtrail_alert raw_payload =
    let event = payload_of raw_payload in
    json_dict (
      ("user_agent", get_in event "userAgent" (str ""))
      ∷ ("source_ip", get_in event "sourceIPAddress" (str ""))
      ∷ ("user_identity_type", get_path event ("userIdentity" ∷ "type" ∷ []) (str ""))
      ∷ ("user_arn", get_path event ("userIdentity" ∷ "arn" ∷ []) (str ""))
      ∷ ("error_code", get_in event "errorCode" (str ""))
      ∷ ("error_message", get_in event "errorMessage" (str ""))
      ∷ ("request_parameters", get_in event "requestParameters" empty_obj)
      ∷ [])

unfoldable pub enrich_gcp_audit_alert : Fields → Result Value
unfolding get_in get_path
enrich_gcp_audit_alert raw_payload =
    get_in (payload_of raw_payload) "protoPayload" empty_obj >>= λ payload. json_dict (
      ("caller_ip", get_path payload ("requestMetadata" ∷ "callerIp" ∷ []) (str ""))
      ∷ (
        "caller_user_agent",
        get_path payload ("requestMetadata" ∷ "callerSuppliedUserAgent" ∷ []) (str ""),
      )
      ∷ (
        "principal_email",
        get_path payload ("authenticationInfo" ∷ "principalEmail" ∷ []) (str ""),
      )
      ∷ ("service_name", get_in payload "serviceName" (str ""))
      ∷ ("resource_name", get_in payload "resourceName" (str ""))
      ∷ ("authorization_info", get_in payload "authorizationInfo" (arr no_items))
      ∷ [])
