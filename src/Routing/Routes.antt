-- ===== src/Routing/Routes.antt =====
-- routing/routes: the matchers, and their registration in the order in which
-- routing/routes/__init__.py imports them. `show` is `str()` on a value that is no text.
pub mod Azure
pub mod Loading
use tengen.Prelude.{
  String, Bool, true, false, none, some, List, [], ◌∷◌, ◌&&◌, ◌||◌, Result, ok, raised, not, ◌>>=◌,
  if◌then◌else◌, map,
}
use tengen.Value.{
  Value, Fields, obj, str, null, field, end, get?, get, has, text, truthy, get_in, holds, is_text,
  is_one_of, to_text, empty_obj, is_null, is_str,
}
use tengen.Text.{ends_with, contains, begins, lower}
use tengen.Routing.Registry.{Route, Registry}
use tengen.Queue.Publisher.{
  queue_runbook_cloudtrail, queue_runbook_gcp_event_audit, queue_runbook_guardduty,
  queue_runbook_azure_activity, queue_runbook_k8s, queue_runbook_firewall,
  queue_runbook_crowdstrike, queue_runbook_eks,
}

-- `a or b`, where `b` is evaluated, and may raise, only if `a` is false
abbrev pub or_else : Bool → Result Bool → Result Bool
or_else true r = ok true
or_else false r = r

-- `isinstance(v, str) and v.endswith(suffix)`
abbrev text_ends_with : Value → String → Bool
text_ends_with (str s) suffix = ends_with s suffix
text_ends_with _ suffix = false

-- routes/cloud/aws/cloudtrail.py
unfoldable pub matches_cloudtrail : Fields → Result Bool
unfolding get ends_with
matches_cloudtrail raw = ok (
    text_ends_with (get "eventSource" null raw) ".amazonaws.com"
    && is_str (get "eventVersion" null raw))

module _ (show : Value → String) where
  -- routes/cloud/aws/eks.py
  unfoldable pub matches_eks : Fields → Result Bool
  unfolding get get_in contains to_text is_text truthy
  matches_eks raw =
      let annotations = get "annotations" empty_obj raw in
      or_else (contains (to_text show (get "apiVersion" (str "") raw)) "kubernetes.io") (
        or_else (is_text (get "sourceIPAddress" (str "") raw) "eks.amazonaws.com") do
          compute ← get_in annotations "eks.amazonaws.com/compute-type" null
          ok (truthy compute))

  -- routes/cloud/azure/activity.py
  unfoldable pub matches_azure : Fields → Result Bool
  unfolding get get_in contains to_text begins lower text
  matches_azure raw = do
    provider ← text (get "resourceProvider" (str "") raw)
    or_else (begins provider "Microsoft.") (
        or_else (contains (lower (to_text show (get "tenantId" (str "") raw))) "azure") do
          operation ← get_in (get "operationName" empty_obj raw) "value" (str "")
          name ← text operation
          ok (begins name "Microsoft."))

  -- routes/edr/crowdstrike.py
  unfoldable pub matches_crowdstrike : Fields → Result Bool
  unfolding get contains to_text is_one_of get?
  matches_crowdstrike raw = ok (
      contains (to_text show (get "Behaviors" (str "") raw)) "FalconHostLink"
      || not (is_null (get "DetectName" null raw))
      || is_one_of (get "event_type" null raw)
          ("DetectionSummaryEvent" ∷ "EppDetectionSummaryEvent" ∷ []))

-- routes/cloud/aws/guardduty.py
unfoldable pub matches_guardduty : Fields → Result Bool
unfolding get has holds is_text
matches_guardduty raw =
    if is_text (get "detail-type" null raw) "GuardDuty Finding" && has "detail" raw
    then holds "type" (get "detail" empty_obj raw)
    else ok false

-- routes/cloud/gcp/event_audit.py
unfoldable pub matches_gcp : Fields → Result Bool
unfolding get holds
matches_gcp raw = holds "cloudaudit.googleapis.com" (get "logName" (str "") raw)

-- routes/k8s/audit.py
unfoldable pub matches_k8s : Fields → Result Bool
unfolding get has is_one_of
matches_k8s raw = ok (
    is_one_of (get "apiVersion" null raw) ("audit.k8s.io/v1" ∷ "audit.k8s.io/v1beta1" ∷ [])
    || has "requestURI" raw && has "userAgent" raw && has "objectRef" raw)

-- routes/network/firewall.py
unfoldable pub matches_firewall : Fields → Result Bool
unfolding get is_one_of
matches_firewall raw = ok (
    is_one_of (get "action" null raw) ("DENY" ∷ "DROP" ∷ "BLOCK" ∷ "REJECT" ∷ [])
    || is_one_of (get "log_type" null raw) ("firewall_deny" ∷ "ddos_flow" ∷ "pcap_summary" ∷ [])
    || is_one_of (get "flags" null raw) ("SYN" ∷ "RST" ∷ "FIN,ACK" ∷ []))

abbrev pub cloudtrail_route : Route
cloudtrail_route = record {
  name = "cloud.aws.cloudtrail";
  queue = queue_runbook_cloudtrail;
  matcher = matches_cloudtrail;
  description = "AWS CloudTrail API activity and console login events";
}

abbrev eks_route : (Value → String) → Route
eks_route show = record {
  name = "cloud.aws.eks";
  queue = queue_runbook_eks;
  matcher = matches_eks show;
  description = "AWS EKS cluster audit events";
}

abbrev guardduty_route : Route
guardduty_route = record {
  name = "cloud.aws.guardduty";
  queue = queue_runbook_guardduty;
  matcher = matches_guardduty;
  description = "AWS GuardDuty threat detection findings";
}

abbrev gcp_route : Route
gcp_route = record {
  name = "cloud.gcp.event_audit";
  queue = queue_runbook_gcp_event_audit;
  matcher = matches_gcp;
  description = "GCP Cloud Audit Log events (admin activity, data access)";
}

abbrev azure_route : (Value → String) → Route
azure_route show = record {
  name = "cloud.azure.activity";
  queue = queue_runbook_azure_activity;
  matcher = matches_azure show;
  description = "Azure Activity Log / ARM audit events";
}

abbrev crowdstrike_route : (Value → String) → Route
crowdstrike_route show = record {
  name = "edr.crowdstrike";
  queue = queue_runbook_crowdstrike;
  matcher = matches_crowdstrike show;
  description = "CrowdStrike Falcon detection and alert events";
}

abbrev k8s_route : Route
k8s_route = record {
  name = "k8s.audit";
  queue = queue_runbook_k8s;
  matcher = matches_k8s;
  description = "Kubernetes API server audit log events";
}

abbrev pub firewall_route : Route
firewall_route = record {
  name = "network.firewall";
  queue = queue_runbook_firewall;
  matcher = matches_firewall;
  description = "Firewall deny logs, DDoS flow records, and PCAP summaries";
}

-- The routes in the order of their registration
abbrev pub routes : (Value → String) → List Route
routes show =
    cloudtrail_route
    ∷ eks_route show
    ∷ guardduty_route
    ∷ gcp_route
    ∷ azure_route show
    ∷ crowdstrike_route show
    ∷ k8s_route
    ∷ firewall_route
    ∷ []

-- The registry once all route modules are imported
abbrev named : Route → String × Route
named route = (route.name, route)

abbrev pub loaded : (Value → String) → Registry
loaded show = map named (routes show)
