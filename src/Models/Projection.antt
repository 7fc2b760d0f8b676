-- ===== src/Models/Projection.antt =====
-- `to_udm` of models/normalized_event.py: an event in the unified data model. `fromisoformat` is
-- `datetime.fromisoformat`, with no result where it raises `ValueError`.
pub mod Parties
pub mod Traffic
pub mod Verdict
use tengen.Prelude.{
  String, Bool, true, false, ◌||◌, Option, none, some, List, [], ◌∷◌, ◌==◌, not, if◌then◌else◌,
  Dict, insert, is_some,
}
use tengen.Text.{cat, contains, ends_with, strip, but_last}
use tengen.Value.{Value, Fields, field, end, Items, item, no_items, str, arr}
use tengen.Models.Alert.{AlertSeverity}
use tengen.Models.NormalizedEvent.{
  LogSourceType, Outcome, outcome_value, NormalizedEvent, ActorContext, NetworkContext,
  TargetContext,
}
use tengen.Models.Udm.Enums.{UdmEventType, UdmSeverity, UdmSecurityAction}
use tengen.Models.Udm.Nouns.{
  User, empty_user, Resource, empty_resource, CloudContext, empty_cloud_context, Noun, empty_noun,
}
use tengen.Models.Udm.Event.{
  Datetime, NetworkHttp, empty_network_http, Network, empty_network, SecurityResult,
  empty_security_result, Metadata, empty_metadata, UdmEvent, empty_udm_event,
}

-- `_SOURCE_TO_VENDOR`
pub record Vendor : Type 0 where
  pub vendor_name : String
  pub product_name : String
  pub environment : String

unfoldable pub vendor_of : LogSourceType → Vendor
vendor_of LogSourceType.aws = record {
  vendor_name = "Amazon";
  product_name = "AWS CloudTrail";
  environment = "AMAZON_WEB_SERVICES";
}
vendor_of LogSourceType.gcp = record {
  vendor_name = "Google";
  product_name = "Google Cloud Audit Logs";
  environment = "GOOGLE_CLOUD_PLATFORM";
}
vendor_of LogSourceType.azure = record {
  vendor_name = "Microsoft";
  product_name = "Azure Activity Logs";
  environment = "MICROSOFT_AZURE";
}
vendor_of LogSourceType.crowdstrike = record {
  vendor_name = "CrowdStrike";
  product_name = "Falcon";
  environment = "";
}
vendor_of LogSourceType.firewall = record {
  vendor_name = "Generic";
  product_name = "Firewall";
  environment = "";
}
vendor_of LogSourceType.ddos = record {
  vendor_name = "Generic";
  product_name = "DDoS Detector";
  environment = "";
}
vendor_of LogSourceType.k8s = record {
  vendor_name = "Kubernetes";
  product_name = "Kubernetes Audit";
  environment = "";
}
vendor_of LogSourceType.openshift = record {
  vendor_name = "Red Hat";
  product_name = "OpenShift Audit";
  environment = "";
}
vendor_of LogSourceType.unknown = record {
  vendor_name = "Unknown";
  product_name = "Unknown";
  environment = "";
}

unfoldable pub udm_severity : AlertSeverity → UdmSeverity
udm_severity AlertSeverity.critical = UdmSeverity.critical
udm_severity AlertSeverity.high = UdmSeverity.high
udm_severity AlertSeverity.medium = UdmSeverity.medium
udm_severity AlertSeverity.low = UdmSeverity.low
udm_severity AlertSeverity.info = UdmSeverity.informational

unfoldable pub udm_action : Outcome → UdmSecurityAction
udm_action Outcome.success = UdmSecurityAction.allow
udm_action Outcome.failure = UdmSecurityAction.block
udm_action Outcome.unknown = UdmSecurityAction.unknown_action

-- `bool(s)`, `s or t`, and `[s] if s else []`
abbrev pub filled : String → Bool
filled s = not (s == "")

abbrev pub or_else : String → String → String
or_else s t = if filled s then s else t

abbrev pub at_most_one : String → List String
at_most_one s = if filled s then s ∷ [] else []

abbrev pub event_type_or : Option UdmEventType → UdmEventType
event_type_or none = UdmEventType.generic_event
event_type_or (some t) = t

unfoldable pub parse_timestamp : (String → Option Datetime) → String → Option Datetime
parse_timestamp fromisoformat value =
    let text = strip value in
    if value == ""
    then none
    else if ends_with text "Z"
    then fromisoformat (cat (but_last text) "+00:00")
    else fromisoformat text

unfoldable pub metadata_of : (String → Option Datetime) → NormalizedEvent → Metadata
unfolding vendor_of
metadata_of fromisoformat e = record empty_metadata {
  event_timestamp = parse_timestamp fromisoformat e.timestamp;
  event_type = event_type_or e.udm_event_type;
  product_event_type = e.event_name;
  vendor_name = or_else e.vendor_name (vendor_of e.source_type).vendor_name;
  product_name = or_else e.product_name (vendor_of e.source_type).product_name;
  log_type = e.log_type;
  id = e.event_id;
}

-- The labels of the principal: `{k: v for k, v in … if v}`
unfoldable pub kept : Dict String → Dict String
kept [] = []
kept ((k, v) ∷ d) = let rest = kept d in if filled v then (k, v) ∷ rest else rest

abbrev pub actor_labels : ActorContext → Dict String
actor_labels actor =
    ("identity_type", actor.identity_type)
    ∷ ("is_privileged", (if actor.is_privileged then "true" else ""))
    ∷ []

abbrev pub user_of : String → Option User
user_of identity =
    if filled identity
    then some (record empty_user {
      userid = identity;
      user_display_name = identity;
      email_addresses = if contains identity "@" then identity ∷ [] else [];
    })
    else none

abbrev pub cloud_of : String → String → Option CloudContext
cloud_of environment project =
    if filled environment
    then some (record empty_cloud_context { environment = environment; project_id = project })
    else none

unfoldable pub principal_of : NormalizedEvent → Noun
unfolding kept vendor_of
principal_of e = record empty_noun {
  administrative_domain = e.actor.account_id;
  ip = at_most_one e.network.src_ip;
  port = e.network.src_port;
  labels = kept (actor_labels e.actor);
  user = user_of e.actor.identity;
  cloud = cloud_of (vendor_of e.source_type).environment e.actor.account_id;
}

abbrev pub src_of : NetworkContext → Option Noun
src_of n =
    if filled n.src_ip
    then some (record empty_noun { ip = n.src_ip ∷ []; port = n.src_port })
    else none

abbrev pub has_target : NormalizedEvent → Bool
has_target e =
    filled e.target.resource_name
    || filled e.target.resource_type
    || filled e.target.namespace
    || filled e.network.dst_ip

abbrev pub resource_of : TargetContext → Option Resource
resource_of t =
    if filled t.resource_name || filled t.resource_type
    then some (record empty_resource { name = t.resource_name; resource_type = t.resource_type })
    else none

unfoldable pub target_noun : NormalizedEvent → Noun
unfolding vendor_of
target_noun e = record empty_noun {
  namespace = e.target.namespace;
  ip = at_most_one e.network.dst_ip;
  port = e.network.dst_port;
  resource = resource_of e.target;
  cloud = cloud_of (vendor_of e.source_type).environment "";
}

abbrev pub has_network : NetworkContext → Bool
has_network n =
    filled n.protocol || filled n.user_agent || is_some n.bytes_in || is_some n.bytes_out

abbrev pub http_of : String → Option NetworkHttp
http_of user_agent =
    if filled user_agent then some (record empty_network_http { user_agent = user_agent }) else none

unfoldable pub network_part : NetworkContext → Option Network
network_part n =
    if has_network n
    then some (record empty_network {
      ip_protocol = n.protocol;
      received_bytes = n.bytes_in;
      sent_bytes = n.bytes_out;
      http = http_of n.user_agent;
    })
    else none

-- `{"outcome": …, **labels}`
unfoldable pub merged : Dict String → Dict String → Dict String
merged d [] = d
merged d ((k, v) ∷ e) = merged (insert k v d) e

unfoldable pub security_result_of : NormalizedEvent → SecurityResult
unfolding merged udm_action udm_severity
security_result_of e = record empty_security_result {
  action = udm_action e.outcome ∷ [];
  severity = udm_severity e.severity;
  summary = e.event_name;
  rule_labels = merged (("outcome", outcome_value e.outcome) ∷ []) e.labels;
}

unfoldable pub text_items : List String → Items
text_items [] = no_items
text_items (t ∷ ts) = item (str t) (text_items ts)

abbrev pub tag_fields : List String → Fields
tag_fields [] = end
tag_fields (t ∷ ts) = field "tags" (arr (text_items (t ∷ ts))) end

unfoldable pub to_udm : (String → Option Datetime) → NormalizedEvent → UdmEvent
unfolding metadata_of principal_of target_noun network_part security_result_of text_items
to_udm fromisoformat e = record empty_udm_event {
  metadata = metadata_of fromisoformat e;
  principal = principal_of e;
  src = src_of e.network;
  target = if has_target e then some (target_noun e) else none;
  network = network_part e.network;
  security_result = security_result_of e ∷ [];
  additional = tag_fields e.tags;
}
