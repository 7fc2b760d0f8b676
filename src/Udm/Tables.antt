-- ===== src/Udm/Tables.antt =====
-- The tables of udm/mappings.py: CONSUMED_PATHS, which lists the paths that no observation is made
-- of, and the rules of suggestion.
use tengen.Prelude.{String, List, [], ◌∷◌, Dict}
use tengen.Models.NormalizedEvent.{LogSourceType}

abbrev k8s_paths : List String
k8s_paths =
    "apiVersion" ∷ "verb" ∷ "userAgent" ∷ "requestReceivedTimestamp" ∷ "stageTimestamp"
    ∷ "user.username" ∷ "objectRef.name" ∷ "objectRef.resource" ∷ "objectRef.namespace"
    ∷ "sourceIPs[]" ∷ "responseStatus.code" ∷ []

unfoldable pub consumed_paths : LogSourceType → List String
consumed_paths LogSourceType.k8s = k8s_paths
consumed_paths LogSourceType.aws =
    "eventID" ∷ "eventTime" ∷ "eventName" ∷ "eventVersion" ∷ "eventSource" ∷ "awsRegion"
    ∷ "sourceIPAddress" ∷ "userAgent" ∷ "errorCode" ∷ "userIdentity.arn" ∷ "userIdentity.accountId"
    ∷ "userIdentity.type" ∷ "userIdentity.userName" ∷ "resources[].ARN" ∷ "resources[].resourceName"
    ∷ "resources[].type" ∷ []
consumed_paths LogSourceType.gcp =
    "logName" ∷ "timestamp" ∷ "severity" ∷ "protoPayload.authenticationInfo.principalEmail"
    ∷ "protoPayload.requestMetadata.callerIp"
    ∷ "protoPayload.requestMetadata.callerSuppliedUserAgent" ∷ "protoPayload.resourceName"
    ∷ "protoPayload.methodName" ∷ "protoPayload.status.code" ∷ "resource.type"
    ∷ "resource.labels.project_id" ∷ []
consumed_paths LogSourceType.azure =
    "tenantId" ∷ "eventTimestamp" ∷ "time" ∷ "caller" ∷ "subscriptionId" ∷ "resourceId"
    ∷ "resourceProvider" ∷ "resourceProvider.value" ∷ "operationName" ∷ "operationName.value"
    ∷ "status" ∷ "status.value" ∷ "httpRequest.clientIpAddress" ∷ "level" ∷ []
consumed_paths LogSourceType.crowdstrike =
    "event_type" ∷ "CreatedTimestamp" ∷ "ProcessStartTime" ∷ "CustomerIdentifier"
    ∷ "DeviceDetails.Hostname" ∷ "Hostname" ∷ "LocalIP" ∷ "ExternalIP" ∷ "MaxSeverity"
    ∷ "DetectName" ∷ "Behaviors[].UserName" ∷ "Behaviors[].Technique" ∷ "Behaviors[].Tactic" ∷ []
consumed_paths LogSourceType.firewall =
    "timestamp" ∷ "time" ∷ "log_type" ∷ "src_ip" ∷ "dst_ip" ∷ "src_port" ∷ "dst_port" ∷ "protocol"
    ∷ "bytes_in" ∷ "bytes_out" ∷ "action" ∷ "interface" ∷ []
consumed_paths LogSourceType.ddos =
    "timestamp" ∷ "start_time" ∷ "src_ip" ∷ "top_src_ip" ∷ "dst_ip" ∷ "target_ip" ∷ "dst_port"
    ∷ "protocol" ∷ "bytes_received" ∷ "attack_type" ∷ "attack_vector" ∷ "packets_per_second" ∷ []
consumed_paths LogSourceType.openshift = k8s_paths
consumed_paths LogSourceType.unknown = []

abbrev pub rules : Dict String
rules =
    ("useragent", "network.http.user_agent")
    ∷ ("user_agent", "network.http.user_agent")
    ∷ ("httpmethod", "network.http.method")
    ∷ ("responsecode", "network.http.response_code")
    ∷ ("statuscode", "network.http.response_code")
    ∷ ("referer", "network.http.referral_url")
    ∷ ("referral", "network.http.referral_url")
    ∷ ("commandline", "principal.process.command_line")
    ∷ ("command_line", "principal.process.command_line")
    ∷ ("cmdline", "principal.process.command_line")
    ∷ ("parentprocess", "principal.process.parent_pid")
    ∷ ("processid", "principal.process.pid")
    ∷ ("pid", "principal.process.pid")
    ∷ ("process", "principal.process.command_line")
    ∷ ("sha256", "principal.file.sha256")
    ∷ ("sha1", "principal.file.sha1")
    ∷ ("md5", "principal.file.md5")
    ∷ ("filepath", "principal.file.full_path")
    ∷ ("filename", "principal.file.full_path")
    ∷ ("file", "principal.file.full_path")
    ∷ ("registry", "principal.registry.registry_key")
    ∷ ("hostname", "principal.hostname")
    ∷ ("host", "principal.hostname")
    ∷ ("computer", "principal.hostname")
    ∷ ("device", "principal.hostname")
    ∷ ("mac", "principal.mac")
    ∷ ("namespace", "target.namespace")
    ∷ ("emailaddress", "principal.user.email_addresses")
    ∷ ("email", "principal.user.email_addresses")
    ∷ ("username", "principal.user.userid")
    ∷ ("userid", "principal.user.userid")
    ∷ ("principal", "principal.user.userid")
    ∷ ("caller", "principal.user.userid")
    ∷ ("actor", "principal.user.userid")
    ∷ ("subject", "principal.user.userid")
    ∷ ("user", "principal.user.userid")
    ∷ ("availabilityzone", "principal.cloud.availability_zone")
    ∷ ("zone", "principal.cloud.availability_zone")
    ∷ ("project", "principal.cloud.project_id")
    ∷ ("subscription", "principal.cloud.project_id")
    ∷ ("tenant", "principal.administrative_domain")
    ∷ ("account", "principal.administrative_domain")
    ∷ ("org", "principal.administrative_domain")
    ∷ ("customer", "principal.administrative_domain")
    ∷ ("country", "principal.location.country_or_region")
    ∷ ("city", "principal.location.city")
    ∷ ("region", "principal.location.name")
    ∷ ("location", "principal.location.name")
    ∷ ("bucket", "target.resource.name")
    ∷ ("arn", "target.resource.name")
    ∷ ("resourcetype", "target.resource.resource_type")
    ∷ ("resource", "target.resource.name")
    ∷ ("domain", "principal.domain")
    ∷ ("url", "principal.url")
    ∷ ("dstport", "target.port")
    ∷ ("destport", "target.port")
    ∷ ("srcport", "src.port")
    ∷ ("sourceport", "src.port")
    ∷ ("port", "target.port")
    ∷ ("protocol", "network.ip_protocol")
    ∷ ("proto", "network.ip_protocol")
    ∷ ("bytesout", "network.sent_bytes")
    ∷ ("bytessent", "network.sent_bytes")
    ∷ ("bytesin", "network.received_bytes")
    ∷ ("bytesreceived", "network.received_bytes")
    ∷ ("bytes", "network.sent_bytes")
    ∷ ("severity", "security_result.severity")
    ∷ ("score", "security_result.severity")
    ∷ ("threat", "security_result.threat_name")
    ∷ ("signature", "security_result.rule_name")
    ∷ ("rulename", "security_result.rule_name")
    ∷ ("ruleid", "security_result.rule_id")
    ∷ ("rule", "security_result.rule_name")
    ∷ ("category", "security_result.category")
    ∷ ("tactic", "security_result.category")
    ∷ ("technique", "security_result.rule_name")
    ∷ ("detection", "security_result.rule_name")
    ∷ ("confidence", "security_result.confidence")
    ∷ ("priority", "security_result.priority")
    ∷ ("timestamp", "metadata.event_timestamp")
    ∷ ("time", "metadata.event_timestamp")
    ∷ ("date", "metadata.event_timestamp")
    ∷ ("operationname", "metadata.product_event_type")
    ∷ ("operation", "metadata.product_event_type")
    ∷ ("methodname", "metadata.product_event_type")
    ∷ ("eventname", "metadata.product_event_type")
    ∷ ("action", "metadata.product_event_type")
    ∷ ("verb", "metadata.product_event_type")
    ∷ ("product", "metadata.product_name")
    ∷ ("vendor", "metadata.vendor_name")
    ∷ []
