-- ===== src/Queue/Publisher.antt =====
-- queue/queues.py and queue/rabbitmq.py. A broker keeps what was published to each queue, in order,
-- and whether each of the next publications fails: `faults` is its schedule, none when it is over.
use tengen.Prelude.{
  String, Bool, true, false, List, [], ◌∷◌, ◌++◌, ok, raised, runtime_error, if◌then◌else◌, Done,
}
use tengen.Value.{Value}

abbrev pub queue_alerts : String
queue_alerts = "alerts"

abbrev pub queue_normalized : String
queue_normalized = "normalized"

abbrev pub queue_incidents : String
queue_incidents = "incidents"

abbrev pub queue_runbook_cloudtrail : String
queue_runbook_cloudtrail = "runbook.cloudtrail"

abbrev pub queue_runbook_guardduty : String
queue_runbook_guardduty = "runbook.guardduty"

abbrev pub queue_runbook_eks : String
queue_runbook_eks = "runbook.eks"

abbrev pub queue_runbook_gcp_event_audit : String
queue_runbook_gcp_event_audit = "runbook.gcp.event_audit"

abbrev pub queue_runbook_azure_activity : String
queue_runbook_azure_activity = "runbook.azure.activity"

abbrev pub queue_runbook_crowdstrike : String
queue_runbook_crowdstrike = "runbook.crowdstrike"

abbrev pub queue_runbook_k8s : String
queue_runbook_k8s = "runbook.k8s"

abbrev pub queue_runbook_firewall : String
queue_runbook_firewall = "runbook.firewall"

abbrev pub queue_runbook_test : String
queue_runbook_test = "runbook.test"

abbrev pub queue_enriched : String
queue_enriched = "enriched"

abbrev pub queue_dlq : String
queue_dlq = "alerts.dlq"

abbrev pub queue_metrics : String
queue_metrics = "tengen.metrics"

abbrev pub all_runbook_queues : List String
all_runbook_queues =
    queue_runbook_cloudtrail ∷ queue_runbook_guardduty ∷ queue_runbook_eks
    ∷ queue_runbook_gcp_event_audit ∷ queue_runbook_azure_activity ∷ queue_runbook_crowdstrike
    ∷ queue_runbook_k8s ∷ queue_runbook_firewall ∷ queue_runbook_test ∷ []

-- A message: the queue that it went to, and its body.
pub record Message : Type 0 where
  pub queue : String
  pub body : Value

-- The publisher, with the broker behind its channel. `connected` is `self._channel is not None`.
pub record Publisher : Type 0 where
  pub connected : Bool
  pub published : List Message
  pub faults : List Bool

-- `connect` and `disconnect`, with a broker that accepts the connection
unfoldable pub connect : Publisher → Publisher
connect p = record p { connected = true }

unfoldable pub disconnect : Publisher → Publisher
disconnect p = record p { connected = false }

-- The broker takes the message, or the call raises as the schedule says.
abbrev pub send : Message → List Bool → Publisher → Done × Publisher
send m [] p = (ok tt, record p { published = p.published ++ m ∷ [] })
send m (false ∷ faults) p = (ok tt, record p { published = p.published ++ m ∷ []; faults = faults })
send m (true ∷ faults) p = (raised runtime_error, record p { faults = faults })

unfoldable pub publish_to_queue : String → Value → Publisher → Done × Publisher
publish_to_queue queue body p =
    if p.connected
    then send (record { queue = queue; body = body }) p.faults p
    else (raised runtime_error, p)

-- `publish`: the queue of alerts is the default.
unfoldable pub publish : Value → Publisher → Done × Publisher
unfolding publish_to_queue
publish body p = publish_to_queue queue_alerts body p
