-- ===== src/Models/NormalizedEvent/Sample.antt =====
-- A concrete event.
use tengen.Prelude.{String, true, none, some, []}
use tengen.Value.{end, pos}
use tengen.Models.Alert.{high}
use tengen.Models.NormalizedEvent.{NormalizedEvent, Outcome, LogSourceType}

-- An event of an actor
abbrev pub event_of : String → NormalizedEvent
event_of identity = record {
  event_id = "e1";
  timestamp = "2024-01-01T00:00:00+00:00";
  source_type = LogSourceType.k8s;
  log_type = "audit";
  actor = record {
    identity = identity;
    identity_type = "user";
    account_id = "";
    is_privileged = true;
  };
  target = record { resource_name = "pod"; resource_type = ""; region = ""; namespace = "" };
  network = record {
    src_ip = "10.0.0.1";
    dst_ip = "";
    src_port = none;
    dst_port = some (pos 443);
    protocol = "";
    user_agent = "";
    bytes_in = none;
    bytes_out = none;
  };
  outcome = Outcome.success;
  event_name = "create";
  severity = high;
  raw_event = end;
  tags = [];
  labels = [];
  vendor_name = "";
  product_name = "";
  udm_event_type = none;
}
