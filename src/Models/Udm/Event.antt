-- ===== src/Models/Udm/Event.antt =====
-- The parts of an event in models/udm.py, and the event.
use tengen.Prelude.{String, Option, none, List, [], Dict, ℕ}
use tengen.Value.{Fields, end, ℤ}
use tengen.Models.Udm.Enums.{UdmEventType, UdmSeverity, UdmSecurityAction, NetworkDirection}
use tengen.Models.Udm.Nouns.{Noun, empty_noun}

-- A `datetime` with or without a time zone, in microseconds of its own clock or of UTC.
pub data Datetime : Type 0 where
  naive aware : ℕ → Datetime

pub record NetworkHttp : Type 0 where
  pub method : String
  pub user_agent : String
  pub response_code : Option ℤ
  pub referral_url : String

abbrev pub empty_network_http : NetworkHttp
empty_network_http = record {
  method = "";
  user_agent = "";
  response_code = none;
  referral_url = "";
}

pub record Network : Type 0 where
  pub ip_protocol : String
  pub direction : NetworkDirection
  pub application_protocol : String
  pub session_id : String
  pub sent_bytes : Option ℤ
  pub received_bytes : Option ℤ
  pub http : Option NetworkHttp

abbrev pub empty_network : Network
empty_network = record {
  ip_protocol = "";
  direction = NetworkDirection.unknown_direction;
  application_protocol = "";
  session_id = "";
  sent_bytes = none;
  received_bytes = none;
  http = none;
}

pub record SecurityResult : Type 0 where
  pub action : List UdmSecurityAction
  pub category : String
  pub severity : UdmSeverity
  pub severity_details : String
  pub rule_name : String
  pub rule_id : String
  pub threat_name : String
  pub description : String
  pub summary : String
  pub confidence : String
  pub priority : String
  pub alert_state : String
  pub rule_labels : Dict String

abbrev pub empty_security_result : SecurityResult
empty_security_result = record {
  action = [];
  category = "";
  severity = UdmSeverity.unknown_severity;
  severity_details = "";
  rule_name = "";
  rule_id = "";
  threat_name = "";
  description = "";
  summary = "";
  confidence = "";
  priority = "";
  alert_state = "";
  rule_labels = [];
}

pub record Metadata : Type 0 where
  pub event_timestamp : Option Datetime
  pub collected_timestamp : Option Datetime
  pub ingested_timestamp : Option Datetime
  pub event_type : UdmEventType
  pub product_event_type : String
  pub product_name : String
  pub vendor_name : String
  pub product_version : String
  pub product_log_id : String
  pub log_type : String
  pub description : String
  pub url_back_to_product : String
  pub id : String

abbrev pub empty_metadata : Metadata
empty_metadata = record {
  event_timestamp = none;
  collected_timestamp = none;
  ingested_timestamp = none;
  event_type = UdmEventType.generic_event;
  product_event_type = "";
  product_name = "";
  vendor_name = "";
  product_version = "";
  product_log_id = "";
  log_type = "";
  description = "";
  url_back_to_product = "";
  id = "";
}

pub record UdmEvent : Type 0 where
  pub metadata : Metadata
  pub principal : Noun
  pub src : Option Noun
  pub target : Option Noun
  pub intermediary : List Noun
  pub observer : Option Noun
  pub about : List Noun
  pub network : Option Network
  pub security_result : List SecurityResult
  pub additional : Fields

abbrev pub empty_udm_event : UdmEvent
empty_udm_event = record {
  metadata = empty_metadata;
  principal = empty_noun;
  src = none;
  target = none;
  intermediary = [];
  observer = none;
  about = [];
  network = none;
  security_result = [];
  additional = end;
}
