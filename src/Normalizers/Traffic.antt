-- ===== src/Normalizers/Traffic.antt =====
-- tools/normalizers/firewall_normalizer.py and ddos_normalizer.py.
use tengen.Prelude.{false, [], ◌∷◌, Result, ok, if◌then◌else◌}
use tengen.Text.{lower}
use tengen.Value.{Value, Fields, str, null, get, text, int, pos}
use tengen.Models.Alert.{AlertSeverity, critical, high, medium}
use tengen.Models.NormalizedEvent.{Outcome, LogSourceType, NormalizedEvent}
use tengen.Normalizers.Reading.{◌>>=◌, above}
use tengen.Normalizers.Building.{
  Environment, make_actor, make_target, make_network, network_defaults, make_event,
}

unfoldable pub ddos_severity : Value → Result AlertSeverity
unfolding above
ddos_severity pps = above 100000 pps >>= λ flood.
    if flood then ok critical else above 10000 pps >>= λ heavy. ok (if heavy then high else medium)

module _ (env : Environment) where
  unfoldable pub normalize_firewall : Fields → Result NormalizedEvent
  unfolding get make_event
  normalize_firewall raw = do
    actor ← make_actor env (get "src_ip" (str "") raw) (str "NetworkEndpoint") (str "") false
    target ←
        make_target env (get "dst_ip" (str "") raw) (str "NetworkDestination") (str "") (str "")
    network ← make_network env (record {
      src_ip = get "src_ip" (str "") raw;
      dst_ip = get "dst_ip" (str "") raw;
      src_port = get "src_port" null raw;
      dst_port = get "dst_port" null raw;
      protocol = get "protocol" (str "") raw;
      user_agent = str "";
      bytes_in = get "bytes_in" null raw;
      bytes_out = get "bytes_out" null raw;
    })
    make_event env (record {
      event_id = str env.new_id;
      timestamp = get "timestamp" (get "time" (str "") raw) raw;
      source_type = LogSourceType.firewall;
      log_type = get "log_type" (str "firewall_deny") raw;
      actor = actor;
      target = target;
      network = network;
      outcome = Outcome.failure;
      event_name = get "action" (str "DENY") raw;
      severity = medium;
      raw_event = raw;
      tags = str "firewall" ∷ get "interface" (str "") raw ∷ [];
    })

  unfoldable pub normalize_ddos : Fields → Result NormalizedEvent
  unfolding get text lower ddos_severity make_event
  normalize_ddos raw = do
    severity ← ddos_severity (get "packets_per_second" (int (pos 0)) raw)
    actor ←
        make_actor env (get "src_ip" (get "top_src_ip" (str "") raw) raw) (str "NetworkAttacker")
          (str "") false
    target ←
        make_target env (get "dst_ip" (get "target_ip" (str "") raw) raw) (str "NetworkTarget")
          (str "") (str "")
    network ← make_network env (record network_defaults {
      src_ip = get "src_ip" (str "") raw;
      dst_ip = get "dst_ip" (str "") raw;
      dst_port = get "dst_port" null raw;
      protocol = get "protocol" (str "") raw;
      bytes_in = get "bytes_received" null raw;
    })
    vector ← text (get "attack_vector" (str "volumetric") raw)
    make_event env (record {
      event_id = str env.new_id;
      timestamp = get "timestamp" (get "start_time" (str "") raw) raw;
      source_type = LogSourceType.ddos;
      log_type = str "ddos_flow";
      actor = actor;
      target = target;
      network = network;
      outcome = Outcome.failure;
      event_name = get "attack_type" (str "DDoS") raw;
      severity = severity;
      raw_event = raw;
      tags = str "ddos" ∷ str (lower vector) ∷ [];
    })
