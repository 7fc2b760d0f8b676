-- ===== src/Models/Projection/Traffic.antt =====
-- The network context of an event, read off its projection.
use tengen.Prelude.{String, ◌≡◌, refl, Option, none, some, eq_iff, if◌then◌else◌, arith}
use tengen.Models.NormalizedEvent.{NormalizedEvent, NetworkContext}
use tengen.Models.Udm.Nouns.{Noun}
use tengen.Models.Udm.Event.{Datetime, NetworkHttp, Network, UdmEvent}
use tengen.Models.Projection.{to_udm, has_target, network_part, principal_of, target_noun}
use tengen.Models.Projection.Parties.{first_text, first-at_most_one}
use tengen.Value.{ℤ}

-- The ports and bytes that the nouns and the network show.
abbrev ip_of : Option Noun → String
ip_of none = ""
ip_of (some n) = first_text n.ip

abbrev port_of : Option Noun → Option ℤ
port_of none = none
port_of (some n) = n.port

abbrev agent_of : Option NetworkHttp → String
agent_of none = ""
agent_of (some h) = h.user_agent

abbrev network :
    String → String → Option ℤ → Option ℤ → String → String → Option ℤ → Option ℤ → NetworkContext
network src_ip dst_ip src_port dst_port protocol user_agent bytes_in bytes_out = record {
  src_ip = src_ip;
  dst_ip = dst_ip;
  src_port = src_port;
  dst_port = dst_port;
  protocol = protocol;
  user_agent = user_agent;
  bytes_in = bytes_in;
  bytes_out = bytes_out;
}

network-ext :
    {si sj di dj pr ps ua ub : String} {sp sq dp dq bi bj bo bp : Option ℤ}
    → si ≡ sj
    → di ≡ dj
    → sp ≡ sq
    → dp ≡ dq
    → pr ≡ ps
    → ua ≡ ub
    → bi ≡ bj
    → bo ≡ bp
    → network si di sp dp pr ua bi bo ≡ network sj dj sq dq ps ub bj bp
network-ext h1 h2 h3 h4 h5 h6 h7 h8 = cc

abbrev protocol_of : Option Network → String
protocol_of none = ""
protocol_of (some n) = n.ip_protocol

abbrev user_agent_of : Option Network → String
user_agent_of none = ""
user_agent_of (some n) = agent_of n.http

abbrev received : Option Network → Option ℤ
received none = none
received (some n) = n.received_bytes

abbrev sent : Option Network → Option ℤ
sent none = none
sent (some n) = n.sent_bytes

abbrev pub network_of : UdmEvent → NetworkContext
network_of u =
    network (first_text u.principal.ip) (ip_of u.target) u.principal.port (port_of u.target)
      (protocol_of u.network) (user_agent_of u.network) (received u.network) (sent u.network)

module _ (n : NetworkContext) where
  protocol_of-network_part : protocol_of (network_part n) ≡ n.protocol
  unfolding network_part
  protocol_of-network_part = ground (arith, eq_iff n.protocol "")

  user_agent_of-network_part : user_agent_of (network_part n) ≡ n.user_agent
  unfolding network_part
  user_agent_of-network_part = ground (arith, eq_iff n.user_agent "")

  received-network_part : received (network_part n) ≡ n.bytes_in
  unfolding network_part
  received-network_part = ground arith

  sent-network_part : sent (network_part n) ≡ n.bytes_out
  unfolding network_part
  sent-network_part = ground arith

abbrev target_part : NormalizedEvent → Option Noun
target_part e = if has_target e then some (target_noun e) else none

ip_of-target_part : (e : NormalizedEvent) → ip_of (target_part e) ≡ e.network.dst_ip
unfolding target_noun
ip_of-target_part e = ground (arith, eq_iff e.network.dst_ip "")

port_of-target_part :
    (e : NormalizedEvent)
    → port_of (target_part e) ≡ (if has_target e then e.network.dst_port else none)
unfolding target_noun
port_of-target_part e = ground arith

-- The network context can be read off the projected event, except for the destination port of an
-- event that names no target and no destination address.
pub network_of-to_udm :
    (fromisoformat : String → Option Datetime) (e : NormalizedEvent)
    → network_of (to_udm fromisoformat e)
      ≡ record e.network { dst_port = if has_target e then e.network.dst_port else none }
unfolding to_udm principal_of
network_of-to_udm fromisoformat e =
    network-ext (first-at_most_one e.network.src_ip) (ip_of-target_part e) refl
      (port_of-target_part e) (protocol_of-network_part e.network)
      (user_agent_of-network_part e.network) (received-network_part e.network)
      (sent-network_part e.network)
