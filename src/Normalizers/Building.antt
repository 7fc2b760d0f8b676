-- ===== src/Normalizers/Building.antt =====
-- Validation and the construction of the models by the normalizers.
pub mod Sample
use tengen.Normalizers.Reading.{◌>>=◌}
use tengen.Prelude.{
  String, Bool, Option, none, some, List, [], ◌∷◌, Result, ok, raised, value_error, ◌≡◌,
}
use tengen.Value.{Value, Fields, ℤ, str, int, null}
use tengen.Models.Alert.{AlertSeverity}
use tengen.Models.NormalizedEvent.{
  LogSourceType, Outcome, ActorContext, TargetContext, NetworkContext, NormalizedEvent,
}

-- What the normalizers take from outside: pydantic's validation of the fields of type `str` and
-- `int`, which accept a text and an integer as they are; `str` of a value that is no text, `int` of
-- a text, and the text of `uuid4`.
pub record Environment : Type 0 where
  pub text_field : Value → Option String
  pub accepts_text : (s : String) → text_field (str s) ≡ some s
  pub count_field : Value → Option ℤ
  pub accepts_int : (z : ℤ) → count_field (int z) ≡ some z
  pub show : Value → String
  pub int_of_text : String → Result ℤ
  pub new_id : String

-- `ValidationError` is a `ValueError`.
abbrev pub valid {ℓ} : {A : Type ℓ} → Option A → Result A
valid none = raised value_error
valid (some a) = ok a

-- The arguments of `NetworkContext(…)`
pub record NetworkArgs : Type 0 where
  pub src_ip : Value
  pub dst_ip : Value
  pub src_port : Value
  pub dst_port : Value
  pub protocol : Value
  pub user_agent : Value
  pub bytes_in : Value
  pub bytes_out : Value

abbrev pub network_defaults : NetworkArgs
network_defaults = record {
  src_ip = str "";
  dst_ip = str "";
  src_port = null;
  dst_port = null;
  protocol = str "";
  user_agent = str "";
  bytes_in = null;
  bytes_out = null;
}

-- The arguments of `NormalizedEvent(…)`: the models are built, the rest is to be validated.
pub record EventArgs : Type 0 where
  pub event_id : Value
  pub timestamp : Value
  pub source_type : LogSourceType
  pub log_type : Value
  pub actor : ActorContext
  pub target : TargetContext
  pub network : NetworkContext
  pub outcome : Outcome
  pub event_name : Value
  pub severity : AlertSeverity
  pub raw_event : Fields
  pub tags : List Value

module _ (env : Environment) where
  abbrev pub text_arg : Value → Result String
  text_arg v = valid (env.text_field v)

  -- A field of type `int | None`
  abbrev pub count_arg : Value → Result (Option ℤ)
  count_arg null = ok none
  count_arg v = valid (env.count_field v) >>= λ z. ok (some z)

  abbrev pub text_args : List Value → Result (List String)
  text_args [] = ok []
  text_args (v ∷ vs) = text_arg v >>= λ s. text_args vs >>= λ ss. ok (s ∷ ss)

  -- `ActorContext(identity=…, identity_type=…, account_id=…, is_privileged=…)`
  abbrev pub make_actor : Value → Value → Value → Bool → Result ActorContext
  make_actor identity identity_type account_id is_privileged = text_arg identity >>= λ i.
      text_arg identity_type >>= λ t. text_arg account_id >>= λ a.
      ok (record { identity = i; identity_type = t; account_id = a; is_privileged = is_privileged })

  -- `TargetContext(resource_name=…, resource_type=…, region=…, namespace=…)`
  abbrev pub make_target : Value → Value → Value → Value → Result TargetContext
  make_target resource_name resource_type region namespace = text_arg resource_name >>= λ n.
      text_arg resource_type >>= λ t. text_arg region >>= λ r. text_arg namespace >>= λ s.
      ok (record { resource_name = n; resource_type = t; region = r; namespace = s })

  abbrev pub make_network : NetworkArgs → Result NetworkContext
  make_network a = do
    src_ip ← text_arg a.src_ip
    dst_ip ← text_arg a.dst_ip
    src_port ← count_arg a.src_port
    dst_port ← count_arg a.dst_port
    protocol ← text_arg a.protocol
    user_agent ← text_arg a.user_agent
    bytes_in ← count_arg a.bytes_in
    bytes_out ← count_arg a.bytes_out
    ok (record {
      src_ip = src_ip;
      dst_ip = dst_ip;
      src_port = src_port;
      dst_port = dst_port;
      protocol = protocol;
      user_agent = user_agent;
      bytes_in = bytes_in;
      bytes_out = bytes_out;
    })

  unfoldable pub make_event : EventArgs → Result NormalizedEvent
  make_event a = do
    event_id ← text_arg a.event_id
    timestamp ← text_arg a.timestamp
    log_type ← text_arg a.log_type
    event_name ← text_arg a.event_name
    tags ← text_args a.tags
    ok (record {
      event_id = event_id;
      timestamp = timestamp;
      source_type = a.source_type;
      log_type = log_type;
      actor = a.actor;
      target = a.target;
      network = a.network;
      outcome = a.outcome;
      event_name = event_name;
      severity = a.severity;
      raw_event = a.raw_event;
      tags = tags;
      labels = [];
      vendor_name = "";
      product_name = "";
      udm_event_type = none;
    })
