-- ===== src/Tools/Severities.antt =====
-- tools/alert_parser.py and tools/normalizers: the two readings of an event.
use tengen.Prelude.{
  String, [], ◌∷◌, ◌≡◌, refl, sym, ap, ◌∙◌, ◌⊎◌, inl, inr, Result, ok, ok-injective,
}
use tengen.Normalizers.Reading.{is_nonzero}
use tengen.Normalizers.Building.{Environment, EventArgs, make_event, text_arg, valid}
use tengen.Normalizers.Cloud.{
  failure_if, aws_severity, gcp_severity, gcp_level, normalize_aws, normalize_gcp,
}
use tengen.Normalizers.Registry.{normalize_as}
use tengen.Normalizers.Sources.{OnOk, OnOk-bind, OnOk-bind_known, returned, of-OnOk}
use tengen.Value.{null, Fields, Value, get, get_in, str, empty_obj, obj, bool, int, float, arr}
use tengen.Models.Alert.{Alert, AlertSeverity}
use tengen.Models.NormalizedEvent.{NormalizedEvent, LogSourceType}
use tengen.Consumers.Ingestion.{Stamp}
use tengen.Tools.AlertParser.{
  infer_aws_severity, infer_gcp_severity, parse_cloudtrail_event, parse_gcp_audit_event, validated,
}

-- What is read of a payload: its severity, the name of the event, and its time
pub record Reading : Type 0 where
  pub severity : Result AlertSeverity
  pub name : Result Value
  pub time : Value

abbrev aws_reading : Fields → Reading
aws_reading raw = record {
  severity = infer_aws_severity raw;
  name = ok (get "eventName" (str "Unknown") raw);
  time = get "eventTime" (str "") raw;
}

abbrev gcp_reading : Fields → Reading
gcp_reading raw = record {
  severity = infer_gcp_severity raw;
  name = get_in (get "protoPayload" empty_obj raw) "methodName" (str "Unknown");
  time = get "timestamp" (str "") raw;
}

-- The fields of a normalized event and of an alert are these, validated.
abbrev Tells : Environment → Reading → Fields → NormalizedEvent → Type 0
Tells env r raw e =
    (r.severity ≡ ok e.severity)
    × ((v : Value) × (r.name ≡ ok v) × (text_arg env v ≡ ok e.event_name))
    × (text_arg env r.time ≡ ok e.timestamp)
    × (e.raw_event ≡ raw)

abbrev Says : Reading → Fields → Alert → Type 0
Says r raw a =
    (r.severity ≡ ok a.severity)
    × ((v : Value) × (r.name ≡ ok v) × (validated v ≡ ok a.event_type))
    × (validated r.time ≡ ok a.timestamp)
    × (a.raw_payload ≡ raw)

make_event-Tells :
    (env : Environment) (a : EventArgs) (r : Reading)
    → r.severity ≡ ok a.severity
    → r.name ≡ ok a.event_name
    → r.time ≡ a.timestamp
    → OnOk (Tells env r a.raw_event) (make_event env a)
unfolding make_event
make_event-Tells env a r h k q = OnOk-bind _ _ (λ i. OnOk-bind_known _ _ (λ t ht.
    OnOk-bind _ _ (λ l. OnOk-bind_known _ _ (λ n hn.
      OnOk-bind _ _
        (λ ts. returned _ (h, (a.event_name, k, hn), ap (text_arg env) q ∙ ht, refl))))))

module _ (env : Environment) (raw : Fields) where
  normalize_aws-Tells : OnOk (Tells env (aws_reading raw) raw) (normalize_aws env raw)
  unfolding normalize_aws aws_severity infer_aws_severity
  normalize_aws-Tells = OnOk-bind _ _ (λ arn. OnOk-bind _ _ (λ account. OnOk-bind _ _ (λ t.
      OnOk-bind _ _ (λ p. OnOk-bind _ _ (λ first. OnOk-bind _ _ (λ name. OnOk-bind _ _ (λ actor.
        OnOk-bind _ _ (λ r. OnOk-bind _ _ (λ rn. OnOk-bind _ _ (λ rt. OnOk-bind _ _ (λ target.
          OnOk-bind _ _ (λ network.
            OnOk-bind_known _ _
              (λ s hs. make_event-Tells env _ (aws_reading raw) hs refl refl)))))))))))))

  normalize_gcp-Tells : OnOk (Tells env (gcp_reading raw) raw) (normalize_gcp env raw)
  unfolding normalize_gcp gcp_severity infer_gcp_severity gcp_level
  normalize_gcp-Tells = OnOk-bind _ _ (λ auth. OnOk-bind _ _ (λ meta. OnOk-bind _ _ (λ labels.
      OnOk-bind _ _ (λ email. OnOk-bind _ _ (λ service. OnOk-bind _ _ (λ project.
        OnOk-bind _ _ (λ actor. OnOk-bind _ _ (λ rn. OnOk-bind _ _ (λ rt. OnOk-bind _ _ (λ target.
          OnOk-bind _ _ (λ ip. OnOk-bind _ _ (λ agent. OnOk-bind _ _ (λ network.
            OnOk-bind _ _ (λ status. OnOk-bind _ _ (λ code. OnOk-bind_known _ _ (λ method hm.
              OnOk-bind_known _ _ (λ s hs.
                make_event-Tells env
                  (record {
                    event_id = str env.new_id;
                    timestamp = get "timestamp" (str "") raw;
                    source_type = LogSourceType.gcp;
                    log_type = str "gcp_audit";
                    actor = actor;
                    target = target;
                    network = network;
                    outcome = failure_if (is_nonzero code);
                    event_name = method;
                    severity = s;
                    raw_event = raw;
                    tags = str "gcp" ∷ str "audit" ∷ [];
                  })
                  (gcp_reading raw) hs hm refl)))))))))))))))))

module _ (stamp : Stamp) (raw : Fields) where
  parse_cloudtrail_event-Says : OnOk (Says (aws_reading raw) raw) (parse_cloudtrail_event stamp raw)
  unfolding parse_cloudtrail_event
  parse_cloudtrail_event-Says = OnOk-bind_known _ _ (λ severity hs. OnOk-bind _ _ (λ account.
      OnOk-bind_known _ _ (λ event_type he. OnOk-bind_known _ _ (λ timestamp ht.
        OnOk-bind _ _
          (λ account_id. OnOk-bind _ _ (λ region. returned _ (hs, (_, refl, he), ht, refl)))))))

  parse_gcp_audit_event-Says : OnOk (Says (gcp_reading raw) raw) (parse_gcp_audit_event stamp raw)
  unfolding parse_gcp_audit_event
  parse_gcp_audit_event-Says = OnOk-bind_known _ _ (λ severity hs. OnOk-bind_known _ _ (λ method hm.
      OnOk-bind _ _ (λ project. OnOk-bind_known _ _ (λ event_type he.
        OnOk-bind_known _ _ (λ timestamp ht.
          OnOk-bind _ _ (λ project_id. returned _ (hs, (method, hm, he), ht, refl)))))))

validated-text_arg :
    (env : Environment) (v : Value) (s t : String)
    → validated v ≡ ok s
    → text_arg env v ≡ ok t
    → s ≡ t
validated-text_arg env (str x) s t h k =
    sym (ok-injective h) ∙ ok-injective (sym (ap valid (env.accepts_text x)) ∙ k)
validated-text_arg env (bool _) s t h k = cc
validated-text_arg env (int _) s t h k = cc
validated-text_arg env (float _ _) s t h k = cc
validated-text_arg env (obj _) s t h k = cc
validated-text_arg env (arr _) s t h k = cc
validated-text_arg env null s t h k = cc

-- The alert and the event agree.
abbrev pub Agrees : Alert → NormalizedEvent → Type 0
Agrees a e =
    (a.severity ≡ e.severity)
    × (a.event_type ≡ e.event_name)
    × (a.timestamp ≡ e.timestamp)
    × (a.raw_payload ≡ e.raw_event)

Says-Tells :
    (env : Environment) (r : Reading) (raw : Fields) (a : Alert) (e : NormalizedEvent)
    → Says r raw a
    → Tells env r raw e
    → Agrees a e
Says-Tells env r raw a e (s, (v, n, m), t, p) (s', (v', n', m'), t', p') =
    let same : v ≡ v' = ok-injective (sym n ∙ n') in
    let named : text_arg env v ≡ ok e.event_name = ap (text_arg env) same ∙ m' in
    (
      ok-injective (sym s ∙ s'),
      validated-text_arg env v a.event_type e.event_name m named,
      validated-text_arg env r.time a.timestamp e.timestamp t t',
      p ∙ sym p',
    )

-- When an event of AWS or GCP is parsed to an alert and is normalized for its source, the alert and
-- the normalized event have the same severity, name and time, and keep the same payload.
pub parse-Agrees :
    (env : Environment) (stamp : Stamp) (raw : Fields) (a : Alert) (e : NormalizedEvent)
    → ((parse_cloudtrail_event stamp raw ≡ ok a) × (normalize_as env LogSourceType.aws raw ≡ ok e))
      ⊎ ((parse_gcp_audit_event stamp raw ≡ ok a) × (normalize_as env LogSourceType.gcp raw ≡ ok e))
    → Agrees a e
unfolding normalize_as
parse-Agrees env stamp raw a e (inl (p, q)) =
    Says-Tells env (aws_reading raw) raw a e (of-OnOk (parse_cloudtrail_event-Says stamp raw) p)
      (of-OnOk (normalize_aws-Tells env raw) q)
parse-Agrees env stamp raw a e (inr (p, q)) =
    Says-Tells env (gcp_reading raw) raw a e (of-OnOk (parse_gcp_audit_event-Says stamp raw) p)
      (of-OnOk (normalize_gcp-Tells env raw) q)
