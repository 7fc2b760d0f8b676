-- ===== src/Agents/Orchestrator/Validity.antt =====
-- agents/orchestrator.py: events that are normalized and then validated.
use tengen.Prelude.{
  String, false, Option, none, some, ◌≡◌, ◌≢◌, refl, ap, ◌∙◌, ok, ◌>>=◌, ◌==◌, Error,
}
use tengen.Agents.Orchestrator.{
  EventCodec, normalize_event, validate_normalized_event, validity, Error, failure_of,
}
use tengen.Agents.Normalizer.{read_event, answered_event, on_dict}
use tengen.Agents.Json.{json_value}
use tengen.Models.NormalizedEvent.{LogSourceType, NormalizedEvent, source_value}
use tengen.Normalizers.Building.{Environment}
use tengen.Normalizers.Ids.{normalize-new_id}
use tengen.Normalizers.Registry.{detect_source_type, normalize}
use tengen.Value.{Value, Fields, obj}

source_value-not_empty : (s : LogSourceType) → (source_value s == "") ≡ false
unfolding source_value
source_value-not_empty LogSourceType.aws = refl
source_value-not_empty LogSourceType.gcp = refl
source_value-not_empty LogSourceType.azure = refl
source_value-not_empty LogSourceType.crowdstrike = refl
source_value-not_empty LogSourceType.firewall = refl
source_value-not_empty LogSourceType.ddos = refl
source_value-not_empty LogSourceType.k8s = refl
source_value-not_empty LogSourceType.openshift = refl
source_value-not_empty LogSourceType.unknown = refl

module _ (loads : String → Option Value) (describe : Error → String) (codec : EventCodec) where
  normalize_event-dump :
      (env : Environment) (t : String) (raw : Fields) (e : NormalizedEvent)
      → loads t ≡ some (obj raw)
      → normalize env raw none ≡ ok e
      → normalize_event loads describe codec env t ≡ codec.dump e
  unfolding normalize_event read_event
  normalize_event-dump env t raw e j h =
      ap (λ r. answered_event env loads describe codec.dump (failure_of loads describe t) r)
        (ap (λ o. json_value o >>= λ v. on_dict (λ fs. normalize env fs none) v) j ∙ h)

  validity-valid :
      (e : NormalizedEvent)
      → (e.event_id == "") ≡ false
      → validity loads describe codec (some e) ≡ "valid"
  validity-valid e h = rw (source_value-not_empty e.source_type, h) refl

  -- When the text is a payload that is not taken for one of AWS and it can be normalized, and the
  -- ids that are handed out are not empty, and pydantic reads the event back as it wrote it, then the
  -- event that the first tool answers with is valid for the second.
  pub normalize_event-valid :
      (env : Environment) (t : String) (raw : Fields) (e : NormalizedEvent)
      → (env.new_id == "") ≡ false
      → loads t ≡ some (obj raw)
      → detect_source_type env raw ≢ ok LogSourceType.aws
      → normalize env raw none ≡ ok e
      → codec.validate (codec.dump e) ≡ some e
      → validate_normalized_event loads describe codec
          (some (normalize_event loads describe codec env t))
        ≡ "valid"
  unfolding validate_normalized_event
  normalize_event-valid env t raw e i j k h q =
      rw (normalize_event-dump env t raw e j h, q)
        (validity-valid e (rw (normalize-new_id env raw e k h) i))
