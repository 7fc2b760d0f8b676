-- ===== src/Normalizers/Ids.antt =====
-- The ids of normalized events.
use tengen.Prelude.{none, ◌≡◌, ◌≢◌, refl, sym, ap, ◌∙◌, ok, ok-injective}
use tengen.Normalizers.Sources.{OnOk, returned, OnOk-bind, OnOk-bind_known, of-OnOk}
use tengen.Normalizers.Building.{Environment, EventArgs, make_event, text_arg, valid}
use tengen.Normalizers.Endpoint.{normalize_crowdstrike, normalize_k8s}
use tengen.Normalizers.Traffic.{normalize_firewall, normalize_ddos}
use tengen.Normalizers.Registry.{detect_source_type, normalize_unknown, normalize_as, normalize}
use tengen.Normalizers.Cloud.{normalize_azure, normalize_gcp}
use tengen.Normalizers.Detection.{bind_returns}
use tengen.Models.NormalizedEvent.{LogSourceType, NormalizedEvent}
use tengen.Value.{Value, Fields, str}

-- The event's id is what pydantic makes of this value.
abbrev Reads : Environment → Value → NormalizedEvent → Type 0
Reads env v e = text_arg env v ≡ ok e.event_id

make_event-Reads :
    (env : Environment) (a : EventArgs) → OnOk (Reads env a.event_id) (make_event env a)
unfolding make_event
make_event-Reads env a = OnOk-bind_known _ _ (λ i h.
    OnOk-bind _ _
      (λ t. OnOk-bind _ _ (λ l. OnOk-bind _ _ (λ n. OnOk-bind _ _ (λ ts. returned _ h)))))

ruleset ids = (OnOk-bind, make_event-Reads)

module _ (env : Environment) (raw : Fields) where
  normalize_gcp-Reads : OnOk (Reads env (str env.new_id)) (normalize_gcp env raw)
  unfolding normalize_gcp
  normalize_gcp-Reads = search ids depth 40

  normalize_azure-Reads : OnOk (Reads env (str env.new_id)) (normalize_azure env raw)
  unfolding normalize_azure
  normalize_azure-Reads = search ids depth 40

  normalize_crowdstrike-Reads : OnOk (Reads env (str env.new_id)) (normalize_crowdstrike env raw)
  unfolding normalize_crowdstrike
  normalize_crowdstrike-Reads = search ids depth 40

  normalize_firewall-Reads : OnOk (Reads env (str env.new_id)) (normalize_firewall env raw)
  unfolding normalize_firewall
  normalize_firewall-Reads = search ids depth 40

  normalize_ddos-Reads : OnOk (Reads env (str env.new_id)) (normalize_ddos env raw)
  unfolding normalize_ddos
  normalize_ddos-Reads = search ids depth 40

  normalize_k8s-Reads : OnOk (Reads env (str env.new_id)) (normalize_k8s env raw)
  unfolding normalize_k8s
  normalize_k8s-Reads = search ids depth 40

  normalize_unknown-Reads : OnOk (Reads env (str env.new_id)) (normalize_unknown env raw)
  unfolding normalize_unknown
  normalize_unknown-Reads = search ids depth 40

  -- An event that is not of AWS has the id that was handed out.
  normalize_as-Reads :
      (source : LogSourceType) (e : NormalizedEvent)
      → source ≢ LogSourceType.aws
      → normalize_as env source raw ≡ ok e
      → Reads env (str env.new_id) e
  unfolding normalize_as
  normalize_as-Reads LogSourceType.aws e k h = elim (k refl) [ ]
  normalize_as-Reads LogSourceType.gcp e k h = of-OnOk normalize_gcp-Reads h
  normalize_as-Reads LogSourceType.azure e k h = of-OnOk normalize_azure-Reads h
  normalize_as-Reads LogSourceType.crowdstrike e k h = of-OnOk normalize_crowdstrike-Reads h
  normalize_as-Reads LogSourceType.firewall e k h = of-OnOk normalize_firewall-Reads h
  normalize_as-Reads LogSourceType.ddos e k h = of-OnOk normalize_ddos-Reads h
  normalize_as-Reads LogSourceType.k8s e k h = of-OnOk normalize_k8s-Reads h
  normalize_as-Reads LogSourceType.openshift e k h = of-OnOk normalize_k8s-Reads h
  normalize_as-Reads LogSourceType.unknown e k h = of-OnOk normalize_unknown-Reads h

  -- A payload that is not taken for one of AWS is given the next id.
  pub normalize-new_id :
      (e : NormalizedEvent)
      → detect_source_type env raw ≢ ok LogSourceType.aws
      → normalize env raw none ≡ ok e
      → e.event_id ≡ env.new_id
  unfolding normalize
  normalize-new_id e k h =
      let (s, detected, q) = bind_returns (detect_source_type env raw) _ e h in
      let reads = normalize_as-Reads s e (λ p. k (detected ∙ ap ok p)) q in
      ok-injective (sym reads ∙ ap valid (env.accepts_text env.new_id))
