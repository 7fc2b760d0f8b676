-- ===== src/Normalizers/Sources.antt =====
-- The source of an event and the payload it keeps.
use tengen.Normalizers.Reading.{◌>>=◌}
use tengen.Prelude.{◌≡◌, refl, Result, ok, raised, Error, sym, ok-injective}
use tengen.Value.{Fields}
use tengen.Models.NormalizedEvent.{LogSourceType, NormalizedEvent}
use tengen.Normalizers.Building.{Environment, EventArgs, make_event}
use tengen.Normalizers.Endpoint.{normalize_crowdstrike, normalize_k8s, k8s_source}
use tengen.Normalizers.Traffic.{normalize_firewall, normalize_ddos}
use tengen.Normalizers.Registry.{normalize_unknown, normalize_as}
use tengen.Normalizers.Cloud.{normalize_aws, normalize_azure, normalize_gcp}

-- `P` holds of what a call returns, if it returns.
pub data OnOk {ℓ κ} {A : Type ℓ} (P : A → Type κ) : Result A → Type (ℓ ⊔ κ) where
  failed : (e : Error) → OnOk P (raised e)
  returned : (a : A) → P a → OnOk P (ok a)

bind-OnOk {ℓ κ μ} :
    {A : Type ℓ} {B : Type κ} (P : B → Type μ) (r : Result A) (next : A → Result B)
    → ((a : A) → OnOk P (next a))
    → OnOk P (r >>= next)
unfolding ◌>>=◌
bind-OnOk P (raised e) next h = failed e
bind-OnOk P (ok a) next h = h a

pub OnOk-bind {ℓ κ μ} :
    {A : Type ℓ} {B : Type κ} {P : B → Type μ} (r : Result A) (next : A → Result B)
    → ((a : A) → OnOk P (next a))
    → OnOk P (r >>= next)
OnOk-bind {P} r next h = bind-OnOk P r next h

-- The same, where the rest may use that the first call returned.
bind-OnOk_known {ℓ κ μ} :
    {A : Type ℓ} {B : Type κ} (P : B → Type μ) (r : Result A) (next : A → Result B)
    → ((a : A) → r ≡ ok a → OnOk P (next a))
    → OnOk P (r >>= next)
unfolding ◌>>=◌
bind-OnOk_known P (raised e) next h = failed e
bind-OnOk_known P (ok a) next h = h a refl

pub OnOk-bind_known {ℓ κ μ} :
    {A : Type ℓ} {B : Type κ} {P : B → Type μ} (r : Result A) (next : A → Result B)
    → ((a : A) → r ≡ ok a → OnOk P (next a))
    → OnOk P (r >>= next)
OnOk-bind_known {P} r next h = bind-OnOk_known P r next h

pub of-OnOk {ℓ κ} : {A : Type ℓ} {P : A → Type κ} {r : Result A} {a : A} → OnOk P r → r ≡ ok a → P a
of-OnOk {P} (failed e) h = cc
of-OnOk {P} (returned b p) h = rw (sym (ok-injective h)) p

OnOk-map {ℓ κ μ} :
    {A : Type ℓ} {P : A → Type κ} {Q : A → Type μ} {r : Result A}
    → ((a : A) → P a → Q a)
    → OnOk P r
    → OnOk Q r
OnOk-map f (failed e) = failed e
OnOk-map f (returned a p) = returned a (f a p)

-- The event is of this source, and keeps this payload.
abbrev pub IsOf : LogSourceType → Fields → NormalizedEvent → Type 0
IsOf source raw e = (e.source_type ≡ source) × (e.raw_event ≡ raw)

pub make_event-IsOf :
    (env : Environment) (a : EventArgs) → OnOk (IsOf a.source_type a.raw_event) (make_event env a)
unfolding make_event
make_event-IsOf env a = OnOk-bind _ _ (λ i.
    OnOk-bind _ _ (λ t.
      OnOk-bind _ _ (λ l. OnOk-bind _ _ (λ n. OnOk-bind _ _ (λ ts. returned _ (refl, refl))))))

pub ruleset keeps = (OnOk-bind, make_event-IsOf)

module _ (env : Environment) (raw : Fields) where
  normalize_aws-IsOf : OnOk (IsOf LogSourceType.aws raw) (normalize_aws env raw)
  unfolding normalize_aws
  normalize_aws-IsOf = search keeps depth 40

  normalize_gcp-IsOf : OnOk (IsOf LogSourceType.gcp raw) (normalize_gcp env raw)
  unfolding normalize_gcp
  normalize_gcp-IsOf = search keeps depth 40

  normalize_azure-IsOf : OnOk (IsOf LogSourceType.azure raw) (normalize_azure env raw)
  unfolding normalize_azure
  normalize_azure-IsOf = search keeps depth 40

  normalize_crowdstrike-IsOf :
      OnOk (IsOf LogSourceType.crowdstrike raw) (normalize_crowdstrike env raw)
  unfolding normalize_crowdstrike
  normalize_crowdstrike-IsOf = search keeps depth 40

  normalize_firewall-IsOf : OnOk (IsOf LogSourceType.firewall raw) (normalize_firewall env raw)
  unfolding normalize_firewall
  normalize_firewall-IsOf = search keeps depth 40

  normalize_ddos-IsOf : OnOk (IsOf LogSourceType.ddos raw) (normalize_ddos env raw)
  unfolding normalize_ddos
  normalize_ddos-IsOf = search keeps depth 40

  normalize_unknown-IsOf : OnOk (IsOf LogSourceType.unknown raw) (normalize_unknown env raw)
  unfolding normalize_unknown
  normalize_unknown-IsOf = search keeps depth 40

  -- The source that an event of `source` ends up with: the API version decides for a cluster.
  abbrev pub Agrees : LogSourceType → LogSourceType → Type 0
  Agrees LogSourceType.k8s found = k8s_source raw ≡ ok found
  Agrees LogSourceType.openshift found = k8s_source raw ≡ ok found
  Agrees source found = found ≡ source

  abbrev pub Keeps : LogSourceType → NormalizedEvent → Type 0
  Keeps source e = Agrees source e.source_type × (e.raw_event ≡ raw)

  cluster-Keeps :
      (source : LogSourceType) (e : NormalizedEvent)
      → k8s_source raw ≡ ok source
      → IsOf source raw e
      → Keeps LogSourceType.k8s e
  cluster-Keeps source e h (s, r) = (rw s h, r)

  normalize_k8s-Keeps : OnOk (Keeps LogSourceType.k8s) (normalize_k8s env raw)
  unfolding normalize_k8s
  normalize_k8s-Keeps = OnOk-bind_known _ _ (λ source h.
      OnOk-map {P = IsOf source raw} (λ e. cluster-Keeps source e h) (search keeps depth 40))

  -- When normalization for a source returns an event, the event is of that source, or for a cluster
  -- of the one that its API version names, and it keeps the payload.
  pub normalize_as-Keeps :
      (source : LogSourceType) (e : NormalizedEvent)
      → normalize_as env source raw ≡ ok e
      → Keeps source e
  unfolding normalize_as
  normalize_as-Keeps LogSourceType.aws e h = of-OnOk normalize_aws-IsOf h
  normalize_as-Keeps LogSourceType.gcp e h = of-OnOk normalize_gcp-IsOf h
  normalize_as-Keeps LogSourceType.azure e h = of-OnOk normalize_azure-IsOf h
  normalize_as-Keeps LogSourceType.crowdstrike e h = of-OnOk normalize_crowdstrike-IsOf h
  normalize_as-Keeps LogSourceType.firewall e h = of-OnOk normalize_firewall-IsOf h
  normalize_as-Keeps LogSourceType.ddos e h = of-OnOk normalize_ddos-IsOf h
  normalize_as-Keeps LogSourceType.k8s e h = of-OnOk normalize_k8s-Keeps h
  normalize_as-Keeps LogSourceType.openshift e h = of-OnOk normalize_k8s-Keeps h
  normalize_as-Keeps LogSourceType.unknown e h = of-OnOk normalize_unknown-IsOf h
