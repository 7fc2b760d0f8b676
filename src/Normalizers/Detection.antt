-- ===== src/Normalizers/Detection.antt =====
-- The detected source of a payload, and the source of the event that normalization returns.

use tengen.Prelude.{
  true, ◌≡◌, refl, ◌⊎◌, inl, inr, none, Result, ok, raised, arith, sym, ◌∙◌, ap, ok-injective,
}
use tengen.Text.{ends_with, begins}
use tengen.Text.Laws.{ends_with-contains, contains_trans}
use tengen.Value.{Value, Fields, get, text, holds, str, bool, obj}
use tengen.Models.NormalizedEvent.{LogSourceType, NormalizedEvent}
use tengen.Normalizers.Building.{Environment}
use tengen.Normalizers.Reading.{◌>>=◌}
use tengen.Normalizers.Endpoint.{k8s_source}
use tengen.Normalizers.Registry.{is_openshift, detect_source_type, normalize}
use tengen.Normalizers.Sources.{Agrees, normalize_as-Keeps}

pub bind_returns {ℓ κ} :
    {A : Type ℓ} {B : Type κ} (r : Result A) (next : A → Result B) (b : B)
    → (r >>= next) ≡ ok b
    → (a : A) × (r ≡ ok a) × (next a ≡ ok b)
unfolding ◌>>=◌
bind_returns (raised e) next b h = cc
bind_returns (ok a) next b h = (a, refl, h)

version-contains :
    (v : Value)
    → (text v >>= λ s. ok (ends_with s "openshift.io/v1")) ≡ ok true
    → holds "openshift.io" v ≡ ok true
unfolding text holds ◌>>=◌ begins
version-contains (str s) h = ap ok (
    contains_trans s "openshift.io/v1" "openshift.io"
      (ends_with-contains s "openshift.io/v1" (ok-injective h)) refl)
version-contains (bool _) h = cc
version-contains (obj _) h = cc
version-contains _ h = cc

is_openshift-k8s_source :
    (raw : Fields) → is_openshift raw ≡ ok true → k8s_source raw ≡ ok LogSourceType.openshift
unfolding is_openshift k8s_source ◌>>=◌
is_openshift-k8s_source raw h = rw (version-contains (get "apiVersion" (str "") raw) h) refl

detect-openshift :
    (env : Environment) (raw : Fields)
    → detect_source_type env raw ≡ ok LogSourceType.openshift
    → is_openshift raw ≡ ok true
unfolding detect_source_type ◌>>=◌
detect-openshift env raw h = ground arith

k8s_source-cases :
    (raw : Fields) (found : LogSourceType)
    → k8s_source raw ≡ ok found
    → (found ≡ LogSourceType.k8s) ⊎ (found ≡ LogSourceType.openshift)
unfolding k8s_source ◌>>=◌
k8s_source-cases raw found h = ground arith

Agrees-detected :
    (env : Environment) (raw : Fields) (s found : LogSourceType)
    → detect_source_type env raw ≡ ok s
    → Agrees env raw s found
    → (found ≡ s) ⊎ ((s ≡ LogSourceType.k8s) × (found ≡ LogSourceType.openshift))
Agrees-detected env raw LogSourceType.openshift found h a =
    inl (ok-injective (sym a ∙ is_openshift-k8s_source raw (detect-openshift env raw h)))
Agrees-detected env raw LogSourceType.k8s found h a = elim (k8s_source-cases raw found a) [
  | inl e ↦ inl e
  | inr e ↦ inr (refl, e)
]
Agrees-detected env raw LogSourceType.aws found h a = inl a
Agrees-detected env raw _ found h a = inl a

-- When a payload whose source is not given is normalized to an event, the payload has a detected
-- source, and the event is of it, except that what is taken for Kubernetes may turn out to be
-- OpenShift; the event keeps the payload.
pub normalize-detected :
    (env : Environment) (raw : Fields) (e : NormalizedEvent)
    → normalize env raw none ≡ ok e
    → (s : LogSourceType) × (detect_source_type env raw ≡ ok s)
      × ((e.source_type ≡ s)
          ⊎ ((s ≡ LogSourceType.k8s) × (e.source_type ≡ LogSourceType.openshift)))
      × (e.raw_event ≡ raw)
unfolding normalize
normalize-detected env raw e h =
    let (s, detected, k) = bind_returns (detect_source_type env raw) _ e h in
    let (agrees, kept) = normalize_as-Keeps env raw s e k in
    (s, detected, Agrees-detected env raw s e.source_type detected agrees, kept)
