-- ===== src/Metrics/Store/Targets.antt =====
-- The counter that an event is counted in, and the field that names its key.
use tengen.Prelude.{
  ℕ, String, Bool, true, false, none, some, ◌≡◌, refl, sym, ap, ◌∙◌, ◌⊎◌, inl, inr, if◌then◌else◌,
  ◌==◌, eq_iff, arith, Bool-cases, eq_refl,
}
use tengen.Value.{Value, bool, int, float, arr, null, str, obj, is_text}
use tengen.Metrics.Store.{Bucket, target_counter}
use tengen.Metrics.Store.Buckets.{rank, same_bucket, same_bucket→eq}

-- Of each counter, the event that it counts and the field that names its key
abbrev pub event_of : Bucket → String
event_of Bucket.route_counts = "route_matched"
event_of Bucket.runbook_success = "runbook_success"
event_of Bucket.runbook_error = "runbook_error"
event_of Bucket.alert_ingested = "alert_ingested"
event_of Bucket.dlq_counts = "dlq_enqueued"
event_of Bucket.containment_executed = "containment_executed"
event_of Bucket.normalization_counts = "event_normalized"

abbrev pub field_of : Bucket → String
field_of Bucket.route_counts = "route"
field_of Bucket.runbook_success = "runbook"
field_of Bucket.runbook_error = "runbook"
field_of Bucket.alert_ingested = "source"
field_of Bucket.dlq_counts = "reason"
field_of Bucket.containment_executed = "action"
field_of Bucket.normalization_counts = "source_type"

target-event_of : (b : Bucket) → target_counter (str (event_of b)) ≡ some (b, field_of b)
unfolding target_counter
target-event_of Bucket.route_counts = refl
target-event_of Bucket.runbook_success = refl
target-event_of Bucket.runbook_error = refl
target-event_of Bucket.alert_ingested = refl
target-event_of Bucket.dlq_counts = refl
target-event_of Bucket.containment_executed = refl
target-event_of Bucket.normalization_counts = refl

abbrev AllFalse : (Bucket → Bool) → Type 0
AllFalse p =
    (p Bucket.route_counts ≡ false)
    × (p Bucket.runbook_success ≡ false)
    × (p Bucket.runbook_error ≡ false)
    × (p Bucket.alert_ingested ≡ false)
    × (p Bucket.dlq_counts ≡ false)
    × (p Bucket.containment_executed ≡ false)
    × (p Bucket.normalization_counts ≡ false)

all_false : (p : Bucket → Bool) (b : Bucket) → AllFalse p → p b ≡ false
all_false p Bucket.route_counts h = h.0
all_false p Bucket.runbook_success h = h.1
all_false p Bucket.runbook_error h = h.2
all_false p Bucket.alert_ingested h = h.3
all_false p Bucket.dlq_counts h = h.4
all_false p Bucket.containment_executed h = h.5
all_false p Bucket.normalization_counts h = h.6

-- A test holds of some counter or of none.
Bucket-cases : (p : Bucket → Bool) → ((b : Bucket) → p b ≡ false) ⊎ ((b : Bucket) × (p b ≡ true))
Bucket-cases p = elim (Bool-cases (p Bucket.route_counts)) [
  | inl h ↦ inr (Bucket.route_counts, h)
  | inr h_route_counts ↦ elim (Bool-cases (p Bucket.runbook_success)) [
    | inl h ↦ inr (Bucket.runbook_success, h)
    | inr h_runbook_success ↦ elim (Bool-cases (p Bucket.runbook_error)) [
      | inl h ↦ inr (Bucket.runbook_error, h)
      | inr h_runbook_error ↦ elim (Bool-cases (p Bucket.alert_ingested)) [
        | inl h ↦ inr (Bucket.alert_ingested, h)
        | inr h_alert_ingested ↦ elim (Bool-cases (p Bucket.dlq_counts)) [
          | inl h ↦ inr (Bucket.dlq_counts, h)
          | inr h_dlq_counts ↦ elim (Bool-cases (p Bucket.containment_executed)) [
            | inl h ↦ inr (Bucket.containment_executed, h)
            | inr h_containment_executed ↦ elim (Bool-cases (p Bucket.normalization_counts)) [
              | inl h ↦ inr (Bucket.normalization_counts, h)
              | inr h_normalization_counts ↦ inl (λ b. all_false p b (
                h_route_counts, h_runbook_success, h_runbook_error, h_alert_ingested, h_dlq_counts,
                h_containment_executed, h_normalization_counts,
              ))
            ]
          ]
        ]
      ]
    ]
  ]
]

abbrev event_rank : String → ℕ
event_rank e =
    if e == event_of Bucket.route_counts
    then 0
    else if e == event_of Bucket.runbook_success
    then 1
    else if e == event_of Bucket.runbook_error
    then 2
    else if e == event_of Bucket.alert_ingested
    then 3
    else if e == event_of Bucket.dlq_counts
    then 4
    else if e == event_of Bucket.containment_executed
    then 5
    else if e == event_of Bucket.normalization_counts
    then 6
    else 7

event_rank-event_of : (b : Bucket) → event_rank (event_of b) ≡ rank b
event_rank-event_of Bucket.route_counts = refl
event_rank-event_of Bucket.runbook_success = refl
event_rank-event_of Bucket.runbook_error = refl
event_rank-event_of Bucket.alert_ingested = refl
event_rank-event_of Bucket.dlq_counts = refl
event_rank-event_of Bucket.containment_executed = refl
event_rank-event_of Bucket.normalization_counts = refl

event_of-injective : (b b' : Bucket) → event_of b ≡ event_of b' → rank b ≡ rank b'
event_of-injective b b' h = sym (event_rank-event_of b) ∙ ap event_rank h ∙ event_rank-event_of b'

event_of-same : (b b' : Bucket) → (event_of b == event_of b') ≡ same_bucket b b'
unfolding same_bucket
event_of-same b b' = elim (Bool-cases (same_bucket b b')) [
  | inl h ↦ rw (h, same_bucket→eq b b' h) (eq_refl (event_of b'))
  | inr h ↦ ground (arith, eq_iff (event_of b) (event_of b'), event_of-injective b b')
]

-- What the chain of tests comes to: no counter, or the one whose event is named.
abbrev pub Targets : Value → Type 0
Targets e =
    ((target_counter e ≡ none) × ((b : Bucket) → is_text e (event_of b) ≡ false))
    ⊎ ((b₀ : Bucket) × (target_counter e ≡ some (b₀, field_of b₀))
        × ((b : Bucket) → is_text e (event_of b) ≡ same_bucket b₀ b))

target_none :
    (s : String) → ((b : Bucket) → (s == event_of b) ≡ false) → target_counter (str s) ≡ none
unfolding target_counter is_text
target_none s h =
    rw
      (
        h Bucket.route_counts,
        h Bucket.runbook_success,
        h Bucket.runbook_error,
        h Bucket.alert_ingested,
        h Bucket.dlq_counts,
        h Bucket.containment_executed,
        h Bucket.normalization_counts,
      )
      refl

target_some : (s : String) (b : Bucket) → (s == event_of b) ≡ true → Targets (str s)
unfolding is_text
target_some s b h =
    let q = (eq_iff s (event_of b)).0 h in
    inr (b, ap (λ x. target_counter (str x)) q ∙ target-event_of b, λ b'. rw q (event_of-same b b'))

pub target-Targets : (e : Value) → Targets e
unfolding is_text target_counter
target-Targets (str s) = elim (Bucket-cases (λ b. s == event_of b)) [
  | inl h ↦ inl (target_none s h, h)
  | inr (b, h) ↦ target_some s b h
]
target-Targets (bool x) = inl (refl, λ b. refl)
target-Targets (int x) = inl (refl, λ b. refl)
target-Targets (float x k) = inl (refl, λ b. refl)
target-Targets (obj x) = inl (refl, λ b. refl)
target-Targets (arr x) = inl (refl, λ b. refl)
target-Targets null = inl (refl, λ b. refl)
