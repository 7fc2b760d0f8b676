-- ===== src/Metrics/Store/Buckets.antt =====
-- The seven counters of the store: which is read, and which is put back.
use tengen.Prelude.{
  ℕ, zero, suc, Bool, true, false, List, [], ◌∷◌, ◌≡◌, refl, sym, ap, ◌∙◌, inl, inr, if◌then◌else◌,
  arith, eqb, Bool-cases,
}
use tengen.Metrics.Store.{Counter, Bucket, MetricsStore, count, bucket_of, with_bucket}
use tengen.Metrics.Store.Keys.{Key}

abbrev pub rank : Bucket → ℕ
rank Bucket.route_counts = 0
rank Bucket.runbook_success = 1
rank Bucket.runbook_error = 2
rank Bucket.alert_ingested = 3
rank Bucket.dlq_counts = 4
rank Bucket.containment_executed = 5
rank Bucket.normalization_counts = 6

abbrev counters : MetricsStore → List Counter
counters s =
    s.route_counts ∷ s.runbook_success ∷ s.runbook_error ∷ s.alert_ingested ∷ s.dlq_counts
    ∷ s.containment_executed ∷ s.normalization_counts ∷ []

abbrev nth : ℕ → List Counter → Counter
nth n [] = []
nth zero (c ∷ cs) = c
nth (suc n) (c ∷ cs) = nth n cs

abbrev replace : ℕ → Counter → List Counter → List Counter
replace n d [] = []
replace zero d (c ∷ cs) = d ∷ cs
replace (suc n) d (c ∷ cs) = c ∷ replace n d cs

nth-replace :
    (i j : ℕ) (d : Counter) (cs : List Counter)
    → eqb i j ≡ false
    → nth j (replace i d cs) ≡ nth j cs
nth-replace i j d [] h = refl
nth-replace zero zero d (c ∷ cs) h = ground arith
nth-replace zero (suc j) d (c ∷ cs) h = refl
nth-replace (suc i) zero d (c ∷ cs) h = refl
nth-replace (suc i) (suc j) d (c ∷ cs) h = nth-replace i j d cs (ground arith)

bucket_of-nth : (b : Bucket) (s : MetricsStore) → bucket_of b s ≡ nth (rank b) (counters s)
bucket_of-nth Bucket.route_counts s = refl
bucket_of-nth Bucket.runbook_success s = refl
bucket_of-nth Bucket.runbook_error s = refl
bucket_of-nth Bucket.alert_ingested s = refl
bucket_of-nth Bucket.dlq_counts s = refl
bucket_of-nth Bucket.containment_executed s = refl
bucket_of-nth Bucket.normalization_counts s = refl

counters-with_bucket :
    (b : Bucket) (c : Counter) (s : MetricsStore)
    → counters (with_bucket b c s) ≡ replace (rank b) c (counters s)
counters-with_bucket Bucket.route_counts c s = refl
counters-with_bucket Bucket.runbook_success c s = refl
counters-with_bucket Bucket.runbook_error c s = refl
counters-with_bucket Bucket.alert_ingested c s = refl
counters-with_bucket Bucket.dlq_counts c s = refl
counters-with_bucket Bucket.containment_executed c s = refl
counters-with_bucket Bucket.normalization_counts c s = refl

pub bucket_of-with_same :
    (b : Bucket) (c : Counter) (s : MetricsStore) → bucket_of b (with_bucket b c s) ≡ c
bucket_of-with_same Bucket.route_counts c s = refl
bucket_of-with_same Bucket.runbook_success c s = refl
bucket_of-with_same Bucket.runbook_error c s = refl
bucket_of-with_same Bucket.alert_ingested c s = refl
bucket_of-with_same Bucket.dlq_counts c s = refl
bucket_of-with_same Bucket.containment_executed c s = refl
bucket_of-with_same Bucket.normalization_counts c s = refl

unfoldable pub same_bucket : Bucket → Bucket → Bool
same_bucket b b' = eqb (rank b) (rank b')

pub bucket_of-with_other :
    (b b' : Bucket) (c : Counter) (s : MetricsStore)
    → same_bucket b b' ≡ false
    → bucket_of b' (with_bucket b c s) ≡ bucket_of b' s
unfolding same_bucket
bucket_of-with_other b b' c s h =
    bucket_of-nth b' (with_bucket b c s)
    ∙ ap (nth (rank b')) (counters-with_bucket b c s)
    ∙ nth-replace (rank b) (rank b') c (counters s) h
    ∙ sym (bucket_of-nth b' s)

abbrev of_rank : ℕ → Bucket
of_rank n =
    if eqb n 0
    then Bucket.route_counts
    else if eqb n 1
    then Bucket.runbook_success
    else if eqb n 2
    then Bucket.runbook_error
    else if eqb n 3
    then Bucket.alert_ingested
    else if eqb n 4
    then Bucket.dlq_counts
    else if eqb n 5
    then Bucket.containment_executed
    else Bucket.normalization_counts

of_rank-rank : (b : Bucket) → of_rank (rank b) ≡ b
of_rank-rank Bucket.route_counts = refl
of_rank-rank Bucket.runbook_success = refl
of_rank-rank Bucket.runbook_error = refl
of_rank-rank Bucket.alert_ingested = refl
of_rank-rank Bucket.dlq_counts = refl
of_rank-rank Bucket.containment_executed = refl
of_rank-rank Bucket.normalization_counts = refl

pub rank-injective : (b b' : Bucket) → rank b ≡ rank b' → b ≡ b'
rank-injective b b' h = sym (of_rank-rank b) ∙ ap of_rank h ∙ of_rank-rank b'

pub same_bucket→eq : (b b' : Bucket) → same_bucket b b' ≡ true → b ≡ b'
unfolding same_bucket
same_bucket→eq b b' h = rank-injective b b' (ground arith)

pub same_bucket_self : (b : Bucket) → same_bucket b b ≡ true
unfolding same_bucket
same_bucket_self b = ground arith

-- A counter that is put into the store is read back, and the others are as they were.
pub count-with_bucket :
    (b b' : Bucket) (k : Key) (c : Counter) (s : MetricsStore)
    → count k (bucket_of b' (with_bucket b c s))
      ≡ (if same_bucket b b' then count k c else count k (bucket_of b' s))
count-with_bucket b b' k c s = elim (Bool-cases (same_bucket b b')) [
  | inl p ↦ rw p (
      ap (count k) (
        ap (λ x. bucket_of x (with_bucket b c s)) (sym (same_bucket→eq b b' p))
        ∙ bucket_of-with_same b c s))
  | inr p ↦ rw (p, bucket_of-with_other b b' c s p) refl
]
