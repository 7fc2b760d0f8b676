-- ===== src/Metrics/Store/Rows/Saving.antt =====
-- What a table holds after it was saved.
use tengen.Prelude.{
  String, Bool, true, false, ◌&&◌, ◌||◌, some, List, [], ◌∷◌, ◌≡◌, refl, sym, ap, ◌∙◌, inl, inr,
  if◌then◌else◌, ◌==◌, eq_iff, arith, any, lookup, insert, Bool-cases, some-injective,
}
use tengen.Prelude.{
  String, Bool, true, false, ◌&&◌, ◌||◌, some, List, [], ◌∷◌, ◌≡◌, refl, sym, ap, ◌∙◌, inl, inr,
  if◌then◌else◌, ◌==◌, eq_iff, arith, any, lookup, insert, Bool-cases, some-injective, eq_refl,
  lookup-insert,
}
use tengen.Value.{Value, str, to_text}
use tengen.Text.{partition}
use tengen.Text.Laws.{has_char, partition-append}
use tengen.Metrics.Store.Keys.{named, is_key, is_key-named}
use tengen.Metrics.Store.Buckets.{same_bucket, same_bucket→eq, same_bucket_self}
use tengen.Metrics.Store.{
  Counter, Bucket, MetricsStore, bucket_of, count, bucket_name, buckets, bucket_by_name,
}
use tengen.Metrics.Store.Rows.{Table, row_key, save_bucket, save_buckets}

no_colon : (b : Bucket) → has_char 58 (bucket_name b) ≡ false
no_colon Bucket.route_counts = refl
no_colon Bucket.runbook_success = refl
no_colon Bucket.runbook_error = refl
no_colon Bucket.alert_ingested = refl
no_colon Bucket.dlq_counts = refl
no_colon Bucket.containment_executed = refl
no_colon Bucket.normalization_counts = refl

pub partition-row_key :
    (b : Bucket) (name : String) → partition 58 (row_key b name) ≡ (bucket_name b, name)
partition-row_key b name = partition-append (bucket_name b) name (no_colon b)

pub bucket_by_name-bucket_name : (b : Bucket) → bucket_by_name (bucket_name b) ≡ some b
unfolding bucket_by_name
bucket_by_name-bucket_name Bucket.route_counts = refl
bucket_by_name-bucket_name Bucket.runbook_success = refl
bucket_by_name-bucket_name Bucket.runbook_error = refl
bucket_by_name-bucket_name Bucket.alert_ingested = refl
bucket_by_name-bucket_name Bucket.dlq_counts = refl
bucket_by_name-bucket_name Bucket.containment_executed = refl
bucket_by_name-bucket_name Bucket.normalization_counts = refl

-- No two pairs of a counter and a name share a row.
row_key-injective :
    (b b' : Bucket) (n n' : String) → row_key b n ≡ row_key b' n' → (b ≡ b') × (n ≡ n')
row_key-injective b b' n n' h =
    let p = sym (partition-row_key b n) ∙ ap (partition 58) h ∙ partition-row_key b' n' in
    (
      some-injective (
          sym (bucket_by_name-bucket_name b)
          ∙ ap (λ q. bucket_by_name q.0) p
          ∙ bucket_by_name-bucket_name b'),
      ap (λ q. q.1) p,
    )

differ :
    (b b' : Bucket) (n n' : String)
    → (row_key b n == row_key b' n') ≡ false
    → false ≡ (same_bucket b b' && n == n')
differ b b' n n' h = elim (Bool-cases (same_bucket b b')) [
  | inl p ↦ elim (Bool-cases (n == n')) [
    | inl q ↦
        sym h
        ∙ ap (λ k. k == row_key b' n')
            (ap (λ x. row_key x n) (same_bucket→eq b b' p) ∙ ap (row_key b') ((eq_iff n n').0 q))
        ∙ eq_refl (row_key b' n')
        ∙ rw (p, q) refl
    | inr q ↦ rw (p, q) refl
  ]
  | inr p ↦ rw p refl
]

-- Two rows are one when the counters and the names are.
pub row_key-same :
    (b b' : Bucket) (n n' : String) → (row_key b n == row_key b' n') ≡ (same_bucket b b' && n == n')
row_key-same b b' n n' = elim (Bool-cases (row_key b n == row_key b' n')) [
  | inl h ↦
      let (p, q) = row_key-injective b b' n n' ((eq_iff (row_key b n) (row_key b' n')).0 h) in
      rw (h, p, q, same_bucket_self b', eq_refl n') refl
  | inr h ↦ rw h (differ b b' n n' h)
]

buckets-all : (b : Bucket) → any (λ b'. same_bucket b' b) buckets ≡ true
unfolding same_bucket
buckets-all Bucket.route_counts = refl
buckets-all Bucket.runbook_success = refl
buckets-all Bucket.runbook_error = refl
buckets-all Bucket.alert_ingested = refl
buckets-all Bucket.dlq_counts = refl
buckets-all Bucket.containment_executed = refl
buckets-all Bucket.normalization_counts = refl

-- Whether a counter has the name
abbrev pub has_name : String → Counter → Bool
has_name name [] = false
has_name name ((v, n) ∷ c) = is_key (named name) v || has_name name c

-- Every key of the counter is a text, and none is there twice.
abbrev pub IsNamed : Counter → Type 0
IsNamed [] = Unit
IsNamed ((v, n) ∷ c) = ((name : String) × (v ≡ str name) × (has_name name c ≡ false)) × IsNamed c

module _ (show : Value → String) (now : String) where
  lookup-save_bucket :
      (b b' : Bucket) (name : String) (c : Counter) (rows : Table)
      → IsNamed c
      → lookup (row_key b' name) (save_bucket show now b c rows) ≡ (
          if same_bucket b b' && has_name name c
          then some (count (named name) c, now)
          else lookup (row_key b' name) rows)
  unfolding save_bucket count to_text
  lookup-save_bucket b b' name [] rows h = ground arith
  lookup-save_bucket b b' name ((v, n) ∷ c) rows ((t, p, q), h) =
      rw
        (
          p,
          lookup-save_bucket b b' name c (insert (row_key b t) (n, now) rows) h,
          lookup-insert (row_key b t) (row_key b' name) (n, now) rows,
          row_key-same b b' t name,
          is_key-named name t,
        )
        (elim (Bool-cases (t == name)) [
          | inl e ↦ rw (e, ap (λ x. has_name x c) (sym ((eq_iff t name).0 e)) ∙ q) (ground arith)
          | inr e ↦ rw e (ground arith)
        ])

  lookup-save_buckets :
      (bs : List Bucket) (b : Bucket) (name : String) (s : MetricsStore) (rows : Table)
      → ((b' : Bucket) → IsNamed (bucket_of b' s))
      → lookup (row_key b name) (save_buckets show now bs s rows) ≡ (
          if any (λ b'. same_bucket b' b) bs && has_name name (bucket_of b s)
          then some (count (named name) (bucket_of b s), now)
          else lookup (row_key b name) rows)
  unfolding save_buckets
  lookup-save_buckets [] b name s rows h = ground arith
  lookup-save_buckets (b' ∷ bs) b name s rows h =
      rw
        (
          lookup-save_buckets bs b name s (save_bucket show now b' (bucket_of b' s) rows) h,
          lookup-save_bucket b' b name (bucket_of b' s) rows (h b'),
        )
        (elim (Bool-cases (same_bucket b' b)) [
          | inl e ↦ rw (e, same_bucket→eq b' b e) (ground arith)
          | inr e ↦ rw e (ground arith)
        ])

  -- A saved table holds each name that its counter has with its count, and the others as before.
  pub lookup-save_all :
      (b : Bucket) (name : String) (s : MetricsStore) (rows : Table)
      → ((b' : Bucket) → IsNamed (bucket_of b' s))
      → lookup (row_key b name) (save_buckets show now buckets s rows) ≡ (
          if has_name name (bucket_of b s)
          then some (count (named name) (bucket_of b s), now)
          else lookup (row_key b name) rows)
  lookup-save_all b name s rows h =
      lookup-save_buckets buckets b name s rows h ∙ rw (buckets-all b) refl
