-- ===== src/Metrics/Store/Rows/Loading.antt =====
-- What a store holds after it was loaded from a table.
use tengen.Prelude.{
  ℕ, String, false, ◌||◌, Option, none, some, [], ◌∷◌, ◌≡◌, refl, sym, ap, subst, ◌∙◌, inl, inr,
  ◌==◌, eq_iff, arith, lookup, Bool-cases,
}
use tengen.Prelude.{lookup_fresh, HasDistinctKeys, IsFresh}
use tengen.Value.{str}
use tengen.Metrics.Store.Keys.{named, is_key, is_key-named, key_of-str, same-named, is_key-same}
use tengen.Metrics.Store.Buckets.{
  same_bucket, same_bucket→eq, count-with_bucket, bucket_of-with_same, bucket_of-with_other,
}
use tengen.Metrics.Store.{Counter, Bucket, MetricsStore, bucket_of, with_bucket, put, count}
use tengen.Metrics.Store.Rows.Saving.{
  IsNamed, has_name, partition-row_key, bucket_by_name-bucket_name, row_key-same,
}
use tengen.Metrics.Store.Rows.{Table, row_key, load_rows, load_row}
use tengen.Metrics.Store.Counting.{count-put}

-- Every row is of a counter and a name.
abbrev pub IsKeyed : Table → Type 0
IsKeyed [] = Unit
IsKeyed ((k, _) ∷ rows) = ((b : Bucket) × (name : String) × (k ≡ row_key b name)) × IsKeyed rows

abbrev pub value_in : Option (ℕ × String) → ℕ → ℕ
value_in none m = m
value_in (some (n, _)) m = n

-- A loaded store counts what the rows say, and the rest as before.
pub count-load_rows :
    (b : Bucket) (name : String) (rows : Table) (s : MetricsStore)
    → IsKeyed rows
    → HasDistinctKeys rows
    → count (named name) (bucket_of b (load_rows rows s))
      ≡ value_in (lookup (row_key b name) rows) (count (named name) (bucket_of b s))
unfolding load_rows lookup
count-load_rows b name [] s h d = refl
count-load_rows b name ((k, (n, t)) ∷ rows) s ((b', name', p), h) (f, d) =
    rw
      (
        p,
        partition-row_key b' name',
        bucket_by_name-bucket_name b',
        count-load_rows b name rows (load_row (some b') name' n s) h d,
        row_key-same b' b name' name,
        count-with_bucket b' b (named name) (put (named name') (str name') n (bucket_of b' s)) s,
        count-put (named name) (named name') (str name') n (bucket_of b' s) (key_of-str name'),
        same-named name name',
      )
      (elim (Bool-cases (same_bucket b' b)) [
        | inl e ↦ elim (Bool-cases (name' == name)) [
          | inl e' ↦
              rw
                (
                  e,
                  e',
                  lookup_fresh (row_key b name) rows (
                      subst (λ x. IsFresh x rows)
                        (p
                          ∙ ap (λ x. row_key x name') (same_bucket→eq b' b e)
                          ∙ ap (row_key b) ((eq_iff name' name).0 e'))
                        f),
                )
                refl
          | inr e' ↦ rw (e, e', same_bucket→eq b' b e) refl
        ]
        | inr e ↦ rw e refl
      ])

has_name-put :
    (t name : String) (n : ℕ) (c : Counter)
    → has_name t (put (named name) (str name) n c) ≡ (name == t || has_name t c)
unfolding put
has_name-put t name n [] = rw (is_key-named t name) refl
has_name-put t name n ((v, m) ∷ c) = elim (Bool-cases (is_key (named name) v)) [
  | inl e ↦ rw (e, is_key-same (named t) (named name) v e, same-named t name) (ground arith)
  | inr e ↦ rw (e, has_name-put t name n c) (ground arith)
]

differs : (name t : String) → is_key (named name) (str t) ≡ false → (name == t) ≡ false
differs name t h = ground (arith, is_key-named name t, eq_iff name t, eq_iff t name)

pub put-IsNamed :
    (name : String) (n : ℕ) (c : Counter) → IsNamed c → IsNamed (put (named name) (str name) n c)
unfolding put
put-IsNamed name n [] h = ((name, refl, refl), tt)
put-IsNamed name n ((v, m) ∷ c) ((t, p, q), h) = elim (Bool-cases (is_key (named name) v)) [
  | inl e ↦ rw e ((t, p, q), h)
  | inr e ↦ rw e (
    (
      t,
      p,
      has_name-put t name n c ∙ rw (q, differs name t (ap (is_key (named name)) (sym p) ∙ e)) refl,
    ),
    put-IsNamed name n c h,
  )
]

-- A name that a counter does not have counts nothing.
pub count_absent :
    (name : String) (c : Counter) → has_name name c ≡ false → count (named name) c ≡ 0
unfolding count
count_absent name [] h = refl
count_absent name ((v, n) ∷ c) h = ground (arith, count_absent name c)

-- What holds of a counter and of those of a store holds when the counter is put in.
pub with_bucket-Each :
    (P : Counter → Type 0) (b : Bucket) (c : Counter) (s : MetricsStore)
    → P c
    → ((b' : Bucket) → P (bucket_of b' s))
    → (b' : Bucket) → P (bucket_of b' (with_bucket b c s))
with_bucket-Each P b c s h k b' = elim (Bool-cases (same_bucket b b')) [
  | inl e ↦
      subst (λ x. P (bucket_of x (with_bucket b c s))) (same_bucket→eq b b' e)
        (subst P (sym (bucket_of-with_same b c s)) h)
  | inr e ↦ subst P (sym (bucket_of-with_other b b' c s e)) (k b')
]

pub load_rows-IsNamed :
    (rows : Table) (s : MetricsStore)
    → IsKeyed rows
    → ((b : Bucket) → IsNamed (bucket_of b s))
    → (b : Bucket) → IsNamed (bucket_of b (load_rows rows s))
unfolding load_rows
load_rows-IsNamed [] s h k = k
load_rows-IsNamed ((key, (n, t)) ∷ rows) s ((b', name, p), h) k =
    rw (p, partition-row_key b' name, bucket_by_name-bucket_name b')
      (load_rows-IsNamed rows (load_row (some b') name n s) h (
        with_bucket-Each (λ c. IsNamed c) b' (put (named name) (str name) n (bucket_of b' s)) s
          (put-IsNamed name n (bucket_of b' s) (k b')) k))
