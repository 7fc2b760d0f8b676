-- ===== src/Metrics/Store/Counting.antt =====
-- What any run of messages comes to: each counter is a tally of the messages that name it.
use tengen.Prelude.{
  ℕ, ◌+◌, String, Bool, false, ◌&&◌, Option, none, some, List, [], ◌∷◌, ◌≡◌, refl, ap, ◌∙◌, ◌⊎◌,
  inl, inr, Result, ok, raised, Done, ◌>>=◌, if◌then◌else◌, arith, Bool-cases, Error,
}
use tengen.Value.{Value, str, obj, get, get_in, is_text, empty_obj, bool, int, float, arr, null}
use tengen.Metrics.Store.Targets.{event_of, field_of, target-Targets}
use tengen.Metrics.Store.Buckets.{same_bucket, count-with_bucket, same_bucket→eq}
use tengen.Queue.Consumer.{ack, nack}
use tengen.Metrics.Store.{
  reply_to, Counter, Bucket, MetricsStore, count, put, bucket_of, target_counter, record_event,
  on_message, drain, stored, record_target, increment,
}
use tengen.Metrics.Store.Keys.{
  Key, key_of, is_key, same, is_under, is_key-key_of, is_key-same, same_iff,
}

pub count-put :
    (j k : Key) (v : Value) (n : ℕ) (c : Counter)
    → key_of v ≡ ok k
    → count j (put k v n c) ≡ (if same j k then n else count j c)
unfolding count put
count-put j k v n [] h = ground (arith, is_key-key_of j k v h)
count-put j k v n ((w, m) ∷ c) h = elim (Bool-cases (is_key k w)) [
  | inl p ↦ rw (p, is_key-same j k w p) (ground arith)
  | inr p ↦ rw p (elim (Bool-cases (same j k)) [
    | inl q ↦
        rw (q, ap (λ i. is_key i w) ((same_iff j k).0 q) ∙ p) (count-put j k v n c h ∙ rw q refl)
    | inr q ↦ ground (arith, count-put j k v n c h)
  ])
]

-- The key that the data of an event names in a counter
abbrev pub names : Bucket → Key → Value → Bool
names b k (obj fs) = is_key k (get (field_of b) (str "unknown") fs)
names b k _ = false

-- A message counts in a counter under a key, when it is of the counter's event and names the key.
abbrev pub counts : Bucket → Key → Option Value → Bool
counts b k (some (obj msg)) =
    is_text (get "event" (str "") msg) (event_of b) && names b k (get "data" empty_obj msg)
counts b k _ = false

abbrev pub tally : Bucket → Key → List (Option Value) → ℕ
tally b k [] = 0
tally b k (m ∷ ms) = (if counts b k m then 1 else 0) + tally b k ms

bumped :
    (b₀ b : Bucket) (k j : Key) (s : MetricsStore)
    → (if same_bucket b₀ b
        then if same k j then count j (bucket_of b₀ s) + 1 else count k (bucket_of b₀ s)
        else count k (bucket_of b s))
      ≡ count k (bucket_of b s) + (if same_bucket b₀ b && same k j then 1 else 0)
bumped b₀ b k j s = elim (Bool-cases (same_bucket b₀ b)) [
  | inl p ↦ rw (p, same_bucket→eq b₀ b p) (ground (arith, same_iff k j))
  | inr p ↦ rw p (ground arith)
]

increment-counts :
    (b₀ b : Bucket) (k : Key) (v : Value) (s : MetricsStore) (r : Result Key)
    → key_of v ≡ r
    → count k (bucket_of b (stored b₀ s (increment v 1 (bucket_of b₀ s))).1)
      ≡ count k (bucket_of b s) + (if same_bucket b₀ b && is_under k r then 1 else 0)
unfolding increment
increment-counts b₀ b k v s (raised e) h = rw h (ground arith)
increment-counts b₀ b k v s (ok j) h =
    rw
      (
        h,
        count-with_bucket b₀ b k (put j v (count j (bucket_of b₀ s) + 1) (bucket_of b₀ s)) s,
        count-put k j v (count j (bucket_of b₀ s) + 1) (bucket_of b₀ s) h,
      )
      (bumped b₀ b k j s)

record_target-counts :
    (b₀ b : Bucket) (k : Key) (fields : Value) (s : MetricsStore)
    → count k (bucket_of b (record_target (some (b₀, field_of b₀)) fields s).1)
      ≡ count k (bucket_of b s) + (if same_bucket b₀ b && names b₀ k fields then 1 else 0)
unfolding get_in is_key
record_target-counts b₀ b k (obj fs) s =
    let v = get (field_of b₀) (str "unknown") fs in increment-counts b₀ b k v s (key_of v) refl
record_target-counts b₀ b k (str x) s = ground arith
record_target-counts b₀ b k (bool x) s = ground arith
record_target-counts b₀ b k (int x) s = ground arith
record_target-counts b₀ b k (float x m) s = ground arith
record_target-counts b₀ b k (arr x) s = ground arith
record_target-counts b₀ b k null s = ground arith

same_names :
    (b₀ b : Bucket) (k : Key) (fields : Value) (n : ℕ)
    → n + (if same_bucket b₀ b && names b₀ k fields then 1 else 0)
      ≡ n + (if same_bucket b₀ b && names b k fields then 1 else 0)
same_names b₀ b k fields n = elim (Bool-cases (same_bucket b₀ b)) [
  | inl p ↦ rw (same_bucket→eq b₀ b p) refl
  | inr p ↦ rw p refl
]

reply_to-store : (r : Done × MetricsStore) → (reply_to r).1 ≡ r.1
reply_to-store (ok x, s) = refl
reply_to-store (raised e, s) = refl

pub record_event-counts :
    (b : Bucket) (k : Key) (e fields : Value) (s : MetricsStore)
    → count k (bucket_of b (record_event e fields s).1)
      ≡ count k (bucket_of b s) + (if is_text e (event_of b) && names b k fields then 1 else 0)
unfolding record_event
record_event-counts b k e fields s = elim (target-Targets e) [
  | inl (p, q) ↦ rw (p, q b) (ground arith)
  | inr (b₀, p, q) ↦
      rw (p, q b)
        (record_target-counts b₀ b k fields s ∙ same_names b₀ b k fields (count k (bucket_of b s)))
]

-- A message counts in every counter as its event and its data say, and nowhere else.
on_message-counts :
    (b : Bucket) (k : Key) (m : Option Value) (s : MetricsStore)
    → count k (bucket_of b (on_message m s).1)
      ≡ count k (bucket_of b s) + (if counts b k m then 1 else 0)
unfolding on_message
on_message-counts b k none s = ground arith
on_message-counts b k (some (obj msg)) s =
    ap (λ t. count k (bucket_of b t))
      (reply_to-store (record_event (get "event" (str "") msg) (get "data" empty_obj msg) s))
    ∙ record_event-counts b k (get "event" (str "") msg) (get "data" empty_obj msg) s
on_message-counts b k (some (str x)) s = ground arith
on_message-counts b k (some (bool x)) s = ground arith
on_message-counts b k (some (int x)) s = ground arith
on_message-counts b k (some (float x m)) s = ground arith
on_message-counts b k (some (arr x)) s = ground arith
on_message-counts b k (some null) s = ground arith

-- After any messages, whatever they hold and in whatever order, each counter holds for each key what
-- it held before and one for each message that counts in it under the key.
pub drain-counts :
    (b : Bucket) (k : Key) (ms : List (Option Value)) (s : MetricsStore)
    → count k (bucket_of b (drain ms s).1) ≡ count k (bucket_of b s) + tally b k ms
unfolding drain
drain-counts b k [] s = omega arith
drain-counts b k (m ∷ ms) s =
    omega (arith, on_message-counts b k m s, drain-counts b k ms (on_message m s).1)

stored-raised :
    (b : Bucket) (s : MetricsStore) (r : Result Counter)
    → ((stored b s r).0 ≡ ok tt) ⊎ ((e : Error) × (stored b s r ≡ (raised e, s)))
stored-raised b s (ok c) = inl refl
stored-raised b s (raised e) = inr (e, refl)

target-raised :
    (o : Option (Bucket × String)) (fields : Value) (s : MetricsStore)
    → ((record_target o fields s).0 ≡ ok tt)
      ⊎ ((e : Error) × (record_target o fields s ≡ (raised e, s)))
target-raised none fields s = inl refl
target-raised (some (b, name)) fields s =
    stored-raised b s (get_in fields name (str "unknown") >>= λ v. increment v 1 (bucket_of b s))

record_event-raised :
    (e fields : Value) (s : MetricsStore)
    → ((record_event e fields s).0 ≡ ok tt)
      ⊎ ((x : Error) × (record_event e fields s ≡ (raised x, s)))
unfolding record_event
record_event-raised e fields s = target-raised (target_counter e) fields s

replied :
    (r : Done × MetricsStore) (s : MetricsStore)
    → (r.0 ≡ ok tt) ⊎ ((x : Error) × (r ≡ (raised x, s)))
    → ((reply_to r).0 ≡ ack) ⊎ (reply_to r ≡ (nack false, s))
replied (ok x, s') s h = inl refl
replied (raised e, s') s (inl h) = ground arith
replied (raised e, s') s (inr (x, h)) = inr (ap (λ r. (nack false, r.1)) h)

-- Every message is acknowledged, or it is refused, not put back into the queue, and the counters
-- are as they were.
pub on_message-replies :
    (m : Option Value) (s : MetricsStore)
    → ((on_message m s).0 ≡ ack) ⊎ (on_message m s ≡ (nack false, s))
unfolding on_message
on_message-replies none s = inr refl
on_message-replies (some (obj msg)) s =
    let e = get "event" (str "") msg in
    let fields = get "data" empty_obj msg in
    replied (record_event e fields s) s (record_event-raised e fields s)
on_message-replies (some (str x)) s = inr refl
on_message-replies (some (bool x)) s = inr refl
on_message-replies (some (int x)) s = inr refl
on_message-replies (some (float x m)) s = inr refl
on_message-replies (some (arr x)) s = inr refl
on_message-replies (some null) s = inr refl
