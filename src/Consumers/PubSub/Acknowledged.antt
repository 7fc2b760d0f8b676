-- ===== src/Consumers/PubSub/Acknowledged.antt =====
-- consumers/pubsub_consumer.py: which messages are acknowledged.
use tengen.Prelude.{
  String, Bool, true, false, Option, none, some, List, [], ◌∷◌, ◌++◌, ◌≡◌, refl, sym, ap, subst,
  ◌∙◌, ◌⊎◌, inl, inr, ok, raised, Done, arith, append-nil, append_assoc, All, value_error, is_ok,
  IsIn, IsIn-append, IsIn-last, All-map, All-append,
}
use tengen.Value.{Value, obj}
use tengen.Models.Alert.{Alert}
use tengen.Consumers.Ingestion.{Hooks, Ingest, Call, ingest, ingest-called}
use tengen.Consumers.PubSub.{
  Received, Pull, interrupted, pull_error, received, PubSubConsumer, metadata_of, process_payload,
  process, process_all, ack_if, acknowledge_with, acknowledge, handle_pull, pull_loop, obj,
}

-- The messages of the pulls
abbrev pub messages_of : List Pull → List Received
messages_of [] = []
messages_of (interrupted ∷ pulls) = messages_of pulls
messages_of (pull_error ∷ pulls) = messages_of pulls
messages_of (received ms ∷ pulls) = ms ++ messages_of pulls

-- Of one of the messages, which has this id, the callback has returned on the alert that holds its
-- payload and its metadata.
abbrev pub IsReturned : (String → Option Value) → List Received → List Call → String → Type 0
IsReturned loads pool calls id =
    (m : Received) × (alert : Alert) × IsIn m pool
    × (m.ack_id ≡ id)
    × (loads m.data_text ≡ some (obj alert.raw_payload))
    × (alert.metadata ≡ metadata_of m)
    × IsIn (record { alert = alert; returned = true }) calls

-- Calls are added only.
abbrev Extends : List Call → List Call → Type 0
Extends calls calls' = (more : List Call) × (calls' ≡ calls ++ more)

Extends-trans : (a b c : List Call) → Extends a b → Extends b c → Extends a c
Extends-trans a b c (m, p) (n, q) = (m ++ n, q ∙ ap (λ l. l ++ n) p ∙ append_assoc a m n)

module _ (loads : String → Option Value) (pool : List Received) where
  abbrev pub IsSafe : {C : Type 0} → PubSubConsumer C → Type 0
  IsSafe c = All (IsReturned loads pool c.ingested.calls) c.acknowledged

  IsReturned-append :
      (calls more : List Call) (id : String)
      → IsReturned loads pool calls id
      → IsReturned loads pool (calls ++ more) id
  IsReturned-append calls more id (m, alert, i, p, l, q, r) =
      (m, alert, i, p, l, q, IsIn-append (record { alert = alert; returned = true }) calls more r)

  All-Extends :
      (a b : List Call) (ids : List String)
      → Extends a b
      → All (IsReturned loads pool a) ids
      → All (IsReturned loads pool b) ids
  All-Extends a b ids (m, p) h =
      All-map (λ id r. subst (λ l. IsReturned loads pool l id) (sym p) (IsReturned-append a m id r))
        ids h

-- Every element is in its list.
IsIn-cons : {A : Type 0} (x y : A) (xs : List A) → IsIn x xs → IsIn x (y ∷ xs)
IsIn-cons x y xs (before, after, e) = (y ∷ before, after, ap (λ l. y ∷ l) e)

All-members : {A : Type 0} (xs : List A) → All (λ x. IsIn x xs) xs
All-members [] = tt
All-members (x ∷ xs) = (([], xs, refl), All-map (λ y i. IsIn-cons y x xs i) xs (All-members xs))

All-split : {A : Type 0} (P : A → Type 0) (xs ys : List A) → All P (xs ++ ys) → All P xs × All P ys
All-split P [] ys h = (tt, h)
All-split P (x ∷ xs) ys (p, h) = let (a, b) = All-split P xs ys h in ((p, a), b)

module _ (loads : String → Option Value) (pool : List Received) {C : Type 0} (h : Hooks C) where
  made :
      (m : Received) (s : Ingest C) (r : Done × Ingest C)
      → IsIn m pool
      → (payload : Value) → loads m.data_text ≡ some payload
      → (r.1 ≡ s) × (r.0 ≡ raised value_error)
        ⊎ ((alert : Alert) × (alert.metadata ≡ metadata_of m)
            × (payload ≡ obj alert.raw_payload)
            × (r.1.calls ≡ s.calls ++ record { alert = alert; returned = is_ok r.0 } ∷ []))
      → Extends s.calls r.1.calls × All (IsReturned loads pool r.1.calls) (ack_if loads h m r.0)
  made m s (raised e, s') i v l (inl (p, q)) =
      (([], ap (λ t. t.calls) p ∙ sym (append-nil s.calls)), tt)
  made m s (raised e, s') i v l (inr (alert, p, y, q)) =
      ((record { alert = alert; returned = false } ∷ [], q), tt)
  made m s (ok x, s') i v l (inl (p, q)) = ground arith
  made m s (ok x, s') i v l (inr (alert, p, y, q)) = (
    (record { alert = alert; returned = true } ∷ [], q),
    (
      (
        m,
        alert,
        i,
        refl,
        l ∙ ap some y,
        p,
        subst (λ k. IsIn (record { alert = alert; returned = true }) k) (sym q)
            (IsIn-last (record { alert = alert; returned = true }) s.calls),
      ),
      tt,
    ),
  )

  payload-Extends :
      (m : Received) (o : Option Value) (s : Ingest C)
      → IsIn m pool
      → loads m.data_text ≡ o
      → Extends s.calls (process_payload loads h m o s).1.calls
        × All
            (IsReturned loads pool (process_payload loads h m o s).1.calls)
            (ack_if loads h m (process_payload loads h m o s).0)
  payload-Extends m none s i l = (([], sym (append-nil s.calls)), tt)
  payload-Extends m (some payload) s i l =
      made m s (ingest h "pubsub" payload (metadata_of m) s) i payload l
        (ingest-called h "pubsub" payload (metadata_of m) s)

  process_all-Extends :
      (ms : List Received) (s : Ingest C)
      → All (λ m. IsIn m pool) ms
      → Extends s.calls (process_all loads h ms s).1.calls
        × All
            (IsReturned loads pool (process_all loads h ms s).1.calls)
            (process_all loads h ms s).0
  unfolding process_all
  process_all-Extends [] s a = (([], sym (append-nil s.calls)), tt)
  process_all-Extends (m ∷ ms) s (i, a) =
      let s' = (process loads h m s).1 in
      let end = (process_all loads h ms s').1 in
      let (x, p) = payload-Extends m (loads m.data_text) s i refl in
      let (y, q) = process_all-Extends ms s' a in
      (
        Extends-trans s.calls s'.calls end.calls x y,
        All-append (IsReturned loads pool end.calls) (ack_if loads h m (process loads h m s).0)
            (process_all loads h ms s').0
            (All-Extends loads pool s'.calls end.calls (ack_if loads h m (process loads h m s).0) y
              p)
            q,
      )

  with-IsSafe :
      (faults : List Bool) (ids : List String) (c : PubSubConsumer C)
      → IsSafe loads pool c
      → All (IsReturned loads pool c.ingested.calls) ids
      → IsSafe loads pool (acknowledge_with loads h faults ids c).1
  with-IsSafe [] ids c k r =
      All-append (IsReturned loads pool c.ingested.calls) c.acknowledged ids k r
  with-IsSafe (false ∷ faults) ids c k r =
      All-append (IsReturned loads pool c.ingested.calls) c.acknowledged ids k r
  with-IsSafe (true ∷ faults) ids c k r = k

  acknowledge-IsSafe :
      (ids : List String) (c : PubSubConsumer C)
      → IsSafe loads pool c
      → All (IsReturned loads pool c.ingested.calls) ids
      → IsSafe loads pool (acknowledge loads h ids c).1
  acknowledge-IsSafe [] c k r = k
  acknowledge-IsSafe (id ∷ ids) c k r = with-IsSafe c.acknowledge_faults (id ∷ ids) c k r

  pull-IsSafe :
      (ms : List Received) (c : PubSubConsumer C)
      → All (λ m. IsIn m pool) ms
      → IsSafe loads pool c
      → IsSafe loads pool (handle_pull loads h ms c).1
  pull-IsSafe ms c a k =
      let (x, p) = process_all-Extends ms c.ingested a in
      let s = (process_all loads h ms c.ingested).1 in
      acknowledge-IsSafe (process_all loads h ms c.ingested).0 (record c { ingested = s })
        (All-Extends loads pool c.ingested.calls s.calls c.acknowledged x k) p

  stopped-IsSafe :
      (r : Done) (c c' : PubSubConsumer C) (rest : Done × PubSubConsumer C)
      → IsSafe loads pool c
      → IsSafe loads pool rest.1
      → IsSafe loads pool
          (elim r as (λ x. Done × PubSubConsumer C) [ ok x ↦ rest | raised e ↦ (raised e, c) ]).1
  stopped-IsSafe (ok x) c c' rest k l = l
  stopped-IsSafe (raised e) c c' rest k l = k

  loop-IsSafe :
      (pulls : List Pull) (c : PubSubConsumer C)
      → All (λ m. IsIn m pool) (messages_of pulls)
      → IsSafe loads pool c
      → IsSafe loads pool (pull_loop loads h pulls c).1
  unfolding pull_loop
  loop-IsSafe [] c a k = k
  loop-IsSafe (interrupted ∷ pulls) c a k = k
  loop-IsSafe (pull_error ∷ pulls) c a k = loop-IsSafe pulls c a k
  loop-IsSafe (received ms ∷ pulls) c a k =
      let c' = (handle_pull loads h ms c).1 in
      let (here, later) = All-split (λ m. IsIn m pool) ms (messages_of pulls) a in
      let k' = pull-IsSafe ms c here k in
      stopped-IsSafe (handle_pull loads h ms c).0 c' c' (pull_loop loads h pulls c') k'
        (loop-IsSafe pulls c' later k')

-- Whatever is pulled by a consumer that has acknowledged nothing yet, and whatever raises, each id
-- that is acknowledged is the one of a message of the pulls on whose alert, with the payload and the
-- metadata of that message, the callback has returned.
pub pull_loop-IsSafe :
    (loads : String → Option Value) {C : Type 0} (h : Hooks C) (pulls : List Pull)
    (c : PubSubConsumer C)
    → c.acknowledged ≡ []
    → IsSafe loads (messages_of pulls) (pull_loop loads h pulls c).1
pull_loop-IsSafe loads h pulls c e =
    loop-IsSafe loads (messages_of pulls) h pulls c (All-members (messages_of pulls)) (rw e tt)
