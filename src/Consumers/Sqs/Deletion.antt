-- ===== src/Consumers/Sqs/Deletion.antt =====
-- consumers/sqs_consumer.py: a message is deleted only when the callback has returned on its alert.
use tengen.Prelude.{
  ◌+◌, String, Bool, true, false, Option, none, some, List, [], ◌∷◌, ◌++◌, ◌≡◌, refl, sym, ap,
  subst, ◌∙◌, ◌⊎◌, inl, inr, Result, ok, raised, Done, arith, get_or, All, value_error, is_ok, IsIn,
  IsIn-append, IsIn-last, All-map, All-append,
}
use tengen.Value.{Value, Fields, str, obj, null, get, get?, bool, int, float, arr}
use tengen.Models.Alert.{Alert}
use tengen.Consumers.Ingestion.{Hooks, Ingest, Call, ingest, ingest-calls}
use tengen.Consumers.Sqs.{
  consume_if, Poll, interrupted, transient_error, messages, SqsConsumer, unwrap, metadata_of,
  load_value, handle_message, handle_all, poll_loop, consume, after_callback, delete_handle,
  delete_of, handle_body,
}

-- The callback has returned on an alert of the message with this receipt.
abbrev pub IsReturned : List Call → Value → Type 0
IsReturned calls handle =
    (alert : Alert) × (get? "receipt_handle" alert.metadata ≡ some handle)
    × IsIn (record { alert = alert; returned = true }) calls

abbrev pub IsSafe : {C : Type 0} → SqsConsumer C → Type 0
IsSafe c = All (IsReturned c.ingested.calls) c.deleted

IsReturned-append :
    (calls more : List Call) (handle : Value)
    → IsReturned calls handle
    → IsReturned (calls ++ more) handle
IsReturned-append calls more handle (alert, p, q) =
    (alert, p, IsIn-append (record { alert = alert; returned = true }) calls more q)

module _ (loads : String → Option Value) {C : Type 0} (h : Hooks C) where
  deleted-IsSafe :
      (faults : List Bool) (handle : Value) (c : SqsConsumer C)
      → IsReturned c.ingested.calls handle
      → IsSafe c
      → IsSafe (delete_of loads h faults handle c).1
  deleted-IsSafe [] handle c p q =
      All-append (IsReturned c.ingested.calls) c.deleted (handle ∷ []) q (p, tt)
  deleted-IsSafe (false ∷ faults) handle c p q =
      All-append (IsReturned c.ingested.calls) c.deleted (handle ∷ []) q (p, tt)
  deleted-IsSafe (true ∷ faults) handle c p q = q

  handle-IsSafe :
      (o : Option Value) (c : SqsConsumer C)
      → ((handle : Value) → o ≡ some handle → IsReturned c.ingested.calls handle)
      → IsSafe c
      → IsSafe (delete_handle loads h o c).1
  handle-IsSafe none c p q = q
  handle-IsSafe (some handle) c p q = deleted-IsSafe c.delete_faults handle c (p handle refl) q

  receipt :
      (msg body : Fields) (alert : Alert) (handle : Value)
      → alert.metadata ≡ metadata_of loads msg body
      → get? "ReceiptHandle" msg ≡ some handle
      → get? "receipt_handle" alert.metadata ≡ some handle
  unfolding get get?
  receipt msg body alert handle p e =
      ap (get? "receipt_handle") p ∙ ap (λ o. some (get_or o null)) e

  after-IsSafe :
      (msg body : Fields) (c : SqsConsumer C) (r : Done × Ingest C)
      → (r.1 ≡ c.ingested) × (r.0 ≡ raised value_error)
        ⊎ ((alert : Alert) × (alert.metadata ≡ metadata_of loads msg body)
            × (r.1.calls ≡ c.ingested.calls ++ record { alert = alert; returned = is_ok r.0 } ∷ []))
      → IsSafe c
      → IsSafe (after_callback loads h msg c r).1
  after-IsSafe msg body c (raised e, s) (inl (p, q)) k =
      subst (λ t. All (IsReturned t.calls) c.deleted) (sym p) k
  after-IsSafe msg body c (raised e, s) (inr (alert, p, q)) k = rw q (
      All-map
        (λ x r.
          IsReturned-append c.ingested.calls (record { alert = alert; returned = false } ∷ []) x r)
        c.deleted k)
  after-IsSafe msg body c (ok x, s) (inl (p, q)) k = ground arith
  after-IsSafe msg body c (ok x, s) (inr (alert, p, q)) k =
      handle-IsSafe (get? "ReceiptHandle" msg) (record c { ingested = s })
        (λ handle e. rw q (
          alert,
          receipt msg body alert handle p e,
          IsIn-last (record { alert = alert; returned = true }) c.ingested.calls,
        ))
        (rw q (
          All-map
            (λ x r.
              IsReturned-append c.ingested.calls (record { alert = alert; returned = true } ∷ []) x
                r)
            c.deleted k))

  body-IsSafe :
      (msg : Fields) (r : Result (Option Value)) (c : SqsConsumer C)
      → IsSafe c
      → IsSafe (handle_body loads h msg r c).1
  body-IsSafe msg (raised e) c k = k
  body-IsSafe msg (ok none) c k = k
  body-IsSafe msg (ok (some (obj body))) c k =
      after-IsSafe msg body c
        (ingest h "sqs" (unwrap loads body) (metadata_of loads msg body) c.ingested)
        (ingest-calls h "sqs" (unwrap loads body) (metadata_of loads msg body) c.ingested) k
  body-IsSafe msg (ok (some (str x))) c k = k
  body-IsSafe msg (ok (some (bool x))) c k = k
  body-IsSafe msg (ok (some (int x))) c k = k
  body-IsSafe msg (ok (some (float x m))) c k = k
  body-IsSafe msg (ok (some (arr x))) c k = k
  body-IsSafe msg (ok (some null)) c k = k

  handle_all-IsSafe :
      (msgs : List Fields) (c : SqsConsumer C) → IsSafe c → IsSafe (handle_all loads h msgs c)
  unfolding handle_all
  handle_all-IsSafe [] c k = k
  handle_all-IsSafe (msg ∷ msgs) c k =
      handle_all-IsSafe msgs (handle_message loads h msg c).1
        (body-IsSafe msg (load_value loads (get "Body" (str "{}") msg)) c k)

  poll_loop-IsSafe :
      (polls : List Poll) (c : SqsConsumer C) → IsSafe c → IsSafe (poll_loop loads h polls c)
  unfolding poll_loop
  poll_loop-IsSafe [] c k = k
  poll_loop-IsSafe (interrupted ∷ polls) c k = k
  poll_loop-IsSafe (transient_error ∷ polls) c k =
      poll_loop-IsSafe polls (record c { backoffs = c.backoffs + 1 }) k
  poll_loop-IsSafe (messages msgs ∷ polls) c k =
      poll_loop-IsSafe polls (handle_all loads h msgs c) (handle_all-IsSafe msgs c k)

  consume_if-IsSafe :
      (b : Bool) (polls : List Poll) (c : SqsConsumer C)
      → IsSafe c
      → IsSafe (consume_if loads h b polls c).1
  consume_if-IsSafe true polls c k = poll_loop-IsSafe polls (record c { running = true }) k
  consume_if-IsSafe false polls c k = k

  -- Whatever is polled and whatever the callback raises, each message that is deleted is one on whose
  -- alert the callback has returned.
  -- However SQS is polled and whatever raises, each receipt that is deleted is named by an alert on
  -- which the callback has returned, if this was so before.
  pub consume-IsSafe :
      (polls : List Poll) (c : SqsConsumer C) → IsSafe c → IsSafe (consume loads h polls c).1
  unfolding consume
  consume-IsSafe polls c k = consume_if-IsSafe c.connected polls c k

  -- What every alert keeps that is made, counted and handed on is kept by a whole run.
  module _ (P : Ingest C → Type 0)
      (keep : (payload : Value) (metadata : Fields) (s : Ingest C)
        → P s
        → P (ingest h "sqs" payload metadata s).1) where
    kept_delete :
        (faults : List Bool) (handle : Value) (c : SqsConsumer C)
        → (delete_of loads h faults handle c).1.ingested ≡ c.ingested
    kept_delete [] handle c = refl
    kept_delete (false ∷ faults) handle c = refl
    kept_delete (true ∷ faults) handle c = refl

    kept_handle :
        (o : Option Value) (c : SqsConsumer C) → (delete_handle loads h o c).1.ingested ≡ c.ingested
    kept_handle none c = refl
    kept_handle (some handle) c = kept_delete c.delete_faults handle c

    kept_after :
        (msg : Fields) (c : SqsConsumer C) (r : Done × Ingest C)
        → P r.1
        → P (after_callback loads h msg c r).1.ingested
    kept_after msg c (raised e, s) k = k
    kept_after msg c (ok x, s) k =
        subst P (sym (kept_handle (get? "ReceiptHandle" msg) (record c { ingested = s }))) k

    kept_body :
        (msg : Fields) (r : Result (Option Value)) (c : SqsConsumer C)
        → P c.ingested
        → P (handle_body loads h msg r c).1.ingested
    kept_body msg (raised e) c k = k
    kept_body msg (ok none) c k = k
    kept_body msg (ok (some (obj body))) c k =
        kept_after msg c
          (ingest h "sqs" (unwrap loads body) (metadata_of loads msg body) c.ingested)
          (keep (unwrap loads body) (metadata_of loads msg body) c.ingested k)
    kept_body msg (ok (some (str x))) c k = k
    kept_body msg (ok (some (bool x))) c k = k
    kept_body msg (ok (some (int x))) c k = k
    kept_body msg (ok (some (float x m))) c k = k
    kept_body msg (ok (some (arr x))) c k = k
    kept_body msg (ok (some null)) c k = k

    kept_all :
        (msgs : List Fields) (c : SqsConsumer C)
        → P c.ingested
        → P (handle_all loads h msgs c).ingested
    unfolding handle_all
    kept_all [] c k = k
    kept_all (msg ∷ msgs) c k =
        kept_all msgs (handle_message loads h msg c).1
          (kept_body msg (load_value loads (get "Body" (str "{}") msg)) c k)

    kept_loop :
        (polls : List Poll) (c : SqsConsumer C)
        → P c.ingested
        → P (poll_loop loads h polls c).ingested
    unfolding poll_loop
    kept_loop [] c k = k
    kept_loop (interrupted ∷ polls) c k = k
    kept_loop (transient_error ∷ polls) c k =
        kept_loop polls (record c { backoffs = c.backoffs + 1 }) k
    kept_loop (messages msgs ∷ polls) c k =
        kept_loop polls (handle_all loads h msgs c) (kept_all msgs c k)

    kept_if :
        (b : Bool) (polls : List Poll) (c : SqsConsumer C)
        → P c.ingested
        → P (consume_if loads h b polls c).1.ingested
    kept_if true polls c k = kept_loop polls (record c { running = true }) k
    kept_if false polls c k = k

    pub consume_keeps :
        (polls : List Poll) (c : SqsConsumer C)
        → P c.ingested
        → P (consume loads h polls c).1.ingested
    unfolding consume
    consume_keeps polls c k = kept_if c.connected polls c k
