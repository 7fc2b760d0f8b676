-- ===== src/Forwarder/Splunk/Batches.antt =====
-- Where the events go.
use tengen.Prelude.{
  ℕ, ◌≤◌, ◌<◌, Bool, true, false, List, [], ◌∷◌, ◌++◌, ◌≡◌, refl, sym, ap, ◌∙◌, ok, Done,
  if◌then◌else◌, arith, append-nil, append_assoc, length, leb,
}
use tengen.Forwarder.Splunk.{Answer, SplunkClient, Event, flush, send, buffered, flush_buffer, Done}

-- The events of the batches, in order
unfoldable pub events_of : List (List Event × Bool) → List Event
events_of [] = []
events_of ((batch, _) ∷ more) = batch ++ events_of more

-- Every event that the client has been given: those of its batches, then those of its buffer
abbrev pub taken : SplunkClient → List Event
taken c = events_of c.batches ++ c.buffer

events_of-append :
    (bs : List (List Event × Bool)) (batch : List Event) (b : Bool)
    → events_of (bs ++ (batch, b) ∷ []) ≡ events_of bs ++ batch
unfolding events_of
events_of-append [] batch b = append-nil batch
events_of-append ((x, _) ∷ bs) batch b =
    ap (λ t. x ++ t) (events_of-append bs batch b) ∙ sym (append_assoc x (events_of bs) batch)

module _ (answers : ℕ → Answer) where
  flush_buffer-taken :
      (c : SplunkClient) (bs : List Event) → taken (flush_buffer answers c bs).1 ≡ taken c
  flush_buffer-taken c [] = refl
  flush_buffer-taken c (b ∷ bs) = append-nil _ ∙ events_of-append c.batches c.buffer _

  flush-taken : (c : SplunkClient) → taken (flush answers c).1 ≡ taken c
  unfolding flush
  flush-taken c = flush_buffer-taken c c.buffer

  buffered-taken :
      (event : Event) (c : SplunkClient) → taken (buffered event c) ≡ taken c ++ event ∷ []
  buffered-taken event c = sym (append_assoc (events_of c.batches) c.buffer (event ∷ []))

  if-taken :
      (b : Bool) (x y : Done × SplunkClient) (t : List Event)
      → taken x.1 ≡ t
      → taken y.1 ≡ t
      → taken (if b then x else y).1 ≡ t
  if-taken true x y t p q = p
  if-taken false x y t p q = q

  send-taken :
      (event : Event) (c : SplunkClient) → taken (send answers event c).1 ≡ taken c ++ event ∷ []
  unfolding send
  send-taken event c =
      if-taken (leb c.batch_size (length (buffered event c).buffer))
        (flush answers (buffered event c)) (ok tt, buffered event c) _
        (flush-taken (buffered event c) ∙ buffered-taken event c) (buffered-taken event c)

  -- The client after the events are sent one after another, whatever each call raises
  unfoldable pub send_all : List Event → SplunkClient → SplunkClient
  send_all [] c = c
  send_all (e ∷ es) c = send_all es (send answers e c).1

  -- Every event that is sent stands in exactly one batch or in the buffer, in the order of sending:
  -- whatever the server answers, none is posted in two batches.
  pub taken-send_all : (es : List Event) (c : SplunkClient) → taken (send_all es c) ≡ taken c ++ es
  unfolding send_all
  taken-send_all [] c = sym (append-nil (taken c))
  taken-send_all (e ∷ es) c =
      taken-send_all es (send answers e c).1
      ∙ ap (λ t. t ++ es) (send-taken e c)
      ∙ append_assoc (taken c) (e ∷ []) es

  flush_buffer-empty :
      (c : SplunkClient) (bs : List Event)
      → c.buffer ≡ bs
      → length (flush_buffer answers c bs).1.buffer ≡ 0
  flush_buffer-empty c [] e = ap length e
  flush_buffer-empty c (b ∷ bs) e = refl

  -- After a call of send, the buffer holds fewer events than a batch, whatever the server answers,
  -- if a batch is of one event at least.
  pub send-lt :
      (event : Event) (c : SplunkClient)
      → 1 ≤ c.batch_size
      → length (send answers event c).1.buffer < c.batch_size
  unfolding send flush
  send-lt event c h =
      let full = flush_buffer-empty (buffered event c) (buffered event c).buffer refl in
      ground arith
