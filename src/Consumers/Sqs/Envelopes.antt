-- ===== src/Consumers/Sqs/Envelopes.antt =====
-- consumers/sqs_consumer.py: the SNS envelope around a message.
use tengen.Prelude.{String, false, ◌&&◌, Option, some, ◌≡◌, refl}
use tengen.Value.{Value, Fields, str, obj, null, get, get?, has, is_text}
use tengen.Consumers.Sqs.{unwrap}

module _ (loads : String → Option Value) where
  -- A body that is passed on as it is
  abbrev pub IsRaw : Fields → Type 0
  IsRaw fs = (is_text (get "Type" null fs) "Notification" && has "Message" fs) ≡ false

  -- A message that comes in an SNS envelope, as JSON of a dictionary, gives the payload that it gives
  -- when it comes without the envelope.
  pub unwrap-envelope :
      (body fs : Fields) (t : String)
      → get? "Type" body ≡ some (str "Notification")
      → get? "Message" body ≡ some (str t)
      → loads t ≡ some (obj fs)
      → IsRaw fs
      → unwrap loads body ≡ unwrap loads fs
  unfolding unwrap get has is_text
  unwrap-envelope body fs t h k l r = rw (h, k, l, r) refl
