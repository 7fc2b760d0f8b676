-- ===== src/Queue/Consumer.antt =====
-- queue/rabbitmq_consumer.py: `_on_message`, and the consumption of a queue's messages.
use tengen.Prelude.{Bool, true, false, Option, none, some, ok, raised, Done}
use tengen.Value.{Value}
use tengen.Models.Alert.{Alert, AlertCodec}

-- What the consumer tells the broker of a delivery.
pub data Reply : Type 0 where
  ack : Reply
  nack : Bool → Reply

-- The answer to a callback that returned or raised
abbrev pub reply_to : Done → Reply
reply_to (ok _) = ack
reply_to (raised _) = nack true

-- `callback` acts on a state and may raise; what it did before stays done.
module _ {S : Type 0} (codec : AlertCodec) (callback : Alert → S → Done × S) where
  abbrev deliver : Option Alert → S → Reply × S
  deliver none s = (nack false, s)
  deliver (some alert) s = let (r, s') = callback alert s in (reply_to r, s')

  unfoldable pub on_message : Value → S → Reply × S
  on_message body s = deliver (codec.validate body) s
