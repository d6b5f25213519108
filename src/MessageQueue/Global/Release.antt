-- ===== src/MessageQueue/Global/Release.antt =====
-- The end of a queue: what is left in it is dropped.
use rillserver.Prelude.{◌≡◌, List}
use rillserver.MessageQueue.{SkynetMessage, MessageQueue, mq_pop}
use rillserver.MessageQueue.Fifo.{messages, IsQueue, take_oldest}

-- what a queue with these messages gives
record Popped (q : MessageQueue) (ms : List SkynetMessage) : Type 0 where
  first : (mq_pop q).0 ≡ (take_oldest ms).0
  others : messages (mq_pop q).1 ≡ (take_oldest ms).1
  in_order : IsQueue (mq_pop q).1
