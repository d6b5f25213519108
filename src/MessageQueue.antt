-- ===== src/MessageQueue.antt =====
-- skynet/skynet-src/skynet_mq.c: the queue of messages that each service has. The functions
-- that push and pop hold the spin lock of the queue, and each function is one step here. `skynet_mq_` is `mq_`.
pub mod Fifo
pub mod Global
mod Tests
use rillserver.Prelude.{
  ℕ, zero, suc, ◌+◌, ◌-◌, ◌*◌, ◌%◌, Option, none, some, List, [], ◌∷◌, ltb, leb, ◌==◌,
  if◌then◌else◌,
}
use rillserver.Prelude.Int.{ℤ}
use rillserver.Prelude.Ring.{update}

abbrev pub default_queue_size : ℕ
default_queue_size = 64

abbrev pub mq_in_global : ℕ
mq_in_global = 1

abbrev pub mq_overload_limit : ℕ
mq_overload_limit = 1024

-- `data` is an address.
pub record SkynetMessage : Type 0 where
  pub source : ℕ
  pub session : ℤ
  pub payload : ℕ
  pub sz : ℕ

-- `queue` is a function of the index. The lock is left out.
pub record MessageQueue : Type 0 where
  pub handle : ℕ
  pub cap : ℕ
  pub head : ℕ
  pub tail : ℕ
  pub release : ℕ
  pub in_global : ℕ
  pub overload : ℕ
  pub overload_threshold : ℕ
  pub queue : ℕ → SkynetMessage
  pub next : Option ℕ

-- `skynet_mq_create`. What the new array holds is not set: it is a parameter.
unfoldable pub mq_create : (ℕ → SkynetMessage) → ℕ → MessageQueue
mq_create memory handle = record {
  handle = handle;
  cap = default_queue_size;
  head = 0;
  tail = 0;
  release = 0;
  in_global = mq_in_global;
  overload = 0;
  overload_threshold = mq_overload_limit;
  queue = memory;
  next = none;
}

unfoldable pub mq_length : MessageQueue → ℕ
mq_length q = if leb q.head q.tail then q.tail - q.head else q.tail + q.cap - q.head

unfoldable pub mq_overload : MessageQueue → ℕ × MessageQueue
mq_overload q = if q.overload == 0 then (0, q) else (q.overload, record q { overload = 0 })

-- `while (length > q->overload_threshold)` in `skynet_mq_pop`
unfoldable pub raise_threshold : ℕ → ℕ → MessageQueue → MessageQueue
raise_threshold zero length q = q
raise_threshold (suc fuel) length q =
    let later =
      raise_threshold fuel length
        (record q { overload = length; overload_threshold = q.overload_threshold * 2 }) in
    if ltb q.overload_threshold length then later else q

-- `skynet_mq_pop`: the message, or none for the result 1.
unfoldable pub mq_pop : MessageQueue → Option SkynetMessage × MessageQueue
mq_pop q =
    let h = if leb q.cap (q.head + 1) then 0 else q.head + 1 in
    let length = if ltb q.tail h then q.tail + q.cap - h else q.tail - h in
    if q.head == q.tail
    then (none, record q { overload_threshold = mq_overload_limit; in_global = 0 })
    else (some (q.queue q.head), raise_threshold length length (record q { head = h }))

-- `expand_queue`; `memory` is what the second half of the new array holds.
unfoldable pub expand_queue : (ℕ → SkynetMessage) → MessageQueue → MessageQueue
expand_queue memory q = record q {
  head = 0;
  tail = q.cap;
  cap = q.cap * 2;
  queue = λ i. if ltb i q.cap then q.queue ((q.head + i) % q.cap) else memory i;
}

-- `skynet_mq_push` up to the test of `in_global`
unfoldable pub put_message : (ℕ → SkynetMessage) → MessageQueue → SkynetMessage → MessageQueue
put_message memory q message =
    let q' = record q {
      tail = if leb q.cap (q.tail + 1) then 0 else q.tail + 1;
      queue = update q.queue q.tail message;
    } in
    if q'.head == q'.tail then expand_queue memory q' else q'
