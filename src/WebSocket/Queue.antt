-- ===== src/WebSocket/Queue.antt =====
-- `struct queue`: the ring of complete packs, and the chains of incomplete ones. The Lua value at
-- stack index 1 is `none` until `get_queue` makes it.
pub mod Fifo
use rillserver.Prelude.{
  ℕ, ◌+◌, ◌-◌, ◌%◌, Bool, Option, none, some, List, [], ltb, leb, ◌==◌, if◌then◌else◌,
}
use rillserver.Prelude.Int.{ℤ}
use rillserver.Prelude.Ring.{update}

abbrev pub queuesize : ℕ
queuesize = 1024

abbrev pub hashsize : ℕ
hashsize = 4096

-- `buffer` holds the `size` bytes that it points to.
pub record Netpack : Type 0 where
  pub id : ℕ
  pub size : ℕ
  pub buffer : List ℕ

-- `struct uncomplete`. Of `pack.buffer` and `header` the model keeps the bytes written so far;
-- `header_size` is the number of those of `header`. `next` is the rest of the list it is in.
pub record Uncomplete : Type 0 where
  pub pack : Netpack
  pub header : List ℕ
  pub read : ℤ
  pub mask : List ℕ
  pub ismask : Bool
  pub hasunmask_size : ℕ

-- Both arrays are functions of the index.
pub record Queue : Type 0 where
  pub cap : ℕ
  pub head : ℕ
  pub tail : ℕ
  pub hash : ℕ → List Uncomplete
  pub queue : ℕ → Netpack

abbrev pub blank : Netpack
blank = record { id = 0; size = 0; buffer = [] }

abbrev pub fresh : Queue
fresh = record { cap = queuesize; head = 0; tail = 0; hash = λ _. []; queue = λ _. blank }

unfoldable pub get_queue : Option Queue → Queue
get_queue none = fresh
get_queue (some q) = q

-- The new array has `cap + QUEUESIZE` slots. The old queue is left empty, and is no longer
-- reachable from the stack.
unfoldable pub expand_queue : Queue → Queue
expand_queue q = record {
  cap = q.cap + queuesize;
  head = 0;
  tail = q.cap;
  hash = q.hash;
  queue = λ i. if ltb i q.cap then q.queue ((q.head + i) % q.cap) else blank;
}

-- `push_data`. Whether the bytes are cloned first makes no difference to the values.
unfoldable pub push_data : Option Queue → ℕ → List ℕ → ℕ → Queue
push_data stack fd buffer size =
    let q = get_queue stack in
    let np : Netpack = record { id = fd; size = size; buffer = buffer } in
    let t = if leb q.cap (q.tail + 1) then q.tail + 1 - q.cap else q.tail + 1 in
    let q' = record q { tail = t; queue = update q.queue q.tail np } in
    if q'.head == q'.tail then expand_queue q' else q'

-- `lpop`
unfoldable pub pop : Option Queue → Option Netpack × Option Queue
pop none = (none, none)
pop (some q) = if q.head == q.tail then (none, some q) else (
  some (q.queue q.head),
  some (record q { head = if leb q.cap (q.head + 1) then 0 else q.head + 1 }),
)
