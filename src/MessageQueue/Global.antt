-- ===== src/MessageQueue/Global.antt =====
-- skynet/skynet-src/skynet_mq.c: the global queue, a list of the message queues that wait for a
-- worker thread. A `struct message_queue *` is an address in the store `queues`; the result is none
-- where an assertion fails.
pub mod Chain
pub mod Schedule
pub mod Work
pub mod Release
use rillserver.Prelude.{
  ℕ, zero, suc, Bool, true, false, Option, none, some, List, [], ◌∷◌, ◌==◌, if◌then◌else◌,
}
use rillserver.Prelude.Ring.{update}
use rillserver.MessageQueue.{
  SkynetMessage, MessageQueue, mq_in_global, mq_length, mq_pop, put_message,
}

pub record GlobalQueue : Type 0 where
  pub head : Option ℕ
  pub tail : Option ℕ
  pub queues : ℕ → MessageQueue

-- a write through the pointer `a`
abbrev pub store : GlobalQueue → ℕ → MessageQueue → GlobalQueue
store g a q = record g { queues = update g.queues a q }

-- `skynet_mq_init`, with the store as it is
unfoldable pub mq_init : (ℕ → MessageQueue) → GlobalQueue
mq_init queues = record { head = none; tail = none; queues = queues }

unfoldable pub globalmq_push : GlobalQueue → ℕ → Option GlobalQueue
globalmq_push g a = elim (g.queues a).next [
  | some _ ↦ none
  | none ↦ elim g.tail [
    | none ↦ some (record g { head = some a; tail = some a })
    | some t ↦ some (record (store g t (record (g.queues t) { next = some a })) { tail = some a })
  ]
]

abbrev is_at : Option ℕ → ℕ → Bool
is_at none a = false
is_at (some t) a = t == a

unfoldable pub globalmq_pop : GlobalQueue → Option (Option ℕ × GlobalQueue)
globalmq_pop g = elim g.head [
  | none ↦ some (none, g)
  | some a ↦
      let g' = store g a (record (g.queues a) { next = none }) in
      elim (g.queues a).next [
        | none ↦
            if is_at g.tail a then some (some a, record g' { head = none; tail = none }) else none
        | some b ↦ some (some a, record g' { head = some b })
      ]
]

-- `skynet_mq_push`
unfoldable pub mq_push : (ℕ → SkynetMessage) → GlobalQueue → ℕ → SkynetMessage → Option GlobalQueue
mq_push memory g a message =
    let q = put_message memory (g.queues a) message in
    if q.in_global == 0
    then globalmq_push (store g a (record q { in_global = mq_in_global })) a
    else some (store g a q)

-- `skynet_mq_mark_release`
unfoldable pub mq_mark_release : GlobalQueue → ℕ → Option GlobalQueue
mq_mark_release g a =
    let q = g.queues a in
    let g' = store g a (record q { release = 1 }) in
    if q.release == 0
    then (if q.in_global == mq_in_global then some g' else globalmq_push g' a)
    else none

-- The loop of `_drop_queue`: the messages that `drop_func` gets, and the queue after it.
unfoldable pub drop_queue : ℕ → MessageQueue → List SkynetMessage × MessageQueue
drop_queue zero q = ([], q)
drop_queue (suc fuel) q = elim (mq_pop q).0 [
  | none ↦ ([], (mq_pop q).1)
  | some m ↦ let later = drop_queue fuel (mq_pop q).1 in (m ∷ later.0, later.1)
]

-- `skynet_mq_release`: the messages that were dropped. The memory of a queue that is freed stays as
-- the loop left it.
unfoldable pub mq_release : GlobalQueue → ℕ → Option (List SkynetMessage × GlobalQueue)
mq_release g a =
    let q = g.queues a in
    let (dropped, q') = drop_queue (suc (mq_length q)) q in
    if q.release == 0
    then elim (globalmq_push g a) [ none ↦ none | some g' ↦ some ([], g') ]
    else elim q'.next [ some _ ↦ none | none ↦ some (dropped, store g a q') ]
