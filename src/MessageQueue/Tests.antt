-- ===== src/MessageQueue/Tests.antt =====
-- Runs of the message queues, and the theorems at concrete inputs.
use rillserver.Prelude.{
  ℕ, ◌≤◌, ◌≡◌, ◌≢◌, refl, arith, none, some, [], ◌∷◌, ltb, ◌==◌, if◌then◌else◌,
}
use rillserver.Prelude.Int.{pos}
use rillserver.MessageQueue.{
  SkynetMessage, MessageQueue, mq_length, mq_pop, put_message, expand_queue,
}
use rillserver.MessageQueue.Fifo.{
  messages, IsQueue, take_oldest, put_message-messages, mq_pop-messages, mq_pop-threshold,
}
use rillserver.MessageQueue.Global.{store, GlobalQueue, globalmq_push, globalmq_pop, mq_push}
use rillserver.Prelude.Distinct.{NotIn}
use rillserver.MessageQueue.Global.Chain.{IsGlobal, globalmq_push-list, globalmq_pop-list}
use rillserver.MessageQueue.Global.Schedule.{IsScheduled, mq_push-IsScheduled}
use rillserver.MessageQueue.Global.Work.{mq_pop-IsScheduled}

abbrev message_of : ℕ → SkynetMessage
message_of n = record { source = n; session = pos 0; payload = 0; sz = 0 }

abbrev memory : ℕ → SkynetMessage
memory i = message_of 0

-- two messages in a ring of three, and a threshold below their number
abbrev loaded : MessageQueue
loaded = record {
  handle = 5;
  cap = 3;
  head = 2;
  tail = 1;
  release = 1;
  in_global = 1;
  overload = 0;
  overload_threshold = 1;
  queue = λ i. message_of i;
  next = none;
}

loaded-IsQueue : IsQueue loaded
loaded-IsQueue = record { head_in = omega arith; tail_in = omega arith; threshold_up = omega arith }

-- The third message fills the ring, which doubles.
doubled : (put_message memory loaded (message_of 9)).cap ≡ 6
unfolding put_message expand_queue
doubled = refl

put_message-messages_example :
    (messages (put_message memory loaded (message_of 9))
      ≡ message_of 2 ∷ message_of 0 ∷ message_of 9 ∷ [])
    × IsQueue (put_message memory loaded (message_of 9))
put_message-messages_example = put_message-messages memory loaded (message_of 9) loaded-IsQueue

mq_pop-messages_example :
    (((mq_pop loaded).0, messages (mq_pop loaded).1) ≡ take_oldest (messages loaded))
    × IsQueue (mq_pop loaded).1
mq_pop-messages_example = mq_pop-messages loaded loaded-IsQueue

mq_pop-threshold_example :
    let q' = (mq_pop loaded).1 in
    (mq_length q' ≤ q'.overload_threshold)
    × (q'.overload ≡ (if ltb 1 (mq_length q') then mq_length q' else 0))
mq_pop-threshold_example = mq_pop-threshold loaded loaded-IsQueue λ e. omega arith

abbrev empty_queue : MessageQueue
empty_queue = record loaded { head = 0; tail = 0; release = 0 }

-- Two queues wait, the one at 1 is idle, and a worker holds the one at 5.
abbrev some_queues : ℕ → MessageQueue
some_queues a =
    if a == 1
    then record empty_queue { in_global = 0 }
    else if a == 2
    then record empty_queue { next = some 3 }
    else if a == 5
    then loaded
    else empty_queue

abbrev two_waiting : GlobalQueue
two_waiting = record { head = some 2; tail = some 3; queues = some_queues }

two_waiting-IsGlobal : IsGlobal two_waiting (2 ∷ 3 ∷ [])
two_waiting-IsGlobal = record {
  linked = (refl, (refl, refl));
  ends = refl;
  distinct = (((λ e. omega arith), tt), (tt, tt));
  others = λ a out. ground arith;
}

one_out : NotIn 1 (2 ∷ 3 ∷ [])
one_out = ((λ e. omega arith), ((λ e. omega arith), tt))

two_waiting-IsScheduled : IsScheduled two_waiting (2 ∷ 3 ∷ [])
two_waiting-IsScheduled = record { chain = two_waiting-IsGlobal; idle = λ a z. ground arith }

globalmq_push-list_example :
    (g' : GlobalQueue) × (globalmq_push two_waiting 1 ≡ some g') × IsGlobal g' (2 ∷ 3 ∷ 1 ∷ [])
globalmq_push-list_example =
    globalmq_push-list two_waiting 1 (2 ∷ 3 ∷ []) two_waiting-IsGlobal one_out

globalmq_pop-list_example :
    (g' : GlobalQueue) × (globalmq_pop two_waiting ≡ some (some 2, g')) × IsGlobal g' (3 ∷ [])
globalmq_pop-list_example = globalmq_pop-list two_waiting (2 ∷ 3 ∷ []) two_waiting-IsGlobal

mq_push-IsScheduled_example :
    (g' : GlobalQueue) × (mq_push memory two_waiting 1 (message_of 9) ≡ some g')
    × (messages (g'.queues 1) ≡ message_of 9 ∷ [])
    × ((b : ℕ) → 1 ≢ b → messages (g'.queues b) ≡ messages (two_waiting.queues b))
    × IsScheduled g' (2 ∷ 3 ∷ 1 ∷ [])
mq_push-IsScheduled_example =
    mq_push-IsScheduled memory two_waiting 1 (message_of 9) (2 ∷ 3 ∷ []) two_waiting-IsScheduled
      (record { head_in = omega arith; tail_in = omega arith; threshold_up = omega arith })

mq_pop-IsScheduled_example :
    IsScheduled (store two_waiting 5 (mq_pop (some_queues 5)).1) (2 ∷ 3 ∷ [])
mq_pop-IsScheduled_example =
    mq_pop-IsScheduled two_waiting 5 (2 ∷ 3 ∷ []) two_waiting-IsScheduled loaded-IsQueue
      ((λ e. omega arith), ((λ e. omega arith), tt))
