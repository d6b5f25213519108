-- ===== src/MessageQueue/Global/Work.antt =====
-- A worker takes a message from the queue that it took out of the global queue.
use rillserver.Prelude.{ℕ, ◌≡◌, subst, List, [], ◌==◌, ==_iff, Bool-cases, inl, inr}
use rillserver.Prelude.Ring.{update}
use rillserver.MessageQueue.{mq_pop}
use rillserver.MessageQueue.Fifo.{messages, IsQueue, mq_pop-next, mq_pop-in_global}
use rillserver.MessageQueue.Global.{GlobalQueue, store}
use rillserver.Prelude.Distinct.{NotIn}
use rillserver.MessageQueue.Global.Schedule.{IsScheduled, store-IsGlobal}

-- `skynet_mq_pop` on a queue that a worker holds, out of the global queue and with its indices in
-- range and its threshold 1 at least, keeps the rule of the scheduling: a queue that is not flagged has no message and is not in
-- the global queue.
pub mq_pop-IsScheduled :
    (g : GlobalQueue) (a : ℕ) (xs : List ℕ)
    → IsScheduled g xs
    → IsQueue (g.queues a)
    → NotIn a xs
    → IsScheduled (store g a (mq_pop (g.queues a)).1) xs
mq_pop-IsScheduled g a xs v w held = record {
  chain = store-IsGlobal g a (mq_pop (g.queues a)).1 xs (mq_pop-next (g.queues a) w) v.chain;
  idle = idle_after;
}
  where
    emptied : (mq_pop (g.queues a)).1.in_global ≡ 0 → messages (mq_pop (g.queues a)).1 ≡ []
    emptied z = elim (mq_pop-in_global (g.queues a) w z) [
      | inl (flag, full) ↦ absurd (full (v.idle a flag).1)
      | inr empty ↦ empty
    ]

    idle_after :
        (b : ℕ)
        → (update g.queues a (mq_pop (g.queues a)).1 b).in_global ≡ 0
        → NotIn b xs × (messages (update g.queues a (mq_pop (g.queues a)).1 b) ≡ [])
    idle_after b z = elim (Bool-cases (a == b)) [
      | inl e ↦
          let same : a ≡ b = (==_iff a b).0 e in
          (subst (λ x. NotIn x xs) same held, rw e (emptied (rw e at z)))
      | inr e ↦ let (out, empty) = v.idle b (rw e at z) in (out, rw e empty)
    ]
