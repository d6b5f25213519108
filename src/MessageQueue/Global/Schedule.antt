-- ===== src/MessageQueue/Global/Schedule.antt =====
-- Which queues the scheduling may leave out of the global queue, and a push.
use rillserver.Prelude.{
  ℕ, ◌≡◌, ◌≢◌, refl, ap, sym, ◌∙◌, arith, true, false, Option, none, some, List, [], ◌∷◌, ◌++◌,
  ◌==◌, ==_iff, if◌then◌else◌, Bool-cases, inl, inr,
}
use rillserver.Prelude.Ring.{update}
use rillserver.MessageQueue.{mq_in_global, SkynetMessage, MessageQueue, put_message, expand_queue}
use rillserver.MessageQueue.Fifo.{messages, IsQueue, put_message-messages}
use rillserver.MessageQueue.Global.{GlobalQueue, store, globalmq_push, mq_push}
use rillserver.Prelude.Distinct.{NotIn, NotIn-snoc}
use rillserver.MessageQueue.Global.Chain.{
  IsGlobal, Linked-same, globalmq_push-list, update_at, update_else,
}

-- With `in_global` clear, a queue has no message and is not in the list.
pub record IsScheduled (g : GlobalQueue) (xs : List ℕ) : Type 0 where
  pub chain : IsGlobal g xs
  pub idle : (a : ℕ) → (g.queues a).in_global ≡ 0 → NotIn a xs × (messages (g.queues a) ≡ [])

record SameButNext (q q' : MessageQueue) : Type 0 where
  same_messages : messages q' ≡ messages q
  same_in_global : q'.in_global ≡ q.in_global

next_written :
    (g : GlobalQueue) (k b : ℕ) (n : Option ℕ)
    → SameButNext (g.queues b) (update g.queues k (record (g.queues k) { next = n }) b)
next_written g k b n = elim (Bool-cases (k == b)) [
  | inl e ↦
      let k_b : k ≡ b = (==_iff k b).0 e in
      rw e (record {
        same_messages = ap (λ (x : ℕ). messages (g.queues x)) k_b;
        same_in_global = ap (λ (x : ℕ). (g.queues x).in_global) k_b;
      })
  | inr e ↦ rw e (record { same_messages = refl; same_in_global = refl })
]

-- What is pushed changes no more than a successor.
globalmq_push-same :
    (g g' : GlobalQueue) (a b : ℕ)
    → globalmq_push g a ≡ some g'
    → SameButNext (g.queues b) (g'.queues b)
unfolding globalmq_push
globalmq_push-same g g' a b e = at_next (g.queues a).next refl
  where
    at_tail :
        (t : Option ℕ)
        → g.tail ≡ t
        → (g.queues a).next ≡ none
        → SameButNext (g.queues b) (g'.queues b)
    at_tail none t n =
        let g'' : GlobalQueue = record g { head = some a; tail = some a } in
        let i : globalmq_push g a ≡ some g'' = rw (n, t, globalmq_push) in
        let j : g' ≡ g'' = cc in rw j (record { same_messages = refl; same_in_global = refl })
    at_tail (some k) t n =
        let q : MessageQueue = record (g.queues k) { next = some a } in
        let g'' : GlobalQueue = record (store g k q) { tail = some a } in
        let i : globalmq_push g a ≡ some g'' = rw (n, t, globalmq_push) in
        let j : g' ≡ g'' = cc in rw j (next_written g k b (some a))

    at_next : (n : Option ℕ) → (g.queues a).next ≡ n → SameButNext (g.queues b) (g'.queues b)
    at_next none n = at_tail g.tail refl n
    at_next (some k) n = let i : globalmq_push g a ≡ none = rw (n, globalmq_push) in absurd (cc)

put_message-same :
    (memory : ℕ → SkynetMessage) (q : MessageQueue) (m : SkynetMessage)
    → ((put_message memory q m).next ≡ q.next) × ((put_message memory q m).in_global ≡ q.in_global)
unfolding put_message expand_queue
put_message-same memory q m = ground arith

-- A write through `a` that keeps `next`.
pub store-IsGlobal :
    (g : GlobalQueue) (a : ℕ) (q : MessageQueue) (xs : List ℕ)
    → q.next ≡ (g.queues a).next
    → IsGlobal g xs
    → IsGlobal (store g a q) xs
store-IsGlobal g a q xs e v = record {
  linked = Linked-same g.queues (update g.queues a q) g.head xs same v.linked;
  ends = v.ends;
  distinct = v.distinct;
  others = λ b out. same b ∙ v.others b out;
}
  where
    same : (b : ℕ) → (update g.queues a q b).next ≡ (g.queues b).next
    same b = elim (Bool-cases (a == b)) [
      | inl h ↦ rw h (e ∙ ap (λ (x : ℕ). (g.queues x).next) ((==_iff a b).0 h))
      | inr h ↦ rw h
    ]

-- where a push leaves the list
abbrev pub list_after : ℕ → ℕ → List ℕ → List ℕ
list_after in_global a xs = if in_global == 0 then xs ++ (a ∷ []) else xs

module _ (memory : ℕ → SkynetMessage) (g : GlobalQueue) (a : ℕ) (m : SkynetMessage) (xs : List ℕ)
    (v : IsScheduled g xs) (w : IsQueue (g.queues a)) where
  -- the queue with the message in it
  abbrev longer : MessageQueue
  longer = put_message memory (g.queues a) m

  longer-messages : messages longer ≡ messages (g.queues a) ++ (m ∷ [])
  longer-messages = (put_message-messages memory (g.queues a) m w).0

  longer-next : longer.next ≡ (g.queues a).next
  longer-next = (put_message-same memory (g.queues a) m).0

  -- Once `a` has a queue that is flagged, the idle ones are others, and as before.
  idle_others :
      (q : MessageQueue) (b : ℕ)
      → q.in_global ≢ 0
      → (update g.queues a q b).in_global ≡ 0
      → (a ≢ b) × NotIn b xs × (messages (update g.queues a q b) ≡ [])
  idle_others q b flag z = elim (Bool-cases (a == b)) [
    | inl e ↦ absurd (flag (rw e at z))
    | inr e ↦
        let (out, empty) = v.idle b (rw e at z) in
        ((λ i. cc (sym e ∙ (==_iff a b).1 i)), out, rw e empty)
  ]

  Pushed : Type 0
  Pushed =
      (g' : GlobalQueue) × (mq_push memory g a m ≡ some g')
      × (messages (g'.queues a) ≡ messages (g.queues a) ++ (m ∷ []))
      × ((b : ℕ) → a ≢ b → messages (g'.queues b) ≡ messages (g.queues b))
      × IsScheduled g' (list_after (g.queues a).in_global a xs)

  push_busy : ((g.queues a).in_global == 0) ≡ false → Pushed
  unfolding Pushed mq_push
  push_busy e = (
    store g a longer,
    rw ((put_message-same memory (g.queues a) m).1, e, mq_push),
    rw (update_at g.queues a longer) longer-messages,
    (λ b ne. rw (update_else g.queues a b longer ne)),
    rw e (record { chain = store-IsGlobal g a longer xs longer-next v.chain; idle = idle_kept }),
  )
    where
      flag : longer.in_global ≢ 0
      flag z = cc (sym e ∙ (==_iff _ _).1 (sym (put_message-same memory (g.queues a) m).1 ∙ z))

      idle_kept :
          (b : ℕ)
          → (update g.queues a longer b).in_global ≡ 0
          → NotIn b xs × (messages (update g.queues a longer b) ≡ [])
      idle_kept b z = let (ne, out, empty) = idle_others longer b flag z in (out, empty)

  push_idle : ((g.queues a).in_global == 0) ≡ true → Pushed
  unfolding Pushed mq_push
  push_idle e =
      let flagged : MessageQueue = record longer { in_global = mq_in_global } in
      let stored : GlobalQueue = store g a flagged in
      let (g', done, v') =
        globalmq_push-list stored a xs (store-IsGlobal g a flagged xs longer-next v.chain)
          (v.idle a ((==_iff _ _).0 e)).0 in
      (
        g',
        rw ((put_message-same memory (g.queues a) m).1, e, mq_push) done,
        (globalmq_push-same stored g' a a done).same_messages
            ∙ rw (update_at g.queues a flagged) longer-messages,
        (λ b ne.
            (globalmq_push-same stored g' a b done).same_messages
            ∙ rw (update_else g.queues a b flagged ne)),
        rw e (record {
          chain = v';
          idle = λ b z.
              let s = globalmq_push-same stored g' a b done in
              let (ne, out, empty) =
                idle_others flagged b (λ i. omega arith) (sym s.same_in_global ∙ z) in
              (NotIn-snoc b a xs out (λ i. ne (sym i)), s.same_messages ∙ empty);
        }),
      )

-- Let every queue that is not flagged be empty and out of the global queue. Then `skynet_mq_push`
-- to a queue with its indices in range and its threshold 1 at least fails no assertion: the message
-- is the last one of its queue, the others have what they had, the queue is put at the end of the
-- global queue if it was not flagged, and the rule still holds.
pub mq_push-IsScheduled :
    (memory : ℕ → SkynetMessage) (g : GlobalQueue) (a : ℕ) (m : SkynetMessage) (xs : List ℕ)
    → IsScheduled g xs
    → IsQueue (g.queues a)
    → (g' : GlobalQueue) × (mq_push memory g a m ≡ some g')
      × (messages (g'.queues a) ≡ messages (g.queues a) ++ (m ∷ []))
      × ((b : ℕ) → a ≢ b → messages (g'.queues b) ≡ messages (g.queues b))
      × IsScheduled g' (list_after (g.queues a).in_global a xs)
unfolding Pushed
mq_push-IsScheduled memory g a m xs v w = elim (Bool-cases ((g.queues a).in_global == 0)) [
  | inl e ↦ push_idle memory g a m xs v w e
  | inr e ↦ push_busy memory g a m xs v w e
]
