-- ===== src/MessageQueue/Fifo.antt =====
-- One message queue as a list of messages, and its measure of the load.
use rillserver.Prelude.{
  ◌⊎◌, ℕ, zero, suc, ◌+◌, ◌-◌, ◌*◌, ◌<◌, ◌≤◌, ◌≡◌, ◌≢◌, refl, ap, sym, ◌∙◌, arith, Option, none,
  some, List, [], ◌∷◌, ◌++◌, leb, ltb, ◌==◌, if◌then◌else◌, Bool-cases, inl, inr, ==_iff, length,
}
use rillserver.Prelude.Ring.{
  ring, used, next, update, ring-suc, ring-update, ring-copy, add-used, length-tabulate,
}
use rillserver.MessageQueue.{
  SkynetMessage, MessageQueue, mq_length, raise_threshold, mq_pop, expand_queue, put_message,
}

-- the messages in the queue, oldest first
abbrev pub messages : MessageQueue → List SkynetMessage
messages q = ring q.queue q.cap q.head (used q.cap q.head q.tail)

-- The indices are in range and the threshold is 1 at least: the queue is sound.
pub record IsQueue (q : MessageQueue) : Type 0 where
  pub head_in : q.head < q.cap
  pub tail_in : q.tail < q.cap
  pub threshold_up : 1 ≤ q.overload_threshold

-- the oldest message, if there is one, and the others
abbrev pub take_oldest : List SkynetMessage → Option SkynetMessage × List SkynetMessage
take_oldest [] = (none, [])
take_oldest (m ∷ rest) = (some m, rest)

-- `skynet_mq_length` is the number of the messages.
pub mq_length-messages : (q : MessageQueue) → mq_length q ≡ length (messages q)
unfolding mq_length
mq_length-messages q = sym (length-tabulate (used q.cap q.head q.tail) _)

module _ (memory : ℕ → SkynetMessage) (q : MessageQueue) (m : SkynetMessage) (v : IsQueue q) where
  -- the slot at `tail` written and `tail` moved on
  abbrev advanced : MessageQueue
  advanced = record q {
    tail = if leb q.cap (q.tail + 1) then 0 else q.tail + 1;
    queue = update q.queue q.tail m;
  }

  abbrev count : ℕ
  count = used q.cap q.head q.tail

  written : ring advanced.queue q.cap q.head (suc count) ≡ messages q ++ (m ∷ [])
  written =
      ring-update q.queue q.cap q.head v.head_in count q.tail m (ground arith)
        (sym (add-used q.cap q.head q.tail v.head_in v.tail_in))

  messages_of_room : q.head ≢ advanced.tail → messages advanced ≡ messages q ++ (m ∷ [])
  messages_of_room ne =
      let e : used q.cap q.head advanced.tail ≡ suc count = ground arith in
      ap (ring advanced.queue q.cap q.head) e ∙ written

  messages_of_full :
      q.head ≡ advanced.tail → messages (expand_queue memory advanced) ≡ messages q ++ (m ∷ [])
  unfolding expand_queue
  messages_of_full e =
      let all : used (q.cap * 2) 0 q.cap ≡ q.cap = ground arith in
      let full : q.cap ≡ suc count = ground arith in
      ap (ring (expand_queue memory advanced).queue (q.cap * 2) 0) all
      ∙ ring-copy advanced.queue q.cap q.head v.head_in (q.cap * 2)
          (expand_queue memory advanced).queue (omega arith) (λ i p. ground arith)
      ∙ ap (ring advanced.queue q.cap q.head) full
      ∙ written

  advanced-IsQueue : IsQueue advanced
  advanced-IsQueue = ground arith

  expanded-IsQueue : IsQueue (expand_queue memory advanced)
  unfolding expand_queue
  expanded-IsQueue = ground arith

  -- In a sound queue, a message that is pushed comes behind all others, also when the ring must grow
  -- for it, and the queue stays sound: indices in range, threshold 1 at least.
  pub put_message-messages :
      (messages (put_message memory q m) ≡ messages q ++ (m ∷ []))
      × IsQueue (put_message memory q m)
  unfolding put_message
  put_message-messages = elim (Bool-cases (q.head == advanced.tail)) [
    | inl e ↦ rw e (messages_of_full ((==_iff _ _).0 e), expanded-IsQueue)
    | inr e ↦ rw e (messages_of_room (λ h. cc (sym e ∙ (==_iff _ _).1 h)), advanced-IsQueue)
  ]

-- What the loop of `skynet_mq_pop` may change.
record Raised (n : ℕ) (q q' : MessageQueue) : Type 0 where
  above : n ≤ q'.overload_threshold
  never_down : q.overload_threshold ≤ q'.overload_threshold
  load : q'.overload ≡ (if ltb q.overload_threshold n then n else q.overload)
  same_queue : q'.queue ≡ q.queue
  same_cap : q'.cap ≡ q.cap
  same_head : q'.head ≡ q.head
  same_tail : q'.tail ≡ q.tail
  same_in_global : q'.in_global ≡ q.in_global
  same_next : q'.next ≡ q.next

Raised-refl : (n : ℕ) (q : MessageQueue) → n ≤ q.overload_threshold → Raised n q q
Raised-refl n q le = record {
  above = le;
  never_down = omega arith;
  load = ground arith;
  same_queue = refl;
  same_cap = refl;
  same_head = refl;
  same_tail = refl;
  same_in_global = refl;
  same_next = refl;
}

-- The loop ends with the threshold at the n or above.
raise-Raised :
    (fuel n : ℕ) (q : MessageQueue)
    → 1 ≤ q.overload_threshold
    → n ≤ fuel + q.overload_threshold
    → Raised n q (raise_threshold fuel n q)
unfolding raise_threshold
raise-Raised zero n q up enough = Raised-refl n q (omega arith)
raise-Raised (suc fuel) n q up enough = elim (Bool-cases (ltb q.overload_threshold n)) [
  | inl e ↦
      let r =
        raise-Raised fuel n
          (record q { overload = n; overload_threshold = q.overload_threshold * 2 }) (omega arith)
          (omega arith) in
      rw e (record {
        above = r.above;
        never_down = omega (arith, r.never_down);
        load = ground (arith, r.load);
        same_queue = r.same_queue;
        same_cap = r.same_cap;
        same_head = r.same_head;
        same_tail = r.same_tail;
        same_in_global = r.same_in_global;
        same_next = r.same_next;
      })
  | inr e ↦ rw e (Raised-refl n q (ground arith))
]

module _ (q : MessageQueue) (v : IsQueue q) where
  -- `head` moved on
  abbrev moved : MessageQueue
  moved = record q { head = next q.cap q.head }

  abbrev left : ℕ
  left =
      if ltb q.tail (next q.cap q.head)
      then q.tail + q.cap - next q.cap q.head
      else q.tail - next q.cap q.head

  raised : Raised left moved (raise_threshold left left moved)
  raised = raise-Raised left left moved v.threshold_up (omega arith)

  left-used : left ≡ used q.cap (next q.cap q.head) q.tail
  left-used = ground arith

  popped : q.head ≢ q.tail → mq_pop q ≡ (some (q.queue q.head), raise_threshold left left moved)
  unfolding mq_pop
  popped ne = ground arith

  messages_of_empty : q.head ≡ q.tail → messages q ≡ []
  messages_of_empty e =
      let none_used : used q.cap q.head q.tail ≡ 0 = ground arith in
      ap (ring q.queue q.cap q.head) none_used

  messages_of_next : q.head ≢ q.tail → messages q ≡ q.queue q.head ∷ messages moved
  messages_of_next ne =
      let one_more : used q.cap q.head q.tail ≡ suc (used q.cap (next q.cap q.head) q.tail) =
        ground arith in
      ap (ring q.queue q.cap q.head) one_more
      ∙ ring-suc q.queue q.cap q.head v.head_in (used q.cap (next q.cap q.head) q.tail)

  raised-messages : messages (raise_threshold left left moved) ≡ messages moved
  raised-messages = rw (raised.same_queue, raised.same_cap, raised.same_head, raised.same_tail)

  raised-IsQueue : IsQueue (raise_threshold left left moved)
  raised-IsQueue =
      let h : next q.cap q.head < q.cap = ground arith in
      record {
        head_in = omega (arith, raised.same_head, raised.same_cap, h);
        tail_in = omega (arith, raised.same_tail, raised.same_cap, v.tail_in);
        threshold_up = omega (arith, raised.never_down, v.threshold_up);
      }

  raised-length : mq_length (raise_threshold left left moved) ≡ left
  unfolding mq_length
  raised-length = rw (raised.same_cap, raised.same_head, raised.same_tail) (sym left-used)

  -- In a sound queue, `skynet_mq_pop` takes the oldest message, or says that there is none, and the
  -- queue stays sound: indices in range, threshold 1 at least.
  pub mq_pop-messages :
      (((mq_pop q).0, messages (mq_pop q).1) ≡ take_oldest (messages q)) × IsQueue (mq_pop q).1
  mq_pop-messages = elim (Bool-cases (q.head == q.tail)) [
    | inl e ↦
        unfold mq_pop in
        rw e (
          cc (messages_of_empty ((==_iff _ _).0 e)),
          record { head_in = v.head_in; tail_in = v.tail_in; threshold_up = omega arith },
        )
    | inr e ↦
        let ne : q.head ≢ q.tail = λ h. cc (sym e ∙ (==_iff _ _).1 h) in
        rw (popped ne) (cc (messages_of_next ne, raised-messages), raised-IsQueue)
  ]

  -- In a queue with messages, its indices in range and its threshold 1 at least, a message taken
  -- leaves the threshold at the number of messages or above; the load is reported,
  -- as that number, exactly when it was above the threshold.
  pub mq_pop-threshold :
      q.head ≢ q.tail
      → let q' = (mq_pop q).1 in
        (mq_length q' ≤ q'.overload_threshold)
        × (q'.overload
            ≡ (if ltb q.overload_threshold (mq_length q') then mq_length q' else q.overload))
  mq_pop-threshold ne = rw (popped ne, raised-length) (raised.above, raised.load)

  -- What a pop leaves of the scheduling: `in_global` is cleared only on an empty queue.
  pub mq_pop-next : (mq_pop q).1.next ≡ q.next
  mq_pop-next = elim (Bool-cases (q.head == q.tail)) [
    | inl e ↦ unfold mq_pop in rw e
    | inr e ↦ rw (popped (λ h. cc (sym e ∙ (==_iff _ _).1 h))) raised.same_next
  ]

  pub mq_pop-in_global :
      (mq_pop q).1.in_global ≡ 0
      → ((q.in_global ≡ 0) × (messages q ≢ [])) ⊎ (messages (mq_pop q).1 ≡ [])
  mq_pop-in_global z = elim (Bool-cases (q.head == q.tail)) [
    | inl e ↦ inr (unfold mq_pop in rw e (messages_of_empty ((==_iff _ _).0 e)))
    | inr e ↦
        let ne : q.head ≢ q.tail = λ h. cc (sym e ∙ (==_iff _ _).1 h) in
        inl (sym raised.same_in_global ∙ (rw (popped ne) at z), λ i. cc (messages_of_next ne, i))
  ]
