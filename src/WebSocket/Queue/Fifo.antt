-- ===== src/WebSocket/Queue/Fifo.antt =====
-- The ring as a list of packs.
use rillserver.Prelude.{
  ℕ, suc, ◌+◌, ◌-◌, ◌<◌, ◌≡◌, ◌≢◌, refl, ap, sym, ◌∙◌, arith, Option, none, some, List, [], ◌∷◌,
  ◌++◌, leb, ◌==◌, if◌then◌else◌, Bool-cases, inl, inr, ==_iff,
}
use rillserver.Prelude.Ring.{ring, used, next, update, ring-suc, ring-update, ring-copy, add-used}
use rillserver.WebSocket.Queue.{Netpack, Queue, queuesize, get_queue, expand_queue, push_data, pop}

-- the packs in the queue, oldest first
abbrev pub packs : Queue → List Netpack
packs q = ring q.queue q.cap q.head (used q.cap q.head q.tail)

abbrev pub waiting : Option Queue → List Netpack
waiting none = []
waiting (some q) = packs q

pub record IsRing (q : Queue) : Type 0 where
  pub head_in : q.head < q.cap
  pub tail_in : q.tail < q.cap

abbrev pub IsStack : Option Queue → Type 0
IsStack none = Unit {0}
IsStack (some q) = IsRing q

-- the oldest pack, if there is one, and the others
abbrev pub dequeue : List Netpack → Option Netpack × List Netpack
dequeue [] = (none, [])
dequeue (np ∷ rest) = (some np, rest)

get_queue-IsRing : (s : Option Queue) → IsStack s → IsRing (get_queue s)
unfolding get_queue
get_queue-IsRing none v = omega arith
get_queue-IsRing (some q) v = v

packs-get_queue : (s : Option Queue) → packs (get_queue s) ≡ waiting s
unfolding get_queue
packs-get_queue none = refl
packs-get_queue (some q) = refl

module _ (q : Queue) (np : Netpack) (v : IsRing q) where
  -- the slot at `tail` written and `tail` moved on
  abbrev advanced : Queue
  advanced = record q {
    tail = if leb q.cap (q.tail + 1) then q.tail + 1 - q.cap else q.tail + 1;
    queue = update q.queue q.tail np;
  }

  abbrev count : ℕ
  count = used q.cap q.head q.tail

  -- The written ring is the old one and the new pack, also when it is full now.
  written : ring advanced.queue q.cap q.head (suc count) ≡ packs q ++ (np ∷ [])
  written =
      ring-update q.queue q.cap q.head v.head_in count q.tail np (ground arith)
        (sym (add-used q.cap q.head q.tail v.head_in v.tail_in))

  packs_of_room : q.head ≢ advanced.tail → packs advanced ≡ packs q ++ (np ∷ [])
  packs_of_room ne =
      let e : used q.cap q.head advanced.tail ≡ suc count = ground arith in
      ap (ring advanced.queue q.cap q.head) e ∙ written

  packs_of_full : q.head ≡ advanced.tail → packs (expand_queue advanced) ≡ packs q ++ (np ∷ [])
  unfolding expand_queue
  packs_of_full e =
      let all : used (q.cap + queuesize) 0 q.cap ≡ q.cap = ground arith in
      let full : q.cap ≡ suc count = ground arith in
      let cap' = q.cap + queuesize in
      ap (ring (expand_queue advanced).queue cap' 0) all
      ∙ ring-copy advanced.queue q.cap q.head v.head_in cap' (expand_queue advanced).queue
          (omega arith) (λ i p. ground arith)
      ∙ ap (ring advanced.queue q.cap q.head) full
      ∙ written

  advanced-IsRing : IsRing advanced
  advanced-IsRing = ground arith

  expanded-IsRing : IsRing (expand_queue advanced)
  unfolding expand_queue
  expanded-IsRing = ground arith

-- With the indices in range, `push_data` puts the pack behind those that wait, also when the ring
-- must grow for it, and keeps the indices in range.
pub packs-push_data :
    (s : Option Queue) (fd size : ℕ) (buffer : List ℕ)
    → IsStack s
    → (packs (push_data s fd buffer size)
        ≡ waiting s ++ (record { id = fd; size = size; buffer = buffer } ∷ []))
      × IsRing (push_data s fd buffer size)
unfolding push_data
packs-push_data s fd size buffer v = elim (Bool-cases (q.head == (advanced q np w).tail)) [
  | inl e ↦ rw e (packs_of_full q np w ((==_iff _ _).0 e) ∙ wait, expanded-IsRing q np w)
  | inr e ↦
      rw e
        (packs_of_room q np w (λ h. cc (sym e ∙ (==_iff _ _).1 h)) ∙ wait, advanced-IsRing q np w)
]
  where
    q : Queue
    q = get_queue s

    w : IsRing q
    w = get_queue-IsRing s v

    np : Netpack
    np = record { id = fd; size = size; buffer = buffer }

    wait : packs q ++ (np ∷ []) ≡ waiting s ++ (np ∷ [])
    wait = ap (λ xs. xs ++ (np ∷ [])) (packs-get_queue s)

module _ (q : Queue) (v : IsRing q) where
  packs_of_empty : q.head ≡ q.tail → packs q ≡ []
  packs_of_empty e =
      let none_used : used q.cap q.head q.tail ≡ 0 = ground arith in
      ap (ring q.queue q.cap q.head) none_used

  packs_of_next :
      q.head ≢ q.tail → packs q ≡ q.queue q.head ∷ packs (record q { head = next q.cap q.head })
  packs_of_next ne =
      let one_more : used q.cap q.head q.tail ≡ suc (used q.cap (next q.cap q.head) q.tail) =
        ground arith in
      ap (ring q.queue q.cap q.head) one_more
      ∙ ring-suc q.queue q.cap q.head v.head_in (used q.cap (next q.cap q.head) q.tail)

-- With the indices in range, `lpop` takes the oldest pack, or says that there is none, and keeps the
-- indices in range.
pub waiting-pop :
    (s : Option Queue)
    → IsStack s
    → (((pop s).0, waiting (pop s).1) ≡ dequeue (waiting s)) × IsStack (pop s).1
unfolding pop
waiting-pop none v = (refl, tt)
waiting-pop (some q) v = elim (Bool-cases (q.head == q.tail)) [
  | inl e ↦ rw e (cc (packs_of_empty q v ((==_iff _ _).0 e)), v)
  | inr e ↦ rw e (cc (packs_of_next q v (λ h. cc (sym e ∙ (==_iff _ _).1 h))), ground arith)
]
