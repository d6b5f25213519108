-- ===== src/Timer/Waiting.antt =====
-- The wheels as the events that wait for each time.
use rillserver.Prelude.{
  ℕ, ◌+◌, ◌%◌, ◌^◌, ◌<◌, ◌≤◌, ◌≡◌, ◌≢◌, refl, ap, sym, subst, ◌∙◌, arith, true, false, List, [],
  ◌∷◌, ◌++◌, ◌==◌, ==_iff, if◌then◌else◌, Bool-cases, inl, inr, append-nil,
}
use rillserver.Timer.{TimerEvent, TimerNode, Timer, add_node, timer_add}
use rillserver.Timer.Slots.{
  Slot, same, same_iff, at, at-put, time-put, slot_of, slot_of-place, place, add_node-put,
}
use rillserver.Timer.Shift.{left_at}

-- The nodes of a list that expire at a time.
abbrev pub due : ℕ → List TimerNode → List TimerNode
due e [] = []
due e (n ∷ ns) = if n.expire == e then n ∷ due e ns else due e ns

-- Those that wait for the time `e`, the first one first.
abbrev pub waiting : Timer → ℕ → List TimerNode
waiting tm e = due e (at tm (place tm.time e))

-- The nodes of a list belong there, and have some time left, but less than 2^31.
abbrev pub AllPlaced : ℕ → ℕ → Slot → List TimerNode → Type 0
AllPlaced least c s [] = Unit
AllPlaced least c s (n ∷ ns) =
    ((n.expire < 2 ^ 32)
      × ((place c n.expire ≡ s) × ((least ≤ left_at c n.expire) × (left_at c n.expire < 2 ^ 31))))
    × AllPlaced least c s ns

-- `least` is 1 between the updates, and 0 before the nodes of the present time are taken off.
pub record IsTimer (least : ℕ) (tm : Timer) : Type 0 where
  pub in_time : tm.time < 2 ^ 32
  pub placed : (s : Slot) → AllPlaced least tm.time s (at tm s)

pub due-append : (e : ℕ) (xs ys : List TimerNode) → due e (xs ++ ys) ≡ due e xs ++ due e ys
due-append e [] ys = refl
due-append e (n ∷ xs) ys = elim (Bool-cases (n.expire == e)) [
  | inl h ↦ rw h (ap (λ l. n ∷ l) (due-append e xs ys))
  | inr h ↦ rw h (due-append e xs ys)
]

pub due-none :
    (least c e : ℕ) (s : Slot) (ns : List TimerNode)
    → AllPlaced least c s ns
    → place c e ≢ s
    → due e ns ≡ []
due-none least c e s [] p ne = refl
due-none least c e s (n ∷ ns) p ne = elim (Bool-cases (n.expire == e)) [
  | inl h ↦ absurd (ne (ap (place c) (sym ((==_iff n.expire e).0 h)) ∙ p.0.1.0))
  | inr h ↦ rw h (due-none least c e s ns p.1 ne)
]

pub AllPlaced-append :
    (least c : ℕ) (s : Slot) (xs ys : List TimerNode)
    → AllPlaced least c s xs
    → AllPlaced least c s ys
    → AllPlaced least c s (xs ++ ys)
AllPlaced-append least c s [] ys p q = q
AllPlaced-append least c s (n ∷ xs) ys p q = (p.0, AllPlaced-append least c s xs ys p.1 q)

pub not_same : (s s' : Slot) → same s s' ≡ false → s ≢ s'
not_same s s' h e = let yes = (same_iff s s').1 e in absurd (cc)

pub same_refl : (s : Slot) → same s s ≡ true
same_refl s = (same_iff s s).1 refl

-- One node more.
pub at-add_node :
    (tm : Timer) (n : TimerNode) (s : Slot)
    → at (add_node tm n) s
      ≡ (if same (place tm.time n.expire) s then at tm s ++ (n ∷ []) else at tm s)
at-add_node tm n s =
    ap (λ t. at t s) (add_node-put tm n)
    ∙ rw (slot_of-place tm.time n.expire) (
        at-put tm (place tm.time n.expire) s (at tm (place tm.time n.expire) ++ (n ∷ []))
        ∙ elim (Bool-cases (same (place tm.time n.expire) s)) [
          | inl h ↦ rw h (ap (λ l. at tm l ++ (n ∷ [])) ((same_iff _ s).0 h))
          | inr h ↦ rw h
        ])

pub time-add_node : (tm : Timer) (n : TimerNode) → (add_node tm n).time ≡ tm.time
time-add_node tm n = ap (λ t. t.time) (add_node-put tm n) ∙ time-put tm (slot_of tm.time n.expire) _

pub waiting-add_node :
    (tm : Timer) (n : TimerNode) (e : ℕ)
    → waiting (add_node tm n) e ≡ (if n.expire == e then waiting tm e ++ (n ∷ []) else waiting tm e)
waiting-add_node tm n e =
    ap (λ (c : ℕ). due e (at (add_node tm n) (place c e))) (time-add_node tm n)
    ∙ ap (due e) (at-add_node tm n (place tm.time e))
    ∙ elim (Bool-cases (n.expire == e)) [
      | inl h ↦
          let here : same (place tm.time n.expire) (place tm.time e) ≡ true =
            (same_iff _ _).1 (ap (place tm.time) ((==_iff n.expire e).0 h)) in
          rw (here, h) (due-append e (at tm (place tm.time e)) (n ∷ []) ∙ rw h)
      | inr h ↦ rw h (elim (Bool-cases (same (place tm.time n.expire) (place tm.time e))) [
        | inl k ↦ rw k (due-append e (at tm (place tm.time e)) (n ∷ []) ∙ rw h (append-nil _))
        | inr k ↦ rw k
      ])
    ]

pub add_node-IsTimer :
    (least : ℕ) (tm : Timer) (n : TimerNode)
    → IsTimer least tm
    → n.expire < 2 ^ 32
    → least ≤ left_at tm.time n.expire
    → left_at tm.time n.expire < 2 ^ 31
    → IsTimer least (add_node tm n)
add_node-IsTimer least tm n v lt up small = record {
  in_time = omega (arith, v.in_time, time-add_node tm n);
  placed = λ s.
      subst (λ c. AllPlaced least c s (at (add_node tm n) s)) (sym (time-add_node tm n))
        (subst (AllPlaced least tm.time s) (sym (at-add_node tm n s)) (at_slot s));
}
  where
    at_slot :
        (s : Slot)
        → AllPlaced least tm.time s
            (if same (place tm.time n.expire) s then at tm s ++ (n ∷ []) else at tm s)
    at_slot s = elim (Bool-cases (same (place tm.time n.expire) s)) [
      | inl h ↦ rw h (
          AllPlaced-append least tm.time s (at tm s) (n ∷ []) (v.placed s)
            ((lt, ((same_iff _ s).0 h, (up, small))), tt))
      | inr h ↦ rw h (v.placed s)
    ]

-- `timer_add` of a time from 1 up, below 2^31, to sound wheels: they stay sound, and the event waits
-- for its time behind those that wait for the same time; the others wait as before.
pub timer_add-waiting :
    (tm : Timer) (event : TimerEvent) (time e : ℕ)
    → IsTimer 1 tm
    → 1 ≤ time
    → time < 2 ^ 31
    → let node : TimerNode = record { expire = (time + tm.time) % 2 ^ 32; event = event } in
      IsTimer 1 (timer_add tm event time)
      × (waiting (timer_add tm event time) e
          ≡ (if node.expire == e then waiting tm e ++ (node ∷ []) else waiting tm e))
unfolding timer_add
timer_add-waiting tm event time e v up small =
    let node : TimerNode = record { expire = (time + tm.time) % 2 ^ 32; event = event } in
    let left : left_at tm.time node.expire ≡ time = omega (arith, v.in_time) in
    (
      add_node-IsTimer 1 tm node v (omega arith) (omega (arith, left)) (omega (arith, left)),
      waiting-add_node tm node e,
    )
