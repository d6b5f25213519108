-- ===== src/Timer/Slots.antt =====
-- The lists of the wheels, and the one in which a node belongs.
use rillserver.Prelude.{
  ℕ, ◌+◌, ◌*◌, ◌/◌, ◌%◌, ◌^◌, ◌≡◌, ◌↔◌, refl, ap, ap₂, arith, Bool, true, false, ◌&&◌, List, [],
  ◌∷◌, ◌++◌, ◌==◌, ==_iff, if◌then◌else◌, Bool-cases, inl, inr,
}
use rillserver.Timer.{
  TimerNode, Timer, fill_low, set_near, set_level, find_level, add_node, time_near, time_level,
}

pub data Slot : Type 0 where
  near_slot : ℕ → Slot
  level_slot : ℕ → ℕ → Slot

abbrev pub same : Slot → Slot → Bool
same (near_slot i) (near_slot j) = i == j
same (near_slot i) (level_slot k l) = false
same (level_slot i j) (near_slot k) = false
same (level_slot i j) (level_slot k l) = (i == k) && (j == l)

pub same_iff : (s s' : Slot) → (same s s' ≡ true) ↔ (s ≡ s')
same_iff (near_slot i) (near_slot j) =
    ((λ h. ap near_slot ((==_iff i j).0 h)), λ e. (==_iff i j).1 (ap index e))
  where
    index : Slot → ℕ
    index (near_slot k) = k
    index (level_slot k l) = k
same_iff (near_slot i) (level_slot k l) = ((λ h. absurd (cc)), λ e. absurd (cc))
same_iff (level_slot i j) (near_slot k) = ((λ h. absurd (cc)), λ e. absurd (cc))
same_iff (level_slot i j) (level_slot k l) = (
  (λ h.
      let first : (i == k) ≡ true = ground arith in
      let second : (j == l) ≡ true = ground arith in
      ap₂ level_slot ((==_iff i k).0 first) ((==_iff j l).0 second)),
  λ e.
      let first = (==_iff i k).1 (ap row e) in
      let second = (==_iff j l).1 (ap column e) in rw (first, second),
)
  where
    row : Slot → ℕ
    row (near_slot k) = k
    row (level_slot k l) = k

    column : Slot → ℕ
    column (near_slot k) = k
    column (level_slot k l) = l

abbrev pub at : Timer → Slot → List TimerNode
at tm (near_slot i) = tm.near i
at tm (level_slot i j) = tm.t i j

abbrev pub put : Timer → Slot → List TimerNode → Timer
put tm (near_slot i) l = set_near tm i l
put tm (level_slot i j) l = set_level tm i j l

pub at-put :
    (tm : Timer) (s s' : Slot) (l : List TimerNode)
    → at (put tm s l) s' ≡ (if same s s' then l else at tm s')
at-put tm (near_slot i) (near_slot j) l = refl
at-put tm (near_slot i) (level_slot k l') l = refl
at-put tm (level_slot i j) (near_slot k) l = refl
at-put tm (level_slot i j) (level_slot k l') l = elim (Bool-cases (i == k)) [
  | inl e ↦ rw e (ap (λ (m : ℕ). if j == l' then l else tm.t m l') ((==_iff i k).0 e))
  | inr e ↦ rw e
]

pub time-put : (tm : Timer) (s : Slot) (l : List TimerNode) → (put tm s l).time ≡ tm.time
time-put tm (near_slot i) l = refl
time-put tm (level_slot i j) l = refl

-- Where a node belongs at a time.
unfoldable pub slot_of : ℕ → ℕ → Slot
slot_of time expire =
    if fill_low expire time_near == fill_low time time_near
    then near_slot (expire % time_near)
    else let i = find_level 3 0 (time_near * time_level) expire time in
      level_slot i (expire / 2 ^ (8 + i * 6) % time_level)

pub add_node-put :
    (tm : Timer) (n : TimerNode)
    → add_node tm n
      ≡ put tm (slot_of tm.time n.expire) (at tm (slot_of tm.time n.expire) ++ (n ∷ []))
unfolding add_node slot_of
add_node-put tm n = elim (Bool-cases (fill_low n.expire time_near == fill_low tm.time time_near)) [
  | inl e ↦ rw e
  | inr e ↦ rw e
]

-- The same place by quotients.
abbrev pub place : ℕ → ℕ → Slot
place c e =
    if e / 2 ^ 8 == c / 2 ^ 8
    then near_slot (e % 2 ^ 8)
    else if e / 2 ^ 14 == c / 2 ^ 14
    then level_slot 0 (e / 2 ^ 8 % 64)
    else if e / 2 ^ 20 == c / 2 ^ 20
    then level_slot 1 (e / 2 ^ 14 % 64)
    else if e / 2 ^ 26 == c / 2 ^ 26
    then level_slot 2 (e / 2 ^ 20 % 64)
    else level_slot 3 (e / 2 ^ 26 % 64)

module _ (c e : ℕ) where
  same_near : (fill_low e (2 ^ 8) == fill_low c (2 ^ 8)) ≡ (e / 2 ^ 8 == c / 2 ^ 8)
  same_near = ground arith

  same_level0 : (fill_low e (2 ^ 14) == fill_low c (2 ^ 14)) ≡ (e / 2 ^ 14 == c / 2 ^ 14)
  same_level0 = ground arith

  same_level1 : (fill_low e (2 ^ 20) == fill_low c (2 ^ 20)) ≡ (e / 2 ^ 20 == c / 2 ^ 20)
  same_level1 = ground arith

  same_level2 : (fill_low e (2 ^ 26) == fill_low c (2 ^ 26)) ≡ (e / 2 ^ 26 == c / 2 ^ 26)
  same_level2 = ground arith

  level_found : find_level 3 0 (2 ^ 14) e c ≡ (
      if e / 2 ^ 14 == c / 2 ^ 14
      then 0
      else if e / 2 ^ 20 == c / 2 ^ 20
      then 1
      else if e / 2 ^ 26 == c / 2 ^ 26
      then 2
      else 3)
  unfolding find_level
  level_found = rw (same_level0, same_level1, same_level2)

  pub slot_of-place : slot_of c e ≡ place c e
  unfolding slot_of
  slot_of-place =
      rw (same_near, level_found)
        (elim (Bool-cases (e / 2 ^ 14 == c / 2 ^ 14)) [
          | inl h ↦ rw h
          | inr h ↦ elim (Bool-cases (e / 2 ^ 20 == c / 2 ^ 20)) [
            | inl k ↦ rw (h, k)
            | inr k ↦ elim (Bool-cases (e / 2 ^ 26 == c / 2 ^ 26)) [
              | inl l ↦ rw (h, k, l)
              | inr l ↦ rw (h, k, l)
            ]
          ]
        ])
