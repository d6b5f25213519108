-- ===== src/Timer/Update.antt =====
-- `timer_update`: one tick of the clock.
use rillserver.Prelude.{
  ℕ, ◌+◌, ◌/◌, ◌%◌, ◌^◌, ◌<◌, ◌≤◌, ◌≡◌, ◌≢◌, refl, ap, sym, subst, ◌∙◌, arith, true, List, [], ◌∷◌,
  ◌++◌, ◌==◌, ==_iff, Bool-cases, inl, inr, map,
}
use rillserver.Timer.{TimerEvent, TimerNode, Timer, timer_execute, timer_shift, timer_update}
use rillserver.Timer.Slots.{Slot, near_slot, same, same_iff, at, put, at-put, place}
use rillserver.Timer.Shift.{left_at}
use rillserver.Timer.Waiting.{due, waiting, AllPlaced, IsTimer, not_same, same_refl}
use rillserver.Timer.Cascade.{timer_shift-Shifts}

abbrev pub events : List TimerNode → List TimerEvent
events = map (λ n. n.event)

-- The list of the present time has exactly the nodes that expire now.
place-now : (c e : ℕ) → place c e ≡ near_slot (c % 2 ^ 8) → e ≡ c
place-now c e h =
    let k : same (place c e) (near_slot (c % 2 ^ 8)) ≡ true = (same_iff _ _).1 h in ground arith

now-place : (c : ℕ) → place c c ≡ near_slot (c % 2 ^ 8)
now-place c = let h : (c / 2 ^ 8 == c / 2 ^ 8) ≡ true = (==_iff _ _).1 refl in rw h

none_early :
    (c : ℕ) (ns : List TimerNode) → AllPlaced 1 c (near_slot (c % 2 ^ 8)) ns → c < 2 ^ 32 → ns ≡ []
none_early c [] p lt = refl
none_early c (n ∷ ns) p lt =
    let now = place-now c n.expire p.0.1.0 in absurd (omega (arith, now, p.0.1.1.0))

all_due : (c : ℕ) (ns : List TimerNode) → AllPlaced 0 c (near_slot (c % 2 ^ 8)) ns → due c ns ≡ ns
all_due c [] p = refl
all_due c (n ∷ ns) p =
    let now : (n.expire == c) ≡ true = (==_iff _ _).1 (place-now c n.expire p.0.1.0) in
    rw now (ap (λ l. n ∷ l) (all_due c ns p.1))

-- The nodes elsewhere have time left.
all_left :
    (c : ℕ) (s : Slot) (ns : List TimerNode)
    → c < 2 ^ 32
    → s ≢ near_slot (c % 2 ^ 8)
    → AllPlaced 0 c s ns
    → AllPlaced 1 c s ns
all_left c s [] lt ne p = tt
all_left c s (n ∷ ns) lt ne p =
    ((p.0.0, (p.0.1.0, (some_left n.expire p.0.0 p.0.1.0, p.0.1.1.1))), all_left c s ns lt ne p.1)
  where
    some_left : (e : ℕ) → e < 2 ^ 32 → place c e ≡ s → 1 ≤ left_at c e
    some_left e lt' here = elim (Bool-cases (e == c)) [
      | inl h ↦ absurd (ne (sym here ∙ ap (place c) ((==_iff e c).0 h) ∙ now-place c))
      | inr h ↦ ground arith
    ]

module _ (least : ℕ) (tm : Timer) (v : IsTimer least tm) where
  abbrev taken : Timer
  taken = put tm (near_slot (tm.time % 2 ^ 8)) []

  at-taken : (s : Slot) → s ≢ near_slot (tm.time % 2 ^ 8) → at taken s ≡ at tm s
  at-taken s ne =
      at-put tm (near_slot (tm.time % 2 ^ 8)) s []
      ∙ elim (Bool-cases (same (near_slot (tm.time % 2 ^ 8)) s)) [
        | inl h ↦ absurd (ne (sym ((same_iff _ s).0 h)))
        | inr h ↦ rw h
      ]

  taken-here : at taken (near_slot (tm.time % 2 ^ 8)) ≡ []
  taken-here =
      at-put tm (near_slot (tm.time % 2 ^ 8)) (near_slot (tm.time % 2 ^ 8)) []
      ∙ rw (same_refl (near_slot (tm.time % 2 ^ 8)))

  -- After the nodes of the present time are taken off, all have time left.
  taken-IsTimer : least ≤ 1 → IsTimer 1 taken
  taken-IsTimer le = record {
    in_time = v.in_time;
    placed = λ s. elim (Bool-cases (same s (near_slot (tm.time % 2 ^ 8)))) [
      | inl h ↦
          subst (λ z. AllPlaced 1 tm.time z (at taken z)) (sym ((same_iff s _).0 h))
            (subst (AllPlaced 1 tm.time (near_slot (tm.time % 2 ^ 8))) (sym taken-here) tt)
      | inr h ↦
          let ne = not_same s (near_slot (tm.time % 2 ^ 8)) h in
          subst (AllPlaced 1 tm.time s) (sym (at-taken s ne))
            (all_left tm.time s (at tm s) v.in_time ne (weaken s (at tm s) (v.placed s)))
    ];
  }
    where
      weaken :
          (s : Slot) (ns : List TimerNode) → AllPlaced least tm.time s ns → AllPlaced 0 tm.time s ns
      weaken s [] p = tt
      weaken s (n ∷ ns) p = ((p.0.0, (p.0.1.0, (omega arith, p.0.1.1.1))), weaken s ns p.1)

  waiting-taken : (e : ℕ) → e ≢ tm.time → waiting taken e ≡ waiting tm e
  waiting-taken e ne = ap (due e) (at-taken (place tm.time e) (λ h. ne (place-now tm.time e h)))

-- What a tick must come to.
pub record Ticks (tm : Timer) (result : List TimerEvent × Timer) : Type 0 where
  pub sent : result.0 ≡ events (waiting tm ((tm.time + 1) % 2 ^ 32))
  pub time_after : result.1.time ≡ (tm.time + 1) % 2 ^ 32
  pub sound_after : IsTimer 1 result.1
  pub waiting_after :
      (e : ℕ)
      → e < 2 ^ 32
      → 2 ≤ left_at tm.time e
      → left_at tm.time e < 2 ^ 31
      → waiting result.1 e ≡ waiting tm e

-- A tick on sound wheels sends the events that wait for the next time, in the order in which they
-- were added, and no others. The wheels stay sound at the next time, also where the time wraps, and
-- all the other events wait as before.
pub timer_update-Ticks : (tm : Timer) → IsTimer 1 tm → Ticks tm (timer_update tm)
unfolding timer_update timer_execute
timer_update-Ticks tm v =
    let now = near_slot (tm.time % 2 ^ 8) in
    let quiet : tm.near (tm.time % 2 ^ 8) ≡ [] =
      none_early tm.time (at tm now) (v.placed now) v.in_time in
    let tm1 = taken 1 tm v in
    let v1 = taken-IsTimer 1 tm v (omega arith) in
    let shift = timer_shift-Shifts tm1 v1 in
    let tm2 = timer_shift tm1 in
    let next = (tm.time + 1) % 2 ^ 32 in
    let here = near_slot (tm2.time % 2 ^ 8) in
    let due_now : due next (at tm2 here) ≡ at tm2 here =
      ap (λ (c : ℕ). due c (at tm2 here)) (sym shift.time_after)
      ∙ all_due tm2.time (at tm2 here) (shift.sound_after.placed here) in
    let is_here : place tm2.time next ≡ here =
      ap (place tm2.time) (sym shift.time_after) ∙ now-place tm2.time in
    record {
      sent =
          ap (λ l. events l ++ events (at tm2 here)) quiet
          ∙ ap events (
              sym due_now
              ∙ ap (λ s. due next (at tm2 s)) (sym is_here)
              ∙ shift.waiting_after next (omega arith) (omega (arith, v.in_time))
                  (omega (arith, v.in_time))
              ∙ waiting-taken 1 tm v next (omega arith));
      time_after = shift.time_after;
      sound_after = taken-IsTimer 0 tm2 shift.sound_after (omega arith);
      waiting_after = λ e lt up small.
          waiting-taken 0 tm2 shift.sound_after e (omega (arith, shift.time_after))
          ∙ shift.waiting_after e lt (omega arith) small
          ∙ waiting-taken 1 tm v e (omega arith);
    }
