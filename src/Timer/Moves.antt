-- ===== src/Timer/Moves.antt =====
-- What `timer_shift` comes to.
use rillserver.Prelude.{
  ℕ, ◌+◌, ◌/◌, ◌%◌, ◌^◌, ◌<◌, ◌≡◌, arith, true, false, Option, none, some, ◌==◌, ==_iff,
  if◌then◌else◌, Bool-cases, inl, inr,
}
use rillserver.Timer.{Timer, move_list, shift_loop, timer_shift, time_near}
use rillserver.Timer.Slots.{Slot, near_slot, level_slot}
use rillserver.Timer.Shift.{moved}

unfoldable pub move_slot : Timer → Option Slot → Timer
move_slot tm none = tm
move_slot tm (some (near_slot i)) = tm
move_slot tm (some (level_slot i j)) = move_list tm i j

-- What the loop comes to.
pub timer_shift-moved :
    (tm : Timer)
    → let c' = (tm.time + 1) % 2 ^ 32 in
      timer_shift tm ≡ move_slot (record tm { time = c' }) (moved c')
unfolding timer_shift shift_loop move_slot
timer_shift-moved tm = at_time ((tm.time + 1) % 2 ^ 32) (omega arith)
  where
    at_time :
        (c : ℕ)
        → c < 2 ^ 32
        → (if c == 0
            then move_list (record tm { time = c }) 3 0
            else shift_loop 4 0 time_near (c / time_near) c (record tm { time = c }))
          ≡ move_slot (record tm { time = c }) (moved c)
    at_time c lt = elim (Bool-cases (c == 0)) [
      | inl zero_time ↦ let is_0 = (==_iff c 0).0 zero_time in rw is_0
      | inr some_time ↦ elim (Bool-cases (c % 2 ^ 8 == 0)) [
        | inr z0 ↦ rw (some_time, z0)
        | inl z0 ↦ elim (Bool-cases (c / 2 ^ 8 % 64 == 0)) [
          | inr z1 ↦ rw (some_time, z0, z1)
          | inl z1 ↦
              let m1 : (c % 2 ^ 14 == 0) ≡ true = ground arith in
              let q1 : c / 2 ^ 8 / 64 ≡ c / 2 ^ 14 = omega arith in
              let q2 : c / 2 ^ 14 / 64 ≡ c / 2 ^ 20 = omega arith in
              let q3 : c / 2 ^ 20 / 64 ≡ c / 2 ^ 26 = omega arith in
              elim (Bool-cases (c / 2 ^ 14 % 64 == 0)) [
                | inr z2 ↦ rw (some_time, z0, z1, m1, q1, z2)
                | inl z2 ↦
                    let m2 : (c % 2 ^ 20 == 0) ≡ true = ground arith in
                    elim (Bool-cases (c / 2 ^ 20 % 64 == 0)) [
                      | inr z3 ↦ rw (some_time, z0, z1, m1, q1, z2, m2, q2, z3)
                      | inl z3 ↦
                          let m3 : (c % 2 ^ 26 == 0) ≡ true = ground arith in
                          let last : (c / 2 ^ 26 % 64 == 0) ≡ false = ground arith in
                          rw (some_time, z0, z1, m1, q1, z2, m2, q2, z3, m3, q3, last)
                    ]
              ]
        ]
      ]
    ]
