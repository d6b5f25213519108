-- ===== src/Timer/Tests.antt =====
-- The timer wheels on concrete events, and the theorems at them. The wheels stand right before the
-- wrap of the time.
use rillserver.Prelude.{
  ℕ, ◌+◌, ◌≡◌, refl, sym, subst, arith, List, [], ◌∷◌, ◌++◌, ◌==◌, if◌then◌else◌,
}
use rillserver.Prelude.Int.{pos}
use rillserver.Timer.{
  TimerEvent, TimerNode, Timer, timer_update, timer_add, skynet_timer_init, skynet_timeout,
  skynet_updatetime, update_times,
}
use rillserver.Timer.Slots.{Slot, near_slot, level_slot, at}
use rillserver.Timer.Waiting.{waiting, AllPlaced, IsTimer, timer_add-waiting}
use rillserver.Timer.Update.{events, Ticks, timer_update-Ticks}
use rillserver.Timer.Due.{Call, asks, ticks, step, run, Sends, skynet_timeout-Sends}

abbrev wrap_time : ℕ
wrap_time = 4294967293

abbrev empty_wheels : Timer
empty_wheels = record {
  near = λ i. [];
  t = λ i j. [];
  time = wrap_time;
  starttime = 1500000000;
  current = 42;
  current_point = 1000;
}

abbrev event_of : ℕ → TimerEvent
event_of n = record { handle = n; session = pos (n + 100) }

at-empty_wheels : (s : Slot) → at empty_wheels s ≡ []
at-empty_wheels (near_slot i) = refl
at-empty_wheels (level_slot i j) = refl

empty_wheels-IsTimer : IsTimer 1 empty_wheels
empty_wheels-IsTimer = record {
  in_time = omega arith;
  placed = λ s. subst (AllPlaced 1 wrap_time s) (sym (at-empty_wheels s)) tt;
}

abbrev one_event : Timer
one_event = timer_add empty_wheels (event_of 1) 5

timer_add-waiting_example :
    IsTimer 1 one_event
    × (waiting one_event 2 ≡ (
        if 2 == 2
        then waiting empty_wheels 2 ++ (record { expire = 2; event = event_of 1 } ∷ [])
        else waiting empty_wheels 2))
timer_add-waiting_example =
    timer_add-waiting empty_wheels (event_of 1) 5 2 empty_wheels-IsTimer (omega arith) (omega arith)

one_event-IsTimer : IsTimer 1 one_event
one_event-IsTimer =
    (timer_add-waiting empty_wheels (event_of 1) 5 2 empty_wheels-IsTimer (omega arith)
      (omega arith)).0

timer_update-Ticks_example : Ticks one_event (timer_update one_event)
timer_update-Ticks_example = timer_update-Ticks one_event one_event-IsTimer

abbrev three_calls : List Call
three_calls = ticks ∷ asks 8 600 (pos 3) ∷ ticks ∷ ticks ∷ ticks ∷ []

skynet_timeout-Sends_example :
    Sends
      (events (waiting one_event 2))
      (record { handle = 7; session = pos 9 })
      (timer_update (run (step one_event (asks 7 5 (pos 9))) three_calls)).0
unfolding timer_add rillserver.Timer.add_node
skynet_timeout-Sends_example =
    skynet_timeout-Sends one_event 7 5 (pos 9) three_calls one_event-IsTimer (omega arith)
      (omega arith) (((omega arith), (omega arith)), tt) refl

-- The two events of the same time come over the wrap in order.
in_order :
    (update_times 5 (skynet_timeout one_event 7 (pos 5) (pos 9)).1).0
    ≡ event_of 1 ∷ record { handle = 7; session = pos 9 } ∷ []
unfolding update_times timer_update skynet_timeout rillserver.Timer.timer_execute timer_add
    rillserver.Timer.add_node rillserver.Timer.timer_shift rillserver.Timer.shift_loop
    rillserver.Timer.move_list rillserver.Timer.add_nodes rillserver.Timer.find_level
in_order = refl

clock_back : skynet_updatetime one_event 999 ≡ ([], record one_event { current_point = 999 })
unfolding skynet_updatetime timer_add rillserver.Timer.add_node
clock_back = refl

at_start :
    (update_times 2 (skynet_timeout (skynet_timer_init 1 2 3) 4 (pos 1) (pos 6)).1).0
    ≡ record { handle = 4; session = pos 6 } ∷ []
unfolding update_times timer_update skynet_timeout skynet_timer_init rillserver.Timer.timer_execute
    timer_add rillserver.Timer.add_node rillserver.Timer.timer_shift rillserver.Timer.shift_loop
    rillserver.Timer.move_list rillserver.Timer.add_nodes rillserver.Timer.find_level
at_start = refl
