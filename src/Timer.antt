-- ===== src/Timer.antt =====
-- skynet/skynet-src/skynet_timer.c: the timer wheels. A linked list of nodes is a list. `x & (m-1)` and
-- `x | (m-1)`, where m is a power of two, are written with / and %; the message that an event comes
-- to is the event. The functions hold the spin lock, except while a list that was taken off is
-- dispatched, so that each is one step.
pub mod Slots
pub mod Shift
pub mod Moves
pub mod Waiting
pub mod Linking
pub mod Cascade
pub mod Update
pub mod Due
mod Tests
use rillserver.Prelude.{
  ℕ, zero, suc, ◌+◌, ◌-◌, ◌*◌, ◌/◌, ◌%◌, ◌^◌, Bool, true, false, ◌&&◌, List, [], ◌∷◌, ◌++◌, map,
  ltb, ◌==◌, if◌then◌else◌,
}
use rillserver.Prelude.Int.{ℤ, pos, negsuc}
use rillserver.Prelude.Ring.{update}

abbrev pub time_near : ℕ
time_near = 2 ^ 8

abbrev pub time_level : ℕ
time_level = 2 ^ 6

pub record TimerEvent : Type 0 where
  pub handle : ℕ
  pub session : ℤ

pub record TimerNode : Type 0 where
  pub expire : ℕ
  pub event : TimerEvent

pub record Timer : Type 0 where
  pub near : ℕ → List TimerNode
  pub t : ℕ → ℕ → List TimerNode
  pub time : ℕ
  pub starttime : ℕ
  pub current : ℕ
  pub current_point : ℕ

-- `x | (m - 1)`
abbrev pub fill_low : ℕ → ℕ → ℕ
fill_low x m = x / m * m + (m - 1)

-- `link` and `link_clear` on the lists of the two arrays
abbrev pub set_near : Timer → ℕ → List TimerNode → Timer
set_near tm i l = record tm { near = update tm.near i l }

abbrev pub set_level : Timer → ℕ → ℕ → List TimerNode → Timer
set_level tm i j l = record tm { t = update tm.t i (update (tm.t i) j l) }

-- the `for` loop of `add_node`, with `n` rounds to go
unfoldable pub find_level : ℕ → ℕ → ℕ → ℕ → ℕ → ℕ
find_level zero i mask expire time = i
find_level (suc n) i mask expire time =
    let further = find_level n (i + 1) (mask * time_level) expire time in
    if fill_low expire mask == fill_low time mask then i else further

unfoldable pub add_node : Timer → TimerNode → Timer
add_node tm node =
    let i = find_level 3 0 (time_near * time_level) node.expire tm.time in
    let j = node.expire / 2 ^ (8 + i * 6) % time_level in
    let k = node.expire % time_near in
    if fill_low node.expire time_near == fill_low tm.time time_near
    then set_near tm k (tm.near k ++ (node ∷ []))
    else set_level tm i j (tm.t i j ++ (node ∷ []))

-- `timer_add`; `time` is a positive `int`
unfoldable pub timer_add : Timer → TimerEvent → ℕ → Timer
timer_add tm event time = add_node tm (record { expire = (time + tm.time) % 2 ^ 32; event = event })

unfoldable pub add_nodes : Timer → List TimerNode → Timer
add_nodes tm [] = tm
add_nodes tm (n ∷ ns) = add_nodes (add_node tm n) ns

unfoldable pub move_list : Timer → ℕ → ℕ → Timer
move_list tm level idx = add_nodes (set_level tm level idx []) (tm.t level idx)

-- The `while` loop of `timer_shift`. It ends within four rounds, since `ct` is not 0.
unfoldable pub shift_loop : ℕ → ℕ → ℕ → ℕ → ℕ → Timer → Timer
shift_loop zero i mask time ct tm = tm
shift_loop (suc n) i mask time ct tm =
    let further = shift_loop n (i + 1) (mask * time_level) (time / time_level) ct tm in
    let idx = time % time_level in
    if ct % mask == 0 then (if idx == 0 then further else move_list tm i idx) else tm

unfoldable pub timer_shift : Timer → Timer
timer_shift tm =
    let ct = (tm.time + 1) % 2 ^ 32 in
    let tm' = record tm { time = ct } in
    if ct == 0 then move_list tm' 3 0 else shift_loop 4 0 time_near (ct / time_near) ct tm'

-- `timer_execute` with `dispatch_list`. The loop finds the list empty after it was taken off once.
unfoldable pub timer_execute : Timer → List TimerEvent × Timer
timer_execute tm =
    let idx = tm.time % time_near in (map (λ n. n.event) (tm.near idx), set_near tm idx [])

unfoldable pub timer_update : Timer → List TimerEvent × Timer
timer_update tm =
    let (early, tm) = timer_execute tm in
    let (sent, tm) = timer_execute (timer_shift tm) in (early ++ sent, tm)

abbrev pub timer_create_timer : Timer
timer_create_timer = record {
  near = λ i. [];
  t = λ i j. [];
  time = 0;
  starttime = 0;
  current = 0;
  current_point = 0;
}

-- The readings of the clock are the time of the start in seconds, the hundredths of a second beyond
-- it, and the hundredths on the monotonic clock.
unfoldable pub skynet_timer_init : ℕ → ℕ → ℕ → Timer
skynet_timer_init sec cs point = record timer_create_timer {
  starttime = sec;
  current = cs;
  current_point = point;
}

-- `skynet_timeout`: the event that is sent at once, if any. The result is the session, except where
-- the receiver of an event sent at once does not exist.
unfoldable pub skynet_timeout : Timer → ℕ → ℤ → ℤ → List TimerEvent × Timer
skynet_timeout tm handle (negsuc n) session =
    (record { handle = handle; session = session } ∷ [], tm)
skynet_timeout tm handle (pos time) session =
    let event : TimerEvent = record { handle = handle; session = session } in
    if time == 0 then (event ∷ [], tm) else ([], timer_add tm event time)

unfoldable pub update_times : ℕ → Timer → List TimerEvent × Timer
update_times zero tm = ([], tm)
update_times (suc n) tm =
    let (sent, tm) = timer_update tm in let (later, tm) = update_times n tm in (sent ++ later, tm)

-- `skynet_updatetime` at the reading `cp` of the clock
unfoldable pub skynet_updatetime : Timer → ℕ → List TimerEvent × Timer
skynet_updatetime tm cp =
    let diff = (cp - tm.current_point) % 2 ^ 32 in
    if ltb cp tm.current_point
    then ([], record tm { current_point = cp })
    else if cp == tm.current_point
    then ([], tm)
    else update_times diff
        (record tm { current_point = cp; current = (tm.current + diff) % 2 ^ 64 })
