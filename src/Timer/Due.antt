-- ===== src/Timer/Due.antt =====
-- A timeout among the calls and the ticks that follow it.
use rillserver.Prelude.{
  ℕ, suc, ◌+◌, ◌%◌, ◌^◌, ◌<◌, ◌≤◌, ◌≡◌, refl, ap, sym, ◌∙◌, arith, Bool, true, false, List, [], ◌∷◌,
  ◌++◌, ◌==◌, ==_iff, if◌then◌else◌, Bool-cases, inl, inr, append_assoc, append-nil,
}
use rillserver.Prelude.Int.{ℤ, pos}
use rillserver.Timer.{TimerEvent, TimerNode, Timer, timer_add, timer_update, skynet_timeout}
use rillserver.Timer.Shift.{left_at}
use rillserver.Timer.Waiting.{waiting, IsTimer, timer_add-waiting, time-add_node}
use rillserver.Timer.Cascade.{left-next}
use rillserver.Timer.Update.{events, timer_update-Ticks}

-- What the threads do to the timer: a service asks for a timeout, or the clock ticks.
pub data Call : Type 0 where
  asks : ℕ → ℕ → ℤ → Call
  ticks : Call

unfoldable pub step : Timer → Call → Timer
step tm (asks handle time session) = (skynet_timeout tm handle (pos time) session).1
step tm ticks = (timer_update tm).1

unfoldable pub run : Timer → List Call → Timer
run tm [] = tm
run tm (c ∷ calls) = run (step tm c) calls

abbrev pub ticks_of : List Call → ℕ
ticks_of [] = 0
ticks_of (asks handle time session ∷ calls) = ticks_of calls
ticks_of (ticks ∷ calls) = suc (ticks_of calls)

-- The times are positive values of an `int`.
abbrev pub AllTimes : List Call → Type 0
AllTimes [] = Unit
AllTimes (asks handle time session ∷ calls) = ((1 ≤ time) × (time < 2 ^ 31)) × AllTimes calls
AllTimes (ticks ∷ calls) = AllTimes calls

-- What waits for a time before it comes, and what is added to it.
record Kept (tm tm' : Timer) (e : ℕ) : Type 0 where
  more : List TimerNode
  sound : IsTimer 1 tm'
  left : left_at tm'.time e ≡ 1
  kept : waiting tm' e ≡ waiting tm e ++ more

timeout-add :
    (tm : Timer) (handle time : ℕ) (session : ℤ)
    → 1 ≤ time
    → (skynet_timeout tm handle (pos time) session).1
      ≡ timer_add tm (record { handle = handle; session = session }) time
unfolding skynet_timeout
timeout-add tm handle time session up = let later : (time == 0) ≡ false = ground arith in rw later

time-timer_add :
    (tm : Timer) (event : TimerEvent) (time : ℕ) → (timer_add tm event time).time ≡ tm.time
unfolding timer_add
time-timer_add tm event time =
    time-add_node tm (record { expire = (time + tm.time) % 2 ^ 32; event = event })

-- A node is in the wheels in front of what came later.
abbrev extended : Bool → TimerNode → List TimerNode
extended b n = if b then n ∷ [] else []

run-Kept :
    (tm : Timer) (calls : List Call) (e : ℕ)
    → IsTimer 1 tm
    → AllTimes calls
    → e < 2 ^ 32
    → left_at tm.time e ≡ suc (ticks_of calls)
    → left_at tm.time e < 2 ^ 31
    → Kept tm (run tm calls) e
unfolding run step
run-Kept tm [] e v a lt left small = record {
  more = [];
  sound = v;
  left = left;
  kept = sym (append-nil (waiting tm e));
}
run-Kept tm (asks handle time session ∷ calls) e v a lt left small =
    let event : TimerEvent = record { handle = handle; session = session } in
    let node : TimerNode = record { expire = (time + tm.time) % 2 ^ 32; event = event } in
    let (sound, added) = timer_add-waiting tm event time e v a.0.0 a.0.1 in
    let same_time = time-timer_add tm event time in
    let k =
      run-Kept (timer_add tm event time) calls e sound a.1 lt
        (ap (λ (c : ℕ). left_at c e) same_time ∙ left) (omega (arith, same_time, small)) in
    rw (timeout-add tm handle time session a.0.0) (record {
      more = extended (node.expire == e) node ++ k.more;
      sound = k.sound;
      left = k.left;
      kept = k.kept ∙ ap (λ l. l ++ k.more) added ∙ elim (Bool-cases (node.expire == e)) [
        | inl h ↦ rw h (append_assoc (waiting tm e) (node ∷ []) k.more)
        | inr h ↦ rw h
      ];
    })
run-Kept tm (ticks ∷ calls) e v a lt left small =
    let t = timer_update-Ticks tm v in
    let next = left-next tm.time e v.in_time lt (omega (arith, left)) in
    let left' : left_at (timer_update tm).1.time e ≡ suc (ticks_of calls) =
      ap (λ (c : ℕ). left_at c e) t.time_after ∙ next ∙ omega (arith, left) in
    let k =
      run-Kept (timer_update tm).1 calls e t.sound_after a lt left'
        (omega (arith, left', left, small)) in
    record {
      more = k.more;
      sound = k.sound;
      left = k.left;
      kept = k.kept ∙ ap (λ l. l ++ k.more) (t.waiting_after e lt (omega (arith, left)) small);
    }

events-middle :
    (ws : List TimerNode) (node : TimerNode) (more : List TimerNode)
    → events ((ws ++ (node ∷ [])) ++ more) ≡ events ws ++ (node.event ∷ events more)
events-middle [] node more = refl
events-middle (w ∷ ws) node more = ap (λ l. w.event ∷ l) (events-middle ws node more)

-- An event is sent behind those that waited for the same time when it was asked for.
pub record Sends (before : List TimerEvent) (event : TimerEvent) (sent : List TimerEvent)
    : Type 0 where
  pub behind : List TimerEvent
  pub all_sent : sent ≡ before ++ (event ∷ behind)

-- A timeout of `time` ticks, from 1 up and below 2^31, that is asked for on sound wheels, followed by
-- `time - 1` ticks and any timeouts of such times, in any order: the next tick sends its event, behind
-- those that waited for the same time.
pub skynet_timeout-Sends :
    (tm : Timer) (handle time : ℕ) (session : ℤ) (calls : List Call)
    → IsTimer 1 tm
    → 1 ≤ time
    → time < 2 ^ 31
    → AllTimes calls
    → suc (ticks_of calls) ≡ time
    → Sends
        (events (waiting tm ((time + tm.time) % 2 ^ 32)))
        (record { handle = handle; session = session })
        (timer_update (run (step tm (asks handle time session)) calls)).0
unfolding step
skynet_timeout-Sends tm handle time session calls v up small a count =
    let event : TimerEvent = record { handle = handle; session = session } in
    let e = (time + tm.time) % 2 ^ 32 in
    let node : TimerNode = record { expire = e; event = event } in
    let (sound, added) = timer_add-waiting tm event time e v up small in
    let self : (e == e) ≡ true = (==_iff e e).1 refl in
    let there : waiting (timer_add tm event time) e ≡ waiting tm e ++ (node ∷ []) =
      added ∙ rw self in
    let same_time = time-timer_add tm event time in
    let left : left_at (timer_add tm event time).time e ≡ suc (ticks_of calls) =
      omega (arith, same_time, v.in_time, count) in
    let k =
      run-Kept (timer_add tm event time) calls e sound a (omega arith) left
        (omega (arith, left, count)) in
    let tm' = run (timer_add tm event time) calls in
    let t = timer_update-Ticks tm' k.sound in
    let now : (tm'.time + 1) % 2 ^ 32 ≡ e = omega (arith, k.left, k.sound.in_time) in
    rw (timeout-add tm handle time session up) (record {
      behind = events k.more;
      all_sent =
          t.sent
          ∙ ap (λ (c : ℕ). events (waiting tm' c)) now
          ∙ ap events (k.kept ∙ ap (λ l. l ++ k.more) there)
          ∙ events-middle (waiting tm e) node k.more;
    })
