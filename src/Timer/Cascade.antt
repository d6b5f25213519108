-- ===== src/Timer/Cascade.antt =====
-- `timer_shift`: the list of the wheel that comes round is dealt out again.
use rillserver.Prelude.{
  some_inj, ℕ, ◌+◌, ◌-◌, ◌%◌, ◌^◌, ◌<◌, ◌≤◌, ◌≡◌, ◌≢◌, refl, ap, sym, subst, ◌∙◌, arith, Bool, true,
  false, Option, none, some, List, [], ◌∷◌, ◌++◌, Bool-cases, inl, inr, append-nil,
}
use rillserver.Timer.{TimerNode, Timer, move_list, timer_shift}
use rillserver.Timer.Slots.{
  Slot, near_slot, level_slot, same, same_iff, at, put, at-put, time-put, place,
}
use rillserver.Timer.Shift.{left_at, moved, place-kept}
use rillserver.Timer.Moves.{move_slot, timer_shift-moved}
use rillserver.Timer.Waiting.{due, waiting, AllPlaced, IsTimer, due-none, not_same}
use rillserver.Timer.Linking.{AllLive, time-add_nodes, waiting-add_nodes, add_nodes-IsTimer}

-- One tick: what is left is one less.
pub left-next :
    (c e : ℕ)
    → c < 2 ^ 32
    → e < 2 ^ 32
    → 1 ≤ left_at c e
    → left_at ((c + 1) % 2 ^ 32) e ≡ left_at c e - 1
left-next c e lt lt' up = omega arith

live_next :
    (c : ℕ) (s : Slot) (ns : List TimerNode)
    → c < 2 ^ 32
    → AllPlaced 1 c s ns
    → AllLive 0 ((c + 1) % 2 ^ 32) ns
live_next c s [] lt p = tt
live_next c s (n ∷ ns) lt p =
    let l = left-next c n.expire lt p.0.0 p.0.1.1.0 in
    ((p.0.0, (omega arith, omega (arith, l, p.0.1.1.1))), live_next c s ns lt p.1)

placed_next :
    (c : ℕ) (s : Slot) (ns : List TimerNode)
    → c < 2 ^ 32
    → moved ((c + 1) % 2 ^ 32) ≢ some s
    → AllPlaced 1 c s ns
    → AllPlaced 0 ((c + 1) % 2 ^ 32) s ns
placed_next c s [] lt out p = tt
placed_next c s (n ∷ ns) lt out p =
    let l = left-next c n.expire lt p.0.0 p.0.1.1.0 in
    let stays =
      place-kept c ((c + 1) % 2 ^ 32) n.expire lt p.0.0 refl p.0.1.1.0 p.0.1.1.1
        (subst (λ z. moved ((c + 1) % 2 ^ 32) ≢ some z) (sym p.0.1.0) out) in
    (
      (p.0.0, (stays ∙ p.0.1.0, (omega arith, omega (arith, l, p.0.1.1.1)))),
      placed_next c s ns lt out p.1,
    )

is_near : Option Slot → Bool
is_near none = false
is_near (some (near_slot i)) = true
is_near (some (level_slot i j)) = false

never_near : (c i : ℕ) → moved c ≢ some (near_slot i)
unfolding is_near
never_near c i e =
    let no : is_near (moved c) ≡ true = ap is_near e in
    let yes : is_near (moved c) ≡ false = not_near in
    let both : true ≡ false = sym no ∙ yes in absurd (cc)
  where
    not_near : is_near (moved c) ≡ false
    not_near = ground arith

-- The wheels without one list, at the next time.
module _ (tm : Timer) (v : IsTimer 1 tm) where
  abbrev pub later : ℕ
  later = (tm.time + 1) % 2 ^ 32

  abbrev without : Slot → Timer
  without m = put (record tm { time = later }) m []

  without-IsTimer : (m : Slot) → moved later ≡ some m → IsTimer 0 (without m)
  without-IsTimer m is_m = record {
    in_time = omega (arith, time-put (record tm { time = later }) m []);
    placed = λ s.
        subst (λ c. AllPlaced 0 c s (at (without m) s))
          (sym (time-put (record tm { time = later }) m []))
          (subst (AllPlaced 0 later s) (sym (at-put (record tm { time = later }) m s []))
            (elim (Bool-cases (same m s)) [
              | inl h ↦ rw h tt
              | inr h ↦ rw h (
                  at_later s (
                    placed_next tm.time s (at tm s) v.in_time
                      (λ e. not_same m s h (some_inj (sym is_m ∙ e))) (v.placed s)))
            ]));
  }
    where
      at_later :
          (s : Slot)
          → AllPlaced 0 later s (at tm s)
          → AllPlaced 0 later s (at (record tm { time = later }) s)
      at_later (near_slot i) p = p
      at_later (level_slot i j) p = p

  at-later : (s : Slot) → at (record tm { time = later }) s ≡ at tm s
  at-later (near_slot i) = refl
  at-later (level_slot i j) = refl

  -- What the shift must come to.
  pub record Shifts (tm' : Timer) : Type 0 where
    pub time_after : tm'.time ≡ later
    pub sound_after : IsTimer 0 tm'
    pub waiting_after :
        (e : ℕ)
        → e < 2 ^ 32
        → 1 ≤ left_at tm.time e
        → left_at tm.time e < 2 ^ 31
        → waiting tm' e ≡ waiting tm e

  shift-none : moved later ≡ none → Shifts (record tm { time = later })
  shift-none is_none = record {
    time_after = refl;
    sound_after = record {
      in_time = omega arith;
      placed = λ s.
          subst (AllPlaced 0 later s) (sym (at-later s))
            (placed_next tm.time s (at tm s) v.in_time (λ e. absurd (cc)) (v.placed s));
    };
    waiting_after = λ e lt up small.
        let stays = place-kept tm.time later e v.in_time lt refl up small (λ h. absurd (cc)) in
        ap (due e) (at-later (place later e)) ∙ ap (λ s. due e (at tm s)) stays;
  }

  shift-level :
      (i j : ℕ)
      → moved later ≡ some (level_slot i j)
      → Shifts (move_list (record tm { time = later }) i j)
  unfolding move_list
  shift-level i j is_m =
      let m = level_slot i j in
      record {
        time_after = time-add_nodes (without m) (tm.t i j);
        sound_after =
            add_nodes-IsTimer 0 (without m) (tm.t i j) (without-IsTimer m is_m)
              (live_next tm.time m (tm.t i j) v.in_time (v.placed m));
        waiting_after = λ e lt up small.
            waiting-add_nodes (without m) (tm.t i j) e
            ∙ elim (Bool-cases (same m (place tm.time e))) [
              | inl h ↦
                  ap (λ l. l ++ due e (tm.t i j)) (emptied m e ((same_iff m (place tm.time e)).0 h))
                  ∙ ap (λ s. due e (at tm s)) ((same_iff m (place tm.time e)).0 h)
              | inr h ↦
                  let stays =
                    place-kept tm.time later e v.in_time lt refl up small
                      (λ k. not_same m (place tm.time e) h (some_inj (sym is_m ∙ k))) in
                  ap (λ l. waiting (without m) e ++ l)
                    (due-none 1 tm.time e m (tm.t i j) (v.placed m) (λ k. not_same m _ h (sym k)))
                  ∙ append-nil (waiting (without m) e)
                  ∙ ap (λ s. due e (at (without m) s)) stays
                  ∙ ap (due e) (
                      at-put (record tm { time = later }) m (place tm.time e) []
                      ∙ rw h (at-later (place tm.time e)))
            ];
      }
    where
      emptied :
          (m : Slot) (e : ℕ)
          → m ≡ place tm.time e
          → due e (at (put (record tm { time = later }) m []) (place later e)) ≡ []
      emptied m e is_place =
          ap (due e) (at-put (record tm { time = later }) m (place later e) [])
          ∙ elim (Bool-cases (same m (place later e))) [
            | inl k ↦ rw k
            | inr k ↦ rw k (
                ap (due e) (at-later (place later e))
                ∙ due-none 1 tm.time e (place later e) (at tm (place later e))
                    (v.placed (place later e)) (λ q. not_same m (place later e) k (is_place ∙ q)))
          ]

  -- `timer_shift` on sound wheels.
  pub timer_shift-Shifts : Shifts (timer_shift tm)
  timer_shift-Shifts = subst Shifts (sym (timer_shift-moved tm)) (at_moved (moved later) refl)
    where
      at_moved :
          (o : Option Slot) → moved later ≡ o → Shifts (move_slot (record tm { time = later }) o)
      at_moved none e = unfold move_slot in shift-none e
      at_moved (some (level_slot i j)) e = unfold move_slot in shift-level i j e
      at_moved (some (near_slot i)) e = absurd (never_near later i e)
