-- ===== src/Timer/Shift.antt =====
-- What `timer_shift` moves, and the nodes that it leaves where they are.
use rillserver.Prelude.{
  ℕ, ◌+◌, ◌-◌, ◌/◌, ◌%◌, ◌^◌, ◌<◌, ◌≤◌, ◌≡◌, ◌≢◌, ap, sym, ◌∙◌, arith, true, false, Option, none,
  some, ◌==◌, ==_iff, if◌then◌else◌, Bool-cases, inl, inr,
}
use rillserver.Timer.Slots.{Slot, level_slot, place}

-- The list that is moved when the time becomes `c`.
abbrev pub moved : ℕ → Option Slot
moved c =
    if c == 0
    then some (level_slot 3 0)
    else if c % 2 ^ 8 == 0
    then if c / 2 ^ 8 % 64 == 0
      then if c / 2 ^ 14 % 64 == 0
        then if c / 2 ^ 20 % 64 == 0
          then some (level_slot 3 (c / 2 ^ 26 % 64))
          else some (level_slot 2 (c / 2 ^ 20 % 64))
        else some (level_slot 1 (c / 2 ^ 14 % 64))
      else some (level_slot 0 (c / 2 ^ 8 % 64))
    else none

-- How much time a node has left.
abbrev pub left_at : ℕ → ℕ → ℕ
left_at c e = (e + 2 ^ 32 - c) % 2 ^ 32

-- A node whose wheel comes round is on the list that is moved.
module _ (c e : ℕ) (some_time : (c == 0) ≡ false) where
  moved0 :
      (c % 2 ^ 8 == 0) ≡ true
      → (c / 2 ^ 8 % 64 == 0) ≡ false
      → c / 2 ^ 8 ≡ e / 2 ^ 8
      → moved c ≡ some (level_slot 0 (e / 2 ^ 8 % 64))
  moved0 z0 z1 q = rw (some_time, z0, z1) (ap (λ (k : ℕ). some (level_slot 0 (k % 64))) q)

  moved1 :
      (c % 2 ^ 8 == 0) ≡ true
      → (c / 2 ^ 8 % 64 == 0) ≡ true
      → (c / 2 ^ 14 % 64 == 0) ≡ false
      → c / 2 ^ 14 ≡ e / 2 ^ 14
      → moved c ≡ some (level_slot 1 (e / 2 ^ 14 % 64))
  moved1 z0 z1 z2 q = rw (some_time, z0, z1, z2) (ap (λ (k : ℕ). some (level_slot 1 (k % 64))) q)

  moved2 :
      (c % 2 ^ 8 == 0) ≡ true
      → (c / 2 ^ 8 % 64 == 0) ≡ true
      → (c / 2 ^ 14 % 64 == 0) ≡ true
      → (c / 2 ^ 20 % 64 == 0) ≡ false
      → c / 2 ^ 20 ≡ e / 2 ^ 20
      → moved c ≡ some (level_slot 2 (e / 2 ^ 20 % 64))
  moved2 z0 z1 z2 z3 q =
      rw (some_time, z0, z1, z2, z3) (ap (λ (k : ℕ). some (level_slot 2 (k % 64))) q)

  moved3 :
      (c % 2 ^ 8 == 0) ≡ true
      → (c / 2 ^ 8 % 64 == 0) ≡ true
      → (c / 2 ^ 14 % 64 == 0) ≡ true
      → (c / 2 ^ 20 % 64 == 0) ≡ true
      → c / 2 ^ 26 ≡ e / 2 ^ 26
      → moved c ≡ some (level_slot 3 (e / 2 ^ 26 % 64))
  moved3 z0 z1 z2 z3 q =
      rw (some_time, z0, z1, z2, z3) (ap (λ (k : ℕ). some (level_slot 3 (k % 64))) q)

moved-wrap : (e : ℕ) → e / 2 ^ 26 ≡ 0 → moved 0 ≡ some (level_slot 3 (e / 2 ^ 26 % 64))
moved-wrap e q = rw q

-- Times that differ in a high part differ in the lower ones.
module _ (a b : ℕ) where
  not_equal : (a == b) ≡ false → a ≢ b
  not_equal h = ground arith

  apart14 : (a / 2 ^ 14 == b / 2 ^ 14) ≡ false → (a / 2 ^ 8 == b / 2 ^ 8) ≡ false
  apart14 h = ground arith

  apart20 : (a / 2 ^ 20 == b / 2 ^ 20) ≡ false → (a / 2 ^ 14 == b / 2 ^ 14) ≡ false
  apart20 h = ground arith

  apart26 : (a / 2 ^ 26 == b / 2 ^ 26) ≡ false → (a / 2 ^ 20 == b / 2 ^ 20) ≡ false
  apart26 h = ground arith

-- One level of `place-kept`: `c'` is the time after `c`.
module _ (c c' e : ℕ) (lt : c < 2 ^ 32) (lt' : e < 2 ^ 32) (next : c' ≡ (c + 1) % 2 ^ 32)
    (up : 1 ≤ left_at c e) (small : left_at c e < 2 ^ 31) where
  no_wrap : e / 2 ^ 26 ≡ c / 2 ^ 26 → (c < e) × (c' ≡ c + 1)
  no_wrap q = omega arith

  kept_near : e / 2 ^ 8 ≡ c / 2 ^ 8 → e / 2 ^ 8 ≡ c' / 2 ^ 8
  kept_near q = omega (arith, no_wrap (omega arith))

  kept_level0 :
      e / 2 ^ 8 ≢ c / 2 ^ 8
      → e / 2 ^ 14 ≡ c / 2 ^ 14
      → (e / 2 ^ 14 ≡ c' / 2 ^ 14)
        × (e / 2 ^ 8 ≡ c' / 2 ^ 8 → moved c' ≡ some (level_slot 0 (e / 2 ^ 8 % 64)))
  kept_level0 ne q =
      let n = no_wrap (omega arith) in
      (
        omega (arith, n),
        λ r. moved0 c' e (ground (arith, n)) (ground (arith, n)) (ground (arith, n)) (omega arith),
      )

  kept_level1 :
      e / 2 ^ 14 ≢ c / 2 ^ 14
      → e / 2 ^ 20 ≡ c / 2 ^ 20
      → (e / 2 ^ 20 ≡ c' / 2 ^ 20)
        × (e / 2 ^ 14 ≡ c' / 2 ^ 14 → moved c' ≡ some (level_slot 1 (e / 2 ^ 14 % 64)))
  kept_level1 ne q =
      let n = no_wrap (omega arith) in
      (
        omega (arith, n),
        λ r.
            moved1 c' e (ground (arith, n)) (ground (arith, n)) (ground (arith, n))
              (ground (arith, n)) (omega arith),
      )

  kept_level2 :
      e / 2 ^ 20 ≢ c / 2 ^ 20
      → e / 2 ^ 26 ≡ c / 2 ^ 26
      → (e / 2 ^ 26 ≡ c' / 2 ^ 26)
        × (e / 2 ^ 20 ≡ c' / 2 ^ 20 → moved c' ≡ some (level_slot 2 (e / 2 ^ 20 % 64)))
  kept_level2 ne q =
      let n = no_wrap q in
      (
        omega (arith, n),
        λ r.
            moved2 c' e (ground (arith, n)) (ground (arith, n)) (ground (arith, n))
              (ground (arith, n)) (ground (arith, n)) (omega arith),
      )

  kept_level3 :
      e / 2 ^ 26 ≢ c / 2 ^ 26
      → e / 2 ^ 26 ≡ c' / 2 ^ 26
      → moved c' ≡ some (level_slot 3 (e / 2 ^ 26 % 64))
  kept_level3 ne r = elim (Bool-cases (c' == 0)) [
    | inl zero_time ↦
        ap moved ((==_iff c' 0).0 zero_time)
        ∙ moved-wrap e (omega (arith, (==_iff c' 0).0 zero_time))
    | inr some_time ↦
        let aligned : c' % 2 ^ 26 ≡ 0 = omega arith in
        moved3 c' e some_time (ground arith) (ground arith) (ground arith) (ground arith)
          (omega arith)
  ]

  module _ (out : moved c' ≢ some (place c e)) where
    -- It has not come round to a place that the time has reached.
    apart : (m n : ℕ) (s : Slot) → place c e ≡ s → (m ≡ n → moved c' ≡ some s) → (m == n) ≡ false
    apart m n s here reached = elim (Bool-cases (m == n)) [
      | inl e ↦ absurd (out (reached ((==_iff m n).0 e) ∙ ap some (sym here)))
      | inr e ↦ e
    ]

    -- A node that is not on the list that is moved belongs where it is.
    pub place-kept : place c' e ≡ place c e
    place-kept = elim (Bool-cases (e / 2 ^ 8 == c / 2 ^ 8)) [
      | inl h ↦
          let h' : (e / 2 ^ 8 == c' / 2 ^ 8) ≡ true =
            (==_iff _ _).1 (kept_near ((==_iff _ _).0 h)) in
          rw (h, h')
      | inr h ↦ elim (Bool-cases (e / 2 ^ 14 == c / 2 ^ 14)) [
        | inl k ↦
            let l = kept_level0 (not_equal _ _ h) ((==_iff _ _).0 k) in
            let k' = (==_iff _ _).1 l.0 in
            let h' =
              apart (e / 2 ^ 8) (c' / 2 ^ 8) (level_slot 0 (e / 2 ^ 8 % 64)) (rw (h, k)) l.1 in
            rw (h, k, h', k')
        | inr k ↦ elim (Bool-cases (e / 2 ^ 20 == c / 2 ^ 20)) [
          | inl m ↦
              let l = kept_level1 (not_equal _ _ k) ((==_iff _ _).0 m) in
              let m' = (==_iff _ _).1 l.0 in
              let k' =
                apart (e / 2 ^ 14) (c' / 2 ^ 14) (level_slot 1 (e / 2 ^ 14 % 64)) (rw (h, k, m))
                  l.1 in
              let h' = apart14 e c' k' in rw (h, k, m, h', k', m')
          | inr m ↦ elim (Bool-cases (e / 2 ^ 26 == c / 2 ^ 26)) [
            | inl o ↦
                let l = kept_level2 (not_equal _ _ m) ((==_iff _ _).0 o) in
                let o' = (==_iff _ _).1 l.0 in
                let m' =
                  apart (e / 2 ^ 20) (c' / 2 ^ 20) (level_slot 2 (e / 2 ^ 20 % 64))
                    (rw (h, k, m, o)) l.1 in
                let k' = apart20 e c' m' in
                let h' = apart14 e c' k' in rw (h, k, m, o, h', k', m', o')
            | inr o ↦
                let o' =
                  apart (e / 2 ^ 26) (c' / 2 ^ 26) (level_slot 3 (e / 2 ^ 26 % 64))
                    (rw (h, k, m, o)) (kept_level3 (not_equal _ _ o)) in
                let m' = apart26 e c' o' in
                let k' = apart20 e c' m' in
                let h' = apart14 e c' k' in rw (h, k, m, o, h', k', m', o')
          ]
        ]
      ]
    ]
