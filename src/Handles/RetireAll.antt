-- ===== src/Handles/RetireAll.antt =====
-- `skynet_handle_retireall`.
use rillserver.Prelude.{
  ℕ, zero, suc, ◌+◌, ◌%◌, ◌^◌, ◌<◌, ◌≤◌, ◌≡◌, ◌≢◌, inl, inr, refl, ap, sym, ◌∙◌, arith, true, false,
  Option, none, some, ◌==◌, ==_iff, if◌then◌else◌, Bool-cases,
}
use rillserver.Prelude.Ring.{update}
use rillserver.Handles.{
  HandleStorage, handle_grab, handle_retire, drop_names, retire_slots, handle_retireall,
}
use rillserver.Handles.Table.{IsTable, Option-cases, size-pos}
use native.Mathlib.Nat.{mod-lt}

-- Every context stands where its handle says, and has one.
record IsPlaced (handle_of : ℕ → ℕ) (s : HandleStorage) : Type 0 where
  at_handle : (i c : ℕ) → i < s.slot_size → s.slot i ≡ some c → handle_of c % s.slot_size ≡ i
  some_handle : (i c : ℕ) → i < s.slot_size → s.slot i ≡ some c → handle_of c ≢ 0

-- What the slots are after those from `i` on were retired.
record Cleared (handle_of : ℕ → ℕ) (s : HandleStorage) (i : ℕ) (after : HandleStorage)
    : Type 0 where
  same_size : after.slot_size ≡ s.slot_size
  before_i : (j : ℕ) → j < i → after.slot j ≡ s.slot j
  from_i : (j : ℕ) → i ≤ j → j < s.slot_size → after.slot j ≡ none

-- The retirement of the context in the slot `i`.
module _ (handle_of : ℕ → ℕ) (s : HandleStorage) (i ctx : ℕ) (there : s.slot i ≡ some ctx)
    (right : handle_of ctx % s.slot_size ≡ i) where
  abbrev left : HandleStorage
  left = (handle_retire handle_of s (handle_of ctx)).1

  found : s.slot (handle_of ctx % s.slot_size) ≡ some ctx
  found = ap s.slot right ∙ there

  self : (handle_of ctx == handle_of ctx) ≡ true
  self = (==_iff (handle_of ctx) (handle_of ctx)).1 refl

  abbrev gone : HandleStorage
  gone =
      let (count, names) = drop_names s.name_count (handle_of ctx) 0 0 s.names in
      record s {
        slot = update s.slot (handle_of ctx % s.slot_size) none;
        name_count = count;
        names = names;
      }

  retire-gone : handle_retire handle_of s (handle_of ctx) ≡ (true, gone)
  unfolding handle_retire
  retire-gone = rw (handle_retire, found, self)

  retired : (handle_retire handle_of s (handle_of ctx)).0 ≡ true
  retired = ap (λ r. r.0) retire-gone

  left-size : left.slot_size ≡ s.slot_size
  left-size = ap (λ r. r.1.slot_size) retire-gone

  left-slot : (j : ℕ) → left.slot j ≡ (if i == j then none else s.slot j)
  left-slot j =
      ap (λ r. r.1.slot j) retire-gone ∙ ap (λ (x : ℕ). if x == j then none else s.slot j) right

  now_free : (j : ℕ) → (i == j) ≡ true → left.slot j ≡ none
  now_free j h = left-slot j ∙ rw h

  as_before : (j : ℕ) → (i == j) ≡ false → left.slot j ≡ s.slot j
  as_before j h = left-slot j ∙ rw h

  left-IsPlaced : IsPlaced handle_of s → IsPlaced handle_of left
  left-IsPlaced p = record {
    at_handle = λ j c lt e.
        ap (λ (n : ℕ). handle_of c % n) left-size
        ∙ p.at_handle j c (omega (arith, left-size)) (was j c e);
    some_handle = λ j c lt e. p.some_handle j c (omega (arith, left-size)) (was j c e);
  }
    where
      was : (j c : ℕ) → left.slot j ≡ some c → s.slot j ≡ some c
      was j c e = elim (Bool-cases (i == j)) [
        | inl h ↦ absurd (let k = now_free j h in cc)
        | inr h ↦ sym (as_before j h) ∙ e
      ]

module _ (handle_of : ℕ → ℕ) where
  retire_slots-Cleared :
      (n : ℕ) (s : HandleStorage) (i : ℕ)
      → i + n ≡ s.slot_size
      → IsPlaced handle_of s
      → Cleared handle_of s i (retire_slots n handle_of s i).1
  unfolding retire_slots
  retire_slots-Cleared zero s i e p = record {
    same_size = refl;
    before_i = λ j lt. refl;
    from_i = λ j le lt. absurd (omega arith);
  }
  retire_slots-Cleared (suc n) s i e p = elim (Option-cases (s.slot i)) [
    | inl empty ↦
        let c = retire_slots-Cleared n s (i + 1) (omega (arith, e)) p in
        rw (retire_slots, empty)
          (record {
            same_size = c.same_size;
            before_i = λ j lt. c.before_i j (omega arith);
            from_i = λ j le lt. elim (Bool-cases (i == j)) [
              | inl h ↦ c.before_i j (ground arith) ∙ ap s.slot (sym ((==_iff i j).0 h)) ∙ empty
              | inr h ↦ c.from_i j (ground arith) lt
            ];
          })
    | inr (ctx, there) ↦
        let right = p.at_handle i ctx (omega (arith, e)) there in
        let some_handle : (handle_of ctx == 0) ≡ false =
          ground (arith, p.some_handle i ctx (omega (arith, e)) there) in
        let gone = retired handle_of s i ctx there right in
        let s' = left handle_of s i ctx there right in
        let size = left-size handle_of s i ctx there right in
        let slot = left-slot handle_of s i ctx there right in
        let c =
          retire_slots-Cleared n s' (i + 1) (omega (arith, e, size))
            (left-IsPlaced handle_of s i ctx there right p) in
        rw (retire_slots, there, some_handle, gone)
          (record {
            same_size = c.same_size ∙ size;
            before_i = λ j lt.
                let other : (i == j) ≡ false = ground arith in
                c.before_i j (omega arith) ∙ slot j ∙ rw other;
            from_i = λ j le lt. elim (Bool-cases (i == j)) [
              | inl h ↦ c.before_i j (ground arith) ∙ slot j ∙ rw h
              | inr h ↦ c.from_i j (ground arith) (omega (arith, size))
            ];
          })
  ]

  -- Empty slots are left as they are.
  retire_slots-empty :
      (n : ℕ) (s : HandleStorage) (i : ℕ)
      → i + n ≤ s.slot_size
      → ((j : ℕ) → j < s.slot_size → s.slot j ≡ none)
      → retire_slots n handle_of s i ≡ (0, s)
  unfolding retire_slots
  retire_slots-empty zero s i le empty = refl
  retire_slots-empty (suc n) s i le empty =
      let here = empty i (omega arith) in
      rw (retire_slots, here) (retire_slots-empty n s (i + 1) (omega arith) empty)

-- What the end of all the handles must come to.
pub record Empties (handle_of : ℕ → ℕ) (s : HandleStorage) (result : Option HandleStorage)
    : Type 0 where
  pub after : HandleStorage
  pub done : result ≡ some after
  pub same_size : after.slot_size ≡ s.slot_size
  pub nobody : (handle : ℕ) → handle_grab handle_of after handle ≡ none

-- On a sound table whose contexts have handles other than 0, while nobody else calls, the loop ends
-- within two rounds, and then no handle finds a context.
pub handle_retireall-Empties :
    (handle_of : ℕ → ℕ) (s : HandleStorage) (fuel : ℕ)
    → IsTable handle_of s
    → ((i c : ℕ) → i < s.slot_size → s.slot i ≡ some c → handle_of c ≢ 0)
    → Empties handle_of s (handle_retireall (suc (suc fuel)) handle_of s)
unfolding handle_retireall handle_grab
handle_retireall-Empties handle_of s fuel v some_handle =
    let c =
      retire_slots-Cleared handle_of s.slot_size s 0 (omega arith)
        (record { at_handle = v.placed; some_handle = some_handle }) in
    let after = (retire_slots s.slot_size handle_of s 0).1 in
    let up = size-pos s.slot_size (2 ^ v.left) v.size in
    let empty : (j : ℕ) → j < after.slot_size → after.slot j ≡ none =
      λ j lt. c.from_i j (omega arith) (omega (arith, c.same_size)) in
    let again = retire_slots-empty handle_of after.slot_size after 0 (omega arith) empty in
    record {
      after = after;
      done = elim (Bool-cases ((retire_slots s.slot_size handle_of s 0).0 == 0)) [
        | inl h ↦ rw (handle_retireall, h)
        | inr h ↦ rw (handle_retireall, h, again)
      ];
      same_size = c.same_size;
      nobody = λ handle.
          let free =
            empty (handle % after.slot_size) (mod-lt handle (omega (arith, up, c.same_size))) in
          rw (handle_grab, free);
    }
