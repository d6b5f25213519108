-- ===== src/Handles/Room.antt =====
-- `_insert_name_before` with room in the array, and without.
use rillserver.Prelude.{
  ℕ, ◌+◌, ◌-◌, ◌*◌, ◌≤◌, ◌≡◌, inl, inr, refl, arith, true, some, if◌then◌else◌, Bool-cases, ltb,
  leb, List,
}
use rillserver.Handles.{HandleName, HandleStorage}
use rillserver.Handles.Names.{move_up, insert_name_before, max_slot_size}
use rillserver.Prelude.Ring.{update}
use rillserver.Handles.Placing.{inserted, moved-inserted, copied-inserted}
use rillserver.Handles.Naming.{IsNames}

abbrev pub named : List ℕ → ℕ → HandleName
named name handle = record { name = name; handle = handle }

-- The array has room for a name more, or is made larger.
pub record Inserts (s : HandleStorage) (name : List ℕ) (handle before : ℕ) : Type 0 where
  pub after : HandleStorage
  pub done : insert_name_before s name handle before ≡ some after
  pub count_after : after.name_count ≡ s.name_count + 1
  pub fits_after : after.name_count ≤ after.name_cap
  pub some_cap_after : 1 ≤ after.name_cap
  pub names_after :
      (k : ℕ) → k ≤ s.name_count → after.names k ≡ inserted before (named name handle) s.names k

pub insert_name_before-Inserts :
    (s : HandleStorage) (name : List ℕ) (handle before : ℕ)
    → IsNames s
    → s.name_cap * 2 ≤ max_slot_size
    → Inserts s name handle before
unfolding insert_name_before
insert_name_before-Inserts s name handle before v small =
    elim (Bool-cases (ltb s.name_count s.name_cap)) [
      | inl room ↦ record {
        after = record s {
          names = update (move_up s.name_count before s.names) before (named name handle);
          name_count = s.name_count + 1;
        };
        done = rw (insert_name_before, room);
        count_after = refl;
        fits_after = ground arith;
        some_cap_after = v.some_cap;
        names_after = λ k le. moved-inserted s.name_count before (named name handle) s.names k le;
      }
      | inr none_left ↦
          let allowed : leb (s.name_cap * 2) max_slot_size ≡ true = ground arith in
          record {
            after = record s {
              names =
                  update (λ i. if ltb i before then s.names i else s.names (i - 1)) before
                    (named name handle);
              name_count = s.name_count + 1;
              name_cap = s.name_cap * 2;
            };
            done = rw (insert_name_before, none_left, allowed);
            count_after = refl;
            fits_after = omega (arith, v.fits, v.some_cap);
            some_cap_after = omega (arith, v.some_cap);
            names_after = λ k le. copied-inserted before (named name handle) s.names k;
          }
    ]
