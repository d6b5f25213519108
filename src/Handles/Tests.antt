-- ===== src/Handles/Tests.antt =====
-- The handles and names on concrete services, and the theorems at them.
use rillserver.Prelude.{
  some_inj, ℕ, zero, suc, ◌+◌, ◌-◌, ◌%◌, ◌^◌, ◌<◌, ◌≡◌, refl, sym, subst, ◌∙◌, arith, true, false,
  Option, none, some, [], ◌∷◌, ◌==◌, if◌then◌else◌,
}
use rillserver.SkipList.Compare.{lex}
use rillserver.Handles.{
  HandleName, HandleStorage, Outcome, returns, null_pointer, assertion_failed, out_of_rounds,
  handle_register, handle_retire, handle_retireall, handle_init, find_handle, rehash, double_slots,
  drop_names,
}
use rillserver.Handles.Names.{handle_findname, handle_namehandle}
use rillserver.Handles.Table.{IsTable, IsAbsent}
use rillserver.Handles.Fresh.{Registers}
use rillserver.Handles.Register.{handle_register-Registers}
use rillserver.Handles.Retire.{Retires, handle_retire-Retires}
use rillserver.Handles.RetireAll.{Empties, handle_retireall-Empties}
use rillserver.Handles.Naming.{IsNames, Finds, handle_findname-Finds}
use rillserver.Handles.Adding.{Binds, handle_namehandle-Binds}
use rillserver.Handles.Wrap.{IsFullBut0, handle_register-crash}

-- "a" and "c"
abbrev two_names : ℕ → HandleName
two_names i =
    if i == 0
    then record { name = 97 ∷ []; handle = 2 ^ 24 + 13 }
    else record { name = 99 ∷ []; handle = 2 ^ 24 + 14 }

-- four contexts with the handles 12 to 15
abbrev full_table : HandleStorage
full_table = record {
  harbor = 2 ^ 24;
  handle_index = 16;
  slot_size = 4;
  slot = λ i. some (i + 10);
  name_cap = 2;
  name_count = 2;
  names = two_names;
}

abbrev handle_of : ℕ → ℕ
handle_of ctx = 2 ^ 24 + (ctx + 2)

full_table-IsTable : IsTable handle_of full_table
full_table-IsTable = record {
  left = 22;
  size = refl;
  node_id = 1;
  harbor = refl;
  index_up = omega arith;
  index_fits = omega arith;
  placed = λ i c lt e. omega (arith, some_inj e);
}

full_table-IsAbsent : IsAbsent full_table 99
full_table-IsAbsent i lt e = let same = some_inj e in omega (arith, same)

handle_register-Registers_example :
    Registers handle_of full_table 99 (handle_register (suc (suc 0)) handle_of full_table 99)
handle_register-Registers_example =
    handle_register-Registers handle_of full_table 99 0 full_table-IsTable full_table-IsAbsent
      (omega arith)

abbrev shape : Outcome (ℕ × HandleStorage) → Option (ℕ × ℕ × ℕ)
shape (returns (handle, s)) = some (handle, s.slot_size, s.handle_index)
shape null_pointer = none
shape assertion_failed = none
shape out_of_rounds = none

registered : shape (handle_register 2 handle_of full_table 99) ≡ some (2 ^ 24 + 16, 8, 17)
unfolding handle_register find_handle rehash double_slots
registered = refl

abbrev started : Option HandleStorage
started = handle_init none two_names 257

abbrev register_first : Option HandleStorage → Outcome (ℕ × HandleStorage)
register_first none = assertion_failed
register_first (some s) = handle_register 1 handle_of s 99

first_handle : shape (register_first started) ≡ some (2 ^ 24 + 1, 4, 2)
unfolding handle_register find_handle handle_init
first_handle = refl

handle_retire-Retires_example :
    Retires handle_of full_table (2 ^ 24 + 13) (handle_retire handle_of full_table (2 ^ 24 + 13))
handle_retire-Retires_example =
    handle_retire-Retires handle_of full_table (2 ^ 24 + 13) full_table-IsTable

retired : (handle_retire handle_of full_table (2 ^ 24 + 13)).1.name_count ≡ 1
unfolding handle_retire drop_names
retired = refl

full_table-IsNames : IsNames full_table
full_table-IsNames = record {
  sorted = λ i j lt lt'.
      let first : i ≡ 0 = omega arith in
      let second : j ≡ 1 = omega arith in
      subst (λ (x : ℕ). lex (two_names x).name (two_names j).name ≡ true) (sym first)
        (subst (λ (y : ℕ). lex (two_names 0).name (two_names y).name ≡ true) (sym second) refl);
  fits = omega arith;
  some_cap = omega arith;
}

handle_findname-Finds_example : Finds full_table (99 ∷ []) (handle_findname full_table (99 ∷ []))
handle_findname-Finds_example = handle_findname-Finds full_table (99 ∷ []) full_table-IsNames

handle_namehandle-Binds_example :
    Binds full_table (2 ^ 24 + 15) (98 ∷ []) (handle_namehandle full_table (2 ^ 24 + 15) (98 ∷ []))
handle_namehandle-Binds_example =
    handle_namehandle-Binds full_table (2 ^ 24 + 15) (98 ∷ []) full_table-IsNames (omega arith)

abbrev last_round : HandleStorage
last_round = record full_table {
  handle_index = 2 ^ 24 - 1;
  slot = λ i. if i == 0 then none else some (i + 10);
}

last_round-IsTable : IsTable handle_of last_round
last_round-IsTable = record {
  left = 22;
  size = refl;
  node_id = 1;
  harbor = refl;
  index_up = omega arith;
  index_fits = omega arith;
  placed = λ i c lt e. at_slot i c lt e;
}
  where
    at_slot :
        (i c : ℕ) → i < 4 → (if i == 0 then none else some (i + 10)) ≡ some c → handle_of c % 4 ≡ i
    at_slot zero c lt e = absurd (cc)
    at_slot (suc i) c lt e =
        let shown : (suc i == 0) ≡ false = ground arith in
        let there : (if suc i == 0 then none else some (suc i + 10)) ≡ some (suc i + 10) =
          rw shown in
        let same : suc i + 10 ≡ c = some_inj (sym there ∙ e) in omega (arith, same)

last_round-IsFullBut0 : IsFullBut0 last_round
last_round-IsFullBut0 = record {
  free = refl;
  taken = λ i up lt. let some_slot : (i == 0) ≡ false = ground arith in (i + 10, rw some_slot);
}

handle_register-crash_example : handle_register 3 handle_of last_round 99 ≡ null_pointer
handle_register-crash_example =
    handle_register-crash handle_of last_round 99 2 last_round-IsTable last_round-IsFullBut0
      (omega arith) (omega arith) (omega arith)

handle_retireall-Empties_example :
    Empties handle_of full_table (handle_retireall (suc (suc 0)) handle_of full_table)
handle_retireall-Empties_example =
    handle_retireall-Empties handle_of full_table 0 full_table-IsTable
      (λ i c lt e zero_handle. omega (arith, zero_handle))
