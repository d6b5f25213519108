-- ===== src/Handles/Names.antt =====
-- The names of the services, an array in the order of `strcmp`.
use rillserver.Prelude.{
  ℕ, zero, suc, ◌+◌, ◌-◌, ◌*◌, ◌/◌, Option, none, some, List, ltb, leb, ◌==◌, Bool, true, false,
  if◌then◌else◌,
}
use rillserver.Prelude.Int.{ℤ, pos, negsuc}
use rillserver.Prelude.Ring.{update}
use rillserver.SkipList.Compare.{lex}
use rillserver.Handles.{HandleName, HandleStorage}

abbrev pub max_slot_size : ℕ
max_slot_size = 0x40000000

-- `strcmp`: only the sign of the result is laid down, and here it is -1, 0 or 1.
unfoldable pub strcmp : List ℕ → List ℕ → ℤ
strcmp a b = if lex a b then negsuc 0 else if lex b a then pos 1 else pos 0

-- Where a search for a name ends.
pub data Place : Type 0 where
  found : ℕ → Place
  missing : ℕ → Place
  no_fuel : Place

-- The `while` loop of `skynet_handle_findname` and of `_insert_name`: the place of the name, or the
-- last value of `begin`. `stop` is `end + 1`.
unfoldable pub search_name : ℕ → (ℕ → HandleName) → List ℕ → ℕ → ℕ → Place
search_name zero names name begin stop = no_fuel
search_name (suc fuel) names name begin stop =
    let mid = (begin + (stop - 1)) / 2 in
    let above = search_name fuel names name (mid + 1) stop in
    let below = search_name fuel names name begin mid in
    if ltb begin stop
    then elim (strcmp (names mid).name name) [
      | negsuc c ↦ above
      | pos c ↦ if c == 0 then found mid else below
    ]
    else missing begin

-- `skynet_handle_findname`
unfoldable pub handle_findname : HandleStorage → List ℕ → Option ℕ
handle_findname s name = elim (search_name (s.name_count + 1) s.names name 0 s.name_count) [
  | found mid ↦ some (s.names mid).handle
  | missing begin ↦ some 0
  | no_fuel ↦ none
]

-- the loop of `_insert_name_before` that moves the names up, at index `i`
unfoldable pub move_up : ℕ → ℕ → (ℕ → HandleName) → (ℕ → HandleName)
move_up zero before names = names
move_up (suc i) before names =
    let further = move_up i before (update names (suc i) (names i)) in
    if ltb before (suc i) then further else names

-- `_insert_name_before`; the copy into an array of twice the size is an array of the moved names.
unfoldable pub insert_name_before : HandleStorage → List ℕ → ℕ → ℕ → Option HandleStorage
insert_name_before s name handle before =
    let copied : ℕ → HandleName = λ i. if ltb i before then s.names i else s.names (i - 1) in
    let new : HandleName = record { name = name; handle = handle } in
    if ltb s.name_count s.name_cap
    then some (record s {
      names = update (move_up s.name_count before s.names) before new;
      name_count = s.name_count + 1;
    })
    else if leb (s.name_cap * 2) max_slot_size
    then some (record s {
      names = update copied before new;
      name_count = s.name_count + 1;
      name_cap = s.name_cap * 2;
    })
    else none

-- `_insert_name` and `skynet_handle_namehandle`: whether the name is new. A failed assertion, or a
-- search that the fuel does not reach the end of, is none.
unfoldable pub handle_namehandle : HandleStorage → ℕ → List ℕ → Option (Bool × HandleStorage)
handle_namehandle s handle name =
    elim (search_name (s.name_count + 1) s.names name 0 s.name_count) [
      | found mid ↦ some (false, s)
      | missing begin ↦ elim (insert_name_before s name handle begin) [
        | none ↦ none
        | some s' ↦ some (true, s')
      ]
      | no_fuel ↦ none
    ]
