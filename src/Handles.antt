-- ===== src/Handles.antt =====
-- skynet/skynet-src/skynet_handle.c: the table of the services. A context is an address, and
-- `handle_of` is the field `handle` of the contexts (`skynet_context_handle`). A slot without a
-- context is none; `x & (slot_size - 1)`, where the size is a power of two, is a remainder. Every
-- function but `skynet_handle_retireall` holds the lock from its first access to the last, so that
-- each is one step.
pub mod Names
pub mod Table
pub mod Probes
pub mod Rehash
pub mod Doubling
pub mod Fresh
pub mod Register
pub mod Retire
pub mod RetireAll
pub mod Search
pub mod Placing
pub mod Naming
pub mod Room
pub mod Adding
pub mod Wrap
mod Tests
use rillserver.Prelude.{
  ℕ, zero, suc, ◌+◌, ◌-◌, ◌*◌, ◌%◌, ◌^◌, Option, none, some, List, [], ◌∷◌, ltb, leb, ◌==◌, Bool,
  true, false, ◌&&◌, ◌||◌, if◌then◌else◌,
}
use rillserver.Prelude.Ring.{update}

abbrev pub handle_mask : ℕ
handle_mask = 0xffffff

abbrev pub default_slot_size : ℕ
default_slot_size = 4

pub record HandleName : Type 0 where
  pub name : List ℕ
  pub handle : ℕ

pub record HandleStorage : Type 0 where
  pub harbor : ℕ
  pub handle_index : ℕ
  pub slot_size : ℕ
  pub slot : ℕ → Option ℕ
  pub name_cap : ℕ
  pub name_count : ℕ
  pub names : ℕ → HandleName

-- What comes of a registration: a result, the dereference of NULL, an assertion that fails, or more
-- rounds of the `for (;;)` than there is fuel for.
pub data Outcome (A : Type 0) : Type 0 where
  returns : A → Outcome A
  null_pointer : Outcome A
  assertion_failed : Outcome A
  out_of_rounds : Outcome A

-- the inner `for` loop of `skynet_handle_register`, with `n` rounds to go: the handle it takes
unfoldable pub find_handle : ℕ → HandleStorage → ℕ → Option ℕ
find_handle zero s handle = none
find_handle (suc n) s handle =
    let handle = if ltb handle_mask handle then 1 else handle in
    let further = find_handle n s (handle + 1) in
    elim (s.slot (handle % s.slot_size)) [ none ↦ some handle | some ctx ↦ further ]

-- The loop that moves the slots from `i` on to a table of twice the size. A slot without a context
-- is dereferenced, and a place that is taken fails the assertion.
unfoldable pub rehash : ℕ → (ℕ → ℕ) → HandleStorage → ℕ → (ℕ → Option ℕ) → Outcome (ℕ → Option ℕ)
rehash zero handle_of s i new_slot = returns new_slot
rehash (suc n) handle_of s i new_slot = elim (s.slot i) [
  | none ↦ null_pointer
  | some ctx ↦
      let hash = handle_of ctx % (s.slot_size * 2) in
      let further = rehash n handle_of s (i + 1) (update new_slot hash (some ctx)) in
      elim (new_slot hash) [ none ↦ further | some other ↦ assertion_failed ]
]

-- the part of `skynet_handle_register` behind the inner loop
unfoldable pub double_slots : (ℕ → ℕ) → HandleStorage → Outcome HandleStorage
double_slots handle_of s =
    let moved = rehash s.slot_size handle_of s 0 (λ i. none) in
    if ltb handle_mask (s.slot_size * 2 - 1) then assertion_failed else elim moved [
      | returns new_slot ↦ returns (record s { slot = new_slot; slot_size = s.slot_size * 2 })
      | null_pointer ↦ null_pointer
      | assertion_failed ↦ assertion_failed
      | out_of_rounds ↦ out_of_rounds
    ]

-- `skynet_handle_register`, with the rounds of its `for (;;)` as fuel. A handle below 2^24 and the
-- harbor, which is a multiple of 2^24, have no bit in common.
unfoldable pub handle_register : ℕ → (ℕ → ℕ) → HandleStorage → ℕ → Outcome (ℕ × HandleStorage)
handle_register zero handle_of s ctx = out_of_rounds
handle_register (suc fuel) handle_of s ctx = elim (find_handle s.slot_size s s.handle_index) [
  | some handle ↦ returns (
    handle + s.harbor,
    record s { slot = update s.slot (handle % s.slot_size) (some ctx); handle_index = handle + 1 },
  )
  | none ↦ elim (double_slots handle_of s) [
    | returns s' ↦ handle_register fuel handle_of s' ctx
    | null_pointer ↦ null_pointer
    | assertion_failed ↦ assertion_failed
    | out_of_rounds ↦ out_of_rounds
  ]
]

-- `skynet_handle_grab`; the count of references has no model.
unfoldable pub handle_grab : (ℕ → ℕ) → HandleStorage → ℕ → Option ℕ
handle_grab handle_of s handle = elim (s.slot (handle % s.slot_size)) [
  | none ↦ none
  | some ctx ↦ if handle_of ctx == handle then some ctx else none
]

-- The loop of `skynet_handle_retire` over the names, from `i` on, with `j` of them kept.
unfoldable pub drop_names : ℕ → ℕ → ℕ → ℕ → (ℕ → HandleName) → ℕ × (ℕ → HandleName)
drop_names zero handle i j names = (j, names)
drop_names (suc n) handle i j names =
    let kept =
      drop_names n handle (i + 1) (j + 1) (if i == j then names else update names j (names i)) in
    let dropped = drop_names n handle (i + 1) j names in
    if (names i).handle == handle then dropped else kept

-- `skynet_handle_retire`: whether there was such a context. Its release has no model.
unfoldable pub handle_retire : (ℕ → ℕ) → HandleStorage → ℕ → Bool × HandleStorage
handle_retire handle_of s handle =
    let (count, names) = drop_names s.name_count handle 0 0 s.names in
    let gone : HandleStorage = record s {
      slot = update s.slot (handle % s.slot_size) none;
      name_count = count;
      names = names;
    } in
    elim (s.slot (handle % s.slot_size)) [
      | none ↦ (false, s)
      | some ctx ↦ if handle_of ctx == handle then (true, gone) else (false, s)
    ]

-- `skynet_handle_init`. A second call fails the assertion; the names of the start are not set.
unfoldable pub handle_init : Option HandleStorage → (ℕ → HandleName) → ℕ → Option HandleStorage
handle_init (some s) memory harbor = none
handle_init none memory harbor = some (record {
  harbor = harbor % 2 ^ 8 * 2 ^ 24;
  handle_index = 1;
  slot_size = default_slot_size;
  slot = λ i. none;
  name_cap = 2;
  name_count = 0;
  names = memory;
})

-- The `for` loop of `skynet_handle_retireall` from the slot `i` on: how many contexts went.
unfoldable pub retire_slots : ℕ → (ℕ → ℕ) → HandleStorage → ℕ → ℕ × HandleStorage
retire_slots zero handle_of s i = (0, s)
retire_slots (suc n) handle_of s i =
    let handle : ℕ = elim (s.slot i) [ none ↦ 0 | some ctx ↦ handle_of ctx ] in
    let (retired, left) = handle_retire handle_of s handle in
    let (count, after) = retire_slots n handle_of left (i + 1) in
    let passed = retire_slots n handle_of s (i + 1) in
    if handle == 0 then passed else (if retired then (count + 1, after) else (count, after))

-- `skynet_handle_retireall`, with the rounds of its `for (;;)` as fuel, while nobody else calls.
unfoldable pub handle_retireall : ℕ → (ℕ → ℕ) → HandleStorage → Option HandleStorage
handle_retireall zero handle_of s = none
handle_retireall (suc fuel) handle_of s =
    let (count, after) = retire_slots s.slot_size handle_of s 0 in
    let further = handle_retireall fuel handle_of after in
    if count == 0 then some after else further
