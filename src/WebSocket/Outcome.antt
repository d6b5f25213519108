-- ===== src/WebSocket/Outcome.antt =====
-- What a call of the filter comes to: a reply for the Lua caller, or a fault.
use rillserver.Prelude.{ℕ, List}

pub data Fault : Type 0 where
  -- a write behind the end of `header`
  header_overrun : Fault
  -- `skynet_malloc` of a negative size, which no allocator can serve
  bad_alloc : Fault
  -- The recursion of `push_more` was given too little fuel.
  no_fuel : Fault

pub data Result {ℓ} (A : Type ℓ) : Type ℓ where
  ok : A → Result A
  err : Fault → Result A

infixl 5 ◌>>=◌
abbrev pub ◌>>=◌ {ℓ κ} : {A : Type ℓ} {B : Type κ} → Result A → (A → Result B) → Result B
ok a >>= f = f a
err e >>= f = err e

-- What stands above the queue on the Lua stack: `nothing` for `return 1`, else the closure's
-- string for a TYPE_ constant, the socket and the rest.
pub data Reply : Type 0 where
  nothing : Reply
  data_pack : (fd : ℕ) → (msg : List ℕ) → (size : ℕ) → Reply
  more : Reply
  error : (fd : ℕ) → (msg : List ℕ) → Reply
  opened : (fd : ℕ) → (msg : List ℕ) → Reply
  close : (fd : ℕ) → Reply
  warning : (fd : ℕ) → (size : ℕ) → Reply
