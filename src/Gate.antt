-- ===== src/Gate.antt =====
-- skynet/service-src/service_gate.c: how the gate cuts the bytes of a connection into messages.
pub mod Heads
pub mod Reads
pub mod Digits
pub mod Sent
pub mod Frames
pub mod Stall
mod Tests
use rillserver.Prelude.{
  ℕ, zero, suc, ◌+◌, ◌/◌, ◌%◌, ◌^◌, not, ◌++◌, Bool, true, false, Option, none, some, List, [], ◌∷◌,
  leb, ltb, ◌==◌, if◌then◌else◌,
}
use rillserver.Prelude.Int.{ℤ, pos, negsuc}
use rillserver.DataBuffer.{
  DataBuffer, databuffer_read, databuffer_push, databuffer_readheader, databuffer_reset,
  databuffer_clear,
}

-- The fields of the gate and of the connection that `_forward` reads. A handle 0 is none.
pub record Route : Type 0 where
  pub id : ℤ
  pub agent : ℕ
  pub client : ℕ
  pub broker : ℕ
  pub watchdog : ℕ
  pub client_tag : ℕ

-- What `skynet_send` is given; that a message is not copied has no model.
pub record Send : Type 0 where
  pub source : ℕ
  pub destination : ℕ
  pub kind : ℕ
  pub session : ℕ
  pub msg : List ℕ

abbrev pub ptype_text : ℕ
ptype_text = 0

-- The digits of a number that has at most as many as there is fuel for, in front of `rest`.
unfoldable pub digits : ℕ → ℕ → List ℕ → List ℕ
digits zero n rest = rest
digits (suc fuel) n rest =
    let last = (48 + n % 10) ∷ rest in
    let more = digits fuel (n / 10) last in if n / 10 == 0 then last else more

-- `snprintf(tmp, 32, "%d data ", id)` of a positive `int`, which has at most ten digits, so that
-- nothing is cut off
unfoldable pub data_prefix : ℕ → List ℕ
data_prefix id = digits 10 id (32 ∷ 100 ∷ 97 ∷ 116 ∷ 97 ∷ 32 ∷ [])

abbrev pub sent_with :
    (List ℕ → Send) → Option (List ℕ × DataBuffer) → Option (List Send × DataBuffer)
sent_with message none = none
sent_with message (some (body, left)) = some (message body ∷ [], left)

abbrev pub broker_message : Route → ℕ → List ℕ → Send
broker_message to fd body = record {
  source = 0;
  destination = to.broker;
  kind = to.client_tag;
  session = fd;
  msg = body;
}

abbrev pub agent_message : Route → ℕ → List ℕ → Send
agent_message to fd body = record {
  source = to.client;
  destination = to.agent;
  kind = to.client_tag;
  session = fd;
  msg = body;
}

abbrev pub watchdog_message : Route → ℕ → List ℕ → Send
watchdog_message to fd body = record {
  source = 0;
  destination = to.watchdog;
  kind = ptype_text;
  session = fd;
  msg = data_prefix fd ++ body;
}

-- `_forward` behind the test of the socket. Where there is nobody to send it to, a body is not even
-- read.
unfoldable pub forward_from : ℕ → Route → DataBuffer → ℕ → Option (List Send × DataBuffer)
forward_from fd to db size =
    let read = databuffer_read db size in
    if not (to.broker == 0)
    then sent_with (broker_message to fd) read
    else if not (to.agent == 0)
    then sent_with (agent_message to fd) read
    else if not (to.watchdog == 0)
    then sent_with (watchdog_message to fd) read
    else some ([], db)

-- `_forward`: what is sent, if anything
unfoldable pub forward : Route → DataBuffer → ℕ → Option (List Send × DataBuffer)
forward to db size = elim to.id [
  | negsuc n ↦ some ([], db)
  | pos fd ↦ if fd == 0 then some ([], db) else forward_from fd to db size
]

-- What `dispatch_message` comes to: the messages that were sent, the buffer, and whether the
-- connection was closed. A crash, or a loop that the fuel does not reach the end of, is none.
pub record Dispatch : Type 0 where
  pub sent : List Send
  pub buffer : DataBuffer
  pub closed : Bool

abbrev pub sent_before : List Send → Option Dispatch → Option Dispatch
sent_before messages none = none
sent_before [] (some d) = some d
sent_before (m ∷ messages) (some d) = some (record d { sent = m ∷ d.sent })

-- the `for` loop of `dispatch_message`
unfoldable pub dispatch_loop : ℕ → Route → ℕ → DataBuffer → Option Dispatch
dispatch_loop zero to header_size db = none
dispatch_loop (suc fuel) to header_size db = elim (databuffer_readheader db header_size) [
  | none ↦ none
  | some (negsuc n, db') ↦ some (record { sent = []; buffer = db'; closed = false })
  | some (pos size, db') ↦
      let skipped = dispatch_loop fuel to header_size db' in
      let sent : Option Dispatch = elim (forward to db' size) [
        | none ↦ none
        | some (messages, left) ↦
            sent_before messages (dispatch_loop fuel to header_size (databuffer_reset left))
      ] in
      if size == 0
      then skipped
      else if leb (2 ^ 24) size
      then some (record { sent = []; buffer = databuffer_clear db'; closed = true })
      else sent
]

-- `dispatch_message`
unfoldable pub dispatch_message : ℕ → Route → ℕ → DataBuffer → List ℕ → Option Dispatch
dispatch_message fuel to header_size db bytes =
    dispatch_loop fuel to header_size (databuffer_push db bytes)
