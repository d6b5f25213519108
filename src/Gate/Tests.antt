-- ===== src/Gate/Tests.antt =====
-- The gate at concrete inputs.
use rillserver.Prelude.{
  ◌+◌, ◌^◌, inl, inr, map, arith, ℕ, ◌≡◌, refl, Option, none, some, List, [], ◌∷◌,
}
use rillserver.Prelude.Int.{pos}
use rillserver.DataBuffer.{
  DataBuffer, read_pieces, databuffer_read, databuffer_push, databuffer_readheader,
  databuffer_reset,
}
use rillserver.DataBuffer.Stream.{IsDataBuffer}
use rillserver.Gate.{
  Dispatch, Route, digits, data_prefix, forward, forward_from, dispatch_loop, dispatch_message,
}
use rillserver.Gate.Heads.{unread, in_head}
use rillserver.Gate.Sent.{IsServed}
use rillserver.Gate.Frames.{Delivers, dispatch_message-Delivers}
use rillserver.Gate.Stall.{Stalls, dispatch_message-Stalls}

abbrev empty : DataBuffer
empty = record { header = pos 0; offset = 0; size = 0; pieces = [] }

abbrev to_agent : Route
to_agent = record { id = pos 42; agent = 9; client = 8; broker = 0; watchdog = 7; client_tag = 3 }

abbrev to_watchdog : Route
to_watchdog = record to_agent { agent = 0 }

abbrev to_nobody : Route
to_nobody = record to_agent { agent = 0; watchdog = 0 }

abbrev sent_of : Option Dispatch → Option (List (ℕ × List ℕ) × ℕ)
sent_of none = none
sent_of (some d) = some (map (λ m. (m.destination, m.msg)) d.sent, d.buffer.size)

-- Two messages with heads of two bytes and the beginning of a third, in one piece.
two_messages :
    sent_of (dispatch_message 5 to_agent 2 empty (0 ∷ 1 ∷ 97 ∷ 0 ∷ 2 ∷ 98 ∷ 99 ∷ 0 ∷ []))
    ≡ some ((9, 97 ∷ []) ∷ (9, 98 ∷ 99 ∷ []) ∷ [], 1)
unfolding dispatch_message dispatch_loop forward forward_from databuffer_push databuffer_readheader
    databuffer_read read_pieces databuffer_reset
two_messages = refl

-- The watchdog gets "42 data a".
to_the_watchdog :
    sent_of (dispatch_message 5 to_watchdog 2 empty (0 ∷ 1 ∷ 97 ∷ []))
    ≡ some ((7, 52 ∷ 50 ∷ 32 ∷ 100 ∷ 97 ∷ 116 ∷ 97 ∷ 32 ∷ 97 ∷ []) ∷ [], 0)
unfolding dispatch_message dispatch_loop forward forward_from databuffer_push databuffer_readheader
    databuffer_read read_pieces databuffer_reset data_prefix digits
to_the_watchdog = refl

-- With nobody there the body is left in the buffer and its bytes 0, 0 are taken for an empty message.
to_nobody_at_all :
    sent_of (dispatch_message 5 to_nobody 2 empty (0 ∷ 2 ∷ 0 ∷ 0 ∷ [])) ≡ some ([], 0)
unfolding dispatch_message dispatch_loop forward forward_from databuffer_push databuffer_readheader
    databuffer_read read_pieces databuffer_reset
to_nobody_at_all = refl

-- A head of four bytes from 2^31 up is negative: nothing is sent, and the bytes are kept.
negative_head :
    sent_of (dispatch_message 5 to_agent 4 empty (128 ∷ 0 ∷ 0 ∷ 1 ∷ 97 ∷ 98 ∷ [])) ≡ some ([], 2)
unfolding dispatch_message dispatch_loop forward databuffer_push databuffer_readheader
    databuffer_read read_pieces databuffer_reset
negative_head = refl

empty-IsDataBuffer : IsDataBuffer empty
empty-IsDataBuffer = record { fits = refl; count = refl }

watchdog_serves : IsServed to_watchdog 42
watchdog_serves = record {
  socket = refl;
  positive = omega arith;
  fits = omega arith;
  someone = inr (inr (omega arith));
}

abbrev first_bytes : List ℕ
first_bytes = 0 ∷ 1 ∷ 97 ∷ 0 ∷ 0 ∷ 0 ∷ 2 ∷ 98 ∷ 99 ∷ 0 ∷ []

dispatch_message-Delivers_example :
    Delivers to_watchdog 42 2
      ((97 ∷ []) ∷ [] ∷ (98 ∷ 99 ∷ []) ∷ [])
      (0 ∷ [])
      (dispatch_message 4 to_watchdog 2 empty first_bytes)
dispatch_message-Delivers_example =
    dispatch_message-Delivers to_watchdog 42 2 4 empty [] first_bytes
      ((97 ∷ []) ∷ [] ∷ (98 ∷ 99 ∷ []) ∷ []) (0 ∷ []) watchdog_serves (inl refl) empty-IsDataBuffer
      (unread refl refl) refl
      ((omega arith, omega arith), ((omega arith, omega arith), ((omega arith, omega arith), tt)))
      (in_head (omega arith)) (omega arith)

abbrev huge_head : List ℕ
huge_head = 128 ∷ 0 ∷ 0 ∷ 1 ∷ 97 ∷ []

dispatch_message-Stalls_example : Stalls to_agent (dispatch_message 1 to_agent 4 empty huge_head)
dispatch_message-Stalls_example =
    dispatch_message-Stalls to_agent 0 empty huge_head (2 ^ 31 + 1) (97 ∷ []) empty-IsDataBuffer
      refl refl (omega arith) (omega arith)
