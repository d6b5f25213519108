-- ===== src/WebSocket/Tests.antt =====
-- Runs of the WebSocket side on concrete bytes, and the theorems at concrete inputs.
use rillserver.Prelude.{
  ℕ, ◌^◌, ◌≤◌, ◌≡◌, ◌≢◌, ◌⊎◌, refl, arith, true, false, Option, none, some, List, [], ◌∷◌, ◌++◌,
  length, drop, replicate,
}
use rillserver.Prelude.Int.{pos, negsuc}
use rillserver.WebSocket.Wire.{
  Key, head, wire, key_bytes, masked_payload, mask_with, head_length, IsDataOpcode,
}
use rillserver.WebSocket.Frame.{no_outs, pack, read_size, read_length, read_mask}
use rillserver.WebSocket.Frame.Header.{stored}
use rillserver.WebSocket.Frame.Pack.{read_size-pack}
use rillserver.WebSocket.Queue.{Netpack, Uncomplete, Queue, fresh, get_queue, push_data, pop}
use rillserver.WebSocket.Queue.Fifo.{
  packs, waiting, IsRing, IsStack, dequeue, packs-push_data, waiting-pop,
}
use rillserver.WebSocket.Pending.{hash_fd, find_uncomplete, insert_uncomplete, zeroed}
use rillserver.WebSocket.Pending.Laws.{lookup, lookup-insert_ne}
use rillserver.WebSocket.Mask.{unmask, decode_wsmask_data}
use rillserver.WebSocket.Handshake.{get_http_header, websocket_strnpos, strnpos_from, starts_with}
use rillserver.WebSocket.Handshake.Laws.{IsFirstEnd, get_http_header-IsFirstEnd}
use rillserver.WebSocket.Outcome.{
  ok, err, nothing, data_pack, more, bad_alloc, header_overrun, no_fuel,
}
use rillserver.WebSocket.Push.{read_header, read_loop}
use rillserver.WebSocket.Push.Frames.{Frame, stream}
use rillserver.WebSocket.Filter.{filter_data, begin_pack}
use rillserver.WebSocket.Filter.Stream.{feed, feed_frame, joined}
use rillserver.WebSocket.Filter.Batch.{filter_data-frames}
use rillserver.WebSocket.Filter.Faults.{
  filter_data-bad_alloc, feed-header_overrun, feed-handshake_overrun,
}
use rillserver.WebSocket.Filter.Total.{filter_data-ne_no_fuel}

-- "Hello" of RFC 6455, section 5.7, masked
abbrev hello : List ℕ
hello = 0x81 ∷ 0x85 ∷ 0x37 ∷ 0xfa ∷ 0x21 ∷ 0x3d ∷ 0x7f ∷ 0x9f ∷ 0x4d ∷ 0x51 ∷ 0x58 ∷ []

abbrev hello_plain : List ℕ
hello_plain = 0x48 ∷ 0x65 ∷ 0x6c ∷ 0x6c ∷ 0x6f ∷ []

abbrev hello_key : Key
hello_key = record { k0 = 0x37; k1 = 0xfa; k2 = 0x21; k3 = 0x3d }

whole : filter_data false none 7 hello ≡ ok (data_pack 7 hello_plain 5, none)
unfolding filter_data find_uncomplete begin_pack read_header read_loop read_size read_length
    read_mask decode_wsmask_data unmask
whole = refl

-- the same bytes in three messages
abbrev piece_one : List ℕ
piece_one = 0x81 ∷ []

abbrev later_pieces : List (List ℕ)
later_pieces =
    (0x85 ∷ 0x37 ∷ 0xfa ∷ 0x21 ∷ 0x3d ∷ 0x7f ∷ 0x9f ∷ []) ∷ (0x4d ∷ 0x51 ∷ 0x58 ∷ []) ∷ []

pieces_wire : joined (piece_one ∷ later_pieces) ≡ wire 1 (some hello_key) hello_plain
unfolding masked_payload mask_with
pieces_wire = refl

none_pending : (fd : ℕ) → find_uncomplete none fd ≡ (none, none)
unfolding find_uncomplete
none_pending fd = refl

text_data : IsDataOpcode 1
text_data = (omega arith, (λ e. omega arith), λ e. omega arith)

binary_data : IsDataOpcode 2
binary_data = (omega arith, (λ e. omega arith), λ e. omega arith)

feed_frame_example :
    (after : Option Queue) × (feed false none 7 (piece_one ∷ later_pieces)
      ≡ ok (nothing ∷ nothing ∷ data_pack 7 hello_plain 5 ∷ [], after))
    × ((after ≡ none) ⊎ (after ≡ some (get_queue none)))
feed_frame_example =
    feed_frame 7 1 (some hello_key) hello_plain text_data (omega arith) none piece_one later_pieces
      (none_pending 7) ((λ e. cc), ((λ e. cc), ((λ e. cc), tt))) pieces_wire

abbrev frame_a : Frame
frame_a = record { opcode = 1; key = some hello_key; payload = hello_plain }

abbrev frame_b : Frame
frame_b = record { opcode = 2; key = none; payload = 1 ∷ 2 ∷ [] }

filter_data-frames_example :
    (q : Queue) × (filter_data false none 7 (stream (frame_a ∷ frame_b ∷ frame_a ∷ []))
      ≡ ok (more, some q))
    × (packs q
        ≡ record { id = 7; size = 5; buffer = hello_plain }
          ∷ record { id = 7; size = 2; buffer = 1 ∷ 2 ∷ [] }
          ∷ record { id = 7; size = 5; buffer = hello_plain }
          ∷ [])
    × IsRing q
filter_data-frames_example =
    filter_data-frames 7 none frame_a frame_b (frame_a ∷ [])
      ((text_data, omega arith), ((binary_data, omega arith), ((text_data, omega arith), tt))) tt
      (none_pending 7)

stream_fits : length (stream (frame_b ∷ frame_a ∷ [])) ≤ 20
unfolding masked_payload mask_with
stream_fits = omega arith

-- one slot left of two, so that a pack more makes the ring grow
abbrev pack_one : Netpack
pack_one = record { id = 3; size = 1; buffer = 9 ∷ [] }

abbrev nearly_full : Queue
nearly_full = record fresh { cap = 2; head = 1; tail = 0; queue = λ _. pack_one }

nearly_full-IsRing : IsRing nearly_full
nearly_full-IsRing = record { head_in = omega arith; tail_in = omega arith }

packs-push_data_example :
    (packs (push_data (some nearly_full) 7 hello_plain 5)
      ≡ pack_one ∷ record { id = 7; size = 5; buffer = hello_plain } ∷ [])
    × IsRing (push_data (some nearly_full) 7 hello_plain 5)
packs-push_data_example = packs-push_data (some nearly_full) 7 5 hello_plain nearly_full-IsRing

waiting-pop_example :
    (((pop (some nearly_full)).0, waiting (pop (some nearly_full)).1)
      ≡ dequeue (waiting (some nearly_full)))
    × IsStack (pop (some nearly_full)).1
waiting-pop_example = waiting-pop (some nearly_full) nearly_full-IsRing

-- The two sockets have the same chain.
collision : hash_fd 4102 ≡ hash_fd 7
unfolding hash_fd
collision = refl

lookup-insert_ne_example :
    lookup (some (insert_uncomplete nearly_full 4102 (zeroed 4102))) 7 ≡ lookup (some nearly_full) 7
lookup-insert_ne_example = lookup-insert_ne nearly_full 4102 7 (zeroed 4102) refl λ e. omega arith

abbrev masked_state : Uncomplete
masked_state = record (zeroed 7) { ismask = true; mask = key_bytes (some hello_key) }

-- "G\r\n\r\nX"
abbrev request : List ℕ
request = 71 ∷ 13 ∷ 10 ∷ 13 ∷ 10 ∷ 88 ∷ []

request_end : get_http_header request ≡ pos 5
unfolding get_http_header websocket_strnpos strnpos_from starts_with
request_end = refl

get_http_header-IsFirstEnd_example : IsFirstEnd request (get_http_header request)
get_http_header-IsFirstEnd_example = get_http_header-IsFirstEnd request

read_size-pack_example :
    (read_size (pack hello_plain).0 no_outs ≡ (pos 5, stored none 5 no_outs))
    × (drop (head_length none 5) (pack hello_plain).0 ≡ hello_plain)
read_size-pack_example = read_size-pack hello_plain (omega arith)

filter_data-bad_alloc_example :
    filter_data false none 7 (head 1 none (2 ^ 31) ++ hello_plain) ≡ err bad_alloc
filter_data-bad_alloc_example =
    filter_data-bad_alloc none 7 1 (2 ^ 31) none hello_plain (none_pending 7) text_data
      (omega arith) (omega arith)

abbrev long_message : List ℕ
long_message = replicate 1023 0

feed-header_overrun_example :
    feed false none 7 ((0x88 ∷ []) ∷ (0 ∷ long_message) ∷ []) ≡ err header_overrun
feed-header_overrun_example =
    feed-header_overrun none 7 0 long_message (none_pending 7) (omega arith)

filter_data-ne_no_fuel_example : filter_data false none 7 hello ≢ err no_fuel
filter_data-ne_no_fuel_example = filter_data-ne_no_fuel false none 7 hello

abbrev endless : List ℕ
endless = replicate 1025 0

endless_none : get_http_header endless ≡ negsuc 0
unfolding get_http_header websocket_strnpos strnpos_from starts_with
endless_none = refl

feed-handshake_overrun_example : feed true none 7 (endless ∷ (0 ∷ []) ∷ []) ≡ err header_overrun
feed-handshake_overrun_example =
    feed-handshake_overrun none 7 0 endless [] (none_pending 7) endless_none (omega arith)
