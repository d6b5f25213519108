-- ===== src/WebSocket/Filter.antt =====
-- `filter_data_` and `lfilter`: the bytes of one socket message, cut into packs.
pub mod Heads
pub mod Body
pub mod Reassembly
pub mod Continue
pub mod Begin
pub mod Stream
pub mod Batch
pub mod Faults
pub mod Sizes
pub mod Total
use rillserver.Prelude.{
  ℕ, ◌+◌, ◌-◌, Bool, ◌&&◌, not, Option, none, some, List, [], ◌∷◌, ◌++◌, length, take, drop, ltb,
  leb, ◌==◌, if◌then◌else◌,
}
use rillserver.Prelude.Int.{ℤ, pos, negsuc, is_neg}
use rillserver.WebSocket.Frame.{Outs, no_outs}
use rillserver.WebSocket.Queue.{Queue, Uncomplete, push_data}
use rillserver.WebSocket.Pending.{find_uncomplete, insert_uncomplete, close_uncomplete}
use rillserver.WebSocket.Mask.{decode_wsmask_data}
use rillserver.WebSocket.Outcome.{
  Result, ok, err, header_overrun, bad_alloc, ◌>>=◌, Reply, nothing, data_pack, error, opened,
  close, warning,
}
use rillserver.WebSocket.Push.{
  headersize, is_skip, read_header, with_mask, save_header, save_body, plain, push_rest,
}

-- From `int need = uc->pack.size - uc->read` on, `got` being `uc->read`.
unfoldable pub fill_body :
    Bool → Queue → ℕ → Uncomplete → ℕ → List ℕ → Result (Reply × Option Queue)
fill_body handshake q fd uc got bytes =
    let need = uc.pack.size - got in
    let part = decode_wsmask_data bytes uc in
    let last = decode_wsmask_data (take need bytes) uc in
    let whole = uc.pack.buffer ++ last.0 in
    let rest =
      push_rest handshake (push_data (some q) fd whole uc.pack.size) fd (drop need bytes) in
    if ltb (length bytes) need
    then ok (nothing, some (insert_uncomplete q fd (kept part)))
    else if length bytes - need == 0
    then ok (data_pack fd whole uc.pack.size, some q)
    else rest
  where
    kept : List ℕ × Uncomplete → Uncomplete
    kept (p, uc') = record uc' {
      read = pos (got + length bytes);
      pack = record { id = uc'.pack.id; size = uc'.pack.size; buffer = uc'.pack.buffer ++ p };
    }

-- what the loop over the bytes of a header leaves
pub record Filled : Type 0 where
  pub pack_size : ℤ
  pub outs : Outs
  pub header : List ℕ
  pub rest : List ℕ

-- `while (size > 0)`: the header grows by a byte and is read again. `header[header_size]` is
-- written before anything looks at `header_size`.
unfoldable pub fill_header : Bool → ℤ → Outs → List ℕ → List ℕ → Result Filled
fill_header handshake n o header [] =
    ok (record { pack_size = n; outs = o; header = header; rest = [] })
fill_header handshake n o header (b ∷ bytes) =
    let r = read_header is_skip handshake o (header ++ (b ∷ [])) in
    let later = fill_header handshake r.pack_size r.outs r.bytes bytes in
    if leb headersize (length header)
    then err header_overrun
    else if not (is_neg r.pack_size)
    then ok (record { pack_size = r.pack_size; outs = r.outs; header = r.bytes; rest = bytes })
    else later

-- The branch of a pack whose header was not complete, after the loop.
unfoldable pub after_header : Bool → Queue → ℕ → Uncomplete → Filled → Result (Reply × Option Queue)
after_header handshake q fd uc f = elim f.pack_size [
  | negsuc n ↦
      if n == 0
      then ok (nothing, some (insert_uncomplete q fd (record uc { header = f.header })))
      else if n == 2
      then ok (close fd, close_uncomplete (some q) fd)
      else err bad_alloc
  | pos n ↦
      let got = if handshake then (if ltb (length f.header) n then length f.header else n) else 0 in
      let uc' = record (with_mask f.outs uc) {
        header = f.header;
        read = pos got;
        pack = record { id = uc.pack.id; size = n; buffer = take got f.header };
      } in
      fill_body handshake q fd uc' got f.rest
]

-- The branch of a socket with a pack begun.
unfoldable pub continue_pack :
    Bool → Queue → ℕ → Uncomplete → List ℕ → Result (Reply × Option Queue)
continue_pack handshake q fd uc bytes = elim uc.read [
  | negsuc _ ↦
      fill_header handshake (pos 0) no_outs uc.header bytes >>= after_header handshake q fd uc
  | pos got ↦ fill_body handshake q fd uc got bytes
]

-- The branch of a socket with nothing begun.
unfoldable pub begin_pack : Bool → Option Queue → ℕ → List ℕ → Result (Reply × Option Queue)
begin_pack handshake stack fd bytes =
    let r = read_header is_skip handshake no_outs bytes in
    elim r.pack_size [
      | negsuc n ↦
          if n == 0
          then save_header handshake stack fd r.bytes >>= (λ q. ok (nothing, some q))
          else if n == 2
          then ok (close fd, close_uncomplete stack fd)
          else err bad_alloc
      | pos n ↦
          let body = drop r.outs.pack_head_length r.bytes in
          if ltb (length body) n && not handshake
          then ok (nothing, some (save_body stack fd r.outs n body))
          else if length body == n
          then ok (data_pack fd (plain fd r.outs body) (length body), stack)
          else push_rest handshake (push_data stack fd (plain fd r.outs (take n body)) n) fd
              (drop n body)
    ]

-- `filter_data_`
unfoldable pub filter_data : Bool → Option Queue → ℕ → List ℕ → Result (Reply × Option Queue)
filter_data handshake stack fd bytes =
    let (found, stack') = find_uncomplete stack fd in
    elim found [
      | none ↦ begin_pack handshake stack' fd bytes
      | some uc ↦ elim stack' [
        | none ↦ begin_pack handshake none fd bytes
        | some q ↦ continue_pack handshake q fd uc bytes
      ]
    ]

-- `enum` of skynet_socket.h, and what the socket server sends
pub data MessageType : Type 0 where
  socket_data socket_connect socket_close socket_accept socket_error socket_udp socket_warning :
      MessageType

-- `buffer` is the data of the message, or the string that is padded behind it.
pub record SocketMessage : Type 0 where
  pub type : MessageType
  pub id : ℕ
  pub ud : ℕ
  pub buffer : List ℕ

-- `lfilter`. Of a data message the first `ud` bytes count.
unfoldable pub filter : Bool → Option Queue → SocketMessage → Result (Reply × Option Queue)
filter handshake stack m = dispatch m.type
  where
    dispatch : MessageType → Result (Reply × Option Queue)
    dispatch socket_data = filter_data handshake stack m.id (take m.ud m.buffer)
    dispatch socket_connect = ok (nothing, stack)
    dispatch socket_close = ok (close m.id, close_uncomplete stack m.id)
    dispatch socket_accept = ok (opened m.ud m.buffer, stack)
    dispatch socket_error = ok (error m.id m.buffer, close_uncomplete stack m.id)
    dispatch socket_udp = ok (nothing, stack)
    dispatch socket_warning = ok (warning m.id m.ud, stack)
