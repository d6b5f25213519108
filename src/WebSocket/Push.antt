-- ===== src/WebSocket/Push.antt =====
-- `push_more`: the packs behind the first one in a socket message, and the loops and stores that
-- it shares with `filter_data_`.
pub mod Heads
pub mod Frames
use rillserver.Prelude.{
  ℕ, zero, suc, ◌-◌, Bool, true, false, ◌&&◌, not, Option, some, List, [], ◌∷◌, length, take, drop,
  ltb, leb, ◌==◌, if◌then◌else◌,
}
use rillserver.Prelude.Int.{ℤ, pos, negsuc}
use rillserver.WebSocket.Frame.{Outs, no_outs, read_size}
use rillserver.WebSocket.Queue.{Queue, Uncomplete, push_data}
use rillserver.WebSocket.Pending.{save_uncomplete, zeroed}
use rillserver.WebSocket.Mask.{decode_wsmask_data}
use rillserver.WebSocket.Handshake.{get_http_header}
use rillserver.WebSocket.Outcome.{
  Result, ok, err, header_overrun, bad_alloc, no_fuel, ◌>>=◌, Reply, more,
}

abbrev pub headersize : ℕ
headersize = 1024

abbrev pub max_packsize : ℕ
max_packsize = 10240

-- What has been read of a header: `pack_size`, the variables behind it, the bytes not consumed.
pub record HeaderRead : Type 0 where
  pub pack_size : ℤ
  pub outs : Outs
  pub bytes : List ℕ

-- the reset before the next try, which leaves `pack_head_length`
abbrev pub reset : Outs → Outs
reset o = record no_outs { pack_head_length = o.pack_head_length }

-- `while ((pack_size = read_size(...)) ...)`: two bytes are dropped as long as the test holds. With
-- fewer than two bytes `read_size` is -1, which neither loop's test accepts.
unfoldable pub read_loop : (ℤ → Bool) → Outs → List ℕ → HeaderRead
read_loop again o [] =
    let (n, o') = read_size [] o in record { pack_size = n; outs = o'; bytes = [] }
read_loop again o (a ∷ []) =
    let (n, o') = read_size (a ∷ []) o in record { pack_size = n; outs = o'; bytes = a ∷ [] }
read_loop again o (a ∷ b ∷ rest) =
    let (n, o') = read_size (a ∷ b ∷ rest) o in
    let next = read_loop again (reset o') rest in
    if again n then next else record { pack_size = n; outs = o'; bytes = a ∷ b ∷ rest }

-- `== -2` in `filter_data_`, `<= -2` in `push_more`
abbrev pub is_skip : ℤ → Bool
is_skip (pos n) = false
is_skip (negsuc n) = n == 1

abbrev pub is_skip_or_close : ℤ → Bool
is_skip_or_close (pos n) = false
is_skip_or_close (negsuc n) = leb 1 n

abbrev pub clamp : ℤ → ℤ
clamp (pos n) = if ltb max_packsize n then pos max_packsize else pos n
clamp (negsuc n) = negsuc n

-- The step that all three readers of a header have in common.
unfoldable pub read_header : (ℤ → Bool) → Bool → Outs → List ℕ → HeaderRead
read_header again true o bytes = record {
  pack_size = get_http_header bytes;
  outs = o;
  bytes = bytes;
}
read_header again false o bytes =
    let r = read_loop again o bytes in record r { pack_size = clamp r.pack_size }

-- the `struct uncomplete` on the C stack, which holds the mask alone
abbrev pub with_mask : Outs → Uncomplete → Uncomplete
with_mask o uc = record uc { mask = o.mask; ismask = o.ismask; hasunmask_size = o.hasunmask_size }

-- `pack_size == -1`: the bytes are kept as the beginning of a header.
unfoldable pub save_header : Bool → Option Queue → ℕ → List ℕ → Result Queue
save_header handshake stack fd bytes =
    if handshake && ltb headersize (length bytes)
    then ok (save_uncomplete stack fd (fill (take headersize bytes)))
    else if ltb headersize (length bytes)
    then err header_overrun
    else ok (save_uncomplete stack fd (fill bytes))
  where
    fill : List ℕ → Uncomplete → Uncomplete
    fill h uc = record uc { read = negsuc 0; header = h }

-- `size < pack_size`: the bytes are kept as the beginning of a payload.
unfoldable pub save_body : Option Queue → ℕ → Outs → ℕ → List ℕ → Queue
save_body stack fd o pack_size bytes =
    save_uncomplete stack fd λ uc. fill (decode_wsmask_data bytes (with_mask o uc))
  where
    fill : List ℕ × Uncomplete → Uncomplete
    fill (plain, uc) = record uc {
      read = pos (length bytes);
      pack = record { id = fd; size = pack_size; buffer = plain };
    }

-- the plain payload of a frame that is all there
abbrev pub plain : ℕ → Outs → List ℕ → List ℕ
plain fd o bytes = (decode_wsmask_data bytes (with_mask o (zeroed fd))).0

-- `push_more`. Each round consumes a byte at least, so their number is fuel enough.
unfoldable pub push_more : Bool → ℕ → Option Queue → ℕ → List ℕ → Result Queue
push_more handshake zero stack fd bytes = err no_fuel
push_more handshake (suc fuel) stack fd bytes =
    let r = read_header is_skip_or_close handshake no_outs bytes in
    elim r.pack_size [
      | negsuc n ↦ if n == 0 then save_header handshake stack fd r.bytes else err bad_alloc
      | pos n ↦
          let body = drop r.outs.pack_head_length r.bytes in
          let q = push_data stack fd (plain fd r.outs (take n body)) n in
          let rest = push_more handshake fuel (some q) fd (drop n body) in
          if ltb (length body) n && not handshake
          then ok (save_body stack fd r.outs n body)
          else if ltb 0 (length body - n)
          then rest
          else ok q
    ]

-- `push_more` with the fuel that it needs.
unfoldable pub push_rest : Bool → Queue → ℕ → List ℕ → Result (Reply × Option Queue)
push_rest handshake q fd bytes =
    push_more handshake (suc (length bytes)) (some q) fd bytes >>= λ q'. ok (more, some q')
