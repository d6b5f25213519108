-- ===== src/WebSocket/Filter/Faults.antt =====
-- Bytes from the network that no check of the code stops.
use rillserver.Prelude.{
  ℕ, ◌+◌, ◌-◌, ◌^◌, ◌<◌, ◌≤◌, ◌≡◌, refl, ◌∙◌, arith, Bool, true, false, Option, none, some, List,
  [], ◌∷◌, ◌++◌, length, take, leb, Bool-cases, inl, inr, lt→ltb, length-append, length-take,
}
use rillserver.Prelude.Int.{ℤ, pos, negsuc, to_int}
use rillserver.WebSocket.Wire.{Key, head, IsDataOpcode}
use rillserver.WebSocket.Frame.{Outs, no_outs, read_size}
use rillserver.WebSocket.Frame.Header.{read_size-head_int}
use rillserver.WebSocket.Queue.{Queue, Uncomplete, get_queue}
use rillserver.WebSocket.Pending.{find_uncomplete, insert_uncomplete, save_uncomplete, zeroed}
use rillserver.WebSocket.Pending.Laws.{find-insert}
use rillserver.WebSocket.Handshake.{get_http_header}
use rillserver.WebSocket.Outcome.{ok, err, header_overrun, bad_alloc, nothing}
use rillserver.WebSocket.Push.{headersize, is_skip, read_loop, read_header, save_header}
use rillserver.WebSocket.Filter.{fill_header, continue_pack, begin_pack, filter_data}
use rillserver.WebSocket.Filter.Stream.{feed}

begins :
    (handshake : Bool) (s : Option Queue) (fd : ℕ) (c : List ℕ)
    → find_uncomplete s fd ≡ (none, s)
    → filter_data handshake s fd c ≡ begin_pack handshake s fd c
unfolding filter_data
begins handshake s fd c e = ground arith

continues :
    (handshake : Bool) (q : Queue) (fd : ℕ) (uc : Uncomplete) (c : List ℕ)
    → uc.pack.id ≡ fd
    → filter_data handshake (some (insert_uncomplete q fd uc)) fd c
      ≡ continue_pack handshake q fd uc c
unfolding filter_data
continues handshake q fd uc c id = ground (arith, find-insert q fd uc id)

-- A length that the cast makes less than -3.
big_length : (n : ℕ) → 2 ^ 31 ≤ n → n + 4 ≤ 2 ^ 32 → to_int n ≡ negsuc (2 ^ 32 - n - 1)
big_length n lo hi = ground arith

big_header :
    (op n : ℕ) (key : Option Key) (rest : List ℕ)
    → IsDataOpcode op
    → 2 ^ 31 ≤ n
    → n + 4 ≤ 2 ^ 32
    → (read_header is_skip false no_outs (head op key n ++ rest)).pack_size
      ≡ negsuc (2 ^ 32 - n - 1)
unfolding read_header read_loop
big_header op n key rest h lo hi =
    rw (read_size-head_int op n key rest no_outs h (omega arith), big_length n lo hi) (ground arith)

size_is_used :
    (s : Option Queue) (fd k : ℕ) (c : List ℕ)
    → (read_header is_skip false no_outs c).pack_size ≡ negsuc k
    → 3 ≤ k
    → begin_pack false s fd c ≡ err bad_alloc
unfolding begin_pack
size_is_used s fd k c e h = rw (e, begin_pack) (ground arith)

-- A frame head whose 64-bit length lies from 2 GiB up to 4 GiB - 4 reads as a negative size that is
-- none of the three codes: on a socket with nothing pending it goes past every check, and the
-- next thing that the code does with it is to ask the allocator for a negative number of bytes.
pub filter_data-bad_alloc :
    (s : Option Queue) (fd op n : ℕ) (key : Option Key) (rest : List ℕ)
    → find_uncomplete s fd ≡ (none, s)
    → IsDataOpcode op
    → 2 ^ 31 ≤ n
    → n + 4 ≤ 2 ^ 32
    → filter_data false s fd (head op key n ++ rest) ≡ err bad_alloc
filter_data-bad_alloc s fd op n key rest free h lo hi =
    begins false s fd _ free
    ∙ size_is_used s fd (2 ^ 32 - n - 1) _ (big_header op n key rest h lo hi) (omega arith)

-- A close frame is read as -3 at every length.
close_read :
    (b : ℕ) (c : List ℕ) (o : Outs)
    → read_header is_skip false o (0x88 ∷ b ∷ c)
      ≡ record { pack_size = negsuc 2; outs = o; bytes = 0x88 ∷ b ∷ c }
unfolding read_header read_loop read_size
close_read b c o = ground arith

-- The loop does not stop at -3 before the bytes end, nor at the end of `header`.
close_loop :
    (bytes : List ℕ) (b : ℕ) (c : List ℕ) (m : ℤ) (o : Outs)
    → length c ≤ 1022
    → 1022 < length c + length bytes
    → fill_header false m o (0x88 ∷ b ∷ c) bytes ≡ err header_overrun
unfolding fill_header
close_loop [] b c m o short long = absurd (omega arith)
close_loop (x ∷ bytes) b c m o short long = elim (Bool-cases (leb headersize (2 + length c))) [
  | inl e ↦ ground arith
  | inr e ↦
      rw (close_read b (c ++ (x ∷ [])) o)
        (ground (arith, length-append c (x ∷ []), close_loop bytes b (c ++ (x ∷ [])) (negsuc 2) o))
]

close_start :
    (x : ℕ) (bytes : List ℕ) (m : ℤ) (o : Outs)
    → 1022 < length bytes
    → fill_header false m o (0x88 ∷ []) (x ∷ bytes) ≡ err header_overrun
unfolding fill_header
close_start x bytes m o long =
    rw (close_read x [] o) (close_loop bytes x [] (negsuc 2) o (omega arith) (omega arith))

-- the pack that the first byte of a close frame leaves
abbrev close_begun : ℕ → Uncomplete
close_begun fd = record (zeroed fd) { read = negsuc 0; header = 0x88 ∷ [] }

close_first :
    (s : Option Queue) (fd : ℕ)
    → begin_pack false s fd (0x88 ∷ [])
      ≡ ok (nothing, some (insert_uncomplete (get_queue s) fd (close_begun fd)))
unfolding begin_pack read_header read_loop read_size save_header save_uncomplete
close_first s fd = refl

close_next :
    (q : Queue) (fd : ℕ) (x : ℕ) (bytes : List ℕ)
    → 1022 < length bytes
    → continue_pack false q fd (close_begun fd) (x ∷ bytes) ≡ err header_overrun
unfolding continue_pack
close_next q fd x bytes long = rw (close_start x bytes (pos 0) no_outs long)

-- The first byte of a close frame alone, and then any message of 1024 bytes or more: the loop
-- copies the message into the header buffer of 1024 bytes and writes behind its end.
pub feed-header_overrun :
    (s : Option Queue) (fd x : ℕ) (bytes : List ℕ)
    → find_uncomplete s fd ≡ (none, s)
    → 1023 ≤ length bytes
    → feed false s fd ((0x88 ∷ []) ∷ (x ∷ bytes) ∷ []) ≡ err header_overrun
unfolding feed
feed-header_overrun s fd x bytes free long = rw (
  begins false s fd (0x88 ∷ []) free,
  close_first s fd,
  continues false (get_queue s) fd (close_begun fd) (x ∷ bytes) refl,
  close_next (get_queue s) fd x bytes long,
)

-- the pack that is kept of a handshake too long for the buffer
abbrev handshake_begun : ℕ → List ℕ → Uncomplete
handshake_begun fd c = record (zeroed fd) { read = negsuc 0; header = take headersize c }

save_long :
    (s : Option Queue) (fd : ℕ) (c : List ℕ)
    → headersize < length c
    → save_header true s fd c ≡ ok (insert_uncomplete (get_queue s) fd (handshake_begun fd c))
unfolding save_header save_uncomplete
save_long s fd c long = rw (lt→ltb headersize (length c) long)

handshake_first :
    (s : Option Queue) (fd : ℕ) (c : List ℕ)
    → get_http_header c ≡ negsuc 0
    → headersize < length c
    → begin_pack true s fd c
      ≡ ok (nothing, some (insert_uncomplete (get_queue s) fd (handshake_begun fd c)))
unfolding begin_pack read_header
handshake_first s fd c e long = rw (e, begin_pack) (rw (save_long s fd c long))

handshake_next :
    (q : Queue) (fd x : ℕ) (c bytes : List ℕ)
    → headersize < length c
    → continue_pack true q fd (handshake_begun fd c) (x ∷ bytes) ≡ err header_overrun
unfolding continue_pack fill_header
handshake_next q fd x c bytes long =
    let full : length (take headersize c) ≡ headersize = omega (arith, length-take headersize c) in
    rw full

-- A handshake of which the first message is longer than the buffer and has no end in it: the next
-- byte that comes is written behind the end of the buffer, before the test that was to stop it.
pub feed-handshake_overrun :
    (s : Option Queue) (fd x : ℕ) (c bytes : List ℕ)
    → find_uncomplete s fd ≡ (none, s)
    → get_http_header c ≡ negsuc 0
    → headersize < length c
    → feed true s fd (c ∷ (x ∷ bytes) ∷ []) ≡ err header_overrun
unfolding feed
feed-handshake_overrun s fd x c bytes free e long = rw (
  begins true s fd c free,
  handshake_first s fd c e long,
  continues true (get_queue s) fd (handshake_begun fd c) (x ∷ bytes) refl,
  handshake_next (get_queue s) fd x c bytes long,
)
