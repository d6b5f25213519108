-- ===== src/WebSocket/Push/Heads.antt =====
-- The loops of `read_size` at the head of a well-formed frame: it is read at once when it is
-- whole, and waits for more when it is cut.
use rillserver.Prelude.{
  ℕ, ◌+◌, ◌<◌, ◌≤◌, ◌≡◌, ◌≢◌, refl, arith, Bool, false, Option, List, [], ◌∷◌, ◌++◌, length,
  append-nil, drop, drop-append, none, some,
}
use rillserver.Prelude.Int.{ℤ, pos, negsuc}
use rillserver.WebSocket.Wire.{Key, head, head_length, length_byte, IsDataOpcode}
use rillserver.WebSocket.Frame.{Outs, read_size, no_outs}
use rillserver.WebSocket.Frame.Header.{length-head, stored, read_size-head, read_size-cut}
use rillserver.WebSocket.Pending.{zeroed}
use rillserver.WebSocket.Mask.Payload.{HasKey}
use rillserver.WebSocket.Push.{with_mask, read_loop, read_header, max_packsize}

read_size-one : (a : ℕ) (o : Outs) → read_size (a ∷ []) o ≡ (negsuc 0, o)
unfolding read_size
read_size-one a o = refl

-- what a head leaves in the variables, and where its payload begins
pub stored-HasKey :
    (key : Option Key) (n fd : ℕ) → HasKey key 0 (with_mask (stored key n no_outs) (zeroed fd))
stored-HasKey none n fd = refl
stored-HasKey (some k) n fd = (refl, refl, refl)

pub drop-stored :
    (op n : ℕ) (key : Option Key) (t : List ℕ)
    → drop (stored key n no_outs).pack_head_length (head op key n ++ t) ≡ t
drop-stored op n none t = rw (← length-head op n none) (drop-append (head op none n) t)
drop-stored op n (some k) t = rw (← length-head op n (some k)) (drop-append (head op (some k) n) t)

-- A loop goes round for neither a size nor a -1.
pub record StopsAtData (again : ℤ → Bool) : Type 0 where
  pub at_size : (n : ℕ) → again (pos n) ≡ false
  pub at_cut : again (negsuc 0) ≡ false

module _ (again : ℤ → Bool) (stops : StopsAtData again) (op n : ℕ) (key : Option Key)
    (is_data : IsDataOpcode op) (fits : n ≤ max_packsize) where
  pub read_header-head :
      (rest : List ℕ) (o : Outs)
      → read_header again false o (head op key n ++ rest)
        ≡ record { pack_size = pos n; outs = stored key n o; bytes = head op key n ++ rest }
  unfolding read_header read_loop
  read_header-head rest o =
      rw (read_size-head op n key rest o is_data (omega arith), stops.at_size n) (ground arith)

  pub read_header-whole :
      (o : Outs)
      → read_header again false o (head op key n)
        ≡ record { pack_size = pos n; outs = stored key n o; bytes = head op key n }
  read_header-whole o = rw (append-nil (head op key n)) at (read_header-head [] o)

  pub read_header-cut :
      (c rest tail : List ℕ) (o : Outs)
      → c ≢ []
      → length c < head_length key n
      → c ++ rest ≡ head op key n ++ tail
      → read_header again false o c ≡ record { pack_size = negsuc 0; outs = o; bytes = c }
  unfolding read_header read_loop
  read_header-cut [] rest tail o ne short e = absurd (ne refl)
  read_header-cut (a ∷ []) rest tail o ne short e = rw (read_size-one a o) refl
  read_header-cut (a ∷ b ∷ c) rest tail o ne short e =
      let ea : a ≡ 128 + op = cc in
      let eb : b ≡ length_byte key n = cc in
      rw (ea, eb, read_size-cut op n key c o is_data (omega arith), stops.at_cut) refl
