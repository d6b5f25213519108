-- ===== src/WebSocket/Filter/Body.antt =====
-- The payload of a well-formed frame, collected piece by piece into a begun pack.
use rillserver.Prelude.{
  ℕ, ◌+◌, ◌-◌, ◌<◌, ◌≡◌, ◌≢◌, ap, arith, false, Option, none, some, List, [], ◌++◌, length,
  length-append, length-ne, lt→ltb, take_all,
}
use rillserver.Prelude.Int.{pos}
use rillserver.WebSocket.Wire.{Key}
use rillserver.WebSocket.Queue.{Queue, Uncomplete, Netpack}
use rillserver.WebSocket.Pending.{insert_uncomplete}
use rillserver.WebSocket.Mask.{decode_wsmask_data}
use rillserver.WebSocket.Mask.Payload.{payload_at, length-payload_at, HasKey, decode-payload_at}
use rillserver.WebSocket.Outcome.{ok, nothing, data_pack}
use rillserver.WebSocket.Filter.{fill_body}

abbrev pub pack_of : ℕ → List ℕ → List ℕ → Netpack
pack_of fd p got = record { id = fd; size = length p; buffer = got }

-- the pack with `bytes` more of its payload
abbrev pub grown : Uncomplete → ℕ → List ℕ → Uncomplete
grown uc got bytes =
    let (plain, uc') = decode_wsmask_data bytes uc in
    record uc' {
      read = pos (got + length bytes);
      pack = record { id = uc'.pack.id; size = uc'.pack.size; buffer = uc'.pack.buffer ++ plain };
    }

grown-mask :
    (key : Option Key) (d got : ℕ) (uc : Uncomplete) (bytes : List ℕ)
    → HasKey key d (decode_wsmask_data bytes uc).1
    → HasKey key d (grown uc got bytes)
grown-mask none d got uc bytes h = h
grown-mask (some k) d got uc bytes h = h

module _ (fd : ℕ) (key : Option Key) (p : List ℕ) (q : Queue) (uc : Uncomplete) (got x : List ℕ)
    (begun : uc.pack ≡ pack_of fd p got) (has_key : HasKey key (length got) uc) where
  abbrev bytes : List ℕ
  bytes = payload_at key (length got) x

  -- A piece that does not end the payload is kept.
  pub fill_body-part :
      (y : List ℕ)
      → got ++ (x ++ y) ≡ p
      → y ≢ []
      → fill_body false q fd uc (length got) bytes
        ≡ ok (nothing, some (insert_uncomplete q fd (grown uc (length got) bytes)))
  unfolding fill_body
  fill_body-part y whole left =
      let size : uc.pack.size ≡ length p = ap (λ (n : Netpack). n.size) begun in
      let few : length bytes < uc.pack.size - length got = omega (
        arith,
        size,
        length-payload_at key (length got) x,
        ap length whole,
        length-append got (x ++ y),
        length-append x y,
        length-ne y left,
      ) in
      rw (lt→ltb _ _ few)

  pub grown-pack : (grown uc (length got) bytes).pack ≡ pack_of fd p (got ++ x)
  grown-pack = ground (arith, decode-payload_at key (length got) x uc has_key)

  pub grown-HasKey : HasKey key (length (got ++ x)) (grown uc (length got) bytes)
  grown-HasKey = rw (length-append got x) (
      grown-mask key (length got + length x) (length got) uc bytes
        (decode-payload_at key (length got) x uc has_key).1)

  -- The piece that ends the payload delivers it.
  pub fill_body-end :
      got ++ x ≡ p
      → fill_body false q fd uc (length got) bytes ≡ ok (data_pack fd p (length p), some q)
  unfolding fill_body
  fill_body-end whole =
      let size : uc.pack.size ≡ length p = ap (λ (n : Netpack). n.size) begun in
      let buffer : uc.pack.buffer ≡ got = ap (λ (n : Netpack). n.buffer) begun in
      let need : uc.pack.size - length got ≡ length bytes =
        omega (
          arith,
          size,
          length-payload_at key (length got) x,
          ap length whole,
          length-append got x,
        ) in
      rw (need, take_all bytes)
        (ground (arith, size, buffer, whole, decode-payload_at key (length got) x uc has_key))
