-- ===== src/Gate/Reads.antt =====
-- What `databuffer_readheader` comes to on the bytes of messages.
use rillserver.Prelude.{
  ℕ, ◌^◌, ◌<◌, ◌≤◌, ◌≡◌, inl, inr, ap, sym, subst, ◌∙◌, arith, true, false, some, List, ◌++◌,
  length, take, drop, ltb, ◌==◌, if◌then◌else◌, length-append,
}
use rillserver.Prelude.Int.{ℤ, pos, negsuc, neg, to_int}
use rillserver.DataBuffer.{DataBuffer, databuffer_read, databuffer_readheader, complete, big_endian}
use rillserver.DataBuffer.Stream.{IsDataBuffer, contents, databuffer_read-ReadsOff}
use rillserver.Gate.Heads.{
  head_of, HeadSize, Waits, unread, read, IsPartial, in_head, in_body, length-head_of, to_int-small,
  take-head, drop-head, head_unique, big_endian-head_of,
}

-- A buffer behind a head that was read.
pub record Known (hs n : ℕ) (db : DataBuffer) (q : List ℕ) : Type 0 where
  pub db' : DataBuffer
  pub done : databuffer_readheader db hs ≡ some (complete db')
  pub sound : IsDataBuffer db'
  pub header : db'.header ≡ pos n
  pub left : contents db' ≡ q

readheader_set :
    (db : DataBuffer) (hs n : ℕ)
    → 1 ≤ n
    → db.header ≡ pos n
    → databuffer_readheader db hs ≡ some (complete db)
unfolding databuffer_readheader
readheader_set db hs n up e = let set : (n == 0) ≡ false = ground arith in rw (e, set)

pub readheader_read :
    (db left : DataBuffer) (hs : ℕ) (plen : List ℕ)
    → db.header ≡ pos 0
    → hs ≤ db.size
    → databuffer_read db hs ≡ some (plen, left)
    → databuffer_readheader db hs
      ≡ some (complete (record left { header = to_int (big_endian 0 plen) }))
unfolding databuffer_readheader
readheader_read db left hs plen e enough found =
    let long : ltb db.size hs ≡ false = ground arith in rw (found, long, e)

readheader_short :
    (db : DataBuffer) (hs : ℕ)
    → db.header ≡ pos 0
    → db.size < hs
    → databuffer_readheader db hs ≡ some (neg 1, db)
unfolding databuffer_readheader
readheader_short db hs e short = let less : ltb db.size hs ≡ true = ground arith in rw (e, less)

pub readheader-Known :
    (hs n : ℕ) (db : DataBuffer) (q : List ℕ)
    → HeadSize hs
    → n < 256 ^ hs
    → n < 2 ^ 31
    → IsDataBuffer db
    → Waits hs db (head_of hs n ++ q)
    → Known hs n db q
readheader-Known hs n db q size lt small v (unread e c) =
    let long : hs ≤ db.size =
      omega (arith, v.count, ap length c, length-append (head_of hs n) q, length-head_of hs n) in
    let up : 1 ≤ hs = elim size [ inl i ↦ omega (arith, i) | inr i ↦ omega (arith, i) ] in
    let r = databuffer_read-ReadsOff db hs v up long in
    let plen = ap (take hs) c ∙ take-head hs n q in
    let value : to_int (big_endian 0 (take hs (contents db))) ≡ pos n =
      ap (λ l. to_int (big_endian 0 l)) plen
      ∙ ap to_int (big_endian-head_of hs n size lt)
      ∙ to_int-small n small in
    record {
      db' = record r.db' { header = to_int (big_endian 0 (take hs (contents db))) };
      done = readheader_read db r.db' hs (take hs (contents db)) e long r.done;
      sound = record { fits = r.sound_after.fits; count = r.sound_after.count };
      header = value;
      left = r.left ∙ ap (drop hs) c ∙ drop-head hs n q;
    }
readheader-Known hs n db q size lt small v (read m up lt' small' e c) =
    let (same, rest) = head_unique hs m n (contents db) q size lt' lt c in
    record {
      db' = db;
      done = readheader_set db hs m up e;
      sound = v;
      header = e ∙ ap pos same;
      left = rest;
    }

pub complete-pos :
    (db : DataBuffer) (n : ℕ)
    → db.header ≡ pos n
    → complete db ≡ (if ltb db.size n then (neg 1, db) else (pos n, db))
complete-pos db n e =
    ap
      (λ h. elim h as (λ z. ℤ × DataBuffer) [
        | pos k ↦ if ltb db.size k then (neg 1, db) else (pos k, db)
        | negsuc k ↦ (negsuc k, db)
      ])
      e

-- While the message is incomplete nothing is sent, and all that came waits.
pub record Stays (hs : ℕ) (db : DataBuffer) (bytes : List ℕ) : Type 0 where
  pub db' : DataBuffer
  pub done : databuffer_readheader db hs ≡ some (neg 1, db')
  pub sound : IsDataBuffer db'
  pub waits : Waits hs db' bytes

pub readheader-Stays :
    (hs : ℕ) (db : DataBuffer) (bytes : List ℕ)
    → HeadSize hs
    → IsDataBuffer db
    → Waits hs db bytes
    → IsPartial hs bytes
    → Stays hs db bytes
readheader-Stays hs db bytes size v (unread e c) (in_head short) = record {
  db' = db;
  done = readheader_short db hs e (omega (arith, v.count, ap length c, short));
  sound = v;
  waits = unread e c;
}
readheader-Stays hs db bytes size v (read n up lt small e c) (in_head short) = absurd (
    omega
      (arith, ap length c, length-append (head_of hs n) (contents db), length-head_of hs n, short))
readheader-Stays hs db bytes size v w (in_body n part lt small less e) =
    let k = readheader-Known hs n db part size lt small v (subst (Waits hs db) e w) in
    let short : ltb k.db'.size n ≡ true = ground (arith, k.sound.count, ap length k.left) in
    record {
      db' = k.db';
      done = k.done ∙ ap some (complete-pos k.db' n k.header ∙ rw short);
      sound = k.sound;
      waits =
          read n (omega (arith, less)) lt small k.header
            (ap (λ l. head_of hs n ++ l) k.left ∙ sym e);
    }
