-- ===== src/Gate/Stall.antt =====
-- A length from 2^31 up in a head of four bytes.
use rillserver.Prelude.{
  ℕ, suc, ◌-◌, ◌%◌, ◌^◌, ◌<◌, ◌≤◌, ◌≡◌, inr, refl, ap, ◌∙◌, arith, false, Option, some, List, [],
  ◌++◌, length, take, ltb, if◌then◌else◌, length-append,
}
use rillserver.Prelude.Int.{ℤ, pos, negsuc, neg, to_int}
use rillserver.DataBuffer.{
  DataBuffer, databuffer_push, databuffer_readheader, big_endian, complete, is_unset,
}
use rillserver.DataBuffer.Stream.{
  IsDataBuffer, contents, databuffer_push-contents, databuffer_read-ReadsOff,
}
use rillserver.Gate.{Route, Dispatch, dispatch_loop, dispatch_message}
use rillserver.Gate.Heads.{head_of, length-head_of, big_endian-head_of, take-head}
use rillserver.Gate.Frames.{header-push}
use rillserver.Gate.Reads.{readheader_read}

-- Nothing was sent and the connection is open, but the header is negative; so is it after each
-- later piece, which is kept whole.
pub record Stalls (to : Route) (result : Option Dispatch) : Type 0 where
  pub left : Dispatch
  pub done : result ≡ some left
  pub none_sent : left.sent ≡ []
  pub still_open : left.closed ≡ false
  pub forever :
      (fuel : ℕ) (later : List ℕ)
      → dispatch_message (suc fuel) to 4 left.buffer later
        ≡ some (record { sent = []; buffer = databuffer_push left.buffer later; closed = false })
  pub header_after :
      (later : List ℕ) → (databuffer_push left.buffer later).header ≡ left.buffer.header

complete_negative : (db : DataBuffer) (k : ℕ) → db.header ≡ negsuc k → complete db ≡ (negsuc k, db)
complete_negative db k e =
    ap
      (λ h. elim h as (λ z. ℤ × DataBuffer) [
        | pos n ↦ if ltb db.size n then (neg 1, db) else (pos n, db)
        | negsuc n ↦ (negsuc n, db)
      ])
      e

readheader_negative :
    (db : DataBuffer) (k hs : ℕ)
    → db.header ≡ negsuc k
    → databuffer_readheader db hs ≡ some (negsuc k, db)
unfolding databuffer_readheader
readheader_negative db k hs e =
    let set : is_unset db.header ≡ false = ap is_unset e in rw (set, complete_negative db k e)

round_negative :
    (fuel : ℕ) (to : Route) (hs k : ℕ) (db db' : DataBuffer)
    → databuffer_readheader db hs ≡ some (negsuc k, db')
    → dispatch_loop (suc fuel) to hs db ≡ some (record { sent = []; buffer = db'; closed = false })
unfolding dispatch_loop
round_negative fuel to hs k db db' e = rw (dispatch_loop, e)

to_int-high : (n : ℕ) → 2 ^ 31 ≤ n → n < 2 ^ 32 → to_int n ≡ negsuc (2 ^ 32 - n - 1)
to_int-high n up lt =
    let whole : n % 2 ^ 32 ≡ n = omega arith in
    let high : ltb n (2 ^ 31) ≡ false = ground arith in rw (whole, high)

-- A head of four bytes that says a length from 2^31 up, in a sound buffer without a header: nothing
-- is sent, the connection is not closed, and no later piece of any content changes that: each is
-- kept whole.
pub dispatch_message-Stalls :
    (to : Route) (fuel : ℕ) (db : DataBuffer) (bytes : List ℕ) (n : ℕ) (rest : List ℕ)
    → IsDataBuffer db
    → db.header ≡ pos 0
    → contents db ++ bytes ≡ head_of 4 n ++ rest
    → 2 ^ 31 ≤ n
    → n < 2 ^ 32
    → Stalls to (dispatch_message (suc fuel) to 4 db bytes)
unfolding dispatch_message
dispatch_message-Stalls to fuel db bytes n rest v e c up lt =
    let full = databuffer_push db bytes in
    let (sound, all) = databuffer_push-contents db bytes v in
    let whole : contents full ≡ head_of 4 n ++ rest = all ∙ c in
    let long : 4 ≤ full.size =
      omega (
        arith,
        sound.count,
        ap length whole,
        length-append (head_of 4 n) rest,
        length-head_of 4 n,
      ) in
    let r = databuffer_read-ReadsOff full 4 sound (omega arith) long in
    let k = 2 ^ 32 - n - 1 in
    let value : to_int (big_endian 0 (take 4 (contents full))) ≡ negsuc k =
      ap (λ l. to_int (big_endian 0 l)) (ap (take 4) whole ∙ take-head 4 n rest)
      ∙ ap to_int (big_endian-head_of 4 n (inr refl) (omega arith))
      ∙ to_int-high n up lt in
    let db' : DataBuffer = record r.db' {
      header = to_int (big_endian 0 (take 4 (contents full)));
    } in
    let next : databuffer_readheader full 4 ≡ some (negsuc k, db') =
      readheader_read full r.db' 4 (take 4 (contents full)) (header-push db bytes ∙ e) long r.done
      ∙ ap some (complete_negative db' k value) in
    record {
      left = record { sent = []; buffer = db'; closed = false };
      done = round_negative fuel to 4 k full db' next;
      none_sent = refl;
      still_open = refl;
      forever = λ fuel' later.
          round_negative fuel' to 4 k (databuffer_push db' later) (databuffer_push db' later)
            (readheader_negative (databuffer_push db' later) k 4 (header-push db' later ∙ value));
      header_after = header-push db';
    }
