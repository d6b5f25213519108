-- ===== src/Gate/Frames.antt =====
-- `dispatch_message` against the messages of the stream.
use rillserver.Prelude.{
  ℕ, zero, suc, ◌^◌, ◌<◌, ◌≤◌, ◌≡◌, refl, ap, sym, subst, ◌∙◌, arith, false, Option, some, List, [],
  ◌∷◌, ◌++◌, length, take, drop, leb, ltb, ◌==◌, append_assoc, length-append, take-append,
  drop-append,
}
use rillserver.Prelude.Int.{pos, neg}
use rillserver.DataBuffer.{
  DataBuffer, databuffer_read, databuffer_push, databuffer_readheader, databuffer_reset,
}
use rillserver.DataBuffer.Stream.{
  IsDataBuffer, contents, databuffer_push-contents, databuffer_read-ReadsOff,
}
use rillserver.Gate.{Route, Send, Dispatch, forward, sent_before, dispatch_loop, dispatch_message}
use rillserver.Gate.Heads.{
  head_of, frames, non_empty, AllFit, HeadSize, Waits, unread, read, IsPartial,
}
use rillserver.Gate.Sent.{IsSent, AllSent, none_sent, and_sent, IsServed, forward-Forwards}
use rillserver.Gate.Reads.{readheader-Known, readheader-Stays, complete-pos}

-- One round of the loop.
module _ (fuel : ℕ) (to : Route) (hs : ℕ) (db db' : DataBuffer) where
  round_stay :
      databuffer_readheader db hs ≡ some (neg 1, db')
      → dispatch_loop (suc fuel) to hs db
        ≡ some (record { sent = []; buffer = db'; closed = false })
  unfolding dispatch_loop
  round_stay e = rw (dispatch_loop, e)

  round_skip :
      databuffer_readheader db hs ≡ some (pos 0, db')
      → dispatch_loop (suc fuel) to hs db ≡ dispatch_loop fuel to hs db'
  unfolding dispatch_loop
  round_skip e = rw (dispatch_loop, e)

  round_send :
      (n : ℕ) (message : Send) (left : DataBuffer)
      → databuffer_readheader db hs ≡ some (pos n, db')
      → 1 ≤ n
      → n < 2 ^ 24
      → forward to db' n ≡ some (message ∷ [], left)
      → dispatch_loop (suc fuel) to hs db
        ≡ sent_before (message ∷ []) (dispatch_loop fuel to hs (databuffer_reset left))
  unfolding dispatch_loop
  round_send n message left e up small f =
      let some_bytes : (n == 0) ≡ false = ground arith in
      let less : leb (2 ^ 24) n ≡ false = ground arith in rw (dispatch_loop, e, some_bytes, less, f)

-- What the dispatch of whole messages, with the beginning of another, must come to.
pub record Delivers (to : Route) (fd hs : ℕ) (bodies : List (List ℕ)) (rest : List ℕ)
    (result : Option Dispatch) : Type 0 where
  pub left : Dispatch
  pub done : result ≡ some left
  pub all_sent : AllSent to fd left.sent (non_empty bodies)
  pub still_open : left.closed ≡ false
  pub sound_after : IsDataBuffer left.buffer
  pub waits_after : Waits hs left.buffer rest

sent-Delivers :
    (to : Route) (fd hs a : ℕ) (b : List ℕ) (bodies : List (List ℕ)) (rest : List ℕ)
    (message : Send) (result : Option Dispatch)
    → IsSent to fd (a ∷ b) message
    → Delivers to fd hs bodies rest result
    → Delivers to fd hs ((a ∷ b) ∷ bodies) rest (sent_before (message ∷ []) result)
sent-Delivers to fd hs a b bodies rest message result m d = record {
  left = record d.left { sent = message ∷ d.left.sent };
  done = rw d.done;
  all_sent = and_sent message d.left.sent (a ∷ b) (non_empty bodies) m d.all_sent;
  still_open = d.still_open;
  sound_after = d.sound_after;
  waits_after = d.waits_after;
}

reset-Waits :
    (hs : ℕ) (db : DataBuffer) (bytes : List ℕ)
    → IsDataBuffer db
    → contents db ≡ bytes
    → IsDataBuffer (databuffer_reset db) × Waits hs (databuffer_reset db) bytes
unfolding databuffer_reset
reset-Waits hs db bytes v e = (record { fits = v.fits; count = v.count }, unread refl e)

none_less : (n : ℕ) → ltb n 0 ≡ false
none_less n = ground arith

skipped :
    {to : Route} {fd hs : ℕ} {bodies : List (List ℕ)} {rest : List ℕ} {result : Option Dispatch}
    → Delivers to fd hs bodies rest result
    → Delivers to fd hs ([] ∷ bodies) rest result
skipped d = record {
  left = d.left;
  done = d.done;
  all_sent = d.all_sent;
  still_open = d.still_open;
  sound_after = d.sound_after;
  waits_after = d.waits_after;
}

pub header-push : (db : DataBuffer) (bytes : List ℕ) → (databuffer_push db bytes).header ≡ db.header
unfolding databuffer_push
header-push db bytes = refl

module _ (to : Route) (fd : ℕ) (served : IsServed to fd) (hs : ℕ) (size : HeadSize hs)
    (rest : List ℕ) (part : IsPartial hs rest) where
  loop-Delivers :
      (fuel : ℕ) (db : DataBuffer) (bodies : List (List ℕ))
      → IsDataBuffer db
      → Waits hs db (frames hs bodies ++ rest)
      → AllFit hs bodies
      → length bodies < fuel
      → Delivers to fd hs bodies rest (dispatch_loop fuel to hs db)
  loop-Delivers zero db bodies v w fit lt = absurd (omega arith)
  loop-Delivers (suc fuel) db [] v w fit lt =
      let s = readheader-Stays hs db rest size v w part in
      record {
        left = record { sent = []; buffer = s.db'; closed = false };
        done = round_stay fuel to hs db s.db' s.done;
        all_sent = none_sent;
        still_open = refl;
        sound_after = s.sound;
        waits_after = s.waits;
      }
  loop-Delivers (suc fuel) db ([] ∷ bodies) v w fit lt =
      let k =
        readheader-Known hs 0 db (frames hs bodies ++ rest) size fit.0.0 (omega arith) v
          (subst (Waits hs db) (append_assoc (head_of hs 0) (frames hs bodies) rest) w) in
      let next : databuffer_readheader db hs ≡ some (pos 0, k.db') =
        k.done ∙ ap some (complete-pos k.db' 0 k.header ∙ rw (none_less k.db'.size)) in
      subst (Delivers to fd hs ([] ∷ bodies) rest) (sym (round_skip fuel to hs db k.db' next)) (
        skipped
          (loop-Delivers fuel k.db' bodies k.sound (unread k.header k.left) fit.1 (omega arith)))
  loop-Delivers (suc fuel) db ((a ∷ b) ∷ bodies) v w fit lt =
      let n = length (a ∷ b) in
      let q = frames hs bodies ++ rest in
      let split : frames hs ((a ∷ b) ∷ bodies) ++ rest ≡ head_of hs n ++ ((a ∷ b) ++ q) =
        append_assoc (head_of hs n) ((a ∷ b) ++ frames hs bodies) rest
        ∙ ap (λ l. head_of hs n ++ l) (append_assoc (a ∷ b) (frames hs bodies) rest) in
      let k =
        readheader-Known hs n db ((a ∷ b) ++ q) size fit.0.0 (omega (arith, fit.0.1)) v
          (subst (Waits hs db) split w) in
      let long : n ≤ k.db'.size =
        omega (arith, k.sound.count, ap length k.left, length-append (a ∷ b) q) in
      let enough : ltb k.db'.size n ≡ false = ground arith in
      let next : databuffer_readheader db hs ≡ some (pos n, k.db') =
        k.done ∙ ap some (complete-pos k.db' n k.header ∙ rw enough) in
      let r = databuffer_read-ReadsOff k.db' n k.sound (omega arith) long in
      let body : databuffer_read k.db' n ≡ some (a ∷ b, r.db') =
        r.done ∙ ap (λ l. some (l, r.db')) (ap (take n) k.left ∙ take-append (a ∷ b) q) in
      let f = forward-Forwards to fd k.db' r.db' n (a ∷ b) served body in
      let (sound, waits) =
        reset-Waits hs r.db' q r.sound_after
          (r.left ∙ ap (drop n) k.left ∙ drop-append (a ∷ b) q) in
      subst (Delivers to fd hs ((a ∷ b) ∷ bodies) rest)
        (sym (
          round_send fuel to hs db k.db' n f.message r.db' next (omega arith)
            (omega (arith, fit.0.1)) f.done))
        (sent-Delivers to fd hs a b bodies rest f.message _ f.as_due
          (loop-Delivers fuel (databuffer_reset r.db') bodies sound waits fit.1 (omega arith)))

-- For a valid socket, and a broker, an agent or a watchdog, on a sound buffer in which the bytes of the
-- earlier pieces wait: where these and the new bytes are whole messages of less than 16 MiB, that fit
-- a head of 2 or 4 bytes, and the beginning of another one, `dispatch_message` sends one message for
-- each body that is not empty, in order: the body to the broker or else to the agent, or else the
-- socket in decimal, " data " and the body to the watchdog. It keeps the beginning, the connection
-- being open. One round for each message, and one more, are enough.
pub dispatch_message-Delivers :
    (to : Route) (fd hs fuel : ℕ) (db : DataBuffer) (before bytes : List ℕ) (bodies : List (List ℕ))
    (rest : List ℕ)
    → IsServed to fd
    → HeadSize hs
    → IsDataBuffer db
    → Waits hs db before
    → before ++ bytes ≡ frames hs bodies ++ rest
    → AllFit hs bodies
    → IsPartial hs rest
    → length bodies < fuel
    → Delivers to fd hs bodies rest (dispatch_message fuel to hs db bytes)
unfolding dispatch_message
dispatch_message-Delivers to fd hs fuel db before bytes bodies rest served size v w e fit part lt =
    let (sound, all) = databuffer_push-contents db bytes v in
    loop-Delivers to fd served hs size rest part fuel (databuffer_push db bytes) bodies sound
      (subst (Waits hs (databuffer_push db bytes)) e (pushed w all)) fit lt
  where
    pushed :
        Waits hs db before
        → contents (databuffer_push db bytes) ≡ contents db ++ bytes
        → Waits hs (databuffer_push db bytes) (before ++ bytes)
    pushed (unread h c) all = unread (header-push db bytes ∙ h) (all ∙ ap (λ l. l ++ bytes) c)
    pushed (read n up lt small h c) all = read n up lt small (header-push db bytes ∙ h) (
        ap (λ l. head_of hs n ++ l) all
        ∙ sym (append_assoc (head_of hs n) (contents db) bytes)
        ∙ ap (λ l. l ++ bytes) c)
