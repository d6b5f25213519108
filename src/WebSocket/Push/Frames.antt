-- ===== src/WebSocket/Push/Frames.antt =====
-- Several frames in one message.
use rillserver.Prelude.{
  ℕ, zero, suc, ◌+◌, ◌-◌, ◌≤◌, ◌≡◌, refl, ap, ◌∙◌, arith, false, Option, some, List, [], ◌∷◌, ◌++◌,
  length, length-append, append_assoc, take, drop, take-append, drop-append, ltb, lt→ltb,
  if◌then◌else◌,
}
use rillserver.Prelude.Int.{pos}
use rillserver.WebSocket.Wire.{
  Key, key_bytes, length_bytes, head, wire, masked_payload, IsDataOpcode,
}
use rillserver.WebSocket.Frame.{no_outs, Outs}
use rillserver.WebSocket.Frame.Header.{stored}
use rillserver.WebSocket.Queue.{Queue, Netpack, push_data}
use rillserver.WebSocket.Queue.Fifo.{IsStack, IsRing, packs, waiting, packs-push_data}
use rillserver.WebSocket.Mask.Payload.{
  payload_at, length-payload_at, masked_payload-payload_at, decode-payload_at,
}
use rillserver.WebSocket.Outcome.{ok}
use rillserver.WebSocket.Push.{max_packsize, is_skip_or_close, read_header, push_more, plain}
use rillserver.WebSocket.Push.Heads.{StopsAtData, read_header-head, stored-HasKey, drop-stored}

is_skip_or_close-StopsAtData : StopsAtData is_skip_or_close
is_skip_or_close-StopsAtData = record { at_size = λ n. refl; at_cut = refl }

-- What a round of `push_more` does with a header that has been read.
push_more-read :
    (fuel : ℕ) (s : Option Queue) (fd : ℕ) (c : List ℕ) (n : ℕ) (o : Outs) (bytes body : List ℕ)
    → read_header is_skip_or_close false no_outs c
      ≡ record { pack_size = pos n; outs = o; bytes = bytes }
    → drop o.pack_head_length bytes ≡ body
    → n ≤ length body
    → push_more false (suc fuel) s fd c ≡ (
        if ltb 0 (length body - n)
        then push_more false fuel
            (some (push_data s fd (plain fd o (take n body)) n))
            fd
            (drop n body)
        else ok (push_data s fd (plain fd o (take n body)) n))
unfolding push_more
push_more-read fuel s fd c n o bytes body e b fits = rw (e, push_more) (rw (e, b) (ground arith))

module _ (fd op : ℕ) (key : Option Key) (p : List ℕ) where
  pub plain-payload : plain fd (stored key (length p) no_outs) (payload_at key 0 p) ≡ p
  plain-payload = (decode-payload_at key 0 p _ (stored-HasKey key (length p) fd)).0

  pub take-body : (r : List ℕ) → take (length p) (payload_at key 0 p ++ r) ≡ payload_at key 0 p
  take-body r = rw (← length-payload_at key 0 p) (take-append (payload_at key 0 p) r)

  pub drop-body : (r : List ℕ) → drop (length p) (payload_at key 0 p ++ r) ≡ r
  drop-body r = rw (← length-payload_at key 0 p) (drop-append (payload_at key 0 p) r)

  pub wire-append :
      (r : List ℕ) → wire op key p ++ r ≡ head op key (length p) ++ (payload_at key 0 p ++ r)
  wire-append r =
      rw (masked_payload-payload_at key p)
        (append_assoc (head op key (length p)) (payload_at key 0 p) r)

  push_more_frame :
      (fuel : ℕ) (s : Option Queue) (r : List ℕ)
      → IsDataOpcode op
      → length p ≤ max_packsize
      → push_more false (suc fuel) s fd (wire op key p ++ r) ≡ (
          if ltb 0 (length r)
          then push_more false fuel (some (push_data s fd p (length p))) fd r
          else ok (push_data s fd p (length p)))
  unfolding push_more
  push_more_frame fuel s r is_data fits =
      let m = payload_at key 0 p in
      let l = length-append m r in
      let l' = length-payload_at key 0 p in
      rw (wire-append r) (
        push_more-read fuel s fd _ (length p) (stored key (length p) no_outs) _ (m ++ r)
          (read_header-head is_skip_or_close is_skip_or_close-StopsAtData op (length p) key is_data
            fits (m ++ r) no_outs)
          (drop-stored op (length p) key (m ++ r)) (omega (arith, l, l'))
        ∙ rw (take-body r, drop-body r, plain-payload)
            (ap
              (λ (k : ℕ).
                if ltb 0 k
                then push_more false fuel (some (push_data s fd p (length p))) fd r
                else ok (push_data s fd p (length p)))
              left_over))
    where
      left_over : length (payload_at key 0 p ++ r) - length p ≡ length r
      left_over = omega (arith, length-append (payload_at key 0 p) r, length-payload_at key 0 p)

-- A frame as its sender describes it.
pub record Frame : Type 0 where
  pub opcode : ℕ
  pub key : Option Key
  pub payload : List ℕ

abbrev pub IsDataFrame : Frame → Type 0
IsDataFrame f = IsDataOpcode f.opcode × (length f.payload ≤ max_packsize)

abbrev pub AllData : List Frame → Type 0
AllData [] = Unit
AllData (f ∷ fs) = IsDataFrame f × AllData fs

abbrev pub bytes_of : Frame → List ℕ
bytes_of f = wire f.opcode f.key f.payload

-- the frames in a row
abbrev pub stream : List Frame → List ℕ
stream [] = []
stream (f ∷ fs) = bytes_of f ++ stream fs

-- what must be queued for them
abbrev pub packs_of : ℕ → List Frame → List Netpack
packs_of fd [] = []
packs_of fd (f ∷ fs) =
    record { id = fd; size = length f.payload; buffer = f.payload } ∷ packs_of fd fs

pub two_bytes : (f : Frame) (r : List ℕ) → 2 + length r ≤ length (bytes_of f ++ r)
two_bytes f r = omega (
  arith,
  length-append (length_bytes (length f.payload) ++ key_bytes f.key)
      (masked_payload f.key f.payload),
  length-append
      ((length_bytes (length f.payload) ++ key_bytes f.key) ++ masked_payload f.key f.payload) r,
)

-- Data frames of at most 10 KiB each that fill the rest of a message are all queued, unmasked and in
-- order, behind what waits, with the indices of the queue in range before and after; fuel for the
-- number of the bytes is enough.
pub push_more-packs :
    (fuel fd : ℕ) (s : Option Queue) (f : Frame) (fs : List Frame)
    → AllData (f ∷ fs)
    → IsStack s
    → length (stream (f ∷ fs)) ≤ fuel
    → (q : Queue) × (push_more false fuel s fd (stream (f ∷ fs)) ≡ ok q)
      × (packs q ≡ waiting s ++ packs_of fd (f ∷ fs))
      × IsRing q
push_more-packs zero fd s f fs valid in_ring enough =
    absurd (omega (arith, two_bytes f (stream fs)))
push_more-packs (suc fuel) fd s f [] valid in_ring enough =
    let (op_ok, fits) = valid.0 in
    let (e, r) = packs-push_data s fd (length f.payload) f.payload in_ring in
    (
      push_data s fd f.payload (length f.payload),
      push_more_frame fd f.opcode f.key f.payload fuel s [] op_ok fits,
      e,
      r,
    )
push_more-packs (suc fuel) fd s f (f' ∷ fs) valid in_ring enough =
    let (op_ok, fits) = valid.0 in
    let (e, r) = packs-push_data s fd (length f.payload) f.payload in_ring in
    let (q', done, e', r') =
      push_more-packs fuel fd (some (push_data s fd f.payload (length f.payload))) f' fs valid.1 r
        (omega (arith, two_bytes f (stream (f' ∷ fs)))) in
    (
      q',
      push_more_frame fd f.opcode f.key f.payload fuel s (stream (f' ∷ fs)) op_ok fits
          ∙ rw (lt→ltb 0 (length (stream (f' ∷ fs))) (omega (arith, two_bytes f' (stream fs))))
              done,
      e' ∙ ap (λ l. l ++ packs_of fd (f' ∷ fs)) e ∙ append_assoc (waiting s) _ _,
      r',
    )
