-- ===== src/WebSocket/Filter/Batch.antt =====
-- Several frames in one message, with nothing pending.
use rillserver.Prelude.{
  ℕ, ◌<◌, ◌≡◌, ap, ◌∙◌, arith, false, Option, none, some, List, ◌∷◌, ◌++◌, length, length-append,
  append_assoc, take, drop, suc,
}
use rillserver.Prelude.Int.{pos}
use rillserver.WebSocket.Frame.{Outs, no_outs}
use rillserver.WebSocket.Frame.Header.{stored}
use rillserver.WebSocket.Queue.{Queue, push_data}
use rillserver.WebSocket.Queue.Fifo.{IsStack, IsRing, packs, waiting, packs-push_data}
use rillserver.WebSocket.Pending.{find_uncomplete}
use rillserver.WebSocket.Mask.Payload.{payload_at, length-payload_at}
use rillserver.WebSocket.Outcome.{ok, more}
use rillserver.WebSocket.Push.{is_skip, read_header, push_more, push_rest, plain}
use rillserver.WebSocket.Push.Heads.{read_header-head, drop-stored}
use rillserver.WebSocket.Push.Frames.{
  Frame, AllData, stream, packs_of, two_bytes, push_more-packs, plain-payload, take-body, drop-body,
  wire-append,
}
use rillserver.WebSocket.Filter.{begin_pack, filter_data}
use rillserver.WebSocket.Filter.Heads.{is_skip-StopsAtData}
use rillserver.WebSocket.Filter.Stream.{filter_begins}

begin_more :
    (s : Option Queue) (fd : ℕ) (c : List ℕ) (n : ℕ) (o : Outs) (bytes body : List ℕ)
    → read_header is_skip false no_outs c ≡ record { pack_size = pos n; outs = o; bytes = bytes }
    → drop o.pack_head_length bytes ≡ body
    → n < length body
    → begin_pack false s fd c
      ≡ push_rest false (push_data s fd (plain fd o (take n body)) n) fd (drop n body)
unfolding begin_pack
begin_more s fd c n o bytes body e b fits = rw (e, begin_pack) (rw (e, b) (ground arith))

push_rest-ok :
    (q q' : Queue) (fd : ℕ) (c : List ℕ)
    → push_more false (suc (length c)) (some q) fd c ≡ ok q'
    → push_rest false q fd c ≡ ok (more, some q')
unfolding push_rest
push_rest-ok q q' fd c e = rw e

-- A message of two or more data frames of at most 10 KiB each, on a socket with nothing pending
-- and with the indices of the queue in range: the call says that there is more, and the queue has
-- all the payloads, unmasked and in order, behind those that waited.
pub filter_data-frames :
    (fd : ℕ) (s : Option Queue) (f f' : Frame) (fs : List Frame)
    → AllData (f ∷ f' ∷ fs)
    → IsStack s
    → find_uncomplete s fd ≡ (none, s)
    → (q : Queue) × (filter_data false s fd (stream (f ∷ f' ∷ fs)) ≡ ok (more, some q))
      × (packs q ≡ waiting s ++ packs_of fd (f ∷ f' ∷ fs))
      × IsRing q
filter_data-frames fd s f f' fs valid in_ring free =
    let p = f.payload in
    let (op_ok, fits) = valid.0 in
    let r = stream (f' ∷ fs) in
    let m = payload_at f.key 0 p in
    let (e, in_ring') = packs-push_data s fd (length p) p in_ring in
    let (q, done, e', in_ring'') =
      push_more-packs (suc (length r)) fd (some (push_data s fd p (length p))) f' fs valid.1
        in_ring' (omega arith) in
    (
      q,
      filter_begins s fd (stream (f ∷ f' ∷ fs)) free
          ∙ rw (wire-append fd f.opcode f.key p r) (
              begin_more s fd _ (length p) (stored f.key (length p) no_outs) _ (m ++ r)
                (read_header-head is_skip is_skip-StopsAtData f.opcode (length p) f.key op_ok fits
                  (m ++ r) no_outs)
                (drop-stored f.opcode (length p) f.key (m ++ r))
                (omega
                  (arith, length-append m r, length-payload_at f.key 0 p, two_bytes f' (stream fs)))
              ∙ rw
                  (
                    take-body fd f.opcode f.key p r,
                    drop-body fd f.opcode f.key p r,
                    plain-payload fd f.opcode f.key p,
                  )
                  (push_rest-ok (push_data s fd p (length p)) q fd r done)),
      e' ∙ ap (λ l. l ++ packs_of fd (f' ∷ fs)) e ∙ append_assoc (waiting s) _ _,
      in_ring'',
    )
