-- ===== src/WebSocket/Filter/Continue.antt =====
-- A call of the filter for a frame that is begun, on any piece of the rest of it.
use rillserver.Prelude.{
  ℕ, ◌+◌, ◌≤◌, ◌≡◌, ◌≢◌, inl, inr, ap, ◌∙◌, sym, arith, false, Option, some, List, [], ◌++◌, length,
  length-append, append_assoc, append_overlap,
}
use native.Mathlib.Decide.{dec_lt}
use rillserver.Prelude.Int.{pos, negsuc}
use rillserver.WebSocket.Wire.{Key, head, head_length, masked_payload, IsDataOpcode}
use rillserver.WebSocket.Frame.{no_outs}
use rillserver.WebSocket.Frame.Header.{length-head}
use rillserver.WebSocket.Queue.{Queue, Uncomplete}
use rillserver.WebSocket.Outcome.{◌>>=◌}
use rillserver.WebSocket.Push.{max_packsize}
use rillserver.WebSocket.Filter.{fill_body, fill_header, after_header, continue_pack}
use rillserver.WebSocket.Filter.Reassembly.{InHead, Awaits, Taken, body_step, whole_head, cut_head}

continue_head :
    (q : Queue) (fd : ℕ) (uc : Uncomplete) (c : List ℕ)
    → uc.read ≡ negsuc 0
    → continue_pack false q fd uc c
      ≡ (fill_header false (pos 0) no_outs uc.header c >>= after_header false q fd uc)
unfolding continue_pack
continue_head q fd uc c e = ground arith

continue_body :
    (q : Queue) (fd : ℕ) (uc : Uncomplete) (c : List ℕ) (got : ℕ)
    → uc.read ≡ pos got
    → continue_pack false q fd uc c ≡ fill_body false q fd uc got c
unfolding continue_pack
continue_body q fd uc c got e = ground arith

module _ (fd op : ℕ) (key : Option Key) (p : List ℕ) (is_data : IsDataOpcode op)
    (fits : length p ≤ max_packsize) where
  head_step :
      (q : Queue) (uc : Uncomplete) (c rest : List ℕ)
      → InHead fd op key p uc (c ++ rest)
      → c ≢ []
      → Taken fd op key p
          (fill_header false (pos 0) no_outs uc.header c >>= after_header false q fd uc)
          q
          (some q)
          rest
  head_step q uc c rest h ne =
      elim (dec_lt (length uc.header + length c) (head_length key (length p))) [
        | yes short ↦ cut_head fd op key p is_data fits q uc c rest h ne short
        | no long ↦
            let hd = head op key (length p) in
            let l = length-head op (length p) key in
            let all : (uc.header ++ c) ++ rest ≡ hd ++ masked_payload key p =
              append_assoc uc.header c rest ∙ h.stream in
            let (t, e, behind) =
              append_overlap (uc.header ++ c) rest hd (masked_payload key p) all
                (omega (arith, l, length-append uc.header c)) in
            let (s, e', c_parts) =
              append_overlap hd t uc.header c (sym e) (omega (arith, l, h.short)) in
            rw (← c_parts) (
              whole_head fd op key p is_data fits q uc s t rest h.id (sym e')
                (λ nil.
                  omega (arith, l, h.short, ap length nil, ap length e', length-append uc.header s))
                behind)
      ]

  pub continue_step :
      (q : Queue) (uc : Uncomplete) (c rest : List ℕ)
      → Awaits fd op key p uc (c ++ rest)
      → c ≢ []
      → Taken fd op key p (continue_pack false q fd uc c) q (some q) rest
  continue_step q uc c rest (id, inl h) ne =
      rw (continue_head q fd uc c h.reads) (head_step q uc c rest h ne)
  continue_step q uc c rest (id, inr b) ne =
      rw (continue_body q fd uc c (length b.got) b.reads)
        (body_step fd op key p q uc b.got b.left c rest b.whole b.begun b.has_key b.stream)
