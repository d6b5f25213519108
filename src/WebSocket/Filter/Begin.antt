-- ===== src/WebSocket/Filter/Begin.antt =====
-- A call of the filter with nothing begun, on any first piece of a frame.
use rillserver.Prelude.{
  ℕ, ◌<◌, ◌≤◌, ◌≡◌, ◌≢◌, inl, inr, refl, ap, ap₂, ◌∙◌, sym, subst, arith, false, Option, none, some,
  List, [], ◌++◌, length, length-append, length-ne, append-nil, append_overlap, drop,
}
use native.Mathlib.Decide.{dec_lt}
use native.Mathlib.Nat.{zero-add}
use rillserver.Prelude.Int.{ℤ, pos, negsuc}
use rillserver.WebSocket.Wire.{Key, head, head_length, wire, masked_payload, IsDataOpcode}
use rillserver.WebSocket.Frame.{no_outs, Outs}
use rillserver.WebSocket.Frame.Header.{stored, length-head}
use rillserver.WebSocket.Queue.{Queue, Uncomplete, Netpack, get_queue}
use rillserver.WebSocket.Pending.{insert_uncomplete, save_uncomplete, zeroed}
use rillserver.WebSocket.Mask.Payload.{
  payload_at, length-payload_at, HasKey, cutting, payload_at-nil_iff, decode-payload_at,
  masked_payload-payload_at,
}
use rillserver.WebSocket.Outcome.{ok, nothing, data_pack}
use rillserver.WebSocket.Push.{
  max_packsize, is_skip, with_mask, read_header, save_header, save_body, plain,
}
use rillserver.WebSocket.Push.Heads.{stored-HasKey, drop-stored, read_header-head, read_header-cut}
use rillserver.WebSocket.Filter.{begin_pack}
use rillserver.WebSocket.Mask.{decode_wsmask_data}
use rillserver.WebSocket.Filter.Body.{pack_of}
use rillserver.WebSocket.Filter.Heads.{is_skip-StopsAtData, head_length-le}
use rillserver.WebSocket.Filter.Reassembly.{Awaits, Taken, not_at_end}

-- What `begin_pack` does with a header, by what has been read of it.
begin_waits :
    (s : Option Queue) (fd : ℕ) (c : List ℕ)
    → read_header is_skip false no_outs c
      ≡ record { pack_size = negsuc 0; outs = no_outs; bytes = c }
    → length c ≤ 14
    → begin_pack false s fd c
      ≡ ok (
        nothing,
        some (
            insert_uncomplete
              (get_queue s)
              fd
              (record (zeroed fd) { read = negsuc 0; header = c })),
      )
unfolding begin_pack save_header save_uncomplete
begin_waits s fd c e short = rw (e, begin_pack) (ground arith)

module _ (s : Option Queue) (fd n : ℕ) (o : Outs) (c bytes : List ℕ)
    (e : read_header is_skip false no_outs c
      ≡ record { pack_size = pos n; outs = o; bytes = bytes }) where
  abbrev body : List ℕ
  body = drop o.pack_head_length bytes

  begin_partial :
      length body < n → begin_pack false s fd c ≡ ok (nothing, some (save_body s fd o n body))
  unfolding begin_pack
  begin_partial few = rw (e, begin_pack) (ground arith)

  begin_whole :
      length body ≡ n
      → begin_pack false s fd c ≡ ok (data_pack fd (plain fd o body) (length body), s)
  unfolding begin_pack
  begin_whole all = rw (e, begin_pack) (ground arith)

moved-HasKey :
    (key : Option Key) (d : ℕ) (uc : Uncomplete) (r : ℤ) (np : Netpack)
    → HasKey key d uc
    → HasKey key d (record uc { read = r; pack = np })
moved-HasKey none d uc r np h = h
moved-HasKey (some k) d uc r np h = h

module _ (fd op : ℕ) (key : Option Key) (p : List ℕ) (is_data : IsDataOpcode op)
    (fits : length p ≤ max_packsize) where
  begin_cut :
      (s : Option Queue) (c rest : List ℕ)
      → c ++ rest ≡ wire op key p
      → c ≢ []
      → length c < head_length key (length p)
      → Taken fd op key p (begin_pack false s fd c) (get_queue s) s rest
  begin_cut s c rest stream ne short =
      let cut =
        read_header-cut is_skip is_skip-StopsAtData op (length p) key is_data fits c rest
          (masked_payload key p) no_outs ne short stream in
      rw (begin_waits s fd c cut (omega (arith, head_length-le key (length p)))) (record {
        at_end = λ e. absurd (not_at_end fd op key p c rest stream short e);
        before_end = λ _. (
          record (zeroed fd) { read = negsuc 0; header = c },
          refl,
          (refl, inl (record { id = refl; reads = refl; short = short; stream = stream })),
        );
      })

  abbrev o : Outs
  o = stored key (length p) no_outs

  abbrev decoded : List ℕ → List ℕ × Uncomplete
  decoded x = decode_wsmask_data (payload_at key 0 x) (with_mask o (zeroed fd))

  -- the pack that is kept when the payload has come up to `x`
  abbrev begun : List ℕ → Uncomplete
  begun x = record (decoded x).1 {
    read = pos (length (payload_at key 0 x));
    pack = pack_of fd p (decoded x).0;
  }

  begin_part :
      (s : Option Queue) (x y : List ℕ)
      → x ++ y ≡ p
      → y ≢ []
      → begin_pack false s fd (head op key (length p) ++ payload_at key 0 x)
        ≡ ok (nothing, some (insert_uncomplete (get_queue s) fd (begun x)))
  unfolding save_body save_uncomplete
  begin_part s x y whole ne =
      let t = payload_at key 0 x in
      let body_eq = drop-stored op (length p) key t in
      begin_partial s fd (length p) o _ _
        (read_header-head is_skip is_skip-StopsAtData op (length p) key is_data fits t no_outs)
        (omega (
          arith,
          ap length body_eq,
          length-payload_at key 0 x,
          ap length whole,
          length-append x y,
          length-ne y ne,
        ))
      ∙ ap (λ b. ok (nothing, some (save_body s fd o (length p) b))) body_eq

  begun-Awaits :
      (x y : List ℕ) → x ++ y ≡ p → Awaits fd op key p (begun x) (payload_at key (length x) y)
  begun-Awaits x y whole =
      let (plain, has_key, pack_eq) =
        decode-payload_at key 0 x (with_mask o (zeroed fd)) (stored-HasKey key (length p) fd) in
      (
        refl,
        inr (record {
          got = x;
          left = y;
          whole = whole;
          reads = ap pos (length-payload_at key 0 x);
          begun = ap (pack_of fd p) plain;
          has_key =
              moved-HasKey key (length x) (decoded x).1 _ _
                (subst (λ d. HasKey key d (decoded x).1) (zero-add (length x)) has_key);
          stream = refl;
        }),
      )

  begin_end :
      (s : Option Queue)
      → begin_pack false s fd (head op key (length p) ++ payload_at key 0 p)
        ≡ ok (data_pack fd p (length p), s)
  begin_end s =
      let t = payload_at key 0 p in
      let body_eq = drop-stored op (length p) key t in
      begin_whole s fd (length p) o _ _
        (read_header-head is_skip is_skip-StopsAtData op (length p) key is_data fits t no_outs)
        (omega (arith, ap length body_eq, length-payload_at key 0 p))
      ∙ ap (λ b. ok (data_pack fd (plain fd o b) (length b), s)) body_eq
      ∙ ap₂ (λ b n. ok (data_pack fd b n, s))
          (decode-payload_at key 0 p (with_mask o (zeroed fd)) (stored-HasKey key (length p) fd)).0
          (length-payload_at key 0 p)

  begin_body :
      (s : Option Queue) (t rest : List ℕ)
      → t ++ rest ≡ masked_payload key p
      → Taken fd op key p (begin_pack false s fd (head op key (length p) ++ t)) (get_queue s) s rest
  begin_body s t rest behind =
      let cut = cutting key 0 p t rest (behind ∙ masked_payload-payload_at key p) in
      let x = cut.first in
      let y = cut.second in
      let left : rest ≡ payload_at key (length x) y =
        subst (λ d. rest ≡ payload_at key d y) (zero-add (length x)) cut.left in
      let y_nil = payload_at-nil_iff key (length x) y in
      rw cut.sent (record {
        at_end = λ e.
            let none_left : y ≡ [] = y_nil.0 (sym left ∙ e) in
            let all : x ≡ p = sym (append-nil x) ∙ ap (λ l. x ++ l) (sym none_left) ∙ cut.whole in
            rw all (begin_end s);
        before_end = λ ne. (
          begun x,
          begin_part s x y cut.whole (λ e. ne (left ∙ y_nil.1 e)),
          rw left (begun-Awaits x y cut.whole),
        );
      })

  pub begin_step :
      (s : Option Queue) (c rest : List ℕ)
      → c ++ rest ≡ wire op key p
      → c ≢ []
      → Taken fd op key p (begin_pack false s fd c) (get_queue s) s rest
  begin_step s c rest stream ne = elim (dec_lt (length c) (head_length key (length p))) [
    | yes short ↦ begin_cut s c rest stream ne short
    | no long ↦
        let hd = head op key (length p) in
        let (t, e, behind) =
          append_overlap c rest hd (masked_payload key p) stream
            (omega (arith, length-head op (length p) key)) in
        rw e (begin_body s t rest behind)
  ]
