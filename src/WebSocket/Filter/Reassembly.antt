-- ===== src/WebSocket/Filter/Reassembly.antt =====
-- The pack that is kept of a well-formed frame, and what it waits for.
use rillserver.Prelude.{
  ℕ, ◌+◌, ◌<◌, ◌≤◌, ◌≡◌, ◌≢◌, ◌⊎◌, inl, inr, refl, ap, ◌∙◌, sym, arith, false, Option, none, some,
  List, [], ◌∷◌, ◌++◌, length, length-append, append_assoc, append-nil,
}
use rillserver.Prelude.Int.{pos, negsuc}
use rillserver.WebSocket.Wire.{Key, head, head_length, wire, masked_payload, IsDataOpcode}
use rillserver.WebSocket.Frame.{no_outs}
use rillserver.WebSocket.Frame.Header.{stored, length-head}
use rillserver.WebSocket.Queue.{Queue, Uncomplete, Netpack}
use rillserver.WebSocket.Pending.{insert_uncomplete}
use rillserver.WebSocket.Mask.Payload.{
  payload_at, length-payload_at, HasKey, cutting, payload_at-nil_iff, masked_payload-payload_at,
}
use rillserver.WebSocket.Outcome.{Result, ok, Reply, nothing, data_pack, ◌>>=◌}
use rillserver.WebSocket.Push.{max_packsize, with_mask}
use rillserver.WebSocket.Filter.{fill_body, fill_header, after_header}
use rillserver.WebSocket.Filter.Heads.{fill_header-cut_first, fill_header-head}
use rillserver.WebSocket.Filter.Body.{
  pack_of, grown, fill_body-part, fill_body-end, grown-pack, grown-HasKey,
}

-- The head of the frame has been read, and nothing of its payload.
abbrev entered : Option Key → ℕ → List ℕ → Uncomplete → Uncomplete
entered key n h uc = record (with_mask (stored key n no_outs) uc) {
  header = h;
  read = pos 0;
  pack = record { id = uc.pack.id; size = n; buffer = [] };
}

entered-HasKey :
    (key : Option Key) (n : ℕ) (h : List ℕ) (uc : Uncomplete) → HasKey key 0 (entered key n h uc)
entered-HasKey none n h uc = refl
entered-HasKey (some k) n h uc = (refl, refl, refl)

module _ (fd op : ℕ) (key : Option Key) (p : List ℕ) where
  -- `uc` holds the beginning of the frame's head, and `rest` is to come.
  pub record InHead (uc : Uncomplete) (rest : List ℕ) : Type 0 where
    pub id : uc.pack.id ≡ fd
    pub reads : uc.read ≡ negsuc 0
    pub short : length uc.header < head_length key (length p)
    pub stream : uc.header ++ rest ≡ wire op key p

  -- `uc` holds the payload up to `got`, and `rest` stands for what is left of it.
  pub record InBody (uc : Uncomplete) (rest : List ℕ) : Type 0 where
    pub got : List ℕ
    pub left : List ℕ
    pub whole : got ++ left ≡ p
    pub reads : uc.read ≡ pos (length got)
    pub begun : uc.pack ≡ pack_of fd p got
    pub has_key : HasKey key (length got) uc
    pub stream : rest ≡ payload_at key (length got) left

  abbrev pub Awaits : Uncomplete → List ℕ → Type 0
  Awaits uc rest = (uc.pack.id ≡ fd) × (InHead uc rest ⊎ InBody uc rest)

  -- What a piece of the frame must come to: the payload is delivered if the piece is the last
  -- one, and else the pack awaits the rest.
  pub record Taken (r : Result (Reply × Option Queue)) (q : Queue) (after : Option Queue)
      (rest : List ℕ) : Type 0 where
    pub at_end : rest ≡ [] → r ≡ ok (data_pack fd p (length p), after)
    pub before_end :
        rest ≢ []
        → (uc : Uncomplete) × (r ≡ ok (nothing, some (insert_uncomplete q fd uc))) × Awaits uc rest

  pub body_step :
      (q : Queue) (uc : Uncomplete) (got left c rest : List ℕ)
      → got ++ left ≡ p
      → uc.pack ≡ pack_of fd p got
      → HasKey key (length got) uc
      → c ++ rest ≡ payload_at key (length got) left
      → Taken (fill_body false q fd uc (length got) c) q (some q) rest
  body_step q uc got left c rest whole begun has_key stream =
      let cut = cutting key (length got) left c rest stream in
      let x = cut.first in
      let y = cut.second in
      let all : got ++ (x ++ y) ≡ p = ap (λ l. got ++ l) cut.whole ∙ whole in
      let y_nil = payload_at-nil_iff key (length got + length x) y in
      rw cut.sent (record {
        at_end = λ e.
            let none_left : y ≡ [] = y_nil.0 (sym cut.left ∙ e) in
            fill_body-end fd key p q uc got x begun has_key
              (ap (λ l. got ++ l) (sym (append-nil x) ∙ ap (λ l. x ++ l) (sym none_left)) ∙ all);
        before_end = λ ne. (
          grown uc (length got) (payload_at key (length got) x),
          fill_body-part fd key p q uc got x begun has_key y all (λ e. ne (cut.left ∙ y_nil.1 e)),
          (
            ap (λ (n : Netpack). n.id) (grown-pack fd key p q uc got x begun has_key),
            inr (record {
              got = got ++ x;
              left = y;
              whole = append_assoc got x y ∙ all;
              reads = ap pos (rw (length-payload_at key (length got) x, length-append got x));
              begun = grown-pack fd key p q uc got x begun has_key;
              has_key = grown-HasKey fd key p q uc got x begun has_key;
              stream = rw (length-append got x) cut.left;
            }),
          ),
        );
      })

  abbrev pub w : List ℕ
  w = wire op key p

  -- A frame does not end in its head.
  pub not_at_end :
      (xs rest : List ℕ) → xs ++ rest ≡ w → length xs < head_length key (length p) → rest ≢ []
  not_at_end xs rest e short nil = omega (
    arith,
    ap length e,
    ap length nil,
    length-append xs rest,
    length-append (head op key (length p)) (masked_payload key p),
    length-head op (length p) key,
  )

  -- The head is whole after `c`, and `t` is what `c` has of the payload.
  module _ (is_data : IsDataOpcode op) (fits : length p ≤ max_packsize) where
    pub whole_head :
        (q : Queue) (uc : Uncomplete) (s t rest : List ℕ)
        → uc.pack.id ≡ fd
        → uc.header ++ s ≡ head op key (length p)
        → s ≢ []
        → t ++ rest ≡ masked_payload key p
        → Taken
            (fill_header false (pos 0) no_outs uc.header (s ++ t) >>= after_header false q fd uc)
            q
            (some q)
            rest
    whole_head q uc [] t rest id e ne behind = absurd (ne refl)
    whole_head q uc (b ∷ s) t rest id e ne behind =
        rw (fill_header-head op (length p) key is_data fits b s uc.header t (pos 0) no_outs e) (
          unfold after_header in
          body_step q (entered key (length p) (head op key (length p)) uc) [] p t rest refl (rw id)
            (entered-HasKey key (length p) (head op key (length p)) uc)
            (behind ∙ masked_payload-payload_at key p))

    pub cut_head :
        (q : Queue) (uc : Uncomplete) (c rest : List ℕ)
        → InHead uc (c ++ rest)
        → c ≢ []
        → length uc.header + length c < head_length key (length p)
        → Taken
            (fill_header false (pos 0) no_outs uc.header c >>= after_header false q fd uc)
            q
            (some q)
            rest
    cut_head q uc [] rest h ne short = absurd (ne refl)
    cut_head q uc (b ∷ c) rest h ne short =
        let stream : (uc.header ++ (b ∷ c)) ++ rest ≡ w =
          append_assoc uc.header (b ∷ c) rest ∙ h.stream in
        let kept =
          fill_header-cut_first op (length p) key is_data fits b c uc.header rest
            (masked_payload key p) (pos 0) no_outs short stream in
        rw kept (record {
          at_end = λ e. absurd (
              not_at_end (uc.header ++ (b ∷ c)) rest stream
                (omega (arith, length-append uc.header (b ∷ c))) e);
          before_end = λ _. (
            record uc { header = uc.header ++ (b ∷ c) },
            unfold after_header in refl,
            (
              h.id,
              inl (record {
                id = h.id;
                reads = h.reads;
                short = omega (arith, length-append uc.header (b ∷ c));
                stream = stream;
              }),
            ),
          );
        })
