-- ===== src/WebSocket/Filter/Heads.antt =====
-- The loop that collects a header byte by byte, at the head of a well-formed frame.
use rillserver.Prelude.{
  ℕ, ◌+◌, ◌<◌, ◌≤◌, ◌≡◌, refl, ap, ◌∙◌, sym, arith, false, Option, none, some, List, [], ◌∷◌, ◌++◌,
  length, snoc-ne, length-append, append_assoc, append-nil,
}
use rillserver.Prelude.Int.{ℤ, pos, negsuc}
use rillserver.WebSocket.Wire.{Key, head, head_length, IsDataOpcode}
use rillserver.WebSocket.Frame.{Outs}
use rillserver.WebSocket.Frame.Header.{stored, length-head}
use rillserver.WebSocket.Outcome.{ok}
use rillserver.WebSocket.Push.{is_skip, max_packsize}
use rillserver.WebSocket.Push.Heads.{StopsAtData, read_header-whole, read_header-cut}
use rillserver.WebSocket.Filter.{fill_header}

pub is_skip-StopsAtData : StopsAtData is_skip
is_skip-StopsAtData = record { at_size = λ n. refl; at_cut = refl }

pub head_length-le : (key : Option Key) (n : ℕ) → head_length key n ≤ 14
head_length-le none n = ground arith
head_length-le (some k) n = ground arith

module _ (op n : ℕ) (key : Option Key) (is_data : IsDataOpcode op) (fits : n ≤ max_packsize) where
  -- One more byte of a head that stays cut.
  cut_step :
      (b : ℕ) (c pre rest tail : List ℕ) (m : ℤ) (o : Outs)
      → length pre + 1 < head_length key n
      → (pre ++ (b ∷ [])) ++ rest ≡ head op key n ++ tail
      → fill_header false m o pre (b ∷ c) ≡ fill_header false (negsuc 0) o (pre ++ (b ∷ [])) c
  unfolding fill_header
  cut_step b c pre rest tail m o short e =
      rw
        (read_header-cut is_skip is_skip-StopsAtData op n key is_data fits (pre ++ (b ∷ [])) rest
          tail o (snoc-ne pre b) (omega (arith, length-append pre (b ∷ []))) e)
        (ground (arith, head_length-le key n))

  -- A head that stays cut is kept.
  pub fill_header-cut :
      (c pre rest tail : List ℕ) (o : Outs)
      → length pre + length c < head_length key n
      → (pre ++ c) ++ rest ≡ head op key n ++ tail
      → fill_header false (negsuc 0) o pre c
        ≡ ok (record { pack_size = negsuc 0; outs = o; header = pre ++ c; rest = [] })
  unfolding fill_header
  fill_header-cut [] pre rest tail o short e = rw (append-nil pre)
  fill_header-cut (b ∷ c) pre rest tail o short e =
      let again : pre ++ (b ∷ c) ≡ (pre ++ (b ∷ [])) ++ c = sym (append_assoc pre (b ∷ []) c) in
      cut_step b c pre (c ++ rest) tail (negsuc 0) o (omega arith)
        (sym (append_assoc (pre ++ (b ∷ [])) c rest) ∙ ap (λ l. l ++ rest) (sym again) ∙ e)
      ∙ rw again (
          fill_header-cut c (pre ++ (b ∷ [])) rest tail o
            (omega (arith, length-append pre (b ∷ []))) (rw again at e))

  -- Before the first byte any size may stand in `pack_size`.
  pub fill_header-cut_first :
      (b : ℕ) (c pre rest tail : List ℕ) (m : ℤ) (o : Outs)
      → length pre + length (b ∷ c) < head_length key n
      → (pre ++ (b ∷ c)) ++ rest ≡ head op key n ++ tail
      → fill_header false m o pre (b ∷ c)
        ≡ ok (record { pack_size = negsuc 0; outs = o; header = pre ++ (b ∷ c); rest = [] })
  unfolding fill_header
  fill_header-cut_first b c pre rest tail m o short e =
      fill_header-cut (b ∷ c) pre rest tail o short e

  -- A head that becomes whole is read; what stands behind it is not touched.
  pub fill_header-head :
      (b : ℕ) (c pre behind : List ℕ) (m : ℤ) (o : Outs)
      → pre ++ (b ∷ c) ≡ head op key n
      → fill_header false m o pre ((b ∷ c) ++ behind)
        ≡ ok (record {
          pack_size = pos n;
          outs = stored key n o;
          header = head op key n;
          rest = behind;
        })
  unfolding fill_header
  fill_header-head b [] pre behind m o e =
      let l = length-append pre (b ∷ []) in
      let h = ap length e ∙ length-head op n key in
      rw (e, read_header-whole is_skip is_skip-StopsAtData op n key is_data fits o)
        (ground (arith, l, h, head_length-le key n))
  fill_header-head b (b' ∷ c) pre behind m o e =
      let again : pre ++ (b ∷ b' ∷ c) ≡ (pre ++ (b ∷ [])) ++ (b' ∷ c) =
        sym (append_assoc pre (b ∷ []) (b' ∷ c)) in
      let l = length-append pre (b ∷ b' ∷ c) in
      let h = ap length e ∙ length-head op n key in
      cut_step b ((b' ∷ c) ++ behind) pre (b' ∷ c) [] m o (omega (arith, l, h))
        (sym again ∙ e ∙ sym (append-nil (head op key n)))
      ∙ fill_header-head b' c (pre ++ (b ∷ [])) behind (negsuc 0) o (sym again ∙ e)
