-- ===== src/DataBuffer/Stream.antt =====
-- The buffer as a stream of bytes.
use rillserver.Prelude.{
  ℕ, zero, suc, ◌+◌, ◌-◌, ◌≤◌, ◌≡◌, refl, ap, sym, ◌∙◌, arith, false, Option, some, List, [], ◌∷◌,
  ◌++◌, length, take, drop, ltb, ◌==◌, Bool-cases, inl, inr, append_assoc, append-nil,
  length-append, length-drop,
}
use rillserver.DataBuffer.{DataBuffer, read_pieces, databuffer_read, databuffer_push}

-- The bytes that are left.
abbrev pub stream : ℕ → List (List ℕ) → List ℕ
stream offset [] = []
stream offset (b ∷ bs) = drop offset b ++ stream 0 bs

abbrev pub Fits : ℕ → List (List ℕ) → Type 0
Fits offset [] = offset ≡ 0
Fits offset (b ∷ bs) = offset ≤ length b

abbrev pub contents : DataBuffer → List ℕ
contents db = stream db.offset db.pieces

pub record IsDataBuffer (db : DataBuffer) : Type 0 where
  pub fits : Fits db.offset db.pieces
  pub count : db.size ≡ length (contents db)

module _ {ℓ} {A : Type ℓ} where
  take-within : (n : ℕ) (xs ys : List A) → n ≤ length xs → take n (xs ++ ys) ≡ take n xs
  take-within zero xs ys le = refl
  take-within (suc n) [] ys le = absurd (omega arith)
  take-within (suc n) (a ∷ xs) ys le = ap (λ l. a ∷ l) (take-within n xs ys (omega arith))

  drop-within : (n : ℕ) (xs ys : List A) → n ≤ length xs → drop n (xs ++ ys) ≡ drop n xs ++ ys
  drop-within zero xs ys le = refl
  drop-within (suc n) [] ys le = absurd (omega arith)
  drop-within (suc n) (a ∷ xs) ys le = drop-within n xs ys (omega arith)

  take-through :
      (n : ℕ) (xs ys : List A)
      → length xs ≤ n
      → take n (xs ++ ys) ≡ take (length xs) xs ++ take (n - length xs) ys
  take-through n [] ys le = ap (λ (k : ℕ). take k ys) (omega arith)
  take-through zero (a ∷ xs) ys le = absurd (omega arith)
  take-through (suc n) (a ∷ xs) ys le =
      ap (λ l. a ∷ l)
        (take-through n xs ys (omega arith)
          ∙ ap (λ (k : ℕ). take (length xs) xs ++ take k ys) (omega arith))

  drop-through :
      (n : ℕ) (xs ys : List A) → length xs ≤ n → drop n (xs ++ ys) ≡ drop (n - length xs) ys
  drop-through n [] ys le = ap (λ (k : ℕ). drop k ys) (omega arith)
  drop-through zero (a ∷ xs) ys le = absurd (omega arith)
  drop-through (suc n) (a ∷ xs) ys le =
      drop-through n xs ys (omega arith) ∙ ap (λ (k : ℕ). drop k ys) (omega arith)

  drop_nil : (n : ℕ) → drop {A = A} n [] ≡ []
  drop_nil zero = refl
  drop_nil (suc n) = refl

  drop-drop : (m n : ℕ) (xs : List A) → drop n (drop m xs) ≡ drop (m + n) xs
  drop-drop zero n xs = ap (λ (k : ℕ). drop k xs) (omega arith)
  drop-drop (suc m) n [] = drop_nil n ∙ sym (drop_nil (suc m + n))
  drop-drop (suc m) n (a ∷ xs) =
      let count : suc m + n ≡ suc (m + n) = omega arith in rw count (drop-drop m n xs)

-- What a read of `sz` bytes must come to.
record Reads (sz : ℕ) (bytes : List ℕ) (result : Option (List ℕ × (ℕ × List (List ℕ))))
    : Type 0 where
  offset : ℕ
  pieces : List (List ℕ)
  done : result ≡ some (take sz bytes, (offset, pieces))
  left : stream offset pieces ≡ drop sz bytes
  fits : Fits offset pieces

fits_start : (bs : List (List ℕ)) → Fits 0 bs
fits_start [] = refl
fits_start (b ∷ bs) = omega arith

read_pieces-Reads :
    (sz offset : ℕ) (bs : List (List ℕ))
    → Fits offset bs
    → 1 ≤ sz
    → sz ≤ length (stream offset bs)
    → Reads sz (stream offset bs) (read_pieces sz offset bs)
unfolding read_pieces
read_pieces-Reads sz offset [] fits up le = absurd (omega arith)
read_pieces-Reads sz offset (b ∷ bs) fits up le =
    let front : length (drop offset b) ≡ length b - offset = length-drop offset b in
    elim (Bool-cases (ltb sz (length b - offset))) [
      | inl part ↦ record {
        offset = offset + sz;
        pieces = b ∷ bs;
        done = rw part (
            ap (λ l. some (l, (offset + sz, b ∷ bs)))
              (sym (take-within sz (drop offset b) (stream 0 bs) (ground arith))));
        left =
            ap (λ l. l ++ stream 0 bs) (sym (drop-drop offset sz b))
            ∙ sym (drop-within sz (drop offset b) (stream 0 bs) (ground arith));
        fits = ground arith;
      }
      | inr over ↦ elim (Bool-cases (length b - offset == sz)) [
        | inl whole ↦
            let exact : length (drop offset b) ≡ sz = ground arith in
            let none_left : sz - length (drop offset b) ≡ 0 = omega (arith, exact) in
            record {
              offset = 0;
              pieces = bs;
              done =
                  rw (over, whole)
                    (ap (λ l. some (l, (0, bs)))
                      (sym (take-within sz (drop offset b) (stream 0 bs) (omega (arith, exact)))));
              left = sym (
                  drop-through sz (drop offset b) (stream 0 bs) (omega (arith, exact))
                  ∙ ap (λ (k : ℕ). drop k (stream 0 bs)) none_left);
              fits = fits_start bs;
            }
        | inr more ↦
            let total : length (drop offset b ++ stream 0 bs)
                ≡ length (drop offset b) + length (stream 0 bs) =
              length-append (drop offset b) (stream 0 bs) in
            let still : sz - length (drop offset b) ≡ sz - (length b - offset) =
              omega (arith, front) in
            let long : length (drop offset b) ≤ sz = ground (arith, front) in
            let r =
              read_pieces-Reads (sz - (length b - offset)) 0 bs (fits_start bs) (ground arith)
                (omega (arith, total, front, le)) in
            record {
              offset = r.offset;
              pieces = r.pieces;
              done =
                  rw (over, more, r.done)
                    (ap (λ l. some (l, (r.offset, r.pieces)))
                      (ap (λ (k : ℕ). take k (drop offset b) ++ take (sz - k) (stream 0 bs))
                          (sym front)
                        ∙ sym (take-through sz (drop offset b) (stream 0 bs) long)));
              left =
                  r.left
                  ∙ ap (λ (k : ℕ). drop k (stream 0 bs)) (sym still)
                  ∙ sym (drop-through sz (drop offset b) (stream 0 bs) long);
              fits = r.fits;
            }
      ]
    ]

stream-snoc :
    (offset : ℕ) (bs : List (List ℕ)) (bytes : List ℕ)
    → Fits offset bs
    → stream offset (bs ++ (bytes ∷ [])) ≡ stream offset bs ++ bytes
stream-snoc offset [] bytes fits = rw fits (append-nil bytes)
stream-snoc offset (b ∷ []) bytes fits =
    ap (λ l. drop offset b ++ l) (append-nil bytes)
    ∙ ap (λ l. l ++ bytes) (sym (append-nil (drop offset b)))
stream-snoc offset (b ∷ c ∷ bs) bytes fits =
    ap (λ l. drop offset b ++ l) (stream-snoc 0 (c ∷ bs) bytes (fits_start (c ∷ bs)))
    ∙ sym (append_assoc (drop offset b) (stream 0 (c ∷ bs)) bytes)

-- `databuffer_push` appends the piece to the bytes that are left, and keeps the buffer sound.
pub databuffer_push-contents :
    (db : DataBuffer) (bytes : List ℕ)
    → IsDataBuffer db
    → IsDataBuffer (databuffer_push db bytes)
      × (contents (databuffer_push db bytes) ≡ contents db ++ bytes)
unfolding databuffer_push
databuffer_push-contents db bytes v =
    let e = stream-snoc db.offset db.pieces bytes v.fits in
    (
      record {
        fits = fits_snoc db.pieces v.fits;
        count = omega (arith, v.count, ap length e, length-append (contents db) bytes);
      },
      e,
    )
  where
    fits_snoc : (bs : List (List ℕ)) → Fits db.offset bs → Fits db.offset (bs ++ (bytes ∷ []))
    fits_snoc [] f = omega (arith, f)
    fits_snoc (b ∷ bs) f = f

-- What `databuffer_read` must come to.
pub record ReadsOff (sz : ℕ) (db : DataBuffer) (result : Option (List ℕ × DataBuffer))
    : Type 0 where
  pub db' : DataBuffer
  pub done : result ≡ some (take sz (contents db), db')
  pub sound_after : IsDataBuffer db'
  pub left : contents db' ≡ drop sz (contents db)

-- `databuffer_read` of at least one byte, and of no more than there are, copies the first bytes of
-- the stream, whatever the pieces in which they came, and leaves the others in a sound buffer.
pub databuffer_read-ReadsOff :
    (db : DataBuffer) (sz : ℕ)
    → IsDataBuffer db
    → 1 ≤ sz
    → sz ≤ db.size
    → ReadsOff sz db (databuffer_read db sz)
unfolding databuffer_read
databuffer_read-ReadsOff db sz v up le =
    let r = read_pieces-Reads sz db.offset db.pieces v.fits up (omega (arith, v.count, le)) in
    let enough : ltb db.size sz ≡ false = ground arith in
    record {
      db' = record db { size = db.size - sz; offset = r.offset; pieces = r.pieces };
      done = rw (enough, r.done);
      sound_after = record {
        fits = r.fits;
        count = omega (arith, v.count, ap length r.left, length-drop sz (contents db));
      };
      left = r.left;
    }
