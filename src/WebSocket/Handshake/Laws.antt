-- ===== src/WebSocket/Handshake/Laws.antt =====
-- `get_http_header` and the ends of a header.
use rillserver.Prelude.{
  ℕ, zero, suc, ◌+◌, ◌-◌, ◌<◌, ◌≤◌, ◌≡◌, refl, subst, arith, true, false, List, [], ◌∷◌, length,
  drop, take, ◌↔◌, ap, ap₂, ==_iff, ltb, ltb→lt, ◌==◌, length-drop, Bool-cases, inl, inr,
}
use rillserver.Prelude.Int.{ℤ, pos, negsuc}
use rillserver.WebSocket.Handshake.{
  starts_with, strnpos_from, websocket_strnpos, crlf_crlf, get_http_header,
}

-- The four bytes at offset `i` are "\r\n\r\n".
abbrev pub EndsAt : List ℕ → ℕ → Type 0
EndsAt bytes i = take 4 (drop i bytes) ≡ 13 ∷ 10 ∷ 13 ∷ 10 ∷ []

-- What the answer must be: the offset behind the first end, or -1 if there is none.
abbrev pub IsFirstEnd : List ℕ → ℤ → Type 0
IsFirstEnd bytes (pos n) = (4 ≤ n) × EndsAt bytes (n - 4) × ((i : ℕ) → EndsAt bytes i → n - 4 ≤ i)
IsFirstEnd bytes (negsuc k) = (k ≡ 0) × ((i : ℕ) → ¬ EndsAt bytes i)

-- A match is no longer than what it stands in.
starts_with-length : (xs ys : List ℕ) → starts_with xs ys ≡ true → length xs ≤ length ys
unfolding starts_with
starts_with-length [] ys h = omega arith
starts_with-length (x ∷ xs) [] h = absurd (cc)
starts_with-length (x ∷ xs) (y ∷ ys) h = elim (Bool-cases (y == x)) [
  | inl e ↦ omega (arith, starts_with-length xs ys (rw e at h))
  | inr e ↦ cc
]

-- A match is an equation on the first bytes.
starts_with-take : (xs ys : List ℕ) → (starts_with xs ys ≡ true) ↔ (take (length xs) ys ≡ xs)
unfolding starts_with
starts_with-take [] ys = ((λ h. refl), λ h. refl)
starts_with-take (x ∷ xs) [] = ((λ h. absurd (cc)), λ h. absurd (cc))
starts_with-take (x ∷ xs) (y ∷ ys) = elim (Bool-cases (y == x)) [
  | inl e ↦
      let same = (==_iff y x).0 e in
      let rest = starts_with-take xs ys in
      ((λ h. ap₂ ◌∷◌ same (rest.0 (rw e at h))), λ h. rw e (rest.1 (ap (drop 1) h)))
  | inr e ↦ ((λ h. absurd (cc)), λ h. absurd (let yes = (==_iff y x).1 (ap first h) in cc))
]
  where
    first : List ℕ → ℕ
    first [] = x
    first (z ∷ zs) = z

EndsAt-match :
    (bytes : List ℕ) (i : ℕ) → (starts_with crlf_crlf (drop i bytes) ≡ true) ↔ EndsAt bytes i
EndsAt-match bytes i = starts_with-take crlf_crlf (drop i bytes)

drop-suc : (j : ℕ) (xs : List ℕ) → drop j (drop 1 xs) ≡ drop (suc j) xs
drop-suc zero [] = refl
drop-suc (suc j) [] = refl
drop-suc j (x ∷ xs) = refl

module _ (needle : List ℕ) where
  -- The needle stands at offset `j`.
  abbrev At : List ℕ → ℕ → Type 0
  At haystack j = starts_with needle (drop j haystack) ≡ true

  -- what the loop from index `i` on must return, with `left` rounds to go
  abbrev IsFirst : List ℕ → ℕ → ℕ → ℤ → Type 0
  IsFirst haystack left i (pos n) =
      (i ≤ n) × At haystack (n - i) × ((j : ℕ) → At haystack j → n ≤ i + j)
  IsFirst haystack left i (negsuc k) = (k ≡ 0) × ((j : ℕ) → j < left → ¬ At haystack j)

  IsFirst-here : (haystack : List ℕ) (left i : ℕ) → At haystack 0 → IsFirst haystack left i (pos i)
  IsFirst-here haystack left i h =
      let zero_steps : 0 ≡ i - i = omega arith in
      (omega arith, subst (At haystack) zero_steps h, λ j _. omega arith)

  IsFirst-later :
      (haystack : List ℕ) (left i : ℕ) (r : ℤ)
      → starts_with needle haystack ≡ false
      → IsFirst (drop 1 haystack) left (i + 1) r
      → IsFirst haystack (suc left) i r
  IsFirst-later haystack left i (pos n) ne (le, at, first) =
      let one_more : suc (n - (i + 1)) ≡ n - i = omega arith in
      (
        omega arith,
        subst (At haystack) one_more (rw (drop-suc (n - (i + 1)) haystack) at at),
        later,
      )
    where
      later : (j : ℕ) → At haystack j → n ≤ i + j
      later zero h = absurd (cc)
      later (suc j) h = omega (arith, first j (rw (drop-suc j haystack) h))
  IsFirst-later haystack left i (negsuc k) ne (z, none_at) = (z, nowhere)
    where
      nowhere : (j : ℕ) → j < suc left → ¬ At haystack j
      nowhere zero lt h = cc
      nowhere (suc j) lt h = none_at j (omega arith) (rw (drop-suc j haystack) h)

  strnpos_from-IsFirst :
      (left i : ℕ) (haystack : List ℕ)
      → IsFirst haystack left i (strnpos_from needle left i haystack)
  unfolding strnpos_from
  strnpos_from-IsFirst zero i haystack = (refl, λ j lt. absurd (omega arith))
  strnpos_from-IsFirst (suc left) i haystack = elim (Bool-cases (starts_with needle haystack)) [
    | inl e ↦ rw e (IsFirst-here haystack (suc left) i e)
    | inr e ↦
        rw e
          (IsFirst-later haystack left i _ e (strnpos_from-IsFirst left (i + 1) (drop 1 haystack)))
  ]

-- An end takes four bytes.
EndsAt-le : (bytes : List ℕ) (i : ℕ) → EndsAt bytes i → 4 + i ≤ length bytes
EndsAt-le bytes i h = omega (
  arith,
  starts_with-length crlf_crlf (drop i bytes) ((EndsAt-match bytes i).1 h),
  length-drop i bytes,
)

IsFirstEnd-of :
    (bytes : List ℕ) (r : ℤ)
    → IsFirst crlf_crlf bytes (length bytes - 4 + 1) 0 r
    → IsFirstEnd bytes (elim r [ pos n ↦ pos (n + 4) | negsuc n ↦ negsuc n ])
IsFirstEnd-of bytes (pos n) (_, at, first) =
    let back : n - 0 ≡ n + 4 - 4 = omega arith in
    (
      omega arith,
      subst (EndsAt bytes) back ((EndsAt-match bytes (n - 0)).0 at),
      λ i h. omega (arith, first i ((EndsAt-match bytes i).1 h)),
    )
IsFirstEnd-of bytes (negsuc k) (z, nowhere) =
    (z, λ i h. nowhere i (omega (arith, EndsAt-le bytes i h)) ((EndsAt-match bytes i).1 h))

behind : ℤ → ℤ
behind r = elim r [ pos n ↦ pos (n + 4) | negsuc n ↦ negsuc n ]

get_http_header-behind :
    (bytes : List ℕ) → get_http_header bytes ≡ behind (websocket_strnpos bytes crlf_crlf)
unfolding get_http_header behind
get_http_header-behind bytes = refl

strnpos-IsFirstEnd :
    (bytes : List ℕ) → IsFirstEnd bytes (behind (websocket_strnpos bytes crlf_crlf))
unfolding websocket_strnpos behind
strnpos-IsFirstEnd bytes = elim (Bool-cases (ltb (length bytes) 4)) [
  | inl e ↦
      rw (e, websocket_strnpos, IsFirstEnd)
        (refl, λ i h. omega (arith, EndsAt-le bytes i h, ltb→lt (length bytes) 4 e))
  | inr e ↦
      rw (e, websocket_strnpos, IsFirstEnd)
        (IsFirstEnd-of bytes _ (strnpos_from-IsFirst crlf_crlf (length bytes - 4 + 1) 0 bytes))
]

-- The handshake ends behind the first "\r\n\r\n" (bytes 13, 10, 13, 10): `get_http_header` returns
-- the number of bytes up to and with it, and -1 exactly when there is none.
pub get_http_header-IsFirstEnd : (bytes : List ℕ) → IsFirstEnd bytes (get_http_header bytes)
get_http_header-IsFirstEnd bytes = rw (get_http_header-behind bytes) (strnpos-IsFirstEnd bytes)
