-- ===== src/WebSocket/Filter/Total.antt =====
-- The fuel of `push_more` in all calls of the filter.
use rillserver.Prelude.{
  ℕ, zero, suc, ◌-◌, ◌<◌, ◌≡◌, ◌≢◌, refl, arith, Bool, true, false, Option, none, some, List, [],
  ◌∷◌, ◌++◌, length, take, drop, ltb, ◌==◌, if◌then◌else◌, Bool-cases, inl, inr, ltb→lt, not, ◌&&◌,
}
use rillserver.Prelude.Int.{ℤ, pos, negsuc}
use rillserver.WebSocket.Frame.{Outs, no_outs}
use rillserver.WebSocket.Queue.{Queue, Uncomplete, push_data}
use rillserver.WebSocket.Pending.{find_uncomplete}
use rillserver.WebSocket.Outcome.{Result, ok, err, no_fuel, ◌>>=◌, more, bad_alloc, header_overrun}
use rillserver.WebSocket.Push.{
  is_skip, read_header, push_more, push_rest, save_header, plain, is_skip_or_close, save_body,
}
use rillserver.WebSocket.Filter.{
  Filled, fill_body, fill_header, after_header, continue_pack, begin_pack, filter_data,
}
use rillserver.WebSocket.Filter.Sizes.{read_header-less}

save_header-ne :
    (handshake : Bool) (s : Option Queue) (fd : ℕ) (c : List ℕ)
    → save_header handshake s fd c ≢ err no_fuel
unfolding save_header
save_header-ne handshake s fd c e = ground arith

bind-ne :
    {A : Type 0} {B : Type 0} (a : Result A) (f : A → Result B)
    → a ≢ err no_fuel
    → ((x : A) → f x ≢ err no_fuel)
    → (a >>= f) ≢ err no_fuel
bind-ne (ok x) f h h' = h' x
bind-ne (err e) f h h' = λ p. h cc

if-ne :
    {A : Type 0} (b : Bool) (x y : Result A)
    → x ≢ err no_fuel
    → y ≢ err no_fuel
    → (if b then x else y) ≢ err no_fuel
if-ne true x y h h' = h
if-ne false x y h h' = h'

ok-ne : {A : Type 0} (x : A) → ok x ≢ err no_fuel
ok-ne x e = cc

bad_alloc-ne : {A : Type 0} → ◌≢◌ {A = Result A} (err bad_alloc) (err no_fuel)
bad_alloc-ne e = cc

header_overrun-ne : {A : Type 0} → ◌≢◌ {A = Result A} (err header_overrun) (err no_fuel)
header_overrun-ne e = cc

choice-ne :
    (a b : Bool) (x y : Queue) (rest : Result Queue)
    → (b ≡ true → rest ≢ err no_fuel)
    → (if a then ok x else if b then rest else ok y) ≢ err no_fuel
choice-ne true b x y rest h = λ e. cc
choice-ne false true x y rest h = h refl
choice-ne false false x y rest h = λ e. cc

-- A round of `push_more`, with its recursive call as `later`.
push_more-round :
    (handshake : Bool) (fuel : ℕ) (s : Option Queue) (fd : ℕ) (bytes : List ℕ) (z : ℤ)
    → let r = read_header is_skip_or_close handshake no_outs bytes in
      r.pack_size ≡ z
      → ((q : Queue) (n : ℕ)
          → z ≡ pos n
          → 0 < length (drop r.outs.pack_head_length r.bytes) - n
          → push_more handshake fuel (some q) fd (drop n (drop r.outs.pack_head_length r.bytes))
            ≢ err no_fuel)
      → push_more handshake (suc fuel) s fd bytes ≢ err no_fuel
unfolding push_more
push_more-round handshake fuel s fd bytes (negsuc k) e later =
    rw (e, push_more)
      (elim (Bool-cases (k == 0)) [
        | inl head ↦ rw head (
            save_header-ne handshake s fd
              (read_header is_skip_or_close handshake no_outs bytes).bytes)
        | inr other ↦ rw other λ f. cc
      ])
push_more-round handshake fuel s fd bytes (pos n) e later =
    let r = read_header is_skip_or_close handshake no_outs bytes in
    let body = drop r.outs.pack_head_length r.bytes in
    let q = push_data s fd (plain fd r.outs (take n body)) n in
    rw (e, push_more)
      (choice-ne (ltb (length body) n && not handshake) (ltb 0 (length body - n))
        (save_body s fd r.outs n body) q (push_more handshake fuel (some q) fd (drop n body))
        λ t. later q n refl (ltb→lt _ _ t))

push_more-ne :
    (fuel : ℕ) (handshake : Bool) (s : Option Queue) (fd : ℕ) (bytes : List ℕ)
    → length bytes < fuel
    → push_more handshake fuel s fd bytes ≢ err no_fuel
push_more-ne zero handshake s fd bytes h = absurd (omega arith)
push_more-ne (suc fuel) handshake s fd bytes h =
    push_more-round handshake fuel s fd bytes
      (read_header is_skip_or_close handshake no_outs bytes).pack_size refl
      λ q n e left.
        push_more-ne fuel handshake (some q) fd
          (drop n (
            drop (read_header is_skip_or_close handshake no_outs bytes).outs.pack_head_length
              (read_header is_skip_or_close handshake no_outs bytes).bytes))
          (omega (arith, h, read_header-less is_skip_or_close handshake bytes n e left))

pub push_rest-ne :
    (handshake : Bool) (q : Queue) (fd : ℕ) (bytes : List ℕ)
    → push_rest handshake q fd bytes ≢ err no_fuel
unfolding push_rest
push_rest-ne handshake q fd bytes =
    bind-ne (push_more handshake (suc (length bytes)) (some q) fd bytes) (λ q'. ok (more, some q'))
      (push_more-ne (suc (length bytes)) handshake (some q) fd bytes (omega arith)) λ q' e. cc

fill_body-ne :
    (handshake : Bool) (q : Queue) (fd : ℕ) (uc : Uncomplete) (got : ℕ) (bytes : List ℕ)
    → fill_body handshake q fd uc got bytes ≢ err no_fuel
unfolding fill_body
fill_body-ne handshake q fd uc got bytes = search (if-ne, ok-ne, push_rest-ne)

fill_header-ne :
    (handshake : Bool) (n : ℤ) (o : Outs) (header bytes : List ℕ)
    → fill_header handshake n o header bytes ≢ err no_fuel
unfolding fill_header
fill_header-ne handshake n o header [] = ok-ne _
fill_header-ne handshake n o header (b ∷ bytes) = search (
  if-ne,
  ok-ne,
  header_overrun-ne,
  fill_header-ne handshake (read_header is_skip handshake o (header ++ (b ∷ []))).pack_size
      (read_header is_skip handshake o (header ++ (b ∷ []))).outs
      (read_header is_skip handshake o (header ++ (b ∷ []))).bytes bytes,
)

after_header-ne :
    (handshake : Bool) (q : Queue) (fd : ℕ) (uc : Uncomplete) (f : Filled)
    → after_header handshake q fd uc f ≢ err no_fuel
unfolding after_header
after_header-ne handshake q fd uc f = at_size f.pack_size refl
  where
    at_size : (z : ℤ) → f.pack_size ≡ z → after_header handshake q fd uc f ≢ err no_fuel
    at_size (negsuc n) e = rw (e, after_header) (search (if-ne, ok-ne, bad_alloc-ne))
    at_size (pos n) e = rw (e, after_header) (search (fill_body-ne))

continue_pack-ne :
    (handshake : Bool) (q : Queue) (fd : ℕ) (uc : Uncomplete) (bytes : List ℕ)
    → continue_pack handshake q fd uc bytes ≢ err no_fuel
unfolding continue_pack
continue_pack-ne handshake q fd uc bytes = at_read uc.read refl
  where
    at_read : (z : ℤ) → uc.read ≡ z → continue_pack handshake q fd uc bytes ≢ err no_fuel
    at_read (negsuc n) e = rw (e, continue_pack) (search (bind-ne, fill_header-ne, after_header-ne))
    at_read (pos got) e = rw (e, continue_pack) (search (fill_body-ne))

begin_pack-ne :
    (handshake : Bool) (s : Option Queue) (fd : ℕ) (bytes : List ℕ)
    → begin_pack handshake s fd bytes ≢ err no_fuel
unfolding begin_pack
begin_pack-ne handshake s fd bytes =
    at_size (read_header is_skip handshake no_outs bytes).pack_size refl
  where
    at_size :
        (z : ℤ)
        → (read_header is_skip handshake no_outs bytes).pack_size ≡ z
        → begin_pack handshake s fd bytes ≢ err no_fuel
    at_size (negsuc n) e =
        rw (e, begin_pack) (search (if-ne, ok-ne, bad_alloc-ne, bind-ne, save_header-ne))
    at_size (pos n) e = rw (e, begin_pack) (search (if-ne, ok-ne, push_rest-ne))

-- Whatever the bytes of a message and whatever was begun, the model of `filter_data_` ends: the
-- recursion of `push_more` is never short of fuel.
pub filter_data-ne_no_fuel :
    (handshake : Bool) (s : Option Queue) (fd : ℕ) (bytes : List ℕ)
    → filter_data handshake s fd bytes ≢ err no_fuel
unfolding filter_data
filter_data-ne_no_fuel handshake s fd bytes =
    at_found (find_uncomplete s fd).0 (find_uncomplete s fd).1 refl refl
  where
    at_found :
        (found : Option Uncomplete) (s' : Option Queue)
        → (find_uncomplete s fd).0 ≡ found
        → (find_uncomplete s fd).1 ≡ s'
        → filter_data handshake s fd bytes ≢ err no_fuel
    at_found none s' e e' = rw (e, filter_data) (search (begin_pack-ne))
    at_found (some uc) none e e' = rw (e, e', filter_data) (search (begin_pack-ne))
    at_found (some uc) (some q) e e' = rw (e, e', filter_data) (search (continue_pack-ne))
