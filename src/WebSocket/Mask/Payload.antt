-- ===== src/WebSocket/Mask/Payload.antt =====
-- A payload on the wire, from a byte on: how it is cut, and how the code takes its mask off.
use rillserver.Prelude.{
  ℕ, suc, ◌+◌, ◌≡◌, ◌↔◌, refl, ap, ap₂, ◌∙◌, arith, true, false, Option, none, some, List, [], ◌∷◌,
  ◌++◌, length,
}
use rillserver.WebSocket.Wire.{Key, key_bytes, mask_with, masked_payload}
use rillserver.WebSocket.Queue.{Uncomplete}
use rillserver.WebSocket.Mask.{decode_wsmask_data}
use rillserver.WebSocket.Mask.Laws.{turn, unmask-mask_with}

-- the bytes that stand for `p`, of which `d` bytes of payload have gone before
abbrev pub payload_at : Option Key → ℕ → List ℕ → List ℕ
payload_at none d p = p
payload_at (some k) d p = mask_with (turn d k) p

pub masked_payload-payload_at :
    (key : Option Key) (p : List ℕ) → masked_payload key p ≡ payload_at key 0 p
unfolding masked_payload
masked_payload-payload_at none p = refl
masked_payload-payload_at (some k) p = refl

pub length-payload_at :
    (key : Option Key) (d : ℕ) (p : List ℕ) → length (payload_at key d p) ≡ length p
unfolding mask_with
length-payload_at none d p = refl
length-payload_at (some k) d [] = refl
length-payload_at (some k) d (x ∷ p) = ap suc (length-payload_at (some k) (suc d) p)

pub payload_at-nil_iff :
    (key : Option Key) (d : ℕ) (p : List ℕ) → (payload_at key d p ≡ []) ↔ (p ≡ [])
unfolding mask_with
payload_at-nil_iff none d p = (λ e. e, λ e. e)
payload_at-nil_iff (some k) d [] = (λ e. refl, λ e. refl)
payload_at-nil_iff (some k) d (x ∷ p) = (λ e. cc, λ e. cc)

-- A cut through the bytes is a cut through the payload.
pub record Cut (key : Option Key) (d : ℕ) (p c rest : List ℕ) : Type 0 where
  pub first : List ℕ
  pub second : List ℕ
  pub whole : first ++ second ≡ p
  pub sent : c ≡ payload_at key d first
  pub left : rest ≡ payload_at key (d + length first) second

turn_eq : (k : Key) (p : List ℕ) (a b : ℕ) → a ≡ b → mask_with (turn a k) p ≡ mask_with (turn b k) p
turn_eq k p a b e = ap (λ (j : ℕ). mask_with (turn j k) p) e

pub cutting :
    (key : Option Key) (d : ℕ) (p c rest : List ℕ)
    → c ++ rest ≡ payload_at key d p
    → Cut key d p c rest
unfolding mask_with
cutting none d p c rest e = record { first = c; second = rest; whole = e; sent = refl; left = refl }
cutting (some k) d p [] rest e = record {
  first = [];
  second = p;
  whole = refl;
  sent = refl;
  left = e ∙ turn_eq k p d (d + 0) (omega arith);
}
cutting (some k) d [] (b ∷ c) rest e = cc
cutting (some k) d (x ∷ p) (b ∷ c) rest e =
    let r = cutting (some k) (suc d) p c rest (cc) in
    record {
      first = x ∷ r.first;
      second = r.second;
      whole = ap (λ l. x ∷ l) r.whole;
      sent = ap₂ ◌∷◌ (cc) r.sent;
      left =
          r.left
          ∙ turn_eq k r.second (suc d + length r.first) (d + suc (length r.first)) (omega arith);
    }

-- The mask that `uc` holds is the key, after `d` bytes.
abbrev pub HasKey : Option Key → ℕ → Uncomplete → Type 0
HasKey none d uc = uc.ismask ≡ false
HasKey (some k) d uc = (uc.ismask ≡ true) × (uc.mask ≡ key_bytes (some k)) × (uc.hasunmask_size ≡ d)

pub decode-payload_at :
    (key : Option Key) (d : ℕ) (x : List ℕ) (uc : Uncomplete)
    → HasKey key d uc
    → let (plain, uc') = decode_wsmask_data (payload_at key d x) uc in
      (plain ≡ x) × HasKey key (d + length x) uc' × (uc'.pack ≡ uc.pack)
unfolding decode_wsmask_data
decode-payload_at none d x uc h = ground arith
decode-payload_at (some k) d x uc (m, b, s) =
    ground (arith, unmask-mask_with k d x, length-payload_at (some k) d x)
