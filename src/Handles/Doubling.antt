-- ===== src/Handles/Doubling.antt =====
-- `skynet_handle_register` on a full table: the table of twice the size.
use rillserver.Prelude.{
  ℕ, zero, suc, ◌-◌, ◌*◌, ◌%◌, ◌^◌, ◌<◌, ◌≤◌, ◌≡◌, ap, sym, ◌∙◌, arith, true, false, Option, none,
  some, ltb,
}
use rillserver.Handles.{HandleStorage, returns, double_slots, handle_mask, handle_grab}
use rillserver.Handles.Table.{IsTable, IsAbsent, size-pos}
use rillserver.Handles.Rehash.{moved, rehash-moved, doubled, moved_inv, grab-moved}
use native.Mathlib.Nat.{mod-lt, mul_assoc, pow-succ'}

-- What the doubling of a full table must come to.
pub record Doubles (handle_of : ℕ → ℕ) (s : HandleStorage) : Type 0 where
  pub slots : ℕ → Option ℕ
  pub done : double_slots handle_of s ≡ returns (doubled s slots)
  pub sound : IsTable handle_of (doubled s slots)
  pub grabs : (h : ℕ) → handle_grab handle_of (doubled s slots) h ≡ handle_grab handle_of s h
  pub absent : (ctx : ℕ) → IsAbsent s ctx → IsAbsent (doubled s slots) ctx
  pub slots_moved : (j : ℕ) → slots j ≡ moved handle_of s j

some_left :
    (n left : ℕ) → n * 2 ^ left ≡ 2 ^ 24 → n * 2 ≤ 2 ^ 24 → (l : ℕ) × (n * 2 * 2 ^ l ≡ 2 ^ 24)
some_left n zero e le = absurd (omega (arith, e))
some_left n (suc l) e le =
    (l, mul_assoc n 2 (2 ^ l) ∙ ap (λ (x : ℕ). n * x) (sym (pow-succ' 2 l)) ∙ e)

pub double_slots-Doubles :
    (handle_of : ℕ → ℕ) (s : HandleStorage)
    → IsTable handle_of s
    → s.slot_size * 2 ≤ 2 ^ 24
    → ((i : ℕ) → i < s.slot_size → (c : ℕ) × (s.slot i ≡ some c))
    → Doubles handle_of s
unfolding double_slots
double_slots-Doubles handle_of s v le all =
    let up = size-pos s.slot_size (2 ^ v.left) v.size in
    let (slots, done, below) =
      rehash-moved handle_of s v.placed all s.slot_size 0 (λ i. none) (omega arith)
        (λ j. let not_yet : ltb (j % s.slot_size) 0 ≡ false = ground arith in rw not_yet) in
    let right : (j : ℕ) → slots j ≡ moved handle_of s j = λ j.
      let reach : ltb (j % s.slot_size) s.slot_size ≡ true = ground (arith, mod-lt j up) in
      below j ∙ rw reach in
    let (l, size) = some_left s.slot_size v.left v.size le in
    let fits : ltb handle_mask (s.slot_size * 2 - 1) ≡ false = ground arith in
    record {
      slots = slots;
      done = rw (double_slots, done, fits);
      sound = record {
        left = l;
        size = size;
        node_id = v.node_id;
        harbor = v.harbor;
        index_up = v.index_up;
        index_fits = v.index_fits;
        placed = λ j c lt e. (moved_inv handle_of s j c (sym (right j) ∙ e)).1;
      };
      grabs = grab-moved handle_of s slots right;
      absent = λ ctx away j lt e.
          away (j % s.slot_size) (mod-lt j up) (moved_inv handle_of s j ctx (sym (right j) ∙ e)).0;
      slots_moved = right;
    }
