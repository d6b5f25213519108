-- ===== src/TableHash/Order.antt =====
-- The hash code and the order of the entries.
use Prim.Native.Nat.{bit_xor}
use rillserver.Prelude.{ℕ, ◌+◌, ◌%◌, ◌^◌, ◌≡◌, refl, ap, ◌∙◌, arith, Option, none, some}
use rillserver.TableHash.{
  LuaValue, table, LuaTable, entry, add_entry, and_then, hash_one, hash_entries, hashcode,
}

-- The same entries in another order.
pub data IsReordered : LuaTable → LuaTable → Type 0 where
  same : (t : LuaTable) → IsReordered t t
  swap :
      (k v k' v' : LuaValue)
      → (t : LuaTable) → IsReordered (entry k v (entry k' v' t)) (entry k' v' (entry k v t))
  behind :
      (k v : LuaValue)
      → {t t' : LuaTable} → IsReordered t t'
      → IsReordered (entry k v t) (entry k v t')
  trans : {t t' t'' : LuaTable} → IsReordered t t' → IsReordered t' t'' → IsReordered t t''

add_swap :
    (k v k' v' : Option ℕ) (h : ℕ) (f : ℕ → Option ℕ)
    → and_then (add_entry k v h) (λ i. and_then (add_entry k' v' i) f)
      ≡ and_then (add_entry k' v' h) (λ i. and_then (add_entry k v i) f)
add_swap none v none v' h f = refl
add_swap none v (some c) none h f = refl
add_swap none v (some c) (some d) h f = refl
add_swap (some a) none none v' h f = refl
add_swap (some a) none (some c) none h f = refl
add_swap (some a) none (some c) (some d) h f = refl
add_swap (some a) (some b) none v' h f = refl
add_swap (some a) (some b) (some c) none h f = refl
add_swap (some a) (some b) (some c) (some d) h f = ap f (sum_swap (bit_xor a b) (bit_xor c d) h)
  where
    sum_swap : (x y h : ℕ) → ((h + x) % 2 ^ 32 + y) % 2 ^ 32 ≡ ((h + y) % 2 ^ 32 + x) % 2 ^ 32
    sum_swap x y h = omega arith

and_then_ext :
    (o : Option ℕ) (f g : ℕ → Option ℕ) → ((h : ℕ) → f h ≡ g h) → and_then o f ≡ and_then o g
and_then_ext none f g e = refl
and_then_ext (some h) f g e = e h

hash_entries-reordered :
    (t t' : LuaTable) (depth h : ℕ)
    → IsReordered t t'
    → hash_entries t depth h ≡ hash_entries t' depth h
unfolding hash_entries
hash_entries-reordered _ _ depth h (same t) = refl
hash_entries-reordered _ _ depth h (swap k v k' v' t) =
    add_swap (hash_one k depth) (hash_one v depth) (hash_one k' depth) (hash_one v' depth) h
      (λ i. hash_entries t depth i)
hash_entries-reordered _ _ depth h (behind k v {t} {t'} r) =
    and_then_ext (add_entry (hash_one k depth) (hash_one v depth) h) _ _
      (λ i. hash_entries-reordered t t' depth i r)
hash_entries-reordered _ _ depth h (trans {t} {t'} {t''} r r') =
    hash_entries-reordered t t' depth h r ∙ hash_entries-reordered t' t'' depth h r'

-- Tables with the same entries, in whatever order they come, have the same hash code, or neither
-- has one.
pub hashcode-reordered :
    (t t' : LuaTable) → IsReordered t t' → hashcode (table t) ≡ hashcode (table t')
unfolding hashcode
hashcode-reordered t t' r = hash_entries-reordered t t' 1 0 r
