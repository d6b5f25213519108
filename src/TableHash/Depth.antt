-- ===== src/TableHash/Depth.antt =====
-- Which values have a hash code.
use rillserver.Prelude.{
  ℕ, zero, suc, ◌+◌, ◌≤◌, ◌≡◌, refl, ap, ◌∙◌, arith, Bool, true, false, ◌&&◌, Option, none, some,
}
use rillserver.TableHash.{
  LuaValue, integer, float, boolean, string, table, other, LuaTable, end, entry, add_entry,
  and_then, hash_one, hash_entries, hashcode, unless_deep,
}

abbrev pub is_some : Option ℕ → Bool
is_some none = false
is_some (some h) = true

-- All the values in it are numbers, Booleans, strings and tables, and no table is deeper in it than
-- `room` allows: the values of a table take one from the room.
unfoldable mutual
  pub fits : LuaValue → ℕ → Bool
  fits (integer v) room = true
  fits (float bits) room = true
  fits (boolean b) room = true
  fits (string str) room = true
  fits (table t) room = entries_fit t room
  fits other room = false

  pub entries_fit : LuaTable → ℕ → Bool
  entries_fit end room = true
  entries_fit (entry k v rest) zero = false
  entries_fit (entry k v rest) (suc room) =
      fits k room && fits v room && entries_fit rest (suc room)

-- An entry is added exactly if it has both hash codes.
and_then-add :
    (k v : Option ℕ) (h : ℕ) (f : ℕ → Option ℕ) (b : Bool)
    → ((i : ℕ) → is_some (f i) ≡ b)
    → is_some (and_then (add_entry k v h) f) ≡ (is_some k && is_some v && b)
and_then-add none v h f b e = refl
and_then-add (some c) none h f b e = refl
and_then-add (some c) (some d) h f b e = e _

too_deep : (depth : ℕ) (r : Option ℕ) → 17 ≤ depth → unless_deep depth r ≡ none
too_deep depth r h = ground arith

allowed : (depth : ℕ) (r : Option ℕ) → depth ≤ 16 → unless_deep depth r ≡ r
allowed depth r h = ground arith

deep_none : (v : LuaValue) → hash_one v 17 ≡ none
unfolding hash_one
deep_none (integer x) = refl
deep_none (float x) = refl
deep_none (boolean x) = refl
deep_none (string x) = refl
deep_none (table t) = refl
deep_none other = refl

mutual
  unfolding hash_one hash_entries fits entries_fit

  hash_one-fits :
      (v : LuaValue) (depth room : ℕ) → depth + room ≡ 16 → is_some (hash_one v depth) ≡ fits v room
  hash_one-fits (integer x) depth room e = ap is_some (allowed depth _ (omega arith))
  hash_one-fits (float x) depth room e = ap is_some (allowed depth _ (omega arith))
  hash_one-fits (boolean x) depth room e = ap is_some (allowed depth _ (omega arith))
  hash_one-fits (string x) depth room e = ap is_some (allowed depth _ (omega arith))
  hash_one-fits (table t) depth room e =
      ap is_some (allowed depth _ (omega arith)) ∙ hash_entries-fit t depth room 0 e
  hash_one-fits other depth room e = refl

  hash_entries-fit :
      (t : LuaTable) (depth room h : ℕ)
      → depth + room ≡ 16
      → is_some (hash_entries t (depth + 1) h) ≡ entries_fit t room
  hash_entries-fit end depth room h e = refl
  hash_entries-fit (entry k v rest) depth zero h e =
      let last : depth ≡ 16 = omega (arith, e) in
      ap
        (λ (n : ℕ). is_some (
          and_then (add_entry (hash_one k (n + 1)) (hash_one v (n + 1)) h)
            λ i. hash_entries rest (n + 1) i))
        last
      ∙ rw (deep_none k)
  hash_entries-fit (entry k v rest) depth (suc room) h e =
      let down : (depth + 1) + room ≡ 16 = omega (arith, e) in
      and_then-add (hash_one k (depth + 1)) (hash_one v (depth + 1)) h _
        (entries_fit rest (suc room)) (λ i. hash_entries-fit rest depth (suc room) i e)
      ∙ rw (hash_one-fits k (depth + 1) room down, hash_one-fits v (depth + 1) room down)

-- `hashcode` returns a number for a table exactly if every value in it is a number, a Boolean, a
-- string or a table, and no value is more than 16 tables deep; otherwise it raises an error.
pub hashcode-fits : (t : LuaTable) → is_some (hashcode (table t)) ≡ entries_fit t 16
unfolding hashcode
hashcode-fits t = hash_entries-fit t 0 16 0 refl
