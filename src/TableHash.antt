-- ===== src/TableHash.antt =====
-- lualib-src/lua-hash.c: the hash code of a Lua table. An `int` is its 32 bits, and wraps; the
-- result is none where the code raises a Lua error.
pub mod Order
pub mod Depth
mod Tests
use Prim.Native.Nat.{bit_xor}
use rillserver.Prelude.{
  ℕ, ◌+◌, ◌-◌, ◌*◌, ◌/◌, ◌%◌, ◌^◌, Bool, true, false, ◌&&◌, Option, none, some, List, [], ◌∷◌, ltb,
  leb, if◌then◌else◌,
}

abbrev pub max_depth : ℕ
max_depth = 16

-- A value as the code sees it: an integer by its 64 bits, a float by those of the `double`. A table
-- is the entries that `lua_next` or the iterator of `__pairs` gives, in that order. Every other
-- value is no key of a hash.
mutual
  pub data LuaValue : Type 0 where
    integer : ℕ → LuaValue
    float : ℕ → LuaValue
    boolean : Bool → LuaValue
    string : List ℕ → LuaValue
    table : LuaTable → LuaValue
    other : LuaValue

  pub data LuaTable : Type 0 where
    end : LuaTable
    entry : LuaValue → LuaValue → LuaTable → LuaTable

-- `_hash_number`: `(int32_t) v` is `v` exactly near 0, on both sides.
unfoldable pub hash_integer : ℕ → ℕ
hash_integer v =
    if leb (2 ^ 31) v && ltb v (2 ^ 64 - 2 ^ 31)
    then bit_xor v (v / 2 ^ 32) % 2 ^ 32
    else v % 2 ^ 32

unfoldable pub hash_float : ℕ → ℕ
hash_float bits = bit_xor bits (bits / 2 ^ 32) % 2 ^ 32

abbrev pub hash_boolean : Bool → ℕ
hash_boolean true = 1231
hash_boolean false = 1237

-- The loop of `_hash_string` from `h` on. A `char` is signed.
unfoldable pub hash_string : ℕ → List ℕ → ℕ
hash_string h [] = h
hash_string h (b ∷ str) =
    hash_string ((31 * h + (if ltb b 128 then b else b + (2 ^ 32 - 256))) % 2 ^ 32) str

-- `if (depth > MAX_DEPTH) luaL_error(...)`
abbrev pub unless_deep : ℕ → Option ℕ → Option ℕ
unless_deep depth result = if ltb max_depth depth then none else result

-- `h += (kh ^ vh)`
abbrev pub add_entry : Option ℕ → Option ℕ → ℕ → Option ℕ
add_entry none vh h = none
add_entry (some kh) none h = none
add_entry (some kh) (some vh) h = some ((h + bit_xor kh vh) % 2 ^ 32)

abbrev pub and_then : Option ℕ → (ℕ → Option ℕ) → Option ℕ
and_then none f = none
and_then (some h) f = f h

-- `_hash_one`, and the loop of `_hash_table` with its end.
unfoldable mutual
  pub hash_one : LuaValue → ℕ → Option ℕ
  hash_one (integer v) depth = unless_deep depth (some (hash_integer v))
  hash_one (float bits) depth = unless_deep depth (some (hash_float bits))
  hash_one (boolean b) depth = unless_deep depth (some (hash_boolean b))
  hash_one (string str) depth = unless_deep depth (some (hash_string 0 str))
  hash_one (table t) depth = unless_deep depth (hash_entries t (depth + 1) 0)
  hash_one other depth = none

  pub hash_entries : LuaTable → ℕ → ℕ → Option ℕ
  hash_entries end depth h = some (h * depth % 2 ^ 32)
  hash_entries (entry k v rest) depth h =
      and_then (add_entry (hash_one k depth) (hash_one v depth) h) λ h'. hash_entries rest depth h'

-- `lhash_table`
unfoldable pub hashcode : LuaValue → Option ℕ
hashcode (table t) = hash_entries t 1 0
hashcode (integer v) = none
hashcode (float bits) = none
hashcode (boolean b) = none
hashcode (string str) = none
hashcode other = none
