-- ===== src/TableHash/Tests.antt =====
-- The hash of concrete tables, and the theorems at concrete inputs.
use rillserver.Prelude.{◌+◌, ◌≡◌, refl, true, none, some, [], ◌∷◌}
use rillserver.TableHash.{
  integer, boolean, string, table, other, LuaTable, end, entry, hash_one, hash_entries, hash_string,
  hash_integer, hashcode,
}
use rillserver.TableHash.Order.{swap, behind, trans, hashcode-reordered}
use rillserver.TableHash.Depth.{is_some, entries_fit, hashcode-fits}

-- { a = 1, [2] = true, b = {} } in two orders
abbrev first_order : LuaTable
first_order =
    entry (string (97 ∷ [])) (integer 1)
      (entry (integer 2) (boolean true) (entry (string (98 ∷ [])) (table end) end))

abbrev second_order : LuaTable
second_order =
    entry (integer 2) (boolean true)
      (entry (string (98 ∷ [])) (table end) (entry (string (97 ∷ [])) (integer 1) end))

-- (97 xor 1) + (2 xor 1231) + (98 xor 0)
first_hash : hashcode (table first_order) ≡ some (96 + 1229 + 98)
unfolding hashcode hash_one hash_entries hash_string hash_integer
first_hash = refl

hashcode-reordered_example : hashcode (table first_order) ≡ hashcode (table second_order)
hashcode-reordered_example =
    hashcode-reordered first_order second_order
      (trans (swap _ _ _ _ _) (behind (integer 2) (boolean true) (swap _ _ _ _ _)))

hashcode-fits_example : is_some (hashcode (table first_order)) ≡ entries_fit first_order 16
hashcode-fits_example = hashcode-fits first_order

function_refused : hashcode (table (entry (integer 1) other end)) ≡ none
unfolding hashcode hash_one hash_entries hash_integer
function_refused = refl
