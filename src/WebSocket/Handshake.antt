-- ===== src/WebSocket/Handshake.antt =====
-- The end of the HTTP header with which a socket begins.
pub mod Laws
use rillserver.Prelude.{
  ℕ, zero, suc, ◌+◌, ◌-◌, Bool, true, false, ◌&&◌, List, [], ◌∷◌, length, drop, ltb, ◌==◌,
  if◌then◌else◌,
}
use rillserver.Prelude.Int.{ℤ, pos, negsuc, neg}

-- `memcmp(haystack, needle, needle_length) == 0`, with the needle no longer than the haystack
unfoldable pub starts_with : List ℕ → List ℕ → Bool
starts_with [] haystack = true
starts_with (x ∷ xs) [] = false
starts_with (x ∷ xs) (y ∷ ys) = (y == x) && starts_with xs ys

-- The loop at index `i`, with `left` rounds to go and `haystack` moved on.
unfoldable pub strnpos_from : List ℕ → ℕ → ℕ → List ℕ → ℤ
strnpos_from needle zero i haystack = neg 1
strnpos_from needle (suc left) i haystack =
    let rest = strnpos_from needle left (i + 1) (drop 1 haystack) in
    if starts_with needle haystack then pos i else rest

unfoldable pub websocket_strnpos : List ℕ → List ℕ → ℤ
websocket_strnpos haystack needle =
    if ltb (length haystack) (length needle)
    then neg 1
    else strnpos_from needle (length haystack - length needle + 1) 0 haystack

-- "\r\n\r\n"
abbrev pub crlf_crlf : List ℕ
crlf_crlf = 13 ∷ 10 ∷ 13 ∷ 10 ∷ []

unfoldable pub get_http_header : List ℕ → ℤ
get_http_header buffer = elim (websocket_strnpos buffer crlf_crlf) [
  | pos n ↦ pos (n + 4)
  | negsuc n ↦ negsuc n
]
