-- ===== src/WebSocket/Mask.antt =====
-- `decode_wsmask_data`: takes the client's mask off, a piece of the payload at a time.
pub mod Laws
pub mod Payload
use Prim.Native.Nat.{bit_xor}
use rillserver.Prelude.{ℕ, ◌+◌, ◌%◌, List, [], ◌∷◌, length, get_or, if◌then◌else◌}
use rillserver.WebSocket.Frame.{websocket_mask_len}
use rillserver.WebSocket.Queue.{Uncomplete}

-- The loop from index `i` on, with `done` bytes of the payload unmasked before.
unfoldable pub unmask : List ℕ → ℕ → ℕ → List ℕ → List ℕ
unmask masks done i [] = []
unmask masks done i (x ∷ xs) =
    bit_xor x (get_or masks ((i + done) % websocket_mask_len) 0) ∷ unmask masks done (i + 1) xs

-- The list is the `size` bytes of the buffer that the call may change.
unfoldable pub decode_wsmask_data : List ℕ → Uncomplete → List ℕ × Uncomplete
decode_wsmask_data buffer uc =
    if uc.ismask
    then (
      unmask uc.mask uc.hasunmask_size 0 buffer,
      record uc { hasunmask_size = uc.hasunmask_size + length buffer },
    )
    else (buffer, uc)
