-- ===== src/WebSocket/Pending.antt =====
-- The incomplete packs, one for a socket, in chains by a hash of the socket's number.
pub mod Laws
use rillserver.Prelude.{
  ℕ, ◌+◌, ◌/◌, ◌%◌, ◌^◌, Option, none, some, List, [], ◌∷◌, false, replicate, ◌==◌, if◌then◌else◌,
}
use mathlib.Core.Option
use rillserver.Prelude.Int.{pos}
use rillserver.Prelude.Ring.{update}
use rillserver.WebSocket.Frame.{websocket_mask_len}
use rillserver.WebSocket.Queue.{Uncomplete, Queue, hashsize, get_queue}

-- The number of a socket is never negative.
unfoldable pub hash_fd : ℕ → ℕ
hash_fd fd = (fd / 2 ^ 24 + fd / 2 ^ 12 + fd) % 2 ^ 32 % hashsize

-- The walk of `find_uncomplete` along one chain: the pack of `fd`, and the chain without it.
unfoldable pub find_chain : ℕ → List Uncomplete → Option (Uncomplete × List Uncomplete)
find_chain fd [] = none
find_chain fd (uc ∷ rest) =
    let deeper = find_chain fd rest in
    if uc.pack.id == fd
    then some (uc, rest)
    else Option.map (λ (r : Uncomplete × List Uncomplete). (r.0, uc ∷ r.1)) deeper

-- What is found is taken out of its chain.
unfoldable pub find_uncomplete : Option Queue → ℕ → Option Uncomplete × Option Queue
find_uncomplete none fd = (none, none)
find_uncomplete (some q) fd = elim (find_chain fd (q.hash (hash_fd fd))) [
  | none ↦ (none, some q)
  | some (uc, rest) ↦ (some uc, some (record q { hash = update q.hash (hash_fd fd) rest }))
]

-- `uc->next = q->hash[h]; q->hash[h] = uc;`
unfoldable pub insert_uncomplete : Queue → ℕ → Uncomplete → Queue
insert_uncomplete q fd uc = record q {
  hash = update q.hash (hash_fd fd) (uc ∷ q.hash (hash_fd fd));
}

-- as `memset` and `pack.id = fd` leave it
abbrev pub zeroed : ℕ → Uncomplete
zeroed fd = record {
  pack = record { id = fd; size = 0; buffer = [] };
  header = [];
  read = pos 0;
  mask = replicate websocket_mask_len 0;
  ismask = false;
  hasunmask_size = 0;
}

-- `fill` is what the caller writes through the pointer that `save_uncomplete` returns.
unfoldable pub save_uncomplete : Option Queue → ℕ → (Uncomplete → Uncomplete) → Queue
save_uncomplete stack fd fill = insert_uncomplete (get_queue stack) fd (fill (zeroed fd))

unfoldable pub close_uncomplete : Option Queue → ℕ → Option Queue
close_uncomplete stack fd = (find_uncomplete stack fd).1

-- `lclear`: every pack is freed, complete or not.
unfoldable pub clear : Option Queue → Option Queue
clear none = none
clear (some q) = some (record q { hash = λ _. []; head = 0; tail = 0 })
