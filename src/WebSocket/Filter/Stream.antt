-- ===== src/WebSocket/Filter/Stream.antt =====
-- All the calls of the filter for one frame.
use rillserver.Prelude.{
  ℕ, ◌≤◌, ◌≡◌, ◌≢◌, ◌⊎◌, inl, inr, refl, arith, Bool, false, Option, none, some, List, [], ◌∷◌,
  ◌++◌, length,
}
use rillserver.WebSocket.Wire.{Key, wire, IsDataOpcode}
use rillserver.WebSocket.Queue.{Queue, Uncomplete, get_queue}
use rillserver.WebSocket.Pending.{insert_uncomplete, find_uncomplete}
use rillserver.WebSocket.Pending.Laws.{find-insert}
use rillserver.WebSocket.Outcome.{Result, ok, Reply, nothing, data_pack, ◌>>=◌}
use rillserver.WebSocket.Push.{max_packsize}
use rillserver.WebSocket.Filter.{continue_pack, begin_pack, filter_data}
use rillserver.WebSocket.Filter.Reassembly.{Awaits}
use rillserver.WebSocket.Filter.Continue.{continue_step}
use rillserver.WebSocket.Filter.Begin.{begin_step}

pub filter_begins :
    (s : Option Queue) (fd : ℕ) (c : List ℕ)
    → find_uncomplete s fd ≡ (none, s)
    → filter_data false s fd c ≡ begin_pack false s fd c
unfolding filter_data
filter_begins s fd c e = ground arith

filter_continues :
    (q : Queue) (fd : ℕ) (uc : Uncomplete) (c : List ℕ)
    → uc.pack.id ≡ fd
    → filter_data false (some (insert_uncomplete q fd uc)) fd c ≡ continue_pack false q fd uc c
unfolding filter_data
filter_continues q fd uc c id = ground (arith, find-insert q fd uc id)

-- The calls for the messages of one socket, with what they reply.
unfoldable pub feed : Bool → Option Queue → ℕ → List (List ℕ) → Result (List Reply × Option Queue)
feed handshake s fd [] = ok ([], s)
feed handshake s fd (c ∷ cs) =
    filter_data handshake s fd c >>= λ r. feed handshake r.1 fd cs >>= λ rs. ok (r.0 ∷ rs.0, rs.1)

-- the pieces in a row
abbrev pub joined : List (List ℕ) → List ℕ
joined [] = []
joined (c ∷ cs) = c ++ joined cs

-- Each piece has a byte at least.
abbrev pub AllFull : List (List ℕ) → Type 0
AllFull [] = Unit
AllFull (c ∷ cs) = (c ≢ []) × AllFull cs

-- nothing for each piece but the last, and for that the payload
abbrev pub replies : ℕ → List ℕ → List (List ℕ) → List Reply
replies fd p [] = []
replies fd p (c ∷ []) = data_pack fd p (length p) ∷ []
replies fd p (c ∷ c' ∷ cs) = nothing ∷ replies fd p (c' ∷ cs)

joined-ne : (c : List ℕ) (cs : List (List ℕ)) → c ≢ [] → joined (c ∷ cs) ≢ []
joined-ne [] cs ne e = ne refl
joined-ne (x ∷ c) cs ne e = cc

module _ (fd op : ℕ) (key : Option Key) (p : List ℕ) (is_data : IsDataOpcode op)
    (fits : length p ≤ max_packsize) where
  feed_rest :
      (q : Queue) (uc : Uncomplete) (c : List ℕ) (cs : List (List ℕ))
      → Awaits fd op key p uc (joined (c ∷ cs))
      → AllFull (c ∷ cs)
      → feed false (some (insert_uncomplete q fd uc)) fd (c ∷ cs)
        ≡ ok (replies fd p (c ∷ cs), some q)
  unfolding feed
  feed_rest q uc c [] aw full = rw (
    filter_continues q fd uc c aw.0,
    (continue_step fd op key p is_data fits q uc c [] aw full.0).at_end refl,
  )
  feed_rest q uc c (c' ∷ cs) aw full =
      let (uc', e, aw') =
        (continue_step fd op key p is_data fits q uc c (joined (c' ∷ cs)) aw full.0).before_end
          (joined-ne c' cs full.1.0) in
      rw (filter_continues q fd uc c aw.0, e, feed_rest q uc' c' cs aw' full.1)

  -- A data frame of at most 10 KiB, masked or not, that reaches the gateway in any pieces of a byte
  -- or more, on a socket with nothing pending: every call but the last returns the queue alone, the last one
  -- delivers the payload, unmasked, and the queue is as before (made, if there was none).
  pub feed_frame :
      (s : Option Queue) (c : List ℕ) (cs : List (List ℕ))
      → find_uncomplete s fd ≡ (none, s)
      → AllFull (c ∷ cs)
      → joined (c ∷ cs) ≡ wire op key p
      → (after : Option Queue) × (feed false s fd (c ∷ cs) ≡ ok (replies fd p (c ∷ cs), after))
        × ((after ≡ s) ⊎ (after ≡ some (get_queue s)))
  unfolding feed
  feed_frame s c [] free full stream = (
    s,
    rw (
      filter_begins s fd c free,
      (begin_step fd op key p is_data fits s c [] stream full.0).at_end refl,
    ),
    inl refl,
  )
  feed_frame s c (c' ∷ cs) free full stream =
      let (uc, e, aw) =
        (begin_step fd op key p is_data fits s c (joined (c' ∷ cs)) stream full.0).before_end
          (joined-ne c' cs full.1.0) in
      (
        some (get_queue s),
        rw (filter_begins s fd c free, e, feed_rest (get_queue s) uc c' cs aw full.1),
        inr refl,
      )
