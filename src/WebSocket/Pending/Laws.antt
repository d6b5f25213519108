-- ===== src/WebSocket/Pending/Laws.antt =====
-- The chains as one map from sockets to incomplete packs.
use mathlib.Core.Path.{fun_ext}
use mathlib.Core.Option
use rillserver.Prelude.{
  ℕ, ◌<◌, ◌≡◌, ◌≢◌, ◌⊎◌, refl, ap, ◌∙◌, sym, arith, true, false, Option, some, List, ◌∷◌, ◌==◌,
  ==_iff, Bool-cases, inl, inr,
}
use rillserver.Prelude.Ring.{update}
use rillserver.WebSocket.Queue.{Uncomplete, Queue, hashsize}
use rillserver.WebSocket.Pending.{hash_fd, find_chain, find_uncomplete, insert_uncomplete}

-- the pack that is kept for a socket, if any
abbrev pub lookup : Option Queue → ℕ → Option Uncomplete
lookup s fd = (find_uncomplete s fd).0

-- An index into `hash` is in range.
pub hash_fd-lt : (fd : ℕ) → hash_fd fd < hashsize
unfolding hash_fd
hash_fd-lt fd = omega arith

update_self :
    (f : ℕ → List Uncomplete) (i : ℕ) (v : List Uncomplete) → update (update f i v) i (f i) ≡ f
update_self f i v =
    fun_ext (λ j. elim (Bool-cases (i == j)) [
      | inl e ↦ rw e (ap f ((==_iff i j).0 e))
      | inr e ↦ rw e refl
    ])

found :
    (fd : ℕ) (uc : Uncomplete) (rest : List Uncomplete)
    → uc.pack.id ≡ fd
    → find_chain fd (uc ∷ rest) ≡ some (uc, rest)
unfolding find_chain
found fd uc rest e = ground arith

passed :
    (fd : ℕ) (uc : Uncomplete) (rest : List Uncomplete)
    → uc.pack.id ≢ fd
    → Option.map (λ (r : Uncomplete × List Uncomplete). r.0) (find_chain fd (uc ∷ rest))
      ≡ Option.map (λ (r : Uncomplete × List Uncomplete). r.0) (find_chain fd rest)
unfolding find_chain
passed fd uc rest ne = ground arith

found_in :
    (q : Queue) (fd : ℕ) (uc : Uncomplete) (rest : List Uncomplete)
    → find_chain fd (q.hash (hash_fd fd)) ≡ some (uc, rest)
    → find_uncomplete (some q) fd
      ≡ (some uc, some (record q { hash = update q.hash (hash_fd fd) rest }))
unfolding find_uncomplete
found_in q fd uc rest e = ground arith

-- A pack that was just inserted under its own socket is found and taken out, and the queue is as it
-- was before.
pub find-insert :
    (q : Queue) (fd : ℕ) (uc : Uncomplete)
    → uc.pack.id ≡ fd
    → find_uncomplete (some (insert_uncomplete q fd uc)) fd ≡ (some uc, some q)
unfolding insert_uncomplete
find-insert q fd uc e =
    found_in (insert_uncomplete q fd uc) fd uc (q.hash (hash_fd fd))
      (rw ((==_iff (hash_fd fd) (hash_fd fd)).1 refl) (found fd uc (q.hash (hash_fd fd)) e))
    ∙ ap (λ h. (some uc, some (record q { hash = h })))
        (update_self q.hash (hash_fd fd) (uc ∷ q.hash (hash_fd fd)))

lookup-chain :
    (q : Queue) (fd : ℕ)
    → lookup (some q) fd
      ≡ Option.map (λ (r : Uncomplete × List Uncomplete). r.0) (find_chain fd (q.hash (hash_fd fd)))
unfolding find_uncomplete
lookup-chain q fd = ground arith

-- Inserting a pack under its own socket leaves what is found for any other socket, whether or not it
-- hashes alike.
pub lookup-insert_ne :
    (q : Queue) (fd other : ℕ) (uc : Uncomplete)
    → uc.pack.id ≡ fd
    → fd ≢ other
    → lookup (some (insert_uncomplete q fd uc)) other ≡ lookup (some q) other
lookup-insert_ne q fd other uc e ne =
    lookup-chain (insert_uncomplete q fd uc) other
    ∙ unfold insert_uncomplete in
      chain (Bool-cases (hash_fd fd == hash_fd other)) ∙ sym (lookup-chain q other)
  where
    first : Uncomplete × List Uncomplete → Uncomplete
    first r = r.0

    chain :
        ((hash_fd fd == hash_fd other) ≡ true) ⊎ ((hash_fd fd == hash_fd other) ≡ false)
        → Option.map first (
            find_chain other
              (update q.hash (hash_fd fd) (uc ∷ q.hash (hash_fd fd)) (hash_fd other)))
          ≡ Option.map first (find_chain other (q.hash (hash_fd other)))
    chain (inl same) = rw same (
        passed other uc (q.hash (hash_fd fd)) (λ i. ne (sym e ∙ i))
        ∙ ap (λ (h : ℕ). Option.map first (find_chain other (q.hash h))) ((==_iff _ _).0 same))
    chain (inr apart) = rw apart
