-- ===== src/Timer/Linking.antt =====
-- The nodes of a list, added one by one as `move_list` does.
use rillserver.Prelude.{
  ℕ, ◌^◌, ◌<◌, ◌≤◌, ◌≡◌, refl, ap, sym, subst, ◌∙◌, List, [], ◌∷◌, ◌++◌, ◌==◌, Bool-cases, inl, inr,
  append_assoc, append-nil,
}
use rillserver.Timer.{TimerNode, Timer, add_node, add_nodes}
use rillserver.Timer.Shift.{left_at}
use rillserver.Timer.Waiting.{
  due, waiting, IsTimer, waiting-add_node, add_node-IsTimer, time-add_node,
}

-- What a node needs to be dealt out.
abbrev pub AllLive : ℕ → ℕ → List TimerNode → Type 0
AllLive least c [] = Unit
AllLive least c (n ∷ ns) =
    ((n.expire < 2 ^ 32) × ((least ≤ left_at c n.expire) × (left_at c n.expire < 2 ^ 31)))
    × AllLive least c ns

pub time-add_nodes : (tm : Timer) (ns : List TimerNode) → (add_nodes tm ns).time ≡ tm.time
unfolding add_nodes
time-add_nodes tm [] = refl
time-add_nodes tm (n ∷ ns) = time-add_nodes (add_node tm n) ns ∙ time-add_node tm n

pub waiting-add_nodes :
    (tm : Timer) (ns : List TimerNode) (e : ℕ)
    → waiting (add_nodes tm ns) e ≡ waiting tm e ++ due e ns
unfolding add_nodes
waiting-add_nodes tm [] e = sym (append-nil (waiting tm e))
waiting-add_nodes tm (n ∷ ns) e =
    waiting-add_nodes (add_node tm n) ns e
    ∙ ap (λ l. l ++ due e ns) (waiting-add_node tm n e)
    ∙ elim (Bool-cases (n.expire == e)) [
      | inl h ↦ rw h (append_assoc (waiting tm e) (n ∷ []) (due e ns))
      | inr h ↦ rw h
    ]

pub add_nodes-IsTimer :
    (least : ℕ) (tm : Timer) (ns : List TimerNode)
    → IsTimer least tm
    → AllLive least tm.time ns
    → IsTimer least (add_nodes tm ns)
unfolding add_nodes
add_nodes-IsTimer least tm [] v l = v
add_nodes-IsTimer least tm (n ∷ ns) v l =
    add_nodes-IsTimer least (add_node tm n) ns (add_node-IsTimer least tm n v l.0.0 l.0.1.0 l.0.1.1)
      (subst (λ c. AllLive least c ns) (sym (time-add_node tm n)) l.1)
