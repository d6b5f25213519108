-- ===== src/SkipList/Binding/RanksDown.antt =====
-- The walk of `_get_rank_range` backward.
use rillserver.Prelude.{
  ℕ, zero, suc, ◌+◌, ◌-◌, ◌<◌, ◌≤◌, ◌≡◌, refl, ap, sym, subst, ◌∙◌, arith, Bool, true, ◌&&◌, none,
  some, List, [], ◌∷◌, ◌++◌, length, leb, inl, inr, map, length-append, append_assoc, get_elem?,
}
use rillserver.SkipList.{Nodes}
use rillserver.SkipList.Inv.{end_of}
use rillserver.SkipList.Query.Reach.{first}
use rillserver.SkipList.Delete.Ranks.{objs_of_ranks, Front-of, objs_of_ranks-front, beyond_ranks}
use rillserver.SkipList.Binding.{collect_ranks}
use rillserver.SkipList.Binding.Walks.{
  Backwards, reversed, end_of-reversed, length-reversed, reversed-append, Backwards-drop,
}
use mathlib.Core.List.{reverse, reverse_aux}

pub collect_none : (down : Bool) (s : Nodes) (n : ℕ) → collect_ranks down s n none ≡ []
unfolding collect_ranks
collect_none down s zero = refl
collect_none down s (suc n) = refl

-- As many nodes as the walk has rounds.
collect_back :
    (s : Nodes) (ys ts : List ℕ)
    → Backwards s (ys ++ ts)
    → collect_ranks true s (length ys) (first (ys ++ ts)) ≡ map (λ b. (s b).obj) ys
unfolding collect_ranks
collect_back s [] ts w = refl
collect_back s (b ∷ ys) ts w = rw w.0 (ap (λ l. (s b).obj ∷ l) (collect_back s ys ts w.1))

reversed-onto : (xs rs : List ℕ) → reversed xs rs ≡ reversed xs [] ++ rs
reversed-onto [] rs = refl
reversed-onto (b ∷ xs) rs =
    reversed-onto xs (b ∷ rs)
    ∙ sym (append_assoc (reversed xs []) (b ∷ []) rs)
    ∙ ap (λ l. l ++ rs) (sym (reversed-onto xs (b ∷ [])))

map-reversed :
    (s : Nodes) (xs rs : List ℕ)
    → map (λ b. (s b).obj) (reversed xs rs)
      ≡ reverse_aux (map (λ b. (s b).obj) xs) (map (λ b. (s b).obj) rs)
map-reversed s [] rs = refl
map-reversed s (b ∷ xs) rs = map-reversed s xs (b ∷ rs)

get_elem-end :
    (b : ℕ) (ys zs : List ℕ) → get_elem? (b ∷ (ys ++ zs)) (length ys) ≡ end_of (some b) ys
get_elem-end b [] zs = refl
get_elem-end b (c ∷ ys) zs = get_elem-end c ys zs

get_elem-last :
    (ys zs : List ℕ) → 1 ≤ length ys → get_elem? (ys ++ zs) (length ys - 1) ≡ first (reversed ys [])
get_elem-last [] zs up = absurd (omega arith)
get_elem-last (b ∷ ys) zs up =
    ap (get_elem? (b ∷ (ys ++ zs))) (let e : suc (length ys) - 1 ≡ length ys = omega arith in e)
    ∙ get_elem-end b ys zs
    ∙ end_of-reversed (b ∷ ys) []

-- All of these nodes are in the range.
objs_of_ranks-inside :
    (s : Nodes) (start last r : ℕ) (ys zs : List ℕ)
    → start ≤ suc r
    → r + length ys ≡ last
    → objs_of_ranks s start last r (ys ++ zs) ≡ map (λ b. (s b).obj) ys
objs_of_ranks-inside s start last r [] zs le e =
    (beyond_ranks start last s r zs (omega (arith, e))).1
objs_of_ranks-inside s start last r (b ∷ ys) zs le e =
    let into : (leb start (suc r) && leb (suc r) last) ≡ true = ground (arith, e) in
    rw into (
      ap (λ l. (s b).obj ∷ l)
        (objs_of_ranks-inside s start last (suc r) ys zs (omega arith) (omega (arith, e))))

-- From the rank `high` down to `low`, which are both among the ranks.
pub collect_down :
    (s : Nodes) (xs : List ℕ) (low high : ℕ)
    → Backwards s (reversed xs [])
    → 1 ≤ low
    → low < high
    → high ≤ length xs
    → collect_ranks true s (high - low + 1) (get_elem? xs (high - 1))
      ≡ reverse (objs_of_ranks s low high 0 xs)
collect_down s xs low high w up lt le =
    let f = Front-of high xs in
    let long : length xs ≡ length f.before + length f.behind =
      ap length f.cut ∙ length-append f.before f.behind in
    let is_high : length f.before ≡ high = elim f.full [
      | inl e ↦ omega (arith, long, ap length e, f.short)
      | inr e ↦ e
    ] in
    let g = Front-of (low - 1) f.before in
    let inner : length f.before ≡ length g.before + length g.behind =
      ap length g.cut ∙ length-append g.before g.behind in
    let is_low : length g.before ≡ low - 1 = elim g.full [
      | inl e ↦ omega (arith, inner, ap length e, g.short, is_high)
      | inr e ↦ e
    ] in
    let rounds : length (reversed g.behind []) ≡ high - low + 1 =
      omega (arith, length-reversed g.behind [], inner, is_low, is_high) in
    let turned : reversed f.before [] ≡ reversed g.behind [] ++ reversed g.before [] =
      ap (λ l. reversed l []) g.cut
      ∙ reversed-append g.before g.behind []
      ∙ reversed-onto g.behind (reversed g.before []) in
    let walk : Backwards s (reversed g.behind [] ++ reversed g.before []) =
      subst (Backwards s) turned (
        Backwards-drop s f.behind (reversed f.before []) (
          subst (Backwards s) (ap (λ l. reversed l []) f.cut ∙ reversed-append f.before f.behind [])
            w)) in
    let start : get_elem? xs (high - 1) ≡ first (reversed g.behind [] ++ reversed g.before []) =
      ap (λ l. get_elem? l (high - 1)) f.cut
      ∙ ap (λ (n : ℕ). get_elem? (f.before ++ f.behind) (n - 1)) (sym is_high)
      ∙ get_elem-last f.before f.behind (omega (arith, is_high))
      ∙ ap first turned in
    let objs : objs_of_ranks s low high 0 xs ≡ map (λ b. (s b).obj) g.behind =
      ap (objs_of_ranks s low high 0)
        (f.cut ∙ ap (λ l. l ++ f.behind) g.cut ∙ append_assoc g.before g.behind f.behind)
      ∙ objs_of_ranks-front low high s 0 g.before (g.behind ++ f.behind) (omega (arith, is_low))
      ∙ objs_of_ranks-inside s low high (0 + length g.before) g.behind f.behind
          (omega (arith, is_low)) (omega (arith, inner, is_low, is_high)) in
    ap (λ (n : ℕ). collect_ranks true s n (get_elem? xs (high - 1))) (sym rounds)
    ∙ ap (collect_ranks true s (length (reversed g.behind []))) start
    ∙ collect_back s (reversed g.behind []) (reversed g.before []) walk
    ∙ map-reversed s g.behind []
    ∙ ap reverse (sym objs)
