-- ===== src/SkipList/InsertLaw.antt =====
-- `slCreate` and `slInsert` on sound lists.
use rillserver.Prelude.{
  ℕ, ◌≡◌, refl, ap, sym, subst, ◌∙◌, arith, true, List, [], ◌∷◌, ◌++◌, ◌==◌, ==_iff,
}
use rillserver.Prelude.Distinct.{NotIn}
use rillserver.SkipList.{Nodes, SkipList, is_before, search_path}
use rillserver.SkipList.Order.{Element, elements, IsNew, insert_sorted, Place-of}
use rillserver.SkipList.Inv.{IsSkipList}
use rillserver.SkipList.Placed.{Insertion, xs, towers}
use rillserver.SkipList.{insert, random_level}
use rillserver.SkipList.{create}
use rillserver.SkipList.Order.{Place}
use rillserver.SkipList.Place.{path_of}
use rillserver.SkipList.Growth.{
  insert_at-grown, grown-IsSkipList, elements-grown, random_level-bounds,
}

-- `slCreate` makes a sound list without nodes.
pub create-IsSkipList : (memory : Nodes) (a : ℕ) → IsSkipList (λ b. 1) (create memory a) []
unfolding create
create-IsSkipList memory a =
    let self : (a == a) ≡ true = (==_iff a a).1 refl in
    record {
      wired_header = λ i lt. ground arith;
      wired = tt;
      top = refl;
      unused = λ j le lt. ground arith;
      level_up = omega arith;
      level_in = omega arith;
      towers = tt;
      distinct = (tt, tt);
      count = refl;
      no_obj = rw self;
      valued = tt;
      sorted = tt;
      backed = tt;
      ends = refl;
    }

-- What an insertion must come to.
pub record Inserts (sl sl' : SkipList) (xs : List ℕ) (e : Element) : Type 0 where
  pub heights : ℕ → ℕ
  pub nodes_in_order : List ℕ
  pub sound_after : IsSkipList heights sl' nodes_in_order
  pub elements_after : elements sl'.nodes nodes_in_order ≡ insert_sorted e (elements sl.nodes xs)

-- `slInsert` of an element that a sound list does not have, with a free node and whatever the
-- random levels: the list stays sound, on every level with its spans, backward and at the tail, and
-- its elements are those before with the new one in its place.
pub insert-Inserts :
    (height : ℕ → ℕ) (sl : SkipList) (xs : List ℕ) (garbage : ℕ → ℕ × ℕ) (draws : List ℕ)
    (x score : ℕ) (obj : List ℕ)
    → IsSkipList height sl xs
    → NotIn x (sl.header ∷ xs)
    → IsNew (record { score = score; obj = obj }) (elements sl.nodes xs)
    → Inserts sl (insert garbage draws x sl score obj) xs (record { score = score; obj = obj })
unfolding insert
insert-Inserts height sl xs garbage draws x score obj v fresh is_new =
    rw (insert_at-grown ins) (record {
      heights = towers ins;
      nodes_in_order = before ++ (x ∷ behind);
      sound_after = grown-IsSkipList ins place.precede place.not_precede is_new';
      elements_after =
          elements-grown ins place.precede place.not_precede is_new'
          ∙ ap (λ l. insert_sorted elem (elements sl.nodes l)) (sym place.cut);
    })
  where
    elem : Element
    elem = record { score = score; obj = obj }

    place : Place sl.nodes xs elem
    place = Place-of sl.nodes xs elem v.sorted

    before : List ℕ
    before = place.before

    behind : List ℕ
    behind = place.behind

    v' : IsSkipList height sl (before ++ behind)
    v' = subst (IsSkipList height sl) place.cut v

    is_new' : IsNew elem (elements sl.nodes (before ++ behind))
    is_new' = subst (λ l. IsNew elem (elements sl.nodes l)) place.cut is_new

    ins : Insertion
    ins = record {
      height = height;
      sl = sl;
      before = before;
      behind = behind;
      sound = v';
      elem = elem;
      x = x;
      level = random_level draws;
      found = search_path (is_before score obj) sl garbage;
      level_up = (random_level-bounds draws).0;
      level_in = (random_level-bounds draws).1;
      fresh = subst (λ l. NotIn x (sl.header ∷ l)) place.cut fresh;
      path = path_of height sl before behind elem garbage v' place.precede place.not_precede;
    }
