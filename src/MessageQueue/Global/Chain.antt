-- ===== src/MessageQueue/Global/Chain.antt =====
-- The global queue as a list of addresses.
use rillserver.Prelude.{
  ℕ, ◌≡◌, ◌≢◌, refl, sym, ◌∙◌, Option, none, some, List, [], ◌∷◌, ◌++◌, ◌==◌, ==_iff, Bool-cases,
  inl, inr,
}
use rillserver.Prelude.Ring.{update}
use rillserver.Prelude.Distinct.{NotIn, AllDistinct, NotIn-before, AllDistinct-snoc}
use rillserver.MessageQueue.{MessageQueue}
use rillserver.MessageQueue.Global.{GlobalQueue, store, globalmq_push, globalmq_pop}

-- From `h` on, the fields `next` lead through the addresses and to an end.
abbrev pub Linked : (ℕ → MessageQueue) → Option ℕ → List ℕ → Type 0
Linked s h [] = h ≡ none
Linked s h (a ∷ xs) = (h ≡ some a) × Linked s (s a).next xs

abbrev pub last_of : List ℕ → Option ℕ
last_of [] = none
last_of (a ∷ []) = some a
last_of (a ∷ b ∷ xs) = last_of (b ∷ xs)

-- The global queue is the list, and what is not in it has no successor.
pub record IsGlobal (g : GlobalQueue) (xs : List ℕ) : Type 0 where
  pub linked : Linked g.queues g.head xs
  pub ends : g.tail ≡ last_of xs
  pub distinct : AllDistinct xs
  pub others : (a : ℕ) → NotIn a xs → (g.queues a).next ≡ none

-- the first address, if there is one, and the others
abbrev pub take_first : List ℕ → Option ℕ × List ℕ
take_first [] = (none, [])
take_first (a ∷ xs) = (some a, xs)

pub update_at : (s : ℕ → MessageQueue) (a : ℕ) (q : MessageQueue) → update s a q a ≡ q
update_at s a q = rw ((==_iff a a).1 refl) refl

pub update_else : (s : ℕ → MessageQueue) (a b : ℕ) (q : MessageQueue) → a ≢ b → update s a q b ≡ s b
update_else s a b q ne = elim (Bool-cases (a == b)) [
  | inl e ↦ absurd (ne ((==_iff a b).0 e))
  | inr e ↦ rw e refl
]

-- Only the fields `next` count.
pub Linked-same :
    (s s' : ℕ → MessageQueue) (h : Option ℕ) (xs : List ℕ)
    → ((b : ℕ) → (s' b).next ≡ (s b).next)
    → Linked s h xs
    → Linked s' h xs
Linked-same s s' h [] same l = l
Linked-same s s' h (a ∷ xs) same l = (l.0, rw (same a) (Linked-same s s' (s a).next xs same l.1))

Linked-update :
    (s : ℕ → MessageQueue) (t : ℕ) (q : MessageQueue) (h : Option ℕ) (xs : List ℕ)
    → NotIn t xs
    → Linked s h xs
    → Linked (update s t q) h xs
Linked-update s t q h [] out l = l
Linked-update s t q h (a ∷ xs) out l =
    (l.0, rw (update_else s t a q out.0) (Linked-update s t q (s a).next xs out.1 l.1))

last_of-ne : (b t : ℕ) (xs : List ℕ) → NotIn b xs → last_of xs ≡ some t → b ≢ t
last_of-ne b t [] out e = cc
last_of-ne b t (a ∷ []) out e = λ i. out.0 cc
last_of-ne b t (a ∷ c ∷ xs) out e = last_of-ne b t (c ∷ xs) out.1 e

-- The last successor set to `a` makes the list longer by `a`.
Linked-snoc :
    (s : ℕ → MessageQueue) (t a : ℕ) (q : MessageQueue) (h : Option ℕ) (xs : List ℕ)
    → AllDistinct xs
    → NotIn a xs
    → (s a).next ≡ none
    → last_of xs ≡ some t
    → q.next ≡ some a
    → Linked s h xs
    → Linked (update s t q) h (xs ++ (a ∷ []))
Linked-snoc s t a q h [] d out alone e p l = absurd (cc)
Linked-snoc s t a q h (b ∷ []) d out alone e p l =
    let b_t : b ≡ t = cc in
    (l.0, (rw (b_t, update_at s t q) p, rw (update_else s t a q (λ i. out.0 (cc))) alone))
Linked-snoc s t a q h (b ∷ c ∷ xs) d out alone e p l = (
  l.0,
  rw (update_else s t b q (λ i. last_of-ne b t (c ∷ xs) d.0 e (sym i)))
      (Linked-snoc s t a q (s b).next (c ∷ xs) d.1 out.1 alone e p l.1),
)

last_of-snoc : (a : ℕ) (xs : List ℕ) → last_of (xs ++ (a ∷ [])) ≡ some a
last_of-snoc a [] = refl
last_of-snoc a (b ∷ []) = refl
last_of-snoc a (b ∷ c ∷ xs) = last_of-snoc a (c ∷ xs)

last_of-in : (t b : ℕ) (xs : List ℕ) → last_of xs ≡ some t → NotIn b xs → t ≢ b
last_of-in t b xs e out i = last_of-ne b t xs out e (sym i)

last_of-some : (b : ℕ) (xs : List ℕ) → (t : ℕ) × (last_of (b ∷ xs) ≡ some t)
last_of-some b [] = (b, refl)
last_of-some b (c ∷ xs) = last_of-some c xs

-- A write to `next` of `a` makes it none, and leaves the other queues.
cleared :
    (g : GlobalQueue) (a b : ℕ) (xs : List ℕ)
    → IsGlobal g (a ∷ xs)
    → NotIn b xs
    → (update g.queues a (record (g.queues a) { next = none }) b).next ≡ none
cleared g a b xs v out = elim (Bool-cases (a == b)) [
  | inl e ↦ rw e
  | inr e ↦ rw e (v.others b ((λ i. cc (sym e ∙ (==_iff a b).1 (sym i))), out))
]

-- Where the links are those of the list, `skynet_globalmq_push` of a queue that is not in it puts it
-- at the end, and no assertion fails.
pub globalmq_push-list :
    (g : GlobalQueue) (a : ℕ) (xs : List ℕ)
    → IsGlobal g xs
    → NotIn a xs
    → (g' : GlobalQueue) × (globalmq_push g a ≡ some g') × IsGlobal g' (xs ++ (a ∷ []))
unfolding globalmq_push
globalmq_push-list g a [] v out = (
  record g { head = some a; tail = some a },
  rw (v.others a out, v.ends, globalmq_push),
  record {
    linked = (refl, v.others a out);
    ends = refl;
    distinct = (tt, tt);
    others = λ b ne. v.others b tt;
  },
)
globalmq_push-list g a (b ∷ xs) v out =
    let (t, last) = last_of-some b xs in
    let q = record (g.queues t) { next = some a } in
    let alone = v.others a out in
    (
      record (store g t q) { tail = some a },
      rw (alone, v.ends ∙ last, globalmq_push),
      record {
        linked = Linked-snoc g.queues t a q g.head (b ∷ xs) v.distinct out alone last refl v.linked;
        ends = sym (last_of-snoc a (b ∷ xs));
        distinct = AllDistinct-snoc a (b ∷ xs) v.distinct out;
        others = λ c c_out.
            let (before, ne) = NotIn-before c a (b ∷ xs) c_out in
            rw (update_else g.queues t c q (last_of-in t c (b ∷ xs) last before))
              (v.others c before);
      },
    )

-- Where the links are those of the list, `skynet_globalmq_pop` takes the first queue of it, or says
-- that there is none, and no assertion fails.
pub globalmq_pop-list :
    (g : GlobalQueue) (xs : List ℕ)
    → IsGlobal g xs
    → (g' : GlobalQueue) × (globalmq_pop g ≡ some ((take_first xs).0, g'))
      × IsGlobal g' (take_first xs).1
unfolding globalmq_pop
globalmq_pop-list g [] v = (g, rw v.linked refl, v)
globalmq_pop-list g (a ∷ []) v = (
  record (store g a (record (g.queues a) { next = none })) { head = none; tail = none },
  rw (v.linked.0, v.linked.1, v.ends, (==_iff a a).1 refl, globalmq_pop),
  record { linked = refl; ends = refl; distinct = tt; others = λ b out. cleared g a b [] v out },
)
globalmq_pop-list g (a ∷ b ∷ xs) v = (
  record (store g a (record (g.queues a) { next = none })) { head = some b },
  rw (v.linked.0, v.linked.1.0, globalmq_pop),
  record {
    linked = (
      refl,
      (Linked-update g.queues a (record (g.queues a) { next = none }) (some b) (b ∷ xs) v.distinct.0
          (refl, v.linked.1.1)).1,
    );
    ends = v.ends;
    distinct = v.distinct.1;
    others = λ c out. cleared g a c (b ∷ xs) v out;
  },
)
