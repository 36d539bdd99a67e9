-- ===== src/Radix/Eviction.antt =====
-- Eviction and removal: what they leave on the nodes and in the tables, and the block bound.
use llm_inference.Base.{
  ℕ, ◌-◌, ◌≤◌, ◌≡◌, ◌≢◌, refl, ◌∙◌, ap, false, not, ◌&&◌, none, [], ◌∷◌, arith, ltb, ◌==◌, eq_iff,
  nat_eq, length, Bool-cases, inl, inr,
}
use llm_inference.Base.Text.{Text, text_eq}
use llm_inference.Base.Dict
use llm_inference.Base.Dict.{Dict, IsDict, has-get, has-remove, get_or-set, get_or-remove}
use llm_inference.Radix.{Node, RadixTree, blocks, drop_holder, evict_from, evict, held_blocks}
use llm_inference.Radix.Shape.{SameShape}
use llm_inference.Radix.Ownership.{IsOwned}

-- The two heaps differ at most in the holders.
pub record SameNodes (heap heap' : ℕ → Node) : Type 0 where
  pub edge : (n : ℕ) → (heap' n).edge ≡ (heap n).edge
  pub children : (n : ℕ) → (heap' n).children ≡ (heap n).children

pub drop_holder-SameNodes :
    (b : Text) (n : ℕ) (heap : ℕ → Node) → SameNodes heap (drop_holder b n heap)
drop_holder-SameNodes b n heap = record {
  edge = λ m. ground (arith, eq_iff n m);
  children = λ m. ground (arith, eq_iff n m);
}

pub SameNodes-trans : {f g h : ℕ → Node} → SameNodes f g → SameNodes g h → SameNodes f h
SameNodes-trans p q = record {
  edge = λ n. q.edge n ∙ p.edge n;
  children = λ n. q.children n ∙ p.children n;
}

pub has-drop_holder :
    (b c : Text) (n m : ℕ) (heap : ℕ → Node)
    → Dict.has c (drop_holder b n heap m).holders
      ≡ (not (b == c && n == m) && Dict.has c (heap m).holders)
has-drop_holder b c n m heap = ground (arith, eq_iff n m, has-remove b c (heap n).holders)

blocks-same : (f g : ℕ → Node) (l : Dict ℕ (Unit {0})) → SameNodes f g → blocks g l ≡ blocks f l
unfolding blocks
blocks-same f g [] s = refl
blocks-same f g ((n, u) ∷ l) s = ground (arith, s.edge n, blocks-same f g l s)

evict_from-SameNodes :
    (b : Text) (cap total : ℕ) (l : Dict ℕ (Unit {0})) (heap : ℕ → Node)
    → SameNodes heap (evict_from b cap total l heap).0
unfolding evict_from
evict_from-SameNodes b cap total [] heap = record { edge = λ n. refl; children = λ n. refl }
evict_from-SameNodes b cap total ((n, u) ∷ l) heap = elim (Bool-cases (ltb cap total)) [
  | inl over ↦ rw over (
      SameNodes-trans (drop_holder-SameNodes b n heap)
        (evict_from-SameNodes b cap (total - length (heap n).edge) l (drop_holder b n heap)))
  | inr fits ↦ rw fits (record { edge = λ n. refl; children = λ n. refl })
]

-- What is left fits, if the loop starts from the true total.
evict_from-fits :
    (b : Text) (cap total : ℕ) (l : Dict ℕ (Unit {0})) (heap : ℕ → Node)
    → total ≡ blocks heap l
    → blocks (evict_from b cap total l heap).0 (evict_from b cap total l heap).1 ≤ cap
unfolding evict_from blocks
evict_from-fits b cap total [] heap e = omega arith
evict_from-fits b cap total ((n, u) ∷ l) heap e =
    let heap' = drop_holder b n heap in
    ground (
      arith,
      evict_from-fits b cap (total - length (heap n).edge) l heap',
      blocks-same heap heap' l (drop_holder-SameNodes b n heap),
    )

has_absent : (n : ℕ) (l : Dict ℕ (Unit {0})) → Dict.get n l ≡ none → Dict.has n l ≡ false
has_absent n l h = ground (arith, has-get n l)

-- The holders named `b` and the table of `b` stay in step, and no other holder changes.
evict_from-agree :
    (b : Text) (cap total : ℕ) (l : Dict ℕ (Unit {0})) (heap : ℕ → Node) (m : ℕ)
    → IsDict l
    → ((n : ℕ) → Dict.has b (heap n).holders ≡ Dict.has n l)
    → Dict.has b ((evict_from b cap total l heap).0 m).holders
      ≡ Dict.has m (evict_from b cap total l heap).1
unfolding evict_from
evict_from-agree b cap total [] heap m d h = h m
evict_from-agree b cap total ((n, u) ∷ l) heap m d h = elim (Bool-cases (ltb cap total)) [
  | inl over ↦ rw over (
      evict_from-agree b cap (total - length (heap n).edge) l (drop_holder b n heap) m d.1 λ k.
        unfold Dict.has in
        ground
          (arith, has-drop_holder b b n k heap, h k, eq_iff b b, eq_iff n k, has_absent n l d.0))
  | inr fits ↦ rw fits (h m)
]

evict_from-others :
    (b c : Text) (cap total : ℕ) (l : Dict ℕ (Unit {0})) (heap : ℕ → Node) (m : ℕ)
    → b ≢ c
    → Dict.has c ((evict_from b cap total l heap).0 m).holders ≡ Dict.has c (heap m).holders
unfolding evict_from
evict_from-others b c cap total [] heap m ne = refl
evict_from-others b c cap total ((n, u) ∷ l) heap m ne = ground (
  arith,
  evict_from-others b c cap (total - length (heap n).edge) l (drop_holder b n heap) m,
  has-drop_holder b c n m heap,
  eq_iff b c,
)

evict_from-IsDict :
    (b : Text) (cap total : ℕ) (l : Dict ℕ (Unit {0})) (heap : ℕ → Node)
    → IsDict l
    → IsDict (evict_from b cap total l heap).1
unfolding evict_from
evict_from-IsDict b cap total [] heap d = d
evict_from-IsDict b cap total ((n, u) ∷ l) heap d =
    ground
      (arith, evict_from-IsDict b cap (total - length (heap n).edge) l (drop_holder b n heap) d.1)

evict_from-held :
    (b c : Text) (cap total : ℕ) (l : Dict ℕ (Unit {0})) (heap : ℕ → Node) (m : ℕ)
    → Dict.has c (heap m).holders ≡ false
    → Dict.has c ((evict_from b cap total l heap).0 m).holders ≡ false
unfolding evict_from
evict_from-held b c cap total [] heap m h = h
evict_from-held b c cap total ((n, u) ∷ l) heap m h = ground (
  arith,
  evict_from-held b c cap (total - length (heap n).edge) l (drop_holder b n heap) m,
  has-drop_holder b c n m heap,
)

pub evict-IsOwned : (b : Text) (t : RadixTree) → IsOwned t → IsOwned (evict b t)
unfolding evict
evict-IsOwned b t o =
    let l = Dict.get_or b [] t.lru in
    let total = blocks t.heap l in
    let done = evict_from b t.cap total l t.heap in
    record {
      agree = λ c m. ground (
        arith,
        eq_iff b c,
        get_or-set b c done.1 [] t.lru,
        o.agree c m,
        evict_from-agree b t.cap total l t.heap m (o.distinct b) (o.agree b),
        evict_from-others b c t.cap total l t.heap m,
      );
      fresh = λ c m new. evict_from-held b c t.cap total l t.heap m (o.fresh c m new);
      distinct = λ c. ground (
        arith,
        eq_iff b c,
        get_or-set b c done.1 [] t.lru,
        o.distinct c,
        evict_from-IsDict b t.cap total l t.heap (o.distinct b),
      );
    }

pub evict-fits : (b : Text) (t : RadixTree) → held_blocks b (evict b t) ≤ t.cap
unfolding evict held_blocks
evict-fits b t =
    let l = Dict.get_or b [] t.lru in
    let done = evict_from b t.cap (blocks t.heap l) l t.heap in
    ground (
      arith,
      get_or-set b b done.1 [] t.lru,
      eq_iff b b,
      evict_from-fits b t.cap (blocks t.heap l) l t.heap refl,
    )

pub SameNodes-SameShape :
    (t u : RadixTree) → u.next ≡ t.next → SameNodes t.heap u.heap → SameShape t u
SameNodes-SameShape t u e s = record {
  next = e;
  edges = s.edge;
  children = λ n h. ap (Dict.get h) (s.children n);
}

pub evict-SameShape : (b : Text) (t : RadixTree) → SameShape t (evict b t)
unfolding evict
evict-SameShape b t = SameNodes-SameShape t (evict b t) refl (
    evict_from-SameNodes b t.cap (blocks t.heap (Dict.get_or b [] t.lru)) (Dict.get_or b [] t.lru)
      t.heap)
