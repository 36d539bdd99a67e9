-- ===== src/Router/Choice.antt =====
-- gateway/router.py: what a choice of the prefix-tree strategy is the best of.
use mathlib.Core.Option.{some-injective}
use llm_inference.Base.{
  ℕ, ◌+◌, ◌%◌, ◌≤◌, ◌≡◌, refl, sym, ap, true, false, some, List, [], ◌∷◌, ◌==◌, eq_iff, contains,
  length, leb, All, All-filter, All-of-filter, All-get_elem?, arith, list_cases, inl, inr,
  Bool-cases, Option-cases, nat_eq,
}
use llm_inference.Base.Text.{Text, text_eq}
use llm_inference.Base.Dict
use llm_inference.Base.Dict.{Dict}
use llm_inference.Radix
use llm_inference.Router.{
  prefix_tree, Router, inflight, is_saturated, est_ttft, Scored, scored_of, least, good_of, tied_of,
  pick, choose_among, choose_by,
}

-- The estimate for a backend whose matches are known.
abbrev pub estimate : Router → ℕ → Dict Text ℕ → Text → ℕ
estimate r tokens found b = est_ttft r tokens (Dict.get_or b 0 found) b

-- An entry of the loop's list stands for a candidate with room, and holds its estimate.
pub record IsScored (r : Router) (tokens : ℕ) (found : Dict Text ℕ) (cands : List Text) (s : Scored)
    : Type 0 where
  pub member : contains s.backend cands ≡ true
  pub has_room : is_saturated r s.backend ≡ false
  pub ttft_is : s.ttft ≡ estimate r tokens found s.backend
  pub blocks_are : s.blocks ≡ Dict.get_or s.backend 0 found

pub All-imp {ℓ} :
    {A : Type ℓ} (P Q : A → Type 0) (xs : List A) → ((x : A) → P x → Q x) → All P xs → All Q xs
All-imp P Q [] f h = tt
All-imp P Q (x ∷ xs) f h = (f x h.0, All-imp P Q xs f h.1)

weaken :
    (r : Router) (tokens : ℕ) (found : Dict Text ℕ) (b : Text) (bs : List Text) (s : Scored)
    → IsScored r tokens found bs s
    → IsScored r tokens found (b ∷ bs) s
unfolding contains
weaken r tokens found b bs s v = record {
  member = ground arith;
  has_room = v.has_room;
  ttft_is = v.ttft_is;
  blocks_are = v.blocks_are;
}

pub scored_of-All :
    (r : Router) (tokens : ℕ) (found : Dict Text ℕ) (bs : List Text)
    → All (IsScored r tokens found bs) (scored_of r tokens found bs)
unfolding scored_of contains
scored_of-All r tokens found [] = tt
scored_of-All r tokens found (b ∷ bs) =
    let rest =
      All-imp (IsScored r tokens found bs) (IsScored r tokens found (b ∷ bs))
        (scored_of r tokens found bs) (weaken r tokens found b bs)
        (scored_of-All r tokens found bs) in
    elim (Bool-cases (is_saturated r b)) [
      | inl full ↦ rw full rest
      | inr room ↦ rw room (
        record {
          member = ground (arith, eq_iff b b);
          has_room = room;
          ttft_is = refl;
          blocks_are = refl;
        },
        rest,
      )
    ]

-- The entry of a backend.
abbrev entry : Router → ℕ → Dict Text ℕ → Text → Scored
entry r tokens found b = record {
  ttft = estimate r tokens found b;
  backend = b;
  blocks = Dict.get_or b 0 found;
}

All-scored :
    (r : Router) (tokens : ℕ) (found : Dict Text ℕ) (P : Scored → Type 0) (bs : List Text)
    (c : Text)
    → All P (scored_of r tokens found bs)
    → contains c bs ≡ true
    → is_saturated r c ≡ false
    → P (entry r tokens found c)
unfolding scored_of contains
All-scored r tokens found P [] c h m room = absurd (ground arith)
All-scored r tokens found P (b ∷ bs) c h m room = elim (Bool-cases (b == c)) [
  | inl here ↦ let e : b ≡ c = (eq_iff b c).0 here in let h' = rw (e, room) at h in h'.0
  | inr there ↦
      let m' : contains c bs ≡ true = ground (arith, m, there) in
      elim (Bool-cases (is_saturated r b)) [
        | inl full ↦ let h' = rw full at h in All-scored r tokens found P bs c h' m' room
        | inr free ↦ let h' = rw free at h in All-scored r tokens found P bs c h'.1 m' room
      ]
]

pub least-All {ℓ} :
    {A : Type ℓ} (f : A → ℕ) (x : A) (xs : List A) → All (λ y. least f x xs ≤ f y) (x ∷ xs)
least-All f x [] = (omega arith, tt)
least-All f x (y ∷ ys) = (
  omega arith,
  All-imp (λ z. least f y ys ≤ f z) (λ z. least f x (y ∷ ys) ≤ f z) (y ∷ ys) (λ z h. omega arith)
      (least-All f y ys),
)

pub le-least {ℓ} :
    {A : Type ℓ} (f : A → ℕ) (k h : ℕ) (x : A) (xs : List A)
    → All (λ y. k ≤ f y + h) (x ∷ xs)
    → k ≤ least f x xs + h
le-least f k h x [] a = a.0
le-least f k h x (y ∷ ys) a = let rest = le-least f k h y ys a.1 in omega (arith, a.0)

pub All-pick {ℓ} :
    {A : Type ℓ} (P : A → Type 0) (i : ℕ) (xs : List A) (t : A)
    → All P xs
    → pick i xs ≡ some t
    → P t
unfolding pick
All-pick P i [] t h e = ground arith
All-pick P i (x ∷ xs) t h e = All-get_elem? P (x ∷ xs) (i % length (x ∷ xs)) t h e

-- A tied backend is one of the good ones, and none of them has less load.
tied_of-All :
    (r : Router) (P : Scored → Type 0) (gs : List Scored)
    → All P gs
    → All (λ t. P t × All (λ g. inflight r t.backend ≤ inflight r g.backend) gs) (tied_of r gs)
tied_of-All r P [] h = tt
tied_of-All r P (g ∷ gs) h =
    let load = least (λ c. inflight r c.backend) g gs in
    All-imp (λ t. P t × ((inflight r t.backend == load) ≡ true))
      (λ t. P t × All (λ c. inflight r t.backend ≤ inflight r c.backend) (g ∷ gs))
      (tied_of r (g ∷ gs))
      (λ t q. (
        q.0,
        All-imp (λ c. load ≤ inflight r c.backend)
            (λ c. inflight r t.backend ≤ inflight r c.backend) (g ∷ gs)
            (λ c le. ground (arith, le, q.1, eq_iff (inflight r t.backend) load))
            (least-All (λ c. inflight r c.backend) g gs),
      ))
      (All-filter P (λ c. inflight r c.backend == load) (g ∷ gs) h)

-- What holds of the entry that is picked.
pub record IsBest (r : Router) (s : Scored) (ss : List Scored) (t : Scored) : Type 0 where
  pub close : t.ttft ≤ least Scored.ttft s ss + r.cfg.hysteresis_ms
  pub idle :
      All
        (λ g.
          leb g.ttft (least Scored.ttft s ss + r.cfg.hysteresis_ms) ≡ true
          → inflight r t.backend ≤ inflight r g.backend)
        (s ∷ ss)

pub picked :
    (r : Router) (P : Scored → Type 0) (s : Scored) (ss : List Scored) (t : Scored)
    → All P (s ∷ ss)
    → pick r.rr (tied_of r (good_of r s ss)) ≡ some t
    → P t × IsBest r s ss t
unfolding good_of
picked r P s ss t h e =
    let limit : ℕ = least Scored.ttft s ss + r.cfg.hysteresis_ms in
    let good =
      tied_of-All r (λ c. P c × (leb c.ttft limit ≡ true)) (good_of r s ss)
        (All-filter P (λ c. leb c.ttft limit) (s ∷ ss) h) in
    let best = All-pick _ r.rr (tied_of r (good_of r s ss)) t good e in
    (
      best.0.0,
      record {
        close = ground (arith, best.0.1);
        idle = All-of-filter _ (λ c. leb c.ttft limit) (s ∷ ss) best.1;
      },
    )

-- What a choice of the prefix tree promises against a candidate `c` that has room.
pub record IsPreferred (r : Router) (tokens : ℕ) (found : Dict Text ℕ) (cands : List Text)
    (b : Text) (m : ℕ) (c : Text) : Type 0 where
  pub member : contains b cands ≡ true
  pub has_room : is_saturated r b ≡ false
  pub blocks : m ≡ Dict.get_or b 0 found
  pub close : estimate r tokens found b ≤ estimate r tokens found c + r.cfg.hysteresis_ms
  pub idle :
      ((d : Text)
        → contains d cands ≡ true
        → is_saturated r d ≡ false
        → estimate r tokens found c ≤ estimate r tokens found d + r.cfg.hysteresis_ms)
      → inflight r b ≤ inflight r c

preferred :
    (r : Router) (tokens : ℕ) (found : Dict Text ℕ) (cands : List Text) (c : Text) (s : Scored)
    (ss : List Scored) (t : Scored)
    → scored_of r tokens found cands ≡ s ∷ ss
    → contains c cands ≡ true
    → is_saturated r c ≡ false
    → pick r.rr (tied_of r (good_of r s ss)) ≡ some t
    → IsPreferred r tokens found cands t.backend t.blocks c
preferred r tokens found cands c s ss t e m room p =
    let known = rw e at (scored_of-All r tokens found cands) in
    let (scored, best) = picked r (IsScored r tokens found cands) s ss t known p in
    let lower = All-scored r tokens found (λ g. least Scored.ttft s ss ≤ g.ttft) cands c in
    let idle =
      All-scored r tokens found
        (λ g.
          leb g.ttft (least Scored.ttft s ss + r.cfg.hysteresis_ms) ≡ true
          → inflight r t.backend ≤ inflight r g.backend)
        cands c in
    record {
      member = scored.member;
      has_room = scored.has_room;
      blocks = scored.blocks_are;
      close =
          omega
            (arith, best.close, scored.ttft_is, lower (rw e (least-All Scored.ttft s ss)) m room);
      idle = λ all. idle (rw e best.idle) m room (
          ground (
            arith,
            le-least Scored.ttft (estimate r tokens found c) r.cfg.hysteresis_ms s ss (
                All-imp (IsScored r tokens found cands)
                  (λ g. estimate r tokens found c ≤ g.ttft + r.cfg.hysteresis_ms) (s ∷ ss)
                  (λ g v. omega (arith, v.ttft_is, all g.backend v.member v.has_room)) known),
          ));
    }

-- If a candidate `c` has room, the prefix-tree strategy sends a request to a candidate that has room,
-- with an estimated TTFT within the hysteresis of that of `c`; and where `c` itself is within the
-- hysteresis of all candidates with room, the chosen one carries no more load than `c`.
pub prefix_tree_prefers :
    (r : Router) (hashes : List ℕ) (tokens : ℕ) (cands : List Text) (b c : Text) (m : ℕ)
    → (choose_by r prefix_tree hashes tokens cands).1 ≡ some (b, m)
    → contains c cands ≡ true
    → is_saturated r c ≡ false
    → IsPreferred r tokens (Radix.match r.tree hashes) cands b m c
unfolding choose_by choose_among
prefix_tree_prefers r hashes tokens cands b c m e mem room =
    let found = Radix.match r.tree hashes in
    elim (list_cases (scored_of r tokens found cands)) [
      | inl none_scored ↦
          absurd (All-scored r tokens found (λ s. ⊥) cands c (rw none_scored tt) mem room)
      | inr (s, ss, some_scored) ↦ elim (Option-cases (pick r.rr (tied_of r (good_of r s ss)))) [
        | inl nothing ↦
            let e' = rw (some_scored, choose_among, nothing) at e in absurd (ground (arith, e'))
        | inr (t, p) ↦
            let e' = rw (some_scored, choose_among, p) at e in
            let same : (t.backend, t.blocks) ≡ (b, m) = some-injective _ _ e' in
            rw (sym (ap (λ q. q.0) same), sym (ap (λ q. q.1) same))
              (preferred r tokens found cands c s ss t some_scored mem room p)
      ]
    ]
