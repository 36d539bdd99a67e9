-- ===== src/Server/Loads.antt =====
-- gateway/load_tracker.py: load trackers that differ by one request.
use llm_inference.Base.{ℕ, ◌+◌, ◌-◌, ◌≡◌, ap, ◌∙◌, arith, ◌==◌, eq_iff, if◌then◌else◌}
use llm_inference.Base.Text.{Text, text_eq}
use llm_inference.Base.Dict.{get_or-set}
use llm_inference.Load.{LoadTracker, inflight_of, tokens_of, on_dispatch, on_complete}

-- Two trackers with the same in-flight counts.
pub record SameLoad (l l' : LoadTracker) : Type 0 where
  pub inflight : (b : Text) → inflight_of l' b ≡ inflight_of l b
  pub tokens : (b : Text) → tokens_of l' b ≡ tokens_of l b

-- The second has one request more, on a backend and with a number of tokens.
pub record OneMore (b : Text) (t : ℕ) (l l' : LoadTracker) : Type 0 where
  pub inflight : (c : Text) → inflight_of l' c ≡ inflight_of l c + (if b == c then 1 else 0)
  pub tokens : (c : Text) → tokens_of l' c ≡ tokens_of l c + (if b == c then t else 0)

pub on_dispatch-OneMore : (b : Text) (t : ℕ) (l : LoadTracker) → OneMore b t l (on_dispatch b t l)
unfolding on_dispatch
on_dispatch-OneMore b t l = record {
  inflight = λ c. ground (
    arith,
    get_or-set b c (inflight_of l b + 1) 0 l.inflight,
    eq_iff b c,
    ap (λ x. inflight_of l x),
  );
  tokens = λ c. ground (
    arith,
    get_or-set b c (tokens_of l b + t) 0 l.inflight_tokens,
    eq_iff b c,
    ap (λ x. tokens_of l x),
  );
}

-- Completing what the second tracker has more leaves the first.
pub on_complete-SameLoad :
    (b : Text) (t : ℕ) (l l' : LoadTracker) → OneMore b t l l' → SameLoad l (on_complete b t l')
unfolding on_complete
on_complete-SameLoad b t l l' h = record {
  inflight = λ c. ground (
    arith,
    get_or-set b c (inflight_of l' b - 1) 0 l'.inflight,
    eq_iff b c,
    eq_iff b b,
    h.inflight c,
    h.inflight b,
    ap (λ x. inflight_of l x),
  );
  tokens = λ c. ground (
    arith,
    get_or-set b c (tokens_of l' b - t) 0 l'.inflight_tokens,
    eq_iff b c,
    eq_iff b b,
    h.tokens c,
    h.tokens b,
    ap (λ x. tokens_of l x),
  );
}

pub same-SameLoad : (l l' : LoadTracker) → l' ≡ l → SameLoad l l'
same-SameLoad l l' e = record {
  inflight = λ b. ap (λ x. inflight_of x b) e;
  tokens = λ b. ap (λ x. tokens_of x b) e;
}

pub SameLoad-trans : (l m n : LoadTracker) → SameLoad l m → SameLoad m n → SameLoad l n
SameLoad-trans l m n p q = record {
  inflight = λ b. q.inflight b ∙ p.inflight b;
  tokens = λ b. q.tokens b ∙ p.tokens b;
}

pub OneMore-after :
    (b : Text) (t : ℕ) (l m n : LoadTracker) → SameLoad l m → OneMore b t m n → OneMore b t l n
OneMore-after b t l m n p q = record {
  inflight = λ c. q.inflight c ∙ ap (λ k. k + (if b == c then 1 else 0)) (p.inflight c);
  tokens = λ c. q.tokens c ∙ ap (λ k. k + (if b == c then t else 0)) (p.tokens c);
}
