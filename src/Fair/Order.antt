-- ===== src/Fair/Order.antt =====
-- gateway/fairqueue.py: the order of the entries of the heap.
use llm_inference.Base.{
  ℕ, ◌+◌, ◌≤◌, ◌≡◌, List, [], ◌∷◌, eq_iff, nat_eq, arith, inl, inr, Bool-cases, length,
}
use llm_inference.Base.Text.{text_eq}
use llm_inference.Fair.{Entry, entry_ltb, push}

module _ {ℓ} {A : Type ℓ} where
  abbrev pub LeAll : ℕ → List (Entry A) → Type 0
  LeAll k [] = Unit
  LeAll k (e ∷ es) = (k ≤ e.finish) × LeAll k es

  -- The heap is in the order of the tags.
  abbrev pub IsSorted : List (Entry A) → Type 0
  IsSorted [] = Unit
  IsSorted (e ∷ es) = LeAll e.finish es × IsSorted es

  LeAll-mono : (j k : ℕ) (es : List (Entry A)) → j ≤ k → LeAll k es → LeAll j es
  LeAll-mono j k [] le h = tt
  LeAll-mono j k (e ∷ es) le h = (omega (arith, h.0), LeAll-mono j k es le h.1)

  LeAll-push :
      (k : ℕ) (e : Entry A) (es : List (Entry A)) → k ≤ e.finish → LeAll k es → LeAll k (push e es)
  unfolding push
  LeAll-push k e [] le h = (le, tt)
  LeAll-push k e (f ∷ es) le h = elim (Bool-cases (entry_ltb e f)) [
    | inl before ↦ rw before (le, h)
    | inr after ↦ rw after (h.0, LeAll-push k e es le h.1)
  ]

  pub push-IsSorted : (e : Entry A) (es : List (Entry A)) → IsSorted es → IsSorted (push e es)
  unfolding push
  push-IsSorted e [] h = (tt, tt)
  push-IsSorted e (f ∷ es) h = elim (Bool-cases (entry_ltb e f)) [
    | inl before ↦
        let le : e.finish ≤ f.finish = ground (arith, before, eq_iff e.finish f.finish) in
        rw before ((le, LeAll-mono e.finish f.finish es le h.0), h)
    | inr after ↦
        let le : f.finish ≤ e.finish = ground (arith, after, eq_iff e.finish f.finish) in
        rw after (LeAll-push f.finish e es le h.0, push-IsSorted e es h.1)
  ]

  pub length-push : (e : Entry A) (es : List (Entry A)) → length (push e es) ≡ length es + 1
  unfolding push
  length-push e [] = omega arith
  length-push e (f ∷ es) = ground (arith, length-push e es)
