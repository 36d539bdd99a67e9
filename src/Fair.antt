-- ===== src/Fair.antt =====
-- gateway/fairqueue.py: the weighted fair queue. Virtual times, weights and costs are in 10^-9 (`one`
-- is 1.0), and a quotient is truncated to that. The heap of `heapq` is kept as the sorted list of its
-- entries: `heappop` takes the first one.
pub mod Sched
mod Order
pub mod Slots
mod Tests
use llm_inference.Base.{
  ℕ, zero, suc, ◌+◌, ◌*◌, ◌/◌, max, Bool, true, false, ◌&&◌, ◌||◌, Option, none, some, List, [],
  ◌∷◌, ◌==◌, if◌then◌else◌, length, ltb, nat_eq,
}
use llm_inference.Base.Text.{Text, text_eq}
use llm_inference.Base.Dict
use llm_inference.Base.Dict.{Dict}
use llm_inference.Load.{one}

pub record Entry {ℓ} (A : Type ℓ) : Type ℓ where
  pub finish : ℕ
  pub seq : ℕ
  pub item : A

pub record WeightedFairQueue {ℓ} (A : Type ℓ) : Type ℓ where
  pub heap : List (Entry A)
  pub last_finish : Dict Text ℕ
  pub vt : ℕ
  pub next_seq : ℕ

-- `weight if weight > 0 else 1e-9`
abbrev pub weight_or_least : ℕ → ℕ
weight_or_least weight = if ltb 0 weight then weight else 1

module _ {ℓ} {A : Type ℓ} where
  abbrev pub empty : WeightedFairQueue A
  empty = record { heap = []; last_finish = []; vt = 0; next_seq = 0 }

  -- The order of the tuples (finish, seq, item), whose second places all differ.
  abbrev pub entry_ltb : Entry A → Entry A → Bool
  entry_ltb e f = ltb e.finish f.finish || (e.finish == f.finish && ltb e.seq f.seq)

  unfoldable pub push : Entry A → List (Entry A) → List (Entry A)
  push e [] = e ∷ []
  push e (f ∷ es) = let rest = push e es in if entry_ltb e f then e ∷ f ∷ es else f ∷ rest

  -- The finish tag that a request of the class would get now.
  unfoldable pub finish_tag : Text → ℕ → ℕ → WeightedFairQueue A → ℕ
  finish_tag cls weight cost q =
      max q.vt (Dict.get_or cls 0 q.last_finish) + (cost * one) / weight_or_least weight

  unfoldable pub enqueue : A → Text → ℕ → ℕ → WeightedFairQueue A → WeightedFairQueue A × ℕ
  unfolding finish_tag push
  enqueue item cls weight cost q =
      let finish = finish_tag cls weight cost q in
      (
        record q {
          heap = push (record { finish = finish; seq = q.next_seq; item = item }) q.heap;
          last_finish = Dict.set cls finish q.last_finish;
          next_seq = q.next_seq + 1;
        },
        finish,
      )

  -- `none`: the queue is empty (IndexError).
  unfoldable pub dequeue : WeightedFairQueue A → Option (WeightedFairQueue A × A)
  dequeue q = elim q.heap [
    | [] ↦ none
    | e ∷ es ↦
        some (record q { heap = es; vt = if ltb q.vt e.finish then e.finish else q.vt }, e.item)
  ]
