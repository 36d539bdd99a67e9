-- ===== src/Fair/Sched.antt =====
-- gateway/fairsched.py: the dispatch gate over the weighted fair queue. Between two awaits the source
-- runs without interruption, so each operation is one step. A future is named by a number.
use llm_inference.Base.{
  ℕ, ◌+◌, ◌-◌, max, Bool, true, false, Option, none, some, List, [], ◌∷◌, if◌then◌else◌, length,
  ltb, nat_eq,
}
use llm_inference.Base.Text.{Text, text_eq}
use llm_inference.Base.Dict
use llm_inference.Base.Dict.{Dict}
use llm_inference.Fair.{Entry, WeightedFairQueue, empty, enqueue}

-- `granted` is a future with a result.
pub data Future : Type 0 where
  pending granted cancelled : Future

pub record AsyncFairScheduler : Type 0 where
  pub max_concurrency : ℕ
  pub weights : Dict Text ℕ
  pub default_weight : ℕ
  pub cost : ℕ
  pub active : ℕ
  pub wfq : WeightedFairQueue ℕ
  pub futures : Dict ℕ Future
  pub created : ℕ

abbrev pub init : ℕ → Dict Text ℕ → ℕ → ℕ → AsyncFairScheduler
init max_concurrency weights default_weight cost = record {
  max_concurrency = max 1 max_concurrency;
  weights = weights;
  default_weight = default_weight;
  cost = cost;
  active = 0;
  wfq = empty;
  futures = [];
  created = 0;
}

abbrev pub queue_depth : AsyncFairScheduler → ℕ
queue_depth s = length s.wfq.heap

abbrev pub weight_for : Text → AsyncFairScheduler → ℕ
weight_for cls s = Dict.get_or cls s.default_weight s.weights

-- `acquire` up to its await: it takes a free slot (`none`), or parks a new future.
unfoldable pub acquire : Text → AsyncFairScheduler → AsyncFairScheduler × Option ℕ
acquire cls s =
    if ltb s.active s.max_concurrency then (record s { active = s.active + 1 }, none) else (
      record s {
        wfq = (enqueue s.created cls (weight_for cls s) s.cost s.wfq).0;
        futures = Dict.set s.created pending s.futures;
        created = s.created + 1;
      },
      some s.created,
    )

abbrev pub is_cancelled : Option Future → Bool
is_cancelled none = false
is_cancelled (some pending) = false
is_cancelled (some granted) = false
is_cancelled (some cancelled) = true

-- The loop of `_grant_next`, on the entries of the heap: it returns what is left of the heap, the
-- virtual time, and the future that gets the slot.
unfoldable pub reap : Dict ℕ Future → ℕ → List (Entry ℕ) → List (Entry ℕ) × ℕ × Option ℕ
reap futures vt [] = ([], vt, none)
reap futures vt (e ∷ es) =
    let vt' = if ltb vt e.finish then e.finish else vt in
    let rest = reap futures vt' es in
    if is_cancelled (Dict.get e.item futures) then rest else (es, vt', some e.item)

abbrev pub set_result : Option ℕ → Dict ℕ Future → Dict ℕ Future
set_result none futures = futures
set_result (some fut) futures = Dict.set fut granted futures

abbrev pub is_some {ℓ} : {A : Type ℓ} → Option A → Bool
is_some none = false
is_some (some a) = true

unfoldable pub grant_next : AsyncFairScheduler → AsyncFairScheduler × Bool
grant_next s =
    let (es, vt, fut) = reap s.futures s.wfq.vt s.wfq.heap in
    (
      record s { wfq = record s.wfq { heap = es; vt = vt }; futures = set_result fut s.futures },
      is_some fut,
    )

unfoldable pub release_one : AsyncFairScheduler → AsyncFairScheduler
release_one s =
    let (s', was_granted) = grant_next s in
    if was_granted then s' else record s' { active = s'.active - 1 }

-- The task that waits for a future is cancelled: a pending future is cancelled with it; a slot that
-- was granted in the same tick is handed on.
unfoldable pub cancel : ℕ → AsyncFairScheduler → AsyncFairScheduler
cancel fut s = elim (Dict.get fut s.futures) [
  | none ↦ s
  | some pending ↦ record s { futures = Dict.set fut cancelled s.futures }
  | some granted ↦ release_one s
  | some cancelled ↦ s
]

abbrev pub release : AsyncFairScheduler → AsyncFairScheduler
release = release_one
