-- ===== src/Fair/Slots.antt =====
-- gateway/fairsched.py: the slots in use and the waiters.
use llm_inference.Base.{
  ℕ, ◌+◌, ◌≤◌, ◌<◌, ◌≡◌, refl, true, false, List, [], ◌∷◌, eq_iff, if◌then◌else◌, ltb, nat_eq,
  arith, inl, inr, Bool-cases, Option-cases,
}
use llm_inference.Base.Text.{Text, text_eq}
use llm_inference.Base.Dict
use llm_inference.Base.Dict.{Dict, get-set}
use llm_inference.Fair.{Entry}
use llm_inference.Fair.Sched.{
  Future, pending, granted, cancelled, AsyncFairScheduler, init, acquire, is_cancelled, reap,
  is_some, grant_next, release_one, cancel, release,
}

-- The waiters in the queue that have not given up.
unfoldable pub waiting : Dict ℕ Future → List (Entry ℕ) → ℕ
waiting futures [] = 0
waiting futures (e ∷ es) =
    let rest = waiting futures es in
    if is_cancelled (Dict.get e.item futures) then rest else rest + 1

-- At most as many slots as there are, and all of them in use while somebody waits.
pub record IsFair (s : AsyncFairScheduler) : Type 0 where
  pub within : s.active ≤ s.max_concurrency
  pub busy : 0 < waiting s.futures s.wfq.heap → s.active ≡ s.max_concurrency

init-IsFair : (n : ℕ) (weights : Dict Text ℕ) (d cost : ℕ) → IsFair (init n weights d cost)
unfolding waiting
init-IsFair n weights d cost = record { within = omega arith; busy = λ h. absurd (omega arith) }

acquire-IsFair : (cls : Text) (s : AsyncFairScheduler) → IsFair s → IsFair (acquire cls s).0
unfolding acquire
acquire-IsFair cls s v = elim (Bool-cases (ltb s.active s.max_concurrency)) [
  | inl free ↦
      let lt : s.active < s.max_concurrency = ground arith in
      rw (free, acquire)
        (record { within = omega arith; busy = λ h. absurd (let full = v.busy h in omega arith) })
  | inr full ↦
      let ge : s.max_concurrency ≤ s.active = ground arith in
      rw (full, acquire) (record { within = v.within; busy = λ h. omega (arith, v.within) })
]

-- If the loop finds nobody, nobody was waiting, and the queue is empty; if it finds somebody, it is a
-- future that was not cancelled.
reap-none :
    (futures : Dict ℕ Future) (vt : ℕ) (es : List (Entry ℕ))
    → is_some (reap futures vt es).2 ≡ false
    → (waiting futures es ≡ 0) × ((reap futures vt es).0 ≡ [])
unfolding reap waiting
reap-none futures vt [] h = (refl, refl)
reap-none futures vt (e ∷ es) h = elim (Bool-cases (is_cancelled (Dict.get e.item futures))) [
  | inl gone ↦
      let h' = rw (gone, reap) at h in
      rw gone (reap-none futures (if ltb vt e.finish then e.finish else vt) es h')
  | inr live ↦ let h' = rw (live, reap) at h in absurd (ground (arith, h'))
]

reap-some :
    (futures : Dict ℕ Future) (vt : ℕ) (es : List (Entry ℕ))
    → is_some (reap futures vt es).2 ≡ true
    → 0 < waiting futures es
unfolding reap waiting
reap-some futures vt [] h = absurd (ground (arith, h))
reap-some futures vt (e ∷ es) h = elim (Bool-cases (is_cancelled (Dict.get e.item futures))) [
  | inl gone ↦
      let h' = rw (gone, reap) at h in
      rw gone (reap-some futures (if ltb vt e.finish then e.finish else vt) es h')
  | inr live ↦ rw live (omega arith)
]

release_one-IsFair : (s : AsyncFairScheduler) → IsFair s → IsFair (release_one s)
unfolding release_one grant_next waiting
release_one-IsFair s v = elim (Bool-cases (is_some (reap s.futures s.wfq.vt s.wfq.heap).2)) [
  | inl found ↦
      let full = v.busy (reap-some s.futures s.wfq.vt s.wfq.heap found) in
      rw (found, release_one, grant_next) (record { within = v.within; busy = λ h. full })
  | inr nobody ↦
      let gone = reap-none s.futures s.wfq.vt s.wfq.heap nobody in
      rw (nobody, release_one, grant_next)
        (record {
          within = omega (arith, v.within);
          busy = λ h. absurd (let empty = rw gone.1 at h in omega arith);
        })
]

waiting-cancel :
    (fut : ℕ) (futures : Dict ℕ Future) (es : List (Entry ℕ))
    → waiting (Dict.set fut cancelled futures) es ≤ waiting futures es
unfolding waiting
waiting-cancel fut futures [] = omega arith
waiting-cancel fut futures (e ∷ es) =
    ground (
      arith,
      get-set fut e.item cancelled futures,
      eq_iff fut e.item,
      waiting-cancel fut futures es,
    )

cancel-IsFair : (fut : ℕ) (s : AsyncFairScheduler) → IsFair s → IsFair (cancel fut s)
unfolding cancel
cancel-IsFair fut s v = elim (Option-cases (Dict.get fut s.futures)) [
  | inl absent ↦ rw (absent, cancel) v
  | inr (pending, found) ↦
      rw (found, cancel)
        (record {
          within = v.within;
          busy = λ h. v.busy (let le = waiting-cancel fut s.futures s.wfq.heap in omega arith);
        })
  | inr (granted, found) ↦ rw (found, cancel) (release_one-IsFair s v)
  | inr (cancelled, found) ↦ rw (found, cancel) v
]

pub data Call : Type 0 where
  acquires : Text → Call
  releases : Call
  cancels : ℕ → Call

unfoldable pub apply : Call → AsyncFairScheduler → AsyncFairScheduler
apply (acquires cls) s = (acquire cls s).0
apply releases s = release s
apply (cancels fut) s = cancel fut s

unfoldable pub run : List Call → AsyncFairScheduler → AsyncFairScheduler
unfolding apply
run [] s = s
run (c ∷ cs) s = run cs (apply c s)

apply-IsFair : (c : Call) (s : AsyncFairScheduler) → IsFair s → IsFair (apply c s)
unfolding apply
apply-IsFair (acquires cls) s v = acquire-IsFair cls s v
apply-IsFair releases s v = release_one-IsFair s v
apply-IsFair (cancels fut) s v = cancel-IsFair fut s v

run_from : (cs : List Call) (s : AsyncFairScheduler) → IsFair s → IsFair (run cs s)
unfolding run
run_from [] s v = v
run_from (c ∷ cs) s v = run_from cs (apply c s) (apply-IsFair c s v)

-- After any sequence of acquisitions, releases and cancellations of waiters, no more slots are in use
-- than the scheduler has; and while a waiter that has not been cancelled is parked, all are in use.
pub run-IsFair :
    (n : ℕ) (weights : Dict Text ℕ) (d cost : ℕ) (cs : List Call)
    → IsFair (run cs (init n weights d cost))
run-IsFair n weights d cost cs = run_from cs _ (init-IsFair n weights d cost)
