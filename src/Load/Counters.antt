-- ===== src/Load/Counters.antt =====
-- gateway/load_tracker.py: the counters against the history of the reports, and the KV usage.
use llm_inference.Base.{
  ℕ, suc, ◌+◌, ◌-◌, ◌*◌, ◌/◌, ◌≤◌, ◌≡◌, refl, ap, List, [], ◌∷◌, arith, ◌==◌, eq_iff, if◌then◌else◌,
}
use llm_inference.Base.Text.{Text, text_eq}
use llm_inference.Base.Dict
use llm_inference.Base.Dict.{Dict, get_or-set}
use llm_inference.Load.{
  LoadTracker, init, one, inflight_of, tokens_of, kv_of, on_dispatch, on_complete, update_scraped,
}

-- What the request path reports; the newest report comes first.
pub data Report : Type 0 where
  dispatched : Text → ℕ → Report
  completed : Text → ℕ → Report

unfoldable pub run : List Report → LoadTracker
run [] = init
run (dispatched b tokens ∷ h) = on_dispatch b tokens (run h)
run (completed b tokens ∷ h) = on_complete b tokens (run h)

-- Requests and tokens of a backend that were dispatched, and that were completed.
abbrev pub started : Text → List Report → ℕ
started b [] = 0
started b (dispatched c tokens ∷ h) = if c == b then suc (started b h) else started b h
started b (completed c tokens ∷ h) = started b h

abbrev pub finished : Text → List Report → ℕ
finished b [] = 0
finished b (dispatched c tokens ∷ h) = finished b h
finished b (completed c tokens ∷ h) = if c == b then suc (finished b h) else finished b h

abbrev pub started_tokens : Text → List Report → ℕ
started_tokens b [] = 0
started_tokens b (dispatched c tokens ∷ h) =
    if c == b then started_tokens b h + tokens else started_tokens b h
started_tokens b (completed c tokens ∷ h) = started_tokens b h

abbrev pub finished_tokens : Text → List Report → ℕ
finished_tokens b [] = 0
finished_tokens b (dispatched c tokens ∷ h) = finished_tokens b h
finished_tokens b (completed c tokens ∷ h) =
    if c == b then finished_tokens b h + tokens else finished_tokens b h

-- At no time had more been completed than dispatched.
abbrev pub IsOrderly : Text → List Report → Type 0
IsOrderly b [] = Unit
IsOrderly b (r ∷ h) =
    (finished b (r ∷ h) ≤ started b (r ∷ h))
    × (finished_tokens b (r ∷ h) ≤ started_tokens b (r ∷ h))
    × IsOrderly b h

-- If completions never run ahead of dispatches at a backend, its counters are the requests and the
-- tokens that are dispatched and not completed.
pub counters-run :
    (b : Text) (h : List Report)
    → IsOrderly b h
    → (inflight_of (run h) b + finished b h ≡ started b h)
      × (tokens_of (run h) b + finished_tokens b h ≡ started_tokens b h)
unfolding run Dict.get_or on_dispatch on_complete
counters-run b [] o = (refl, refl)
counters-run b (dispatched c tokens ∷ h) o = ground (
  arith,
  eq_iff c b,
  get_or-set c b (inflight_of (run h) c + 1) 0 (run h).inflight,
  get_or-set c b (tokens_of (run h) c + tokens) 0 (run h).inflight_tokens,
  counters-run b h o.2,
)
counters-run b (completed c tokens ∷ h) o = ground (
  arith,
  eq_iff c b,
  get_or-set c b (inflight_of (run h) c - 1) 0 (run h).inflight,
  get_or-set c b (tokens_of (run h) c - tokens) 0 (run h).inflight_tokens,
  counters-run b h o.2,
)

weighted-le : (a r x y bound : ℕ) → x ≤ bound → y ≤ bound → a * x + r * y ≤ (a + r) * bound
weighted-le a r x y bound p q =
    let left : a * x ≤ a * bound = grind arith in
    let right : r * y ≤ r * bound = grind arith in omega arith

mix-le :
    (alpha x y bound : ℕ)
    → alpha ≤ one
    → x ≤ bound
    → y ≤ bound
    → (alpha * x + (one - alpha) * y) / one ≤ bound
mix-le alpha x y bound h p q = omega (
  arith,
  weighted-le alpha (one - alpha) x y bound p q,
  ap (λ (t : ℕ). t * bound) (let e : alpha + (one - alpha) ≡ one = omega arith in e),
)

-- If the weight of a scrape is at most 1, and the scraped usage and a backend's usage are at most
-- some bound, then the backend's usage after the scrape is, whichever backend was scraped.
pub kv_of-update_scraped :
    (b c : Text) (kv alpha : ℕ) (l : LoadTracker) (bound : ℕ)
    → alpha ≤ one
    → kv ≤ bound
    → kv_of l c ≤ bound
    → kv_of (update_scraped b kv alpha l) c ≤ bound
unfolding update_scraped
kv_of-update_scraped b c kv alpha l bound h p q = ground (
  arith,
  eq_iff b c,
  get_or-set b c ((alpha * kv + (one - alpha) * kv_of l b) / one) 0 l.kv_usage,
  mix-le alpha kv (kv_of l b) bound h p,
)
