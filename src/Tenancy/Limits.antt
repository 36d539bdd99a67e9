-- ===== src/Tenancy/Limits.antt =====
-- gateway/tenancy.py: the in-flight count of the rate limiter.
use llm_inference.Base.{
  ℕ, ◌+◌, ◌<◌, ◌≡◌, refl, true, false, leb, eq_iff, arith, inl, inr, Bool-cases,
}
use llm_inference.Base.Int.{ℤ, pos}
use llm_inference.Base.Text.{text_eq}
use llm_inference.Base.Dict.{get_or-set}
use llm_inference.Tenancy.{
  Tenant, TokenBucket, RateLimiter, try_consume, inflight_of, tps_of, rps_of, with_buckets,
  admit_rps, admit,
}

inflight-with_buckets :
    (t s : Tenant) (a b : TokenBucket) (l : RateLimiter)
    → inflight_of (with_buckets t a b l) s ≡ inflight_of l s
unfolding with_buckets
inflight-with_buckets t s a b l = refl

-- `admit` says yes only below the tenant's cap, and then counts the request; if it says no, it counts
-- nothing.
pub admit-inflight :
    (t : Tenant) (cost : ℤ) (now : ℕ) (l : RateLimiter)
    → ((admit t cost now l).1.allowed ≡ true
        → (inflight_of l t < t.max_inflight)
          × (inflight_of (admit t cost now l).0 t ≡ inflight_of l t + 1))
      × ((admit t cost now l).1.allowed ≡ false
          → inflight_of (admit t cost now l).0 t ≡ inflight_of l t)
unfolding admit admit_rps with_buckets
admit-inflight t cost now l =
    let tps_b = try_consume cost now (tps_of l t) in
    elim (Bool-cases (leb t.max_inflight (inflight_of l t))) [
      | inl full ↦ rw (full, admit) (λ e. absurd (ground (arith, e)), λ e. refl)
      | inr room ↦ elim (Bool-cases tps_b.1) [
        | inr no_tps ↦ rw (room, no_tps, admit) (λ e. absurd (ground (arith, e)), λ e. refl)
        | inl tps_ok ↦ elim (Bool-cases (try_consume (pos 1) now (rps_of l t)).1) [
          | inr no_rps ↦
              rw (room, tps_ok, no_rps, admit, admit_rps)
                (λ e. absurd (ground (arith, e)), λ e. refl)
          | inl rps_ok ↦
              rw (room, tps_ok, rps_ok, admit, admit_rps)
                (
                  λ e. (
                    ground (arith, room),
                    ground (
                      arith,
                      get_or-set t.id t.id (inflight_of l t + 1) 0 l.inflight,
                      eq_iff t.id t.id,
                    ),
                  ),
                  λ e. absurd (ground (arith, e)),
                )
        ]
      ]
    ]
