-- ===== src/Tenancy/Tests.antt =====
-- Concrete requests against the quotas.
use llm_inference.Base.{◌≤◌}
use llm_inference.Base.{ℕ, ◌≡◌, ◌<◌, ◌+◌, ◌*◌, true, false, List, [], ◌∷◌}
use llm_inference.Base.Int.{pos, ◌≤ℤ◌}
use llm_inference.Base.Text.{text}
use llm_inference.Tenancy.{Tenant, new_bucket, new_limiter, inflight_of, admit}
use llm_inference.Tenancy.Bucket.{run, granted_le}
use llm_inference.Tenancy.Limits.{admit-inflight}

abbrev asked : List (ℕ × ℕ)
asked = (4, 0) ∷ (4, 1) ∷ (2, 3) ∷ []

granted_le_example :
    ((run asked (new_bucket 5 1)).1 ≤ 5 + (run asked (new_bucket 5 1)).0.ts * 1)
    × (pos 0 ≤ℤ (run asked (new_bucket 5 1)).0.tokens)
granted_le_example = granted_le 5 1 asked

abbrev tenant : Tenant
tenant = record { id = text "acme"; rps = 5; tps = 100; max_inflight = 8; tier = text "bronze" }

admit-inflight_example :
    ((admit tenant (pos 10) 1 new_limiter).1.allowed ≡ true
      → (inflight_of new_limiter tenant < 8)
        × (inflight_of (admit tenant (pos 10) 1 new_limiter).0 tenant
            ≡ inflight_of new_limiter tenant + 1))
    × ((admit tenant (pos 10) 1 new_limiter).1.allowed ≡ false
        → inflight_of (admit tenant (pos 10) 1 new_limiter).0 tenant
          ≡ inflight_of new_limiter tenant)
admit-inflight_example = admit-inflight tenant (pos 10) 1 new_limiter
