-- ===== src/Tenancy/Bucket.antt =====
-- gateway/tenancy.py: what a token bucket holds and grants.
use native.Mathlib.Nat.{add-mul}
use llm_inference.Base.{
  ℕ, ◌+◌, ◌-◌, ◌*◌, ◌≡◌, ◌≤◌, Bool, true, false, List, [], ◌∷◌, ltb, arith, inl, inr, Bool-cases,
}
use llm_inference.Base.Int.{ℤ, pos, ◌+ℤ◌, ◌≤ℤ◌, leb_ℤ, int_laws}
use llm_inference.Tenancy.{TokenBucket, new_bucket, replenish, try_consume, adjust}

abbrev pub IsBounded : TokenBucket → Type 0
IsBounded b = b.tokens ≤ℤ pos b.capacity

pub replenish-IsBounded : (now : ℕ) (b : TokenBucket) → IsBounded b → IsBounded (replenish now b)
unfolding replenish ◌+ℤ◌
replenish-IsBounded now b h = ground arith

pub adjust-IsBounded : (delta : ℤ) (b : TokenBucket) → IsBounded (adjust delta b)
unfolding adjust ◌+ℤ◌
adjust-IsBounded delta b = ground arith

-- One step of a bucket: what it grants.
abbrev pub granted : ℕ → Bool → ℕ
granted n true = n
granted n false = 0

replenish-le :
    (now : ℕ) (b : TokenBucket)
    → (replenish now b).tokens +ℤ pos (b.ts * b.refill)
      ≤ℤ b.tokens +ℤ pos ((replenish now b).ts * b.refill)
unfolding replenish ◌+ℤ◌
replenish-le now b = elim (Bool-cases (ltb b.ts now)) [
  | inl later ↦
      let split : now * b.refill ≡ (now - b.ts) * b.refill + b.ts * b.refill =
        ground (arith, add-mul (now - b.ts) b.ts b.refill) in
      rw later (ground arith)
  | inr same ↦ rw same (ground arith)
]

try_consume-le :
    (n now : ℕ) (b : TokenBucket)
    → (try_consume (pos n) now b).0.tokens
        +ℤ pos (granted n (try_consume (pos n) now b).1 + b.ts * b.refill)
      ≤ℤ b.tokens +ℤ pos ((try_consume (pos n) now b).0.ts * b.refill)
unfolding try_consume
try_consume-le n now b = elim (Bool-cases (leb_ℤ (pos n) (replenish now b).tokens)) [
  | inl enough ↦ rw enough (omega (int_laws, replenish-le now b))
  | inr short ↦ rw short (omega (int_laws, replenish-le now b))
]

try_consume-refill : (n now : ℕ) (b : TokenBucket) → (try_consume (pos n) now b).0.refill ≡ b.refill
unfolding try_consume replenish
try_consume-refill n now b = ground arith

-- The tokens that a sequence of requests (a size and a time each) is granted, and the bucket left.
unfoldable pub run : List (ℕ × ℕ) → TokenBucket → TokenBucket × ℕ
run [] b = (b, 0)
run ((n, now) ∷ rs) b =
    let (b', ok) = try_consume (pos n) now b in
    let (last, sum) = run rs b' in (last, granted n ok + sum)

pub run-le :
    (rs : List (ℕ × ℕ)) (b : TokenBucket)
    → (run rs b).0.tokens +ℤ pos ((run rs b).1 + b.ts * b.refill)
      ≤ℤ b.tokens +ℤ pos ((run rs b).0.ts * b.refill)
unfolding run
run-le [] b = ground arith
run-le ((n, now) ∷ rs) b =
    let b' = (try_consume (pos n) now b).0 in
    let rest = rw (try_consume-refill n now b) at (run-le rs b') in
    omega (int_laws, try_consume-le n now b, rest)

replenish-tokens :
    (now : ℕ) (b : TokenBucket) → pos 0 ≤ℤ b.tokens → pos 0 ≤ℤ (replenish now b).tokens
unfolding replenish ◌+ℤ◌
replenish-tokens now b h = elim (Bool-cases (ltb b.ts now)) [
  | inl later ↦ rw later (ground arith)
  | inr same ↦ rw same h
]

-- A bucket without debt never gets into debt.
try_consume-tokens :
    (n now : ℕ) (b : TokenBucket)
    → pos 0 ≤ℤ b.tokens
    → pos 0 ≤ℤ (try_consume (pos n) now b).0.tokens
unfolding try_consume
try_consume-tokens n now b h = elim (Bool-cases (leb_ℤ (pos n) (replenish now b).tokens)) [
  | inl enough ↦
      let fits : pos n ≤ℤ (replenish now b).tokens = ground (arith, enough) in
      rw enough (omega (int_laws, fits))
  | inr short ↦ rw short (replenish-tokens now b h)
]

run-tokens :
    (rs : List (ℕ × ℕ)) (b : TokenBucket) → pos 0 ≤ℤ b.tokens → pos 0 ≤ℤ (run rs b).0.tokens
unfolding run
run-tokens [] b h = h
run-tokens ((n, now) ∷ rs) b h =
    run-tokens rs (try_consume (pos n) now b).0 (try_consume-tokens n now b h)

-- Whatever is asked of a fresh bucket, and when, the tokens that it grants come to no more than its
-- capacity and what is refilled up to the last request that advanced its clock; and it never owes
-- tokens. The sizes of the requests are not negative.
pub granted_le :
    (capacity refill : ℕ) (rs : List (ℕ × ℕ))
    → ((run rs (new_bucket capacity refill)).1
        ≤ capacity + (run rs (new_bucket capacity refill)).0.ts * refill)
      × (pos 0 ≤ℤ (run rs (new_bucket capacity refill)).0.tokens)
granted_le capacity refill rs =
    let le = run-le rs (new_bucket capacity refill) in
    let free = run-tokens rs (new_bucket capacity refill) (ground arith) in
    (omega (int_laws, le, free), free)
