-- ===== src/Hashing/Chain.antt =====
-- gateway/hashing.py: the number and the size of the hashes, and the hashes of a longer prompt.
use llm_inference.Base.{
  ℕ, zero, suc, ◌+◌, ◌*◌, ◌/◌, ◌%◌, ◌≤◌, ◌<◌, ◌≡◌, refl, sym, ap, ◌∙◌, min, List, [], ◌∷◌, ◌++◌,
  length, length-append, length-drop, take, drop, All, arith,
}
use mathlib.Core.List.{append_assoc}
use native.Mathlib.Nat.{suc-mul, div-mul-le_self, le-div_iff_mul-le}
use llm_inference.Base.Text.{Text}
use llm_inference.Hashing.{
  mix, mix_all, fnv_offset, fnv1a, word, encode, encode_code, hash_block, chain, block_hashes,
}

pub length-chain {ℓ} :
    {A : Type ℓ} (hash : ℕ → List A → ℕ) (size n : ℕ) (units : List A) (prev : ℕ)
    → length (chain hash size n units prev) ≡ n
unfolding chain
length-chain hash size zero units prev = refl
length-chain hash size (suc n) units prev =
    ap suc (length-chain hash size n (drop size units) (hash prev (take size units)))

-- A prompt has a hash for each full block of its UTF-8 bytes, up to the cutoff.
pub length-block_hashes :
    (prompt : Text) (size cutoff seed : ℕ)
    → length (block_hashes prompt size cutoff seed) ≡ min (length (encode prompt) / size) cutoff
unfolding block_hashes
length-block_hashes prompt size cutoff seed = length-chain hash_block size _ (encode prompt) _

mix-lt : (h byte : ℕ) → mix h byte < word
unfolding mix
mix-lt h byte = omega arith

mix_all-lt : (h : ℕ) (bytes : List ℕ) → h < word → mix_all h bytes < word
unfolding mix_all
mix_all-lt h [] lt = lt
mix_all-lt h (byte ∷ bytes) lt = mix_all-lt (mix h byte) bytes (mix-lt h byte)

pub fnv1a-lt : (bytes : List ℕ) → fnv1a bytes < word
unfolding fnv1a
fnv1a-lt bytes = mix_all-lt fnv_offset bytes (omega arith)

pub chain-All {ℓ} :
    {A : Type ℓ} (hash : ℕ → List A → ℕ) (size n : ℕ) (units : List A) (prev : ℕ)
    → ((p : ℕ) (xs : List A) → hash p xs < word)
    → All (λ h. h < word) (chain hash size n units prev)
unfolding chain
chain-All hash size zero units prev lt = tt
chain-All hash size (suc n) units prev lt =
    (lt prev (take size units), chain-All hash size n (drop size units) _ lt)

-- Every hash is a 64-bit number, which the next block's `to_bytes(8)` takes without an overflow.
pub block_hashes-lt :
    (prompt : Text) (size cutoff seed : ℕ)
    → All (λ h. h < word) (block_hashes prompt size cutoff seed)
unfolding block_hashes hash_block
block_hashes-lt prompt size cutoff seed =
    chain-All hash_block size _ (encode prompt) _ (λ p xs. fnv1a-lt _)

take-append {ℓ} :
    {A : Type ℓ} (n : ℕ) (xs ys : List A) → n ≤ length xs → take n (xs ++ ys) ≡ take n xs
take-append zero xs ys h = refl
take-append (suc n) [] ys h = ground arith
take-append (suc n) (x ∷ xs) ys h = ap (x ∷◌) (take-append n xs ys (omega arith))

drop-append {ℓ} :
    {A : Type ℓ} (n : ℕ) (xs ys : List A) → n ≤ length xs → drop n (xs ++ ys) ≡ drop n xs ++ ys
drop-append zero xs ys h = refl
drop-append (suc n) [] ys h = ground arith
drop-append (suc n) (x ∷ xs) ys h = drop-append n xs ys (omega arith)

pub chain-append {ℓ} :
    {A : Type ℓ} (hash : ℕ → List A → ℕ) (size n : ℕ) (xs ys : List A) (prev : ℕ)
    → n * size ≤ length xs
    → chain hash size n (xs ++ ys) prev ≡ chain hash size n xs prev
unfolding chain
chain-append hash size zero xs ys prev h = refl
chain-append hash size (suc n) xs ys prev h =
    let fits : n * size + size ≤ length xs = rw (sym (suc-mul n size)) h in
    let le : size ≤ length xs = omega arith in
    rw (take-append size xs ys le, drop-append size xs ys le)
      (ap (hash prev (take size xs) ∷◌)
        (chain-append hash size n (drop size xs) ys _ (omega (arith, length-drop size xs))))

pub take-chain {ℓ} :
    {A : Type ℓ} (hash : ℕ → List A → ℕ) (size k n : ℕ) (units : List A) (prev : ℕ)
    → k ≤ n
    → take k (chain hash size n units prev) ≡ chain hash size k units prev
unfolding chain
take-chain hash size zero n units prev h = refl
take-chain hash size (suc k) zero units prev h = ground arith
take-chain hash size (suc k) (suc n) units prev h =
    ap (hash prev (take size units) ∷◌) (take-chain hash size k n (drop size units) _ (omega arith))

encode-append : (s t : Text) → encode (s ++ t) ≡ encode s ++ encode t
unfolding encode
encode-append [] t = refl
encode-append (c ∷ s) t =
    ap (encode_code c ++◌) (encode-append s t)
    ∙ sym (append_assoc (encode_code c) (encode s) (encode t))

-- A prompt that continues another one begins with all the hashes of the other: a shared prefix is
-- found as far as it fills blocks.
pub block_hashes-append :
    (s t : Text) (size cutoff seed : ℕ)
    → 0 < size
    → take (length (block_hashes s size cutoff seed)) (block_hashes (s ++ t) size cutoff seed)
      ≡ block_hashes s size cutoff seed
unfolding block_hashes
block_hashes-append s t size cutoff seed pos =
    let n : ℕ = min (length (encode s) / size) cutoff in
    let shorter : length (encode s) / size ≤ length (encode s ++ encode t) / size =
      (le-div_iff_mul-le pos).1 (
        omega
          (arith, div-mul-le_self (length (encode s)) size, length-append (encode s) (encode t))) in
    let inside : n * size ≤ length (encode s) = (le-div_iff_mul-le pos).0 (omega arith) in
    rw (length-chain hash_block size n (encode s) (seed % word), encode-append s t)
      (take-chain hash_block size n _ (encode s ++ encode t) _ (omega arith)
        ∙ chain-append hash_block size n (encode s) (encode t) _ inside)
