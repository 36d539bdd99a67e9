-- ===== src/Hashing.antt =====
-- gateway/hashing.py: chained hashes of the full blocks of a prompt (FNV-1a on 64 bits).
pub mod Chain
pub mod Bpe
mod Tests
use llm_inference.Base.{
  ℕ, zero, suc, ◌+◌, ◌*◌, ◌/◌, ◌%◌, ◌^◌, min, bit_xor, List, [], ◌∷◌, ◌++◌, length, take, drop, ltb,
  leb, ◌&&◌, if◌then◌else◌,
}
use llm_inference.Base.Text.{Text}

abbrev pub fnv_offset : ℕ
fnv_offset = 14695981039346656037

abbrev pub fnv_prime : ℕ
fnv_prime = 1099511628211

-- The size of the machine word: `x & _MASK` is `x % word`.
abbrev pub word : ℕ
word = 18446744073709551616

-- One byte: `h ^= byte; h = (h * _FNV_PRIME) & _MASK`.
unfoldable pub mix : ℕ → ℕ → ℕ
mix h byte = (bit_xor h byte * fnv_prime) % word

unfoldable pub mix_all : ℕ → List ℕ → ℕ
unfolding mix
mix_all h [] = h
mix_all h (byte ∷ bytes) = mix_all (mix h byte) bytes

unfoldable pub fnv1a : List ℕ → ℕ
unfolding mix_all
fnv1a bytes = mix_all fnv_offset bytes

-- UTF-8; a surrogate has no encoding and is ignored.
unfoldable pub encode_code : ℕ → List ℕ
encode_code c =
    if ltb c 128
    then c ∷ []
    else if ltb c 2048
    then (192 + c / 64) ∷ (128 + c % 64) ∷ []
    else if leb 55296 c && leb c 57343
    then []
    else if ltb c 65536
    then (224 + c / 4096) ∷ (128 + (c / 64) % 64) ∷ (128 + c % 64) ∷ []
    else (240 + c / 262144) ∷ (128 + (c / 4096) % 64) ∷ (128 + (c / 64) % 64) ∷ (128 + c % 64) ∷ []

-- `s.encode("utf-8", "ignore")`
unfoldable pub encode : Text → List ℕ
encode [] = []
encode (c ∷ s) = encode_code c ++ encode s

unfoldable pub stable_seed : Text → ℕ
stable_seed s = fnv1a (encode s)

-- `n.to_bytes(width, "little")`, for a number that fits.
unfoldable pub to_bytes : ℕ → ℕ → List ℕ
to_bytes zero n = []
to_bytes (suc width) n = (n % 256) ∷ to_bytes width (n / 256)

-- The hash of one block, after the hash of the blocks before it.
unfoldable pub hash_block : ℕ → List ℕ → ℕ
hash_block prev chunk = fnv1a (to_bytes 8 prev ++ chunk)

-- The loop over the next `n` blocks of what is left of the units, each of `size` units.
unfoldable pub chain {ℓ} : {A : Type ℓ} → (ℕ → List A → ℕ) → ℕ → ℕ → List A → ℕ → List ℕ
chain hash size zero units prev = []
chain hash size (suc n) units prev =
    let h = hash prev (take size units) in h ∷ chain hash size n (drop size units) h

-- A block size of 0 raises ZeroDivisionError in the source; the theorems ask for a positive one.
unfoldable pub block_hashes : Text → ℕ → ℕ → ℕ → List ℕ
unfolding chain
block_hashes prompt block_chars cutoff_blocks seed =
    let raw = encode prompt in
    chain hash_block block_chars (min (length raw / block_chars) cutoff_blocks) raw (seed % word)
