-- ===== src/Hashing/Bpe.antt =====
-- gateway/extensions/bpe_hashing.py: block hashes and token counts by a tokenizer, with the
-- fallback to characters. The tokenizers library is a parameter: `from_pretrained name` is `none`
-- where the library is missing or the model cannot be loaded, and `encode_ids` gives the token ids.
use llm_inference.Base.{
  ℕ, ◌/◌, ◌%◌, min, max, Bool, true, false, Option, none, some, List, [], ◌∷◌, length, ◌==◌,
  if◌then◌else◌,
}
use llm_inference.Base.Text.{Text, text_eq}
use llm_inference.Hashing.{fnv_offset, mix_all, to_bytes, chain, word, block_hashes}

pub data Mode : Type 0 where
  bpe : Mode
  char : Mode

-- The bytes of a token are folded into the hash one token after the other.
unfoldable pub mix_tokens : ℕ → List ℕ → ℕ
mix_tokens h [] = h
mix_tokens h (tid ∷ ids) = mix_tokens (mix_all h (to_bytes 4 tid)) ids

unfoldable pub hash_token_block : ℕ → List ℕ → ℕ
hash_token_block prev ids = mix_tokens (mix_all fnv_offset (to_bytes 8 prev)) ids

module _ {Tokenizer : Type 0} (from_pretrained : Text → Option Tokenizer)
    (encode_ids : Tokenizer → Text → List ℕ) where
  -- The tokenizer that is loaded, with its name.
  abbrev pub Loaded : Type 0
  Loaded = Option (Text × Tokenizer)

  abbrev load_new : Loaded → Text → Option Tokenizer → Loaded × Option Tokenizer
  load_new loaded name none = (loaded, none)
  load_new loaded name (some tok) = (some (name, tok), some tok)

  -- `none` in the second place is the exception `TokenizerUnavailable`, here and below.
  unfoldable pub load_tokenizer : Loaded → Text → Loaded × Option Tokenizer
  load_tokenizer none name = load_new none name (from_pretrained name)
  load_tokenizer (some (old, tok)) name =
      if old == name
      then (some (old, tok), some tok)
      else load_new (some (old, tok)) name (from_pretrained name)

  abbrev ids_by : Text → Option Tokenizer → Option (List ℕ)
  ids_by prompt none = none
  ids_by prompt (some tok) = some (encode_ids tok prompt)

  unfoldable pub tokenize_ids : Loaded → Text → Text → Loaded × Option (List ℕ)
  tokenize_ids loaded prompt name =
      let (after, tok) = load_tokenizer loaded name in (after, ids_by prompt tok)

  abbrev heuristic : Text → ℕ → ℕ
  heuristic prompt chars_per_token = max 1 (length prompt / max 1 chars_per_token)

  abbrev count_or : ℕ → Option (List ℕ) → ℕ × Mode
  count_or other none = (other, char)
  count_or other (some ids) = (max 1 (length ids), bpe)

  unfoldable pub count_tokens_with_fallback : Loaded → Text → ℕ → Text → Bool → Loaded × ℕ × Mode
  count_tokens_with_fallback loaded prompt chars_per_token name false =
      (loaded, heuristic prompt chars_per_token, char)
  count_tokens_with_fallback loaded prompt chars_per_token name true =
      let (after, ids) = tokenize_ids loaded prompt name in
      let (n, mode) = count_or (heuristic prompt chars_per_token) ids in (after, n, mode)

  abbrev pub token_blocks : ℕ → ℕ → ℕ → List ℕ → List ℕ
  token_blocks block_tokens cutoff_blocks seed ids =
      chain hash_token_block block_tokens (min (length ids / block_tokens) cutoff_blocks) ids
        (seed % word)

  abbrev blocks_of : ℕ → ℕ → ℕ → Option (List ℕ) → Option (List ℕ)
  blocks_of block_tokens cutoff_blocks seed none = none
  blocks_of block_tokens cutoff_blocks seed (some ids) =
      some (token_blocks block_tokens cutoff_blocks seed ids)

  unfoldable pub bpe_block_hashes : Loaded → Text → ℕ → ℕ → Text → ℕ → Loaded × Option (List ℕ)
  bpe_block_hashes loaded prompt block_tokens cutoff_blocks name seed =
      let (after, ids) = tokenize_ids loaded prompt name in
      (after, blocks_of block_tokens cutoff_blocks seed ids)

  abbrev hashes_or : List ℕ → Option (List ℕ) → List ℕ × Mode
  hashes_or other none = (other, char)
  hashes_or other (some hashes) = (hashes, bpe)

  unfoldable pub block_hashes_with_fallback :
      Loaded → Text → ℕ → ℕ → ℕ → Text → Bool → ℕ → Loaded × List ℕ × Mode
  block_hashes_with_fallback loaded prompt block_chars block_tokens cutoff name false seed =
      (loaded, block_hashes prompt block_chars cutoff seed, char)
  block_hashes_with_fallback loaded prompt block_chars block_tokens cutoff name true seed =
      let (after, hashes) = bpe_block_hashes loaded prompt block_tokens cutoff name seed in
      let (out, mode) = hashes_or (block_hashes prompt block_chars cutoff seed) hashes in
      (after, out, mode)
