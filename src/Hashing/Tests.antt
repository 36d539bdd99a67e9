-- ===== src/Hashing/Tests.antt =====
-- Concrete prompts.
use llm_inference.Base.{◌≡◌, ◌++◌, arith, length, take}
use llm_inference.Base.Text.{text}
use llm_inference.Hashing.{block_hashes}
use llm_inference.Hashing.Chain.{block_hashes-append}

block_hashes-append_example :
    take
      (length (block_hashes (text "You are") 4 3 7))
      (block_hashes (text "You are" ++ text " an agent.") 4 3 7)
    ≡ block_hashes (text "You are") 4 3 7
block_hashes-append_example =
    block_hashes-append (text "You are") (text " an agent.") 4 3 7 (omega arith)
