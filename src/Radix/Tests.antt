-- ===== src/Radix/Tests.antt =====
-- A small prefix tree.
use llm_inference.Base.{
  ℕ, zero, ◌≡◌, ◌≤◌, refl, Option, none, some, List, [], ◌∷◌, arith, length, ◌==◌, if◌then◌else◌,
}
use llm_inference.Base.Text.{text_eq, text}
use llm_inference.Base.Dict
use llm_inference.Radix.{root, init, insert, remove_backend, match, match_from, held_blocks}
use llm_inference.Radix.Walk.{reach, match-reach}
use llm_inference.Radix.Bound.{held_blocks-insert}
use llm_inference.Radix.Removal.{match-remove_backend}
use llm_inference.Radix.Ownership.{held, tracked}
use llm_inference.Radix.Runs.{
  init-IsValid, run-IsValid, Change, put, run, holders-tables, match-ends,
}

abbrev changes : List Change
changes = put (1 ∷ 2 ∷ 4 ∷ []) (text "b1") ∷ put (1 ∷ 2 ∷ 3 ∷ []) (text "b0") ∷ []

abbrev hashes : List ℕ
hashes = 1 ∷ 2 ∷ 3 ∷ 9 ∷ []

match-reach_example :
    Dict.get (text "b0") (match (run (init 8) changes) hashes)
    ≡ reach (length hashes) (run (init 8) changes).heap root (text "b0") hashes
match-reach_example = match-reach (run (init 8) changes) hashes (text "b0")

held_blocks-insert_example :
    held_blocks (text "b0") (insert (1 ∷ 2 ∷ 3 ∷ []) (text "b0") (init 2)) ≤ 2
unfolding init
held_blocks-insert_example = held_blocks-insert 1 (2 ∷ 3 ∷ []) (text "b0") (init 2)

match-remove_backend_example :
    Dict.get (text "b1") (match (remove_backend (text "b0") (run (init 8) changes)) hashes)
    ≡ Dict.get (text "b1") (match (run (init 8) changes) hashes)
unfolding llm_inference.Base.list_beq
match-remove_backend_example =
    match-remove_backend (text "b0") (text "b1") (run (init 8) changes) hashes
      (run-IsValid changes (init 8) (init-IsValid 8)).owned

holders-tables_example :
    held (run (init 8) changes) (text "b0") 1 ≡ tracked (run (init 8) changes) (text "b0") 1
holders-tables_example = holders-tables 8 changes (text "b0") 1

match-ends_example :
    match_from 9 (run (init 8) changes).heap root [] none 0 hashes
    ≡ match (run (init 8) changes) hashes
match-ends_example = match-ends 8 9 changes hashes (omega arith)
