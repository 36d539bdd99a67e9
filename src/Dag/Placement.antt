-- ===== src/Dag/Placement.antt =====
-- gateway/dag/scheduler.py: the placements of a schedule.
use llm_inference.Base.{◌≤◌, ◌≡◌, true, Option, some, List, [], ◌∷◌, ◌++◌, map, All, contains}
use llm_inference.Base.Text.{Text, text_eq}
use llm_inference.Base.Dict
use llm_inference.Base.Dict.{Dict, IsDict}
use llm_inference.Radix
use llm_inference.Dag.{DagNode, RequestDag}
use llm_inference.Dag.Schedule.{NodePlacement, Schedule, Planning}

-- What every placement satisfies, and the sums over the placements.
pub record IsPlaced (backends : List Text) (p : NodePlacement) : Type 0 where
  pub on_backend : contains p.backend_id backends ≡ true
  pub hits : p.match_blocks ≤ p.total_blocks

abbrev pub node_ids : List NodePlacement → List Text
node_ids = map NodePlacement.node_id

pub record IsSound (backends : List Text) (s : Planning) : Type 0 where
  pub placed : All (IsPlaced backends) s.placements
  pub hits : s.hit_blocks ≤ s.total_blocks

-- Every node stands under its own id.
abbrev pub IsNamed : RequestDag → Type 0
IsNamed [] = Unit
IsNamed ((k, n) ∷ d) = (n.id ≡ k) × IsNamed d

-- The same, by lookups.
abbrev IsKeyed : RequestDag → Type 0
IsKeyed d = (k : Text) (n : DagNode) → Dict.get k d ≡ some n → n.id ≡ k

-- The ids of all layers, one layer after the other.
abbrev pub all_ids : List (List Text) → List Text
all_ids [] = []
all_ids (l ∷ ls) = l ++ all_ids ls
