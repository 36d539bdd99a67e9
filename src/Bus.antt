-- ===== src/Bus.antt =====
-- gateway/cluster/bus.py: the transport in memory, an inbox for every replica.
pub mod Delivery
mod Tests
use llm_inference.Base.{Bool, true, false, not, List, [], ◌∷◌, ◌++◌, ◌==◌, if◌then◌else◌}
use llm_inference.Base.Text.{Text, text_eq}
use llm_inference.Base.Dict
use llm_inference.Base.Dict.{Dict}

-- An event of any kind: who produced it, and what it says.
pub record Event {ℓ} (A : Type ℓ) : Type ℓ where
  pub origin : Text
  pub payload : A

module _ {ℓ} {A : Type ℓ} where
  -- `setdefault(replica_id, deque())`
  unfoldable pub register : Text → Dict Text (List (Event A)) → Dict Text (List (Event A))
  register rid m = if Dict.has rid m then m else Dict.set rid [] m

  unfoldable pub broadcast : Event A → Dict Text (List (Event A)) → Dict Text (List (Event A))
  broadcast ev [] = []
  broadcast ev ((rid, box) ∷ m) =
      (rid, if rid == ev.origin then box else box ++ ev ∷ []) ∷ broadcast ev m

  -- Returns the inboxes and what was in the one of the replica.
  unfoldable pub drain :
      Text → Dict Text (List (Event A)) → Dict Text (List (Event A)) × List (Event A)
  drain rid m = (Dict.set rid [] m, Dict.get_or rid [] m)
