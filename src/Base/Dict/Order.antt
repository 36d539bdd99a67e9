-- ===== src/Base/Dict/Order.antt =====
-- Keys stay distinct, and what the operations do to the order of the entries.
use mathlib.Core.List.{[], ◌∷◌, ◌++◌}
use mathlib.Core.Option.{none}
use mathlib.Core.Path.{◌≡◌, refl}
use mathlib.Core.Logic.{inl, inr}
use native.Mathlib.Omega.{arith}
use llm_inference.Base.Tests.{Option-cases}
use llm_inference.Base.Classes.{Eq}
use llm_inference.Base.Dict.Defs.{Dict, get, set, remove, move_to_end, IsDict}
use llm_inference.Base.Dict.Laws.{get-set, get-remove, get-append}

module _ {ℓ κ} {K : Type ℓ} {V : Type κ} ⦃e : Eq K⦄ where
  pub set-IsDict : (k : K) (v : V) (d : Dict K V) → IsDict d → IsDict (set k v d)
  unfolding get set
  set-IsDict k v [] h = (refl, tt)
  set-IsDict k v ((i, w) ∷ d) h =
      ground (arith, e.beq_iff i k, e.beq_iff k i, get-set k i v d, set-IsDict k v d)

  pub remove-IsDict : (k : K) (d : Dict K V) → IsDict d → IsDict (remove k d)
  unfolding get remove
  remove-IsDict k [] h = tt
  remove-IsDict k ((i, w) ∷ d) h = ground (arith, get-remove k i d, remove-IsDict k d)

  pub snoc-IsDict :
      (k : K) (v : V) (d : Dict K V) → IsDict d → get k d ≡ none → IsDict (d ++ (k, v) ∷ [])
  unfolding get
  snoc-IsDict k v [] h a = (refl, tt)
  snoc-IsDict k v ((i, w) ∷ d) h a =
      ground (arith, e.beq_iff k i, e.beq_iff i k, get-append i d ((k, v) ∷ []), snoc-IsDict k v d)

  pub move_to_end-IsDict : (k : K) (d : Dict K V) → IsDict d → IsDict (move_to_end k d)
  unfolding move_to_end
  move_to_end-IsDict k d h = elim (Option-cases (get k d)) [
    | inl absent ↦ rw (absent, move_to_end) h
    | inr (v, found) ↦
        rw (found, move_to_end)
          (snoc-IsDict k v (remove k d) (remove-IsDict k d h)
            (ground (arith, e.beq_iff k k, get-remove k k d)))
  ]

  pub tail-IsDict : (x : K × V) (d : Dict K V) → IsDict (x ∷ d) → IsDict d
  tail-IsDict (k, v) d h = h.1
