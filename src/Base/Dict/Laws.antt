-- ===== src/Base/Dict/Laws.antt =====
-- What can be read after each operation, for every key.
use Prim.Native.Nat.{◌+◌, ◌≤◌, suc}
use mathlib.Core.Bool.{true, false, not, ◌&&◌, ◌||◌}
use mathlib.Core.List.{[], ◌∷◌, ◌++◌}
use mathlib.Core.Option.{none, some}
use mathlib.Core.Path.{◌≡◌, refl}
use mathlib.Core.Logic.{inl, inr}
use native.Mathlib.Omega.{arith}
use llm_inference.Base.Tests.{if◌then◌else◌, Option-cases}
use llm_inference.Base.Classes.{Eq, ◌==◌}
use llm_inference.Base.Lists.{length, length-append}
use llm_inference.Base.Dict.Defs.{Dict, get, get_or, has, set, remove, move_to_end, IsDict}

module _ {ℓ κ} {K : Type ℓ} {V : Type κ} ⦃e : Eq K⦄ where
  pub get-set :
      (k j : K) (v : V) (d : Dict K V) → get j (set k v d) ≡ (if k == j then some v else get j d)
  unfolding get set
  get-set k j v [] = refl
  get-set k j v ((i, w) ∷ d) =
      ground (arith, e.beq_iff i k, e.beq_iff i j, e.beq_iff k j, get-set k j v d)

  pub get-remove :
      (k j : K) (d : Dict K V) → get j (remove k d) ≡ (if k == j then none else get j d)
  unfolding get remove
  get-remove k j [] = ground arith
  get-remove k j ((i, w) ∷ d) =
      ground (arith, e.beq_iff i k, e.beq_iff i j, e.beq_iff k j, get-remove k j d)

  pub get-append :
      (j : K) (d c : Dict K V)
      → get j (d ++ c) ≡ elim (get j d) [ none ↦ get j c | some v ↦ some v ]
  unfolding get
  get-append j [] c = refl
  get-append j ((i, w) ∷ d) c = ground (arith, get-append j d c)

  pub get_or-get :
      (k : K) (v : V) (d : Dict K V) → get_or k v d ≡ elim (get k d) [ none ↦ v | some w ↦ w ]
  unfolding get get_or
  get_or-get k v [] = refl
  get_or-get k v ((i, w) ∷ d) = ground (arith, get_or-get k v d)

  pub has-get : (k : K) (d : Dict K V) → has k d ≡ elim (get k d) [ none ↦ false | some w ↦ true ]
  unfolding get has
  has-get k [] = refl
  has-get k ((i, w) ∷ d) = ground (arith, has-get k d)

  pub get_or-set :
      (k j : K) (v u : V) (d : Dict K V)
      → get_or j u (set k v d) ≡ (if k == j then v else get_or j u d)
  unfolding get_or set
  get_or-set k j v u [] = refl
  get_or-set k j v u ((i, w) ∷ d) =
      ground (arith, e.beq_iff i k, e.beq_iff i j, e.beq_iff k j, get_or-set k j v u d)

  pub get-move_to_end : (k j : K) (d : Dict K V) → get j (move_to_end k d) ≡ get j d
  unfolding get move_to_end
  get-move_to_end k j d = elim (Option-cases (get k d)) [
    | inl absent ↦ rw (absent, move_to_end) refl
    | inr (v, found) ↦
        rw (found, move_to_end)
          (ground (arith, e.beq_iff k j, get-append j (remove k d) ((k, v) ∷ []), get-remove k j d))
  ]

module _ {ℓ κ} {K : Type ℓ} {V : Type κ} ⦃e : Eq K⦄ where
  pub remove_absent : (k : K) (d : Dict K V) → get k d ≡ none → remove k d ≡ d
  unfolding get remove
  remove_absent k [] h = refl
  remove_absent k ((i, w) ∷ d) h = ground (arith, remove_absent k d)

  pub length-remove-le : (k : K) (d : Dict K V) → length (remove k d) ≤ length d
  unfolding remove
  length-remove-le k [] = omega arith
  length-remove-le k ((i, w) ∷ d) = ground (arith, length-remove-le k d)

  pub length-set-le : (k : K) (v : V) (d : Dict K V) → length (set k v d) ≤ length d + 1
  unfolding set
  length-set-le k v [] = omega arith
  length-set-le k v ((i, w) ∷ d) = ground (arith, length-set-le k v d)

  length-remove_present :
      (k : K) (d : Dict K V) (v : V)
      → IsDict d
      → get k d ≡ some v
      → suc (length (remove k d)) ≡ length d
  unfolding get remove
  length-remove_present k [] v h p = ground arith
  length-remove_present k ((i, w) ∷ d) v h p =
      ground (arith, e.beq_iff i k, remove_absent k d, length-remove_present k d v h.1)

  pub length-move_to_end : (k : K) (d : Dict K V) → IsDict d → length (move_to_end k d) ≡ length d
  unfolding move_to_end
  length-move_to_end k d h = elim (Option-cases (get k d)) [
    | inl absent ↦ rw (absent, move_to_end) refl
    | inr (v, found) ↦
        rw (found, move_to_end)
          (ground
            (arith, length-append (remove k d) ((k, v) ∷ []), length-remove_present k d v h found))
  ]

module _ {ℓ κ} {K : Type ℓ} {V : Type κ} ⦃e : Eq K⦄ where
  pub has-set : (k j : K) (v : V) (d : Dict K V) → has j (set k v d) ≡ (k == j || has j d)
  has-set k j v d = ground (arith, has-get j (set k v d), has-get j d, get-set k j v d)

  pub has-remove : (k j : K) (d : Dict K V) → has j (remove k d) ≡ (not (k == j) && has j d)
  has-remove k j d = ground (arith, has-get j (remove k d), has-get j d, get-remove k j d)

  pub has-move_to_end : (k j : K) (d : Dict K V) → has j (move_to_end k d) ≡ has j d
  has-move_to_end k j d =
      ground (arith, has-get j (move_to_end k d), has-get j d, get-move_to_end k j d)

  pub get_or-remove :
      (k j : K) (u : V) (d : Dict K V)
      → get_or j u (remove k d) ≡ (if k == j then u else get_or j u d)
  get_or-remove k j u d =
      ground (arith, get_or-get j u (remove k d), get_or-get j u d, get-remove k j d)
