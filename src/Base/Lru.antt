-- ===== src/Base/Lru.antt =====
-- `OrderedDict` as a least-recently-used table: a use moves its key to the end, and a loop pops
-- entries from the front while there are too many.
use llm_inference.Base.Tests.{ltb, if◌then◌else◌, Bool-cases}
use llm_inference.Base.Lists.{length, length-append, drop}
use llm_inference.Base.Classes.{Eq, ◌==◌}
use llm_inference.Base.Dict.{
  Dict, get, set, remove, move_to_end, IsDict, get-set, get-remove, get-append, set-IsDict,
  move_to_end-IsDict,
}
use Prim.Native.Nat.{ℕ, suc, ◌-◌, ◌≤◌, ◌<◌}
use mathlib.Core.List.{[], ◌∷◌, ◌++◌}
use mathlib.Core.Option.{none, some}
use mathlib.Core.Path.{◌≡◌, refl}
use mathlib.Core.Logic.{inl, inr}
use native.Mathlib.Omega.{arith}

module _ {ℓ κ} {K : Type ℓ} {V : Type κ} where
  -- `while len(d) > cap: d.popitem(last=False)`
  unfoldable pub evict : ℕ → Dict K V → Dict K V
  evict cap [] = []
  evict cap (x ∷ d) = let rest = evict cap d in if ltb cap (suc (length d)) then rest else x ∷ d

  pub length-evict-le : (cap : ℕ) (d : Dict K V) → length (evict cap d) ≤ cap
  unfolding evict
  length-evict-le cap [] = omega arith
  length-evict-le cap (x ∷ d) = ground (arith, length-evict-le cap d)

  -- What is popped stands at the front, and no more is popped than needed.
  pub evict-drop : (cap : ℕ) (d : Dict K V) → evict cap d ≡ drop (length d - cap) d
  unfolding evict
  evict-drop cap [] = ground arith
  evict-drop cap (x ∷ d) = elim (Bool-cases (ltb cap (suc (length d)))) [
    | inl over ↦
        let e : suc (length d) - cap ≡ suc (length d - cap) = ground arith in
        rw (over, e) (evict-drop cap d)
    | inr fits ↦ let e : suc (length d) - cap ≡ 0 = ground arith in rw (fits, e)
  ]

module _ {ℓ κ} {K : Type ℓ} {V : Type κ} ⦃e : Eq K⦄ where
  -- `d[k] = v; d.move_to_end(k)`
  unfoldable pub touch : K → V → Dict K V → Dict K V
  touch k v d = move_to_end k (set k v d)

  remove-set : (k : K) (v : V) (d : Dict K V) → remove k (set k v d) ≡ remove k d
  unfolding remove set
  remove-set k v [] = ground (arith, e.beq_iff k k)
  remove-set k v ((j, w) ∷ d) = ground (arith, e.beq_iff k k, e.beq_iff j k, remove-set k v d)

  pub touch-snoc : (k : K) (v : V) (d : Dict K V) → touch k v d ≡ remove k d ++ (k, v) ∷ []
  unfolding touch move_to_end
  touch-snoc k v d = ground (arith, remove-set k v d, get-set k k v d, e.beq_iff k k)

  pub get-touch :
      (k j : K) (v : V) (d : Dict K V) → get j (touch k v d) ≡ (if k == j then some v else get j d)
  unfolding get
  get-touch k j v d =
      ground (arith, touch-snoc k v d, get-append j (remove k d) ((k, v) ∷ []), get-remove k j d)

  pub touch-IsDict : (k : K) (v : V) (d : Dict K V) → IsDict d → IsDict (touch k v d)
  unfolding touch
  touch-IsDict k v d h = move_to_end-IsDict k (set k v d) (set-IsDict k v d h)

  pub evict-IsDict : (cap : ℕ) (d : Dict K V) → IsDict d → IsDict (evict cap d)
  unfolding evict
  evict-IsDict cap [] h = tt
  evict-IsDict cap ((k, v) ∷ d) h = ground (arith, evict-IsDict cap d h.1)

  get-evict_absent : (cap : ℕ) (k : K) (d : Dict K V) → get k d ≡ none → get k (evict cap d) ≡ none
  unfolding evict get
  get-evict_absent cap k [] h = refl
  get-evict_absent cap k ((j, w) ∷ d) h = ground (arith, get-evict_absent cap k d)

  -- What an eviction leaves at a key is what stood there.
  pub get-evict :
      (cap : ℕ) (k : K) (d : Dict K V) (v : V)
      → IsDict d
      → get k (evict cap d) ≡ some v
      → get k d ≡ some v
  unfolding evict get
  get-evict cap k [] v h p = p
  get-evict cap k ((j, w) ∷ d) v h p =
      ground (arith, e.beq_iff j k, get-evict cap k d v h.1, get-evict_absent cap k d)

  -- The entry at the end stays if there is room for one.
  pub evict-snoc :
      (cap : ℕ) (x : K × V) (d : Dict K V)
      → 0 < cap
      → evict cap (d ++ x ∷ []) ≡ evict (cap - 1) d ++ x ∷ []
  unfolding evict
  evict-snoc cap x [] h = ground arith
  evict-snoc cap x (y ∷ d) h = ground (arith, evict-snoc cap x d h, length-append d (x ∷ []))

  -- After a use with room for one, the key is there with the value that was written.
  pub get-evict-touch :
      (cap : ℕ) (k : K) (v : V) (d : Dict K V) → 0 < cap → get k (evict cap (touch k v d)) ≡ some v
  unfolding get
  get-evict-touch cap k v d h = ground (
    arith,
    touch-snoc k v d,
    evict-snoc cap (k, v) (remove k d) h,
    get-append k (evict (cap - 1) (remove k d)) ((k, v) ∷ []),
    get-evict_absent (cap - 1) k (remove k d),
    get-remove k k d,
    e.beq_iff k k,
  )

  -- With room for all, nothing is evicted.
  pub evict_room : (cap : ℕ) (d : Dict K V) → length d ≤ cap → evict cap d ≡ d
  unfolding evict
  evict_room cap [] h = refl
  evict_room cap (x ∷ d) h = ground arith
