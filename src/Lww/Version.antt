-- ===== src/Lww/Version.antt =====
-- A version of a backend's entry, ordered by Lamport timestamp and then by replica id, and the
-- adoption of a newer version, which `apply` of both classes does.
use llm_inference.Base.{
  ℕ, ◌≡◌, Bool, true, false, ◌&&◌, ◌||◌, Option, none, some, ltb, ◌==◌, nat_eq, eq_iff,
  if◌then◌else◌, arith,
}
use llm_inference.Base.Text.{
  Text, text_eq, text_ltb, text_ltb_irrefl, text_ltb_trans, text_ltb_total,
}
use llm_inference.Base.Dict
use llm_inference.Base.Dict.{Dict, get-set}

pub record Version {ℓ} (V : Type ℓ) : Type ℓ where
  pub value : V
  pub ts : ℕ
  pub origin : Text

module _ {ℓ} {V : Type ℓ} where
  -- `(ts, origin) > (cur.ts, cur.origin)`
  unfoldable pub newer : Version V → Version V → Bool
  newer a b = ltb b.ts a.ts || (a.ts == b.ts && text_ltb b.origin a.origin)

  -- `cur is None or (ts, origin) > cur`
  unfoldable pub beats : Version V → Option (Version V) → Bool
  unfolding newer
  beats v none = true
  beats v (some c) = newer v c

  unfoldable pub adopt : Text → Version V → Dict Text (Version V) → Dict Text (Version V)
  unfolding beats
  adopt id v d = if beats v (Dict.get id d) then Dict.set id v d else d

  -- The winner of a current version, if there is one, and an incoming one.
  abbrev pub join : Option (Version V) → Version V → Version V
  join none v = v
  join (some c) v = if newer v c then v else c

  pub get-adopt :
      (id k : Text) (v : Version V) (d : Dict Text (Version V))
      → Dict.get k (adopt id v d)
        ≡ (if id == k then some (join (Dict.get id d) v) else Dict.get k d)
  unfolding adopt
  get-adopt id k v d = ground (arith, eq_iff id k, get-set id k v d)

  pub newer_irrefl : (a : Version V) → newer a a ≡ false
  unfolding newer
  newer_irrefl a = ground (arith, text_ltb_irrefl a.origin)

  pub newer_trans : (a b c : Version V) → newer a b ≡ true → newer b c ≡ true → newer a c ≡ true
  unfolding newer
  newer_trans a b c p q = ground (arith, text_ltb_trans c.origin b.origin a.origin)

  -- Two versions that do not beat one another carry the same timestamp and replica id.
  pub newer_total :
      (a b : Version V)
      → newer a b ≡ false
      → newer b a ≡ false
      → (a.ts ≡ b.ts) × (a.origin ≡ b.origin)
  unfolding newer
  newer_total a b p q = ground (arith, text_ltb_total a.origin b.origin)

  pub not-newer_trans :
      (a b c : Version V) → newer a b ≡ false → newer b c ≡ false → newer a c ≡ false
  unfolding newer
  not-newer_trans a b c p q = ground (
    arith,
    text_ltb_trans c.origin a.origin b.origin,
    text_ltb_trans c.origin b.origin a.origin,
    text_ltb_trans b.origin c.origin a.origin,
    text_ltb_total a.origin b.origin,
    text_ltb_total b.origin c.origin,
  )

  pub newer_asym : (a b : Version V) → newer a b ≡ true → newer b a ≡ false
  newer_asym a b p = ground (arith, newer_trans a b a, newer_irrefl a)

  -- The winner is beaten by neither of the two.
  pub join_top_left : (c v : Version V) → newer c (join (some c) v) ≡ false
  join_top_left c v = ground (arith, newer_irrefl c, newer_asym v c)

  pub join_top_right : (o : Option (Version V)) (v : Version V) → newer v (join o v) ≡ false
  join_top_right none v = newer_irrefl v
  join_top_right (some c) v = ground (arith, newer_irrefl v)
