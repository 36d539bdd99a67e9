-- ===== src/Server/Targets.antt =====
-- gateway/server.py: the candidates of a request, from the registry to its target.
use mathlib.Core.Option.{some-injective, none-ne-some}
use llm_inference.Base.{
  ℕ, ◌≡◌, sym, ap, inl, inr, Bool, true, Option, none, some, List, [], ◌∷◌, All, arith, eq_iff,
  contains, Bool-cases, Option-cases, map_option,
}
use llm_inference.Base.Text.{Text, text_eq}
use llm_inference.Base.Dict
use llm_inference.Base.Dict.{Dict, get_or-set, has-get}
use llm_inference.Registry.{BackendRegistry, ids_for, lora_filter, has_adapter, parse_model_spec}
use llm_inference.Registry.Laws.{IsValid, is_routable_at, contains-ids_for}
use llm_inference.Session
use llm_inference.Session.Laws.{pick_sound}
use llm_inference.Affinity.{RagConfig, choose_rag_backend, RagRouteResult}
use llm_inference.Server.State.{Gateway, load_of}
use llm_inference.Server.Failover.{All-contains}
use llm_inference.Server.Request.{ServerConfig, candidates}
use llm_inference.Server.Stages.{allowed, pin_session, pin_rag}
use llm_inference.Server.Balance.{filter-All, or_ids-All, fall_back-All, pinned_or-All, rag-All}

module _ {Tokenizer : Type 0} (P : Text → Type 0) where
  pub allowed-All :
      (now : ℕ) (ids : List Text) (g : Gateway Tokenizer) → All P ids → All P (allowed now ids g)
  unfolding allowed
  allowed-All now ids g h = or_ids-All P _ ids (filter-All P _ ids h) h

  pub pin_session-All :
      (sid : Option Text) (now : ℕ) (bs : List Text) (g : Gateway Tokenizer)
      → All P bs
      → All P (pin_session sid now bs g).1
  unfolding pin_session
  pin_session-All none now bs g h = h
  pin_session-All (some sid) now bs g h =
      pinned_or-All P (Session.pick g.sessions (some sid) bs now).1 bs
        (λ b found.
          let (s, last, is, member, pinned, fresh) =
            pick_sound g.sessions (some sid) bs now b found in
          All-contains P b bs h member)
        h

  pub pin_rag-All :
      (cfg : Option RagConfig) (ids : Option (List ℕ)) (bs : List Text) (g : Gateway Tokenizer)
      → All P bs
      → All P (pin_rag cfg ids bs g)
  unfolding pin_rag
  pin_rag-All none ids bs g h = h
  pin_rag-All (some cfg) none bs g h = h
  pin_rag-All (some cfg) (some ids) bs g h =
      let chosen = choose_rag_backend ids bs g.rag_index (load_of g) cfg in
      pinned_or-All P (map_option RagRouteResult.backend_id chosen) bs
        (λ b e. elim (Option-cases chosen) [
          | inl nothing ↦ let e' = rw nothing at e in absurd (none-ne-some _ e')
          | inr (r, found) ↦
              let e' = rw found at e in
              rw (sym (some-injective _ _ e'))
                (rag-All P ids bs g.rag_index (load_of g) cfg r h found)
        ])
        h

All-of-contains :
    (P : Text → Type 0) (xs : List Text) → ((b : Text) → contains b xs ≡ true → P b) → All P xs
unfolding contains
All-of-contains P [] h = tt
All-of-contains P (x ∷ xs) h =
    (h x (ground (arith, eq_iff x x)), All-of-contains P xs (λ b m. h b (ground (arith, m))))

ids_for-registered :
    (model : Option Text) (r : BackendRegistry)
    → IsValid r
    → All (λ b. Dict.has b r.by_id ≡ true) (ids_for model r)
ids_for-registered model r v =
    All-of-contains (λ b. Dict.has b r.by_id ≡ true) (ids_for model r)
      (λ b m. elim (Option-cases (Dict.get b r.by_id)) [
        | inl absent ↦
            absurd
              (ground (arith, contains-ids_for model b r v, m, ap (is_routable_at model) absent))
        | inr (x, found) ↦ ground (arith, has-get b r.by_id, found)
      ])

lora-registered :
    (base adapter : Option Text) (fallback : Bool) (r : BackendRegistry)
    → IsValid r
    → All (λ b. Dict.has b r.by_id ≡ true) (lora_filter r base adapter fallback)
unfolding lora_filter
lora-registered base none fallback r v = ids_for-registered base r v
lora-registered base (some []) fallback r v = ids_for-registered base r v
lora-registered base (some (c ∷ a)) fallback r v =
    let P : Text → Type 0 = λ b. Dict.has b r.by_id ≡ true in
    let pool = ids_for base r in
    let all = ids_for-registered base r v in
    fall_back-All P _ pool fallback
      (filter-All P (λ b. has_adapter (c ∷ a) (Dict.get b r.by_id)) pool all) all

-- The candidates of a request are registered.
pub candidates-registered :
    (cfg : ServerConfig) (model : Option Text) (r : BackendRegistry)
    → IsValid r
    → All (λ b. Dict.has b r.by_id ≡ true) (candidates cfg model r)
unfolding candidates
candidates-registered cfg model r v = elim (Bool-cases cfg.backend_adapters) [
  | inr off ↦ rw off (ids_for-registered model r v)
  | inl on ↦
      let (base, adapter) = parse_model_spec model in
      rw on (lora-registered base adapter cfg.lora_fallback_to_base r v)
]
