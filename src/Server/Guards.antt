-- ===== src/Server/Guards.antt =====
-- gateway/server.py: the admin endpoints and the health scrape, by what they leave behind.
use llm_inference.Base.{
  ℕ, ◌≡◌, ◌≢◌, ◌⊎◌, refl, ap, ◌∙◌, inl, inr, Bool, true, false, Option, none, some, List, arith,
  ◌==◌, eq_iff, contains, if◌then◌else◌, Bool-cases, beq_refl,
}
use llm_inference.Base.Text.{Text, text_eq}
use llm_inference.Base.Dict
use llm_inference.Base.Dict.{Dict, get-set, get-remove, get_or-remove, has-get}
use llm_inference.Radix
use llm_inference.Radix.{RadixTree}
use llm_inference.Radix.Ownership.{IsOwned}
use llm_inference.Radix.Removal.{match-remove_backend}
use llm_inference.Load.{inflight_of, tokens_of, kv_of}
use llm_inference.Registry
use llm_inference.Registry.{Backend, BackendRegistry, ids_for, set_health}
use llm_inference.Registry.Laws.{
  IsValid, contains-ids_for, is_routable_at, remove-IsValid, set_health-IsValid,
}
use llm_inference.Circuit
use llm_inference.Session
use llm_inference.Session.{Pin}
use llm_inference.Router.{Router}
use llm_inference.Session.Laws
use llm_inference.Session.Laws.{pinned_to, get-forget_backend}
use llm_inference.Cluster.Event.{ClusterEvent}
use llm_inference.Cluster.Coordinator.{ClusterCoordinator, publish_remove, publish_member_remove}
use llm_inference.Server.State.{Gateway, load_of, tree_of, with_load, with_tree, publish}
use llm_inference.Server.Failover.{publish-same, healthy_in, healthy-set_health}
use llm_inference.Server.Admin.{
  AdminHeaders, done, is_authorized, admin_remove_backend, forget_backend, forget_load, scraped,
  Health,
}

right_cases : (o : Option Bool) → (o ≡ some true) ⊎ ((o ≡ none) ⊎ (o ≡ some false))
right_cases none = inr (inl refl)
right_cases (some true) = inl refl
right_cases (some false) = inr (inr refl)

no_pin : (b : Text) (o : Option Pin) → pinned_to b (if pinned_to b o then none else o) ≡ false
no_pin b o = elim (Bool-cases (pinned_to b o)) [
  | inl same ↦ rw same refl
  | inr other ↦ rw other other
]

module _ {Tokenizer : Type 0} where
  -- What no longer speaks of a backend.
  pub record Gone (b : Text) (g : Gateway Tokenizer) : Type 0 where
    pub routing : (model : Option Text) → contains b (ids_for model g.registry) ≡ false
    pub prefixes : (hashes : List ℕ) → Dict.get b (Radix.match (tree_of g) hashes) ≡ none
    pub pins : (s : Text) → pinned_to b (Dict.get s g.sessions.by_session) ≡ false
    pub load : inflight_of (load_of g) b ≡ 0
    pub kv : kv_of (load_of g) b ≡ 0

  forgotten-Gone :
      (bid : Text) (g : Gateway Tokenizer) (q : BackendRegistry)
      → IsValid g.registry
      → Session.Laws.IsValid g.sessions
      → IsOwned (tree_of g)
      → q ≡ (Registry.remove bid g.registry).0
      → Gone bid (forget_backend bid (record g { registry = q }))
  unfolding forget_backend forget_load Registry.remove
  forgotten-Gone bid g q v s o e = record {
    routing = λ model. rw e (
        contains-ids_for model bid (Registry.remove bid g.registry).0
          (remove-IsValid bid g.registry v)
        ∙ ap (is_routable_at model) (get-remove bid bid g.registry.by_id)
        ∙ ap (λ c. is_routable_at model (if c then none else Dict.get bid g.registry.by_id))
            (beq_refl bid));
    prefixes = λ hashes. match-remove_backend bid bid (tree_of g) hashes o ∙ rw (beq_refl bid) refl;
    pins = λ k.
        rw (get-forget_backend g.sessions bid k s) (no_pin bid (Dict.get k g.sessions.by_session));
    load = ground (arith, get_or-remove bid bid 0 (load_of g).inflight, beq_refl bid);
    kv = ground (arith, get_or-remove bid bid 0 (load_of g).kv_usage, beq_refl bid);
  }

  Gone-publish :
      (call : ClusterCoordinator → ClusterCoordinator × List ClusterEvent) (b : Text)
      (g : Gateway Tokenizer)
      → Gone b g
      → Gone b (publish call g)
  Gone-publish call b g h =
      let kept = publish-same call g in
      record {
        routing = λ model. rw kept.1 (h.routing model);
        prefixes = λ hashes.
            ap (λ (x : Router). Dict.get b (Radix.match x.tree hashes)) kept.0 ∙ h.prefixes hashes;
        pins = λ k. rw kept.5 (h.pins k);
        load = ap (λ (x : Router). inflight_of x.load b) kept.0 ∙ h.load;
        kv = ap (λ (x : Router). kv_of x.load b) kept.0 ∙ h.kv;
      }

  -- When an authorized caller has removed a known backend, no model's candidates, no prefix match and
  -- no session speak of it; its count of requests in flight and its KV usage are 0, while its in-flight
  -- tokens stay what they were; and so do the prefix matches of every other backend. The gateway's
  -- registry and session table are valid, and its tree is one in which holders and tables agree.
  pub admin_remove_backend-Gone :
      (token : Text) (h : AdminHeaders) (bid : Text) (g : Gateway Tokenizer)
      → IsValid g.registry
      → Session.Laws.IsValid g.sessions
      → IsOwned (tree_of g)
      → (admin_remove_backend token h bid g).1 ≡ done true
      → let g' = (admin_remove_backend token h bid g).0 in
        Gone bid g'
        × (tokens_of (load_of g') bid ≡ tokens_of (load_of g) bid)
        × ((c : Text) (hashes : List ℕ)
            → bid ≢ c
            → Dict.get c (Radix.match (tree_of g') hashes)
              ≡ Dict.get c (Radix.match (tree_of g) hashes))
  unfolding admin_remove_backend with_load with_tree forget_load Registry.remove
  admin_remove_backend-Gone token h bid g v s o ok = elim (right_cases (is_authorized token h)) [
    | inr (inl crash) ↦ absurd (let ok' = rw crash at ok in ground (arith, ok'))
    | inr (inr no_right) ↦ absurd (let ok' = rw no_right at ok in ground (arith, ok'))
    | inl right ↦ elim (Bool-cases (Dict.has bid g.registry.by_id)) [
      | inr unknown ↦ absurd (let ok' = rw (right, unknown) at ok in ground (arith, ok'))
      | inl known ↦
          let removed : Gateway Tokenizer = record g {
            registry = (Registry.remove bid g.registry).0;
          } in
          let cut = forget_backend bid removed in
          let call = publish_member_remove bid in
          rw (right, known)
            (
              Gone-publish call bid cut
                  (forgotten-Gone bid g (Registry.remove bid g.registry).0 v s o refl),
              ap (λ (x : Router). tokens_of x.load bid) (publish-same call cut).0,
              λ c hashes ne.
                  ap (λ (x : Router). Dict.get c (Radix.match x.tree hashes))
                    (publish-same call cut).0
                  ∙ match-remove_backend bid c (tree_of g) hashes o
                  ∙ ground (arith, eq_iff bid c, ne),
            )
    ]
  ]

sick_not_routable :
    (model : Option Text) (o : Option Backend)
    → healthy_in o ≡ false
    → is_routable_at model o ≡ false
sick_not_routable model none h = refl
sick_not_routable model (some b) h = ground (arith, h)

sick_not_candidate :
    (model : Option Text) (b : Text) (r : BackendRegistry)
    → IsValid r
    → contains b (ids_for model (set_health b false r)) ≡ false
sick_not_candidate model b r v =
    contains-ids_for model b (set_health b false r) (set_health-IsValid b false r v)
    ∙ sick_not_routable model (Dict.get b (set_health b false r).by_id)
        (healthy-set_health b b r ∙ rw (beq_refl b) refl)

module _ {Tokenizer : Type 0} where
  -- After a health check that fails, with a status or an exception, the backend is among no model's
  -- candidates; after an exception, moreover, no prefix matches on it, and those of every other backend
  -- match as before. The registry is valid, and holders and tables of the tree agree.
  pub scraped-down :
      (model : Option Text) (b c : Text) (hashes : List ℕ) (now : ℕ) (g : Gateway Tokenizer)
      → IsValid g.registry
      → IsOwned (tree_of g)
      → (contains b (ids_for model (scraped b Health.unhealthy now g).registry) ≡ false)
        × (contains b (ids_for model (scraped b Health.unreachable now g).registry) ≡ false)
        × (Dict.get c (Radix.match (tree_of (scraped b Health.unreachable now g)) hashes)
            ≡ (if b == c then none else Dict.get c (Radix.match (tree_of g) hashes)))
  unfolding scraped with_tree
  scraped-down model b c hashes now g v o =
      let marked : Gateway Tokenizer = record g {
        registry = Registry.set_health b false g.registry;
        breaker = Circuit.record_failure g.breaker b now;
      } in
      let cut = with_tree (Radix.remove_backend b (tree_of g)) marked in
      let kept = publish-same (publish_remove b) cut in
      (
        sick_not_candidate model b g.registry v,
        ap (λ r. contains b (ids_for model r)) kept.1 ∙ sick_not_candidate model b g.registry v,
        ap (λ (x : Router). Dict.get c (Radix.match x.tree hashes)) kept.0
            ∙ match-remove_backend b c (tree_of g) hashes o,
      )
