-- ===== src/Server/Handler.antt =====
-- gateway/server.py: `chat_completions` and the end of its stream. Headers, logs, spans and metrics are
-- left out. The model is of a gateway without semantic cache and multi-modal routing, and of the
-- strategies other than "speculative". All steps up to the dispatch happen at one time, `w.now`.
use llm_inference.Base.Int.{pos, ◌+ℤ◌, pos_part}
use llm_inference.Base.{ℕ, ◌+◌, not, Option, none, some, List, [], ◌∷◌, if◌then◌else◌}
use llm_inference.Base.Text.{Text, text_eq}
use llm_inference.Base.Dict
use llm_inference.Base.Dict.{Dict}
use llm_inference.Hashing.{block_hashes}
use llm_inference.Hashing.Bpe
use llm_inference.Radix
use llm_inference.Tenancy
use llm_inference.Tenancy.{Tenant, TenantRegistry, tenant_seed}
use llm_inference.Disagg
use llm_inference.Disagg.{PoolRegistry, DisaggConfig, DisaggDecision}
use llm_inference.Auth
use llm_inference.Auth.{Authenticator}
use llm_inference.Server.State.{Gateway, load_of, tree_of}
use llm_inference.Server.Dispatch.{World, route, failover}
use llm_inference.Server.Request.{
  ServerConfig, Request, Ticket, Response, unauthorized, throttled, no_backend, failed, parked,
  dict_of, candidates, take_slot, ticket_for,
}
use llm_inference.Server.Stages.{
  release_quota, admit_quota, allowed, pin_session, pin_rag, admission_action, conclude_dispatch,
  verdict,
}

-- What the first half of the handler comes to.
pub data Selected : Type 0 where
  answered : Response → Selected
  ready : Ticket → Selected

module _ {Tokenizer : Type 0} (from_pretrained : Text → Option Tokenizer)
    (encode_ids : Tokenizer → Text → List ℕ) where
  -- Admission control over a probe of the router; `none`: the request passes.
  unfoldable pub check_admission :
      ServerConfig
      → Request
      → Ticket
      → List Text
      → Gateway Tokenizer
      → Gateway Tokenizer × Option Response
  unfolding admission_action
  check_admission cfg q t [] g = (g, none)
  check_admission cfg q t (b ∷ bs) g = elim cfg.admission [
    | none ↦ (g, none)
    | some adm ↦
        let (probed, probe) =
          route from_pretrained encode_ids q.prompt (b ∷ bs) t.strategy t.seed g in
        elim probe [
          | none ↦ (probed, some failed)
          | some p ↦ verdict cfg t (admission_action adm t (b ∷ bs) p g) probed
        ]
  ]

  -- The answer of a check that refuses, or else the ticket with its targets.
  abbrev pub conclude : Option Response → Ticket → List Text → Selected
  conclude (some response) t targets = answered response
  conclude none t targets = ready (record t { remaining = targets })

  -- The prefill backend, where phases are split over pools. The decoding of the output takes equally
  -- long on every backend, so that the choice does not depend on its length, which may be negative.
  unfoldable pub disaggregate :
      ServerConfig → Request → Ticket → ℕ → List Text → Gateway Tokenizer → List Text
  disaggregate cfg q t input_tokens [] g = []
  disaggregate cfg q t input_tokens (b ∷ bs) g = elim cfg.disagg [
    | none ↦ b ∷ bs
    | some (pools, dcfg) ↦
        let hashes =
          block_hashes q.prompt g.router.cfg.block_chars g.router.cfg.hash_cutoff_blocks t.seed in
        let found = Radix.match (tree_of g) hashes in
        elim (Disagg.choose_disaggregated
          (record {
            prompt_tokens = input_tokens;
            output_tokens = pos_part t.reserved_output;
            prefill_match = dict_of (λ c. Dict.get_or c 0 found) (b ∷ bs);
          })
          pools (load_of g) dcfg) [ none ↦ b ∷ bs | some d ↦ d.prefill_backend ∷ [] ]
  ]

  -- From the request's candidates to the ticket, with the tenant's quota taken.
  unfoldable pub select_backend :
      ServerConfig
      → World
      → Request
      → Ticket
      → ℕ
      → List Text
      → Gateway Tokenizer
      → Gateway Tokenizer × Selected
  unfolding check_admission disaggregate
  select_backend cfg w q t input_tokens [] g =
      (release_quota cfg t.tenant t.reserved_output 0 g, answered no_backend)
  select_backend cfg w q t input_tokens (b ∷ bs) g =
      let open_ids = allowed w.now (b ∷ bs) g in
      let (pinned, after_pin) = pin_session t.session w.now open_ids g in
      let remaining = pin_rag cfg.rag t.rag_chunks after_pin pinned in
      let (checked, refusal) = check_admission cfg q t remaining pinned in
      (checked, conclude refusal t (disaggregate cfg q t input_tokens remaining checked))

  -- The second half: the failover loop, with a dispatch slot.
  unfoldable pub dispatch :
      ServerConfig → World → Request → Ticket → Gateway Tokenizer → Gateway Tokenizer × Response
  unfolding failover
  dispatch cfg w q t g =
      let (looped, outcome, retries) =
        failover from_pretrained encode_ids w q.prompt t.strategy t.seed (cfg.max_retries + 1) 0
          t.remaining g in
      conclude_dispatch cfg t outcome looped

  -- The slot of the weighted fair queue, where there is one, and the dispatch.
  unfoldable pub acquire_slot :
      ServerConfig → World → Request → Ticket → Gateway Tokenizer → Gateway Tokenizer × Response
  unfolding dispatch
  acquire_slot cfg w q t g =
      let (scheduler, fut) = take_slot t.tenant.tier g.scheduler in
      let taken = record g { scheduler = scheduler } in
      elim fut [ none ↦ dispatch cfg w q t taken | some n ↦ (taken, parked n t) ]

module _ {Tokenizer : Type 0} (from_pretrained : Text → Option Tokenizer)
    (encode_ids : Tokenizer → Text → List ℕ) where
  -- The answer, or the second half of the handler.
  abbrev pub continue_with :
      ServerConfig → World → Request → Selected → Gateway Tokenizer → Gateway Tokenizer × Response
  continue_with cfg w q (answered response) g = (g, response)
  continue_with cfg w q (ready t) g = acquire_slot from_pretrained encode_ids cfg w q t g

module _ (sha256_hex : Text → Text) {Tokenizer : Type 0} (from_pretrained : Text → Option Tokenizer)
    (encode_ids : Tokenizer → Text → List ℕ) where
  -- The first half: everything up to the slot of the weighted fair queue.
  unfoldable pub admit_request :
      ServerConfig → World → Request → Gateway Tokenizer → Gateway Tokenizer × Selected
  unfolding candidates admit_quota select_backend
  admit_request cfg w q g =
      let t = ticket_for cfg q (Tenancy.resolve cfg.tenants q.authorization) in
      let (loaded, input_tokens, mode) =
        Bpe.count_tokens_with_fallback from_pretrained encode_ids g.loaded q.prompt
          cfg.chars_per_token g.router.cfg.tokenizer_model cfg.token_accurate_accounting in
      let (g', passes) =
        admit_quota cfg t.tenant (pos input_tokens +ℤ t.reserved_output) w.now
          (record g { loaded = loaded }) in
      elim (Auth.check sha256_hex cfg.authenticator q.authorization) [
        | none ↦ (g, answered failed)
        | some (ok, reason) ↦
            if not ok
            then (g, answered unauthorized)
            else if not passes
            then (g', answered throttled)
            else select_backend from_pretrained encode_ids cfg w q t input_tokens
                (candidates cfg q.model g'.registry) g'
      ]

  -- The whole handler, up to the stream or to the wait for a slot.
  unfoldable pub chat_completions :
      ServerConfig → World → Request → Gateway Tokenizer → Gateway Tokenizer × Response
  unfolding admit_request
  chat_completions cfg w q g =
      let (selected, outcome) = admit_request cfg w q g in
      continue_with from_pretrained encode_ids cfg w q outcome selected
