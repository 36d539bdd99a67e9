-- ===== src/Server/Stages.antt =====
-- gateway/server.py: the stages of `chat_completions` that do not route, and the end of the stream
-- (`release`, `body_iter`).
use llm_inference.Base.Int.{ℤ}
use llm_inference.Base.{
  ℕ, ◌-◌, ◌*◌, Bool, true, false, Option, none, some, List, filter, map_option, if◌then◌else◌,
}
use llm_inference.Base.Text.{Text, text_eq}
use llm_inference.Load
use llm_inference.Load.{LoadTracker}
use llm_inference.Circuit
use llm_inference.Session
use llm_inference.Tenancy
use llm_inference.Tenancy.{Tenant, TenantRegistry, tenant_seed}
use llm_inference.Affinity
use llm_inference.Affinity.{RagConfig, RagRouteResult}
use llm_inference.Admission
use llm_inference.Admission.{AdmissionConfig, AdmissionDecision, Action, admit, queue, reject}
use llm_inference.Router.{RouteResult}
use llm_inference.Server.State.{Gateway, load_of, with_load}
use llm_inference.Server.Dispatch.{Outcome, raised, unreachable, reached}
use llm_inference.Server.Request.{
  ServerConfig, Ticket, Response, bad_gateway, failed, shed, streaming, or_ids, pinned_or, dict_of,
  released,
}

module _ {Tokenizer : Type 0} where
  unfoldable pub release_quota :
      ServerConfig → Tenant → ℤ → ℕ → Gateway Tokenizer → Gateway Tokenizer
  release_quota cfg tenant reserved actual g =
      if cfg.rate_limit_enabled
      then record g { limiter = Tenancy.release tenant reserved actual g.limiter }
      else g

  -- Whether the rate limiter lets the request pass.
  unfoldable pub admit_quota :
      ServerConfig → Tenant → ℤ → ℕ → Gateway Tokenizer → Gateway Tokenizer × Bool
  admit_quota cfg tenant cost now g =
      let (limiter, adm) = Tenancy.admit tenant cost now g.limiter in
      if cfg.rate_limit_enabled then (record g { limiter = limiter }, adm.allowed) else (g, true)

  -- The candidates whose circuit is not open, or all.
  unfoldable pub allowed : ℕ → List Text → Gateway Tokenizer → List Text
  allowed now ids g = or_ids (filter (λ b. Circuit.allow g.breaker b now) ids) ids

  -- The pin of the session.
  unfoldable pub pin_session :
      Option Text → ℕ → List Text → Gateway Tokenizer → Gateway Tokenizer × List Text
  pin_session none now remaining g = (g, remaining)
  pin_session (some sid) now remaining g =
      let (sessions, pinned) = Session.pick g.sessions (some sid) remaining now in
      (record g { sessions = sessions }, pinned_or pinned remaining)

  -- The backend that holds the most of the chunks.
  unfoldable pub pin_rag :
      Option RagConfig → Option (List ℕ) → List Text → Gateway Tokenizer → List Text
  pin_rag none ids remaining g = remaining
  pin_rag (some cfg) none remaining g = remaining
  pin_rag (some cfg) (some ids) remaining g =
      pinned_or
        (map_option RagRouteResult.backend_id
          (Affinity.choose_rag_backend ids remaining g.rag_index (load_of g) cfg))
        remaining

  -- `scheduler.release()`, where there is one
  unfoldable pub free_slot : Gateway Tokenizer → Gateway Tokenizer
  free_slot g = record g { scheduler = released g.scheduler }

  -- `rag_index.record(backend, chunks)`, where the request has chunks
  unfoldable pub record_chunks : Text → Option (List ℕ) → Gateway Tokenizer → Gateway Tokenizer
  record_chunks b none g = g
  record_chunks b (some ids) g = record g { rag_index = Affinity.record_ids b ids g.rag_index }

  -- What a response of status 200 teaches: the chunks of the backend, and the session's pin.
  unfoldable pub note_success :
      Ticket → RouteResult → ℕ → Bool → Gateway Tokenizer → Gateway Tokenizer
  unfolding record_chunks
  note_success t r now false g = g
  note_success t r now true g =
      let recorded = record_chunks r.backend_id t.rag_chunks g in
      record recorded { sessions = Session.remember recorded.sessions t.session r.backend_id now }

  -- The end of the stream of a response: whether its status was 200, and the number of its events.
  unfoldable pub finish :
      ServerConfig → Ticket → RouteResult → Bool → ℕ → ℕ → Gateway Tokenizer → Gateway Tokenizer
  unfolding with_load free_slot note_success
  finish cfg t r ok out_events now g =
      let freed = free_slot (with_load (Load.on_complete r.backend_id r.tokens (load_of g)) g) in
      release_quota cfg t.tenant t.reserved_output (out_events - 1) (note_success t r now ok freed)

  -- The decision of admission control, from the probe's estimate and the load of the candidates.
  unfoldable pub admission_action :
      AdmissionConfig → Ticket → List Text → RouteResult → Gateway Tokenizer → Action
  admission_action adm t remaining p g =
      let uncached = p.tokens - p.match_blocks * g.router.cfg.block_tokens in
      let decision =
        Admission.decide
          (record {
            est_ttft_ms = g.router.cfg.prefill_ms_per_token * uncached;
            tier = t.tenant.tier;
          })
          (record {
            backend_inflight = dict_of (Load.inflight_of (load_of g)) remaining;
            backend_kv_usage = dict_of (Load.kv_of (load_of g)) remaining;
            queue_depth = 0;
          })
          adm in
      decision.action

  -- What the handler does after the loop, by its outcome.
  abbrev pub conclude_dispatch :
      ServerConfig → Ticket → Outcome → Gateway Tokenizer → Gateway Tokenizer × Response
  conclude_dispatch cfg t raised g = (g, failed)
  conclude_dispatch cfg t unreachable g =
      (free_slot (release_quota cfg t.tenant t.reserved_output 0 g), bad_gateway)
  conclude_dispatch cfg t (reached r) g =
      (record g { breaker = Circuit.record_success g.breaker r.backend_id }, streaming r t)

  -- A request that is not admitted gives its quota back.
  abbrev pub verdict :
      ServerConfig → Ticket → Action → Gateway Tokenizer → Gateway Tokenizer × Option Response
  verdict cfg t admit g = (g, none)
  verdict cfg t queue g = (release_quota cfg t.tenant t.reserved_output 0 g, some (shed queue))
  verdict cfg t reject g = (release_quota cfg t.tenant t.reserved_output 0 g, some (shed reject))
