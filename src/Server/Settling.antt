-- ===== src/Server/Settling.antt =====
-- gateway/server.py: the state after an answer of `chat_completions`, and the end of the stream.
use llm_inference.Base.Int.{ℤ}
use llm_inference.Base.{
  ℕ, ◌+◌, ◌-◌, ◌≡◌, refl, ap, ◌∙◌, Bool, true, false, Option, none, some, List,
}
use llm_inference.Base.Text.{Text, text_eq}
use llm_inference.Tenancy.{Tenant, inflight_of}
use llm_inference.Load
use llm_inference.Load.{LoadTracker}
use llm_inference.Router.{RouteResult}
use llm_inference.Server.State.{Gateway, load_of, with_load}
use llm_inference.Server.Loads.{
  SameLoad, OneMore, SameLoad-trans, same-SameLoad, on_complete-SameLoad,
}
use llm_inference.Server.Request.{
  ServerConfig, Ticket, Response, unauthorized, throttled, no_backend, bad_gateway, failed, shed,
  parked, streaming,
}
use llm_inference.Server.Stages.{release_quota, free_slot, record_chunks, note_success, finish}
use llm_inference.Server.Balance.{
  held, Frame, Frame-refl, release_quota-inflight, release_quota-load,
}

module _ {Tokenizer : Type 0} where
  -- The tenant holds `k` requests, and the load is that of `g`.
  pub record Settled (t : Tenant) (k : ℕ) (l : LoadTracker) (g' : Gateway Tokenizer) : Type 0 where
    pub quota : inflight_of g'.limiter t ≡ k
    pub load : SameLoad l (load_of g')

  -- What the state is after each of the answers to a request of a tenant that held `k` requests, with
  -- the load `l`.
  abbrev pub Answers :
      ServerConfig → Tenant → ℕ → LoadTracker → Gateway Tokenizer → Response → Type 0
  Answers cfg t k l g' unauthorized = Settled t k l g'
  Answers cfg t k l g' throttled = Settled t k l g'
  Answers cfg t k l g' no_backend = Settled t k l g'
  Answers cfg t k l g' bad_gateway = Settled t k l g'
  Answers cfg t k l g' (shed a) = Settled t k l g'
  Answers cfg t k l g' (parked n ticket) = Settled t (k + held cfg) l g'
  Answers cfg t k l g' (streaming r ticket) =
      (inflight_of g'.limiter t ≡ k + held cfg)
      × OneMore r.backend_id r.tokens l (load_of g')
      × (ticket.tenant ≡ t)
  Answers cfg t k l g' failed = ⊥

  free_slot-Frame : (g : Gateway Tokenizer) → Frame g (free_slot g)
  unfolding free_slot
  free_slot-Frame g = record { registry = refl; limiter = refl; load = refl }

  -- The quota of a request is given back, and the load is what it was.
  pub given_back :
      (cfg : ServerConfig) (t : Tenant) (reserved : ℤ) (actual k : ℕ) (l : LoadTracker)
      (g : Gateway Tokenizer)
      → inflight_of g.limiter t ≡ k + held cfg
      → SameLoad l (load_of g)
      → Settled t k l (release_quota cfg t reserved actual g)
  given_back cfg t reserved actual k l g q s = record {
    quota = release_quota-inflight cfg t reserved actual k g q;
    load = SameLoad-trans l (load_of g) (load_of (release_quota cfg t reserved actual g)) s (
        same-SameLoad (load_of g) (load_of (release_quota cfg t reserved actual g))
          (release_quota-load cfg t reserved actual g));
  }

  pub freed :
      (t : Tenant) (k : ℕ) (l : LoadTracker) (g : Gateway Tokenizer)
      → Settled t k l g
      → Settled t k l (free_slot g)
  unfolding free_slot
  freed t k l g s = record { quota = s.quota; load = s.load }

module _ {Tokenizer : Type 0} where
  record_chunks-Frame :
      (b : Text) (ids : Option (List ℕ)) (g : Gateway Tokenizer) → Frame g (record_chunks b ids g)
  unfolding record_chunks
  record_chunks-Frame b none g = Frame-refl g
  record_chunks-Frame b (some ids) g = record { registry = refl; limiter = refl; load = refl }

  note_success-Frame :
      (t : Ticket) (r : RouteResult) (now : ℕ) (ok : Bool) (g : Gateway Tokenizer)
      → Frame g (note_success t r now ok g)
  unfolding note_success
  note_success-Frame t r now false g = Frame-refl g
  note_success-Frame t r now true g =
      let f = record_chunks-Frame r.backend_id t.rag_chunks g in
      record { registry = f.registry; limiter = f.limiter; load = f.load }

  -- At the end of its stream, whatever its status and the number of its events, a request gives back
  -- what it held: its tenant has one request less in flight, if requests are counted, and the load of
  -- every backend is what it was before the dispatch.
  pub finish-Settled :
      (cfg : ServerConfig) (t : Ticket) (r : RouteResult) (ok : Bool) (out_events now k : ℕ)
      (l : LoadTracker) (g : Gateway Tokenizer)
      → inflight_of g.limiter t.tenant ≡ k + held cfg
      → OneMore r.backend_id r.tokens l (load_of g)
      → Settled t.tenant k l (finish cfg t r ok out_events now g)
  unfolding finish with_load free_slot
  finish-Settled cfg t r ok out_events now k l g quota more =
      let completed = with_load (Load.on_complete r.backend_id r.tokens (load_of g)) g in
      let noted = note_success t r now ok (free_slot completed) in
      let f = note_success-Frame t r now ok (free_slot completed) in
      given_back cfg t.tenant t.reserved_output (out_events - 1) k l noted
        (ap (λ x. inflight_of x t.tenant) f.limiter ∙ quota)
        (SameLoad-trans l (load_of completed) (load_of noted)
          (on_complete-SameLoad r.backend_id r.tokens l (load_of g) more)
          (same-SameLoad (load_of completed) (load_of noted) f.load))
