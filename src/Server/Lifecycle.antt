-- ===== src/Server/Lifecycle.antt =====
-- gateway/server.py: a request from its arrival to its answer.
use llm_inference.Base.{ℕ, ◌+◌, ◌≡◌}
use llm_inference.Base.Text.{Text, text_eq}
use llm_inference.Tenancy
use llm_inference.Tenancy.{Tenant, inflight_of}
use llm_inference.Load.{LoadTracker}
use llm_inference.Auth
use llm_inference.Hashing.Bpe
use llm_inference.Server.State.{Gateway, load_of}
use llm_inference.Server.Loads.{SameLoad}
use llm_inference.Server.Loop.{IsRegistered}
use llm_inference.Server.Request.{ServerConfig, Request}
use llm_inference.Server.Handler.{Selected, answered, ready}
use llm_inference.Server.Balance.{held}
use llm_inference.Server.Settling.{Answers}

module _ {Tokenizer : Type 0} where
  -- The state after the first half of the handler.
  abbrev Selection : ServerConfig → Tenant → ℕ → LoadTracker → Gateway Tokenizer → Selected → Type 0
  Selection cfg t k l g' (answered response) = Answers cfg t k l g' response
  Selection cfg t k l g' (ready ticket) =
      IsRegistered g' ticket.remaining
      × (inflight_of g'.limiter t ≡ k + held cfg)
      × SameLoad l (load_of g')
      × (ticket.tenant ≡ t)
