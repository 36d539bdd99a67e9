-- ===== src/Server/Request.antt =====
-- gateway/server.py: what `chat_completions` is configured with, what it is asked, and what it answers;
-- the small choices that it makes of these.
use llm_inference.Base.Int.{ℤ, pos, negsuc}
use llm_inference.Tenancy.{min_ℤ}
use llm_inference.Base.{ℕ, zero, suc, Bool, Option, none, some, List, [], ◌∷◌, if◌then◌else◌}
use llm_inference.Base.Text.{Text, text_eq}
use llm_inference.Base.Dict
use llm_inference.Base.Dict.{Dict}
use llm_inference.Registry
use llm_inference.Registry.{BackendRegistry}
use llm_inference.Session
use llm_inference.Tenancy.{Tenant, TenantRegistry, tenant_seed}
use llm_inference.Fair.Sched
use llm_inference.Fair.Sched.{AsyncFairScheduler}
use llm_inference.Affinity.{RagConfig}
use llm_inference.Admission.{AdmissionConfig, Action}
use llm_inference.Disagg.{PoolRegistry, DisaggConfig}
use llm_inference.Auth.{Authenticator}
use llm_inference.Router.{RouteResult, Strategy}

pub record ServerConfig : Type 0 where
  pub authenticator : Authenticator
  pub tenants : TenantRegistry
  pub rate_limit_enabled : Bool
  pub chars_per_token : ℕ
  pub token_accurate_accounting : Bool
  pub default_output_tokens : ℕ
  pub max_output_tokens : ℕ
  pub backend_adapters : Bool
  pub lora_fallback_to_base : Bool
  pub tenant_isolation : Bool
  pub session_affinity_enabled : Bool
  pub max_retries : ℕ
  pub strategy : Strategy
  pub rag : Option RagConfig
  pub admission : Option AdmissionConfig
  pub disagg : Option (PoolRegistry × DisaggConfig)

-- A request: `prompt` is the text of its messages, and `rag_chunks` are the ids of its chunks.
pub record Request : Type 0 where
  pub authorization : Text
  pub session_header : Option Text
  pub session_body : Option Text
  pub model : Option Text
  pub prompt : Text
  pub rag_chunks : Option (List ℕ)
  pub max_tokens : Option ℤ
  pub strategy : Option Strategy

-- What the handler carries to the end of the request.
pub record Ticket : Type 0 where
  pub tenant : Tenant
  pub reserved_output : ℤ
  pub seed : ℕ
  pub strategy : Strategy
  pub session : Option Text
  pub rag_chunks : Option (List ℕ)
  pub remaining : List Text

-- The answers: 401, 429, 503 without a backend, 503 by admission control, 502, an exception, and a
-- stream. `parked` is a request that waits for a dispatch slot, by the number of its future.
pub data Response : Type 0 where
  unauthorized throttled no_backend bad_gateway failed : Response
  shed : Action → Response
  parked : ℕ → Ticket → Response
  streaming : RouteResult → Ticket → Response

abbrev pub or_strategy : Option Strategy → Strategy → Strategy
or_strategy none s = s
or_strategy (some s) t = s

-- `int(body.get("max_tokens") or default)`
abbrev pub tokens_or : Option ℤ → ℕ → ℤ
tokens_or none default = pos default
tokens_or (some (pos zero)) default = pos default
tokens_or (some (pos (suc n))) default = pos (suc n)
tokens_or (some (negsuc n)) default = negsuc n

abbrev pub or_ids : List Text → List Text → List Text
or_ids [] ids = ids
or_ids (b ∷ bs) ids = b ∷ bs

-- `remaining = [b]`, if there is a pin
abbrev pub pinned_or : Option Text → List Text → List Text
pinned_or none remaining = remaining
pinned_or (some b) remaining = b ∷ []

-- `{b: f(b) for b in bs}`
unfoldable pub dict_of : (Text → ℕ) → List Text → Dict Text ℕ
dict_of f [] = []
dict_of f (b ∷ bs) = Dict.set b (f b) (dict_of f bs)

unfoldable pub candidates : ServerConfig → Option Text → BackendRegistry → List Text
candidates cfg model registry =
    let (base, adapter) = Registry.parse_model_spec model in
    if cfg.backend_adapters
    then Registry.lora_filter registry base adapter cfg.lora_fallback_to_base
    else Registry.ids_for model registry

abbrev pub released : Option AsyncFairScheduler → Option AsyncFairScheduler
released none = none
released (some s) = some (Sched.release s)

-- `await scheduler.acquire(tier)`, where there is one: the scheduler, and the future that is waited for
abbrev pub take_slot : Text → Option AsyncFairScheduler → Option AsyncFairScheduler × Option ℕ
take_slot tier none = (none, none)
take_slot tier (some s) = let (s', fut) = Sched.acquire tier s in (some s', fut)

-- The ticket of a request of the tenant.
abbrev pub ticket_for : ServerConfig → Request → Tenant → Ticket
ticket_for cfg q tenant = record {
  tenant = tenant;
  reserved_output =
      min_ℤ (tokens_or q.max_tokens cfg.default_output_tokens) (pos cfg.max_output_tokens);
  seed = if cfg.tenant_isolation then tenant_seed tenant.id else 0;
  strategy = or_strategy q.strategy cfg.strategy;
  session =
      if cfg.session_affinity_enabled
      then Session.extract_session_id q.session_header q.session_body
      else none;
  rag_chunks = q.rag_chunks;
  remaining = [];
}
