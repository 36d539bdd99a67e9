-- ===== src/Server/Tests.antt =====
-- A gateway of two backends, one of which refuses connections.
use llm_inference.Auth
use llm_inference.Base.Int.{pos}
use llm_inference.Base.{none}
use llm_inference.Server.State.{load_of}
use llm_inference.Load.{tokens_of}
use llm_inference.Base.{
  ℕ, ◌+◌, ◌≡◌, ◌≢◌, ◌↔◌, refl, Bool, true, false, not, Option, none, some, List, [], ◌∷◌, arith,
  All, ◌==◌, eq_iff, contains, length, if◌then◌else◌, leb, le→leb,
}
use llm_inference.Base.Text.{Text, text_eq, text}
use llm_inference.Base.Dict
use llm_inference.Base.Dict.{Dict}
use llm_inference.Hashing.Bpe.{char}
use llm_inference.Radix
use llm_inference.Radix.Runs.{init-IsValid}
use llm_inference.Load
use llm_inference.Load.{LoadTracker}
use llm_inference.Registry.{Backend, BackendRegistry, new_backend, ids_for}
use llm_inference.Registry.Laws.{IsValid}
use llm_inference.Circuit
use llm_inference.Session
use llm_inference.Session.Laws
use llm_inference.Tenancy.{Tenant, TenantRegistry, new_limiter, inflight_of}
use llm_inference.Router.{Config, Router, RouteResult, Strategy, round_robin}
use llm_inference.Cluster.Coordinator
use llm_inference.Server.State.{Gateway, tree_of}
use llm_inference.Server.Dispatch.{World, Outcome, unreachable, failover}
use llm_inference.Server.Loads.{on_dispatch-OneMore}
use llm_inference.Server.Failover.{healthy_in}
use llm_inference.Server.Loop.{failover-marks}
use llm_inference.Server.Request.{ServerConfig, Request, Ticket}
use llm_inference.Server.Stages.{finish}
use llm_inference.Server.Settling.{Settled, finish-Settled}
use llm_inference.Server.Admin.{AdminHeaders, is_authorized, admin_remove_backend}
use llm_inference.Server.Guards.{Gone, admin_remove_backend-Gone}

abbrev Tokens : Type 0
Tokens = Unit {0}

abbrev no_model : Text → Option Tokens
no_model name = none

abbrev no_ids : Tokens → Text → List ℕ
no_ids tok s = []

abbrev b0 : Text
b0 = text "b0"

abbrev b1 : Text
b1 = text "b1"

abbrev router_cfg : Config
router_cfg = record {
  block_chars = 64;
  block_tokens = 16;
  hash_cutoff_blocks = 512;
  prefill_ms_per_token = 50000000;
  service_ms_per_request = 200000000000;
  kv_pressure_cutoff = 900000000;
  max_inflight = 4;
  hysteresis_ms = 5000000000;
  use_bpe_hashing = false;
  tokenizer_model = text "gpt2";
  ttft_predictor_weight = 500000000;
}

abbrev pool : BackendRegistry
pool = record {
  by_id =
      (b0, new_backend b0 (text "u0") (text "m"))
      ∷ (b1, new_backend b1 (text "u1") (text "m"))
      ∷ [];
  default_model = text "m";
}

abbrev gateway : Gateway Tokens
gateway = record {
  router = record {
    cfg = router_cfg;
    tree = Radix.init 8;
    load = Load.init;
    rr = 0;
    predictor = none;
    fleet = none;
  };
  loaded = none;
  registry = pool;
  breaker = Circuit.init 3 30;
  limiter = new_limiter;
  sessions = Session.init 4 60;
  rag_index = record { capacity = 4; by_backend = [] };
  scheduler = none;
  cluster = some (Coordinator.init (text "r1"));
  sent = [];
}

-- Only b1 accepts.
abbrev world : World
world = record { now = 5; connect = λ i b. b == b1; clock = λ i. 6 + i }

abbrev dead : World
dead = record { now = 5; connect = λ i b. false; clock = λ i. 6 + i }

abbrev anonymous : Tenant
anonymous = record {
  id = text "anonymous";
  rps = 2;
  tps = 4000;
  max_inflight = 4;
  tier = text "anonymous";
}

abbrev cfg : ServerConfig
cfg = record {
  authenticator = record { keys = []; hashes = []; require = false };
  tenants = record { by_key = []; anon = anonymous };
  rate_limit_enabled = true;
  chars_per_token = 4;
  token_accurate_accounting = false;
  default_output_tokens = 256;
  max_output_tokens = 1024;
  backend_adapters = false;
  lora_fallback_to_base = true;
  tenant_isolation = false;
  session_affinity_enabled = true;
  max_retries = 1;
  strategy = round_robin;
  rag = none;
  admission = none;
  disagg = none;
}

abbrev request : Request
request = record {
  authorization = [];
  session_header = some (text "s");
  session_body = none;
  model = none;
  prompt = text "user: hi";
  rag_chunks = none;
  max_tokens = none;
  strategy = none;
}

abbrev both : List Text
both = b0 ∷ b1 ∷ []

failover-marks_example :
    healthy_in (
      Dict.get b0
        (failover no_model no_ids dead (text "p") round_robin 0 2 0 both gateway).0.registry.by_id)
    ≡ false
unfolding Dict.has llm_inference.Base.list_beq contains failover llm_inference.Router.choose
    llm_inference.Router.choose_by llm_inference.Router.pick llm_inference.Server.Dispatch.commit
    llm_inference.Server.Dispatch.remove_first llm_inference.Server.Dispatch.give_up
    llm_inference.Registry.set_health Dict.get Dict.set
failover-marks_example =
    failover-marks no_model no_ids dead (text "p") round_robin 0 2 0 b0 both gateway
      (refl, (refl, tt)) (omega arith) refl refl

pool-IsValid : IsValid pool
unfolding Dict.get llm_inference.Base.list_beq
pool-IsValid = record { distinct = (refl, (refl, tt)); named = (refl, (refl, tt)) }

abbrev served : RouteResult
served = record { backend_id = b1; hashes = []; tokens = 16; match_blocks = 0; hash_mode = char }

abbrev ticket : Ticket
ticket = record {
  tenant = anonymous;
  reserved_output = pos 256;
  seed = 0;
  strategy = round_robin;
  session = some (text "s");
  rag_chunks = none;
  remaining = both;
}

abbrev busy : Gateway Tokens
busy = record gateway {
  router = record gateway.router { load = Load.on_dispatch b1 16 Load.init };
  limiter = record { rps = []; tps = []; inflight = (text "anonymous", 1) ∷ [] };
}

finish-Settled_example : Settled anonymous 0 Load.init (finish cfg ticket served true 11 20 busy)
unfolding Dict.get_or llm_inference.Base.list_beq
finish-Settled_example =
    finish-Settled cfg ticket served true 11 20 0 Load.init busy refl
      (on_dispatch-OneMore b1 16 Load.init)

abbrev admin : AdminHeaders
admin = record { admin_token = text "t"; authorization = [] }

admin_remove_backend-Gone_example :
    Gone b0 (admin_remove_backend (text "t") admin b0 gateway).0
    × (tokens_of (load_of (admin_remove_backend (text "t") admin b0 gateway).0) b0 ≡ 0)
    × ((c : Text) (hashes : List ℕ)
        → b0 ≢ c
        → Dict.get c
            (Radix.match (tree_of (admin_remove_backend (text "t") admin b0 gateway).0) hashes)
          ≡ Dict.get c (Radix.match (Radix.init 8) hashes))
unfolding admin_remove_backend is_authorized llm_inference.Base.list_beq
    llm_inference.Registry.remove Dict.has Dict.get_or
admin_remove_backend-Gone_example =
    admin_remove_backend-Gone (text "t") admin b0 gateway pool-IsValid
      (Session.Laws.init-IsValid 4 60) (init-IsValid 8).owned refl
