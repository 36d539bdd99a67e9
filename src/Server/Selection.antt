-- ===== src/Server/Selection.antt =====
-- gateway/server.py: from the candidates of a request to its target, `select_backend`.
use llm_inference.Base.{
  ℕ, ◌+◌, ◌≡◌, refl, ap, ◌∙◌, inl, inr, true, Option, none, some, List, [], ◌∷◌, All, Option-cases,
}
use llm_inference.Base.Text.{Text, text_eq}
use llm_inference.Base.Dict
use llm_inference.Base.Dict.{Dict}
use llm_inference.Tenancy.{Tenant, inflight_of}
use llm_inference.Load.{LoadTracker}
use llm_inference.Admission.{Action, admit, queue, reject}
use llm_inference.Server.State.{Gateway, load_of}
use llm_inference.Server.Dispatch.{World, route}
use llm_inference.Server.Loads.{SameLoad, SameLoad-trans, same-SameLoad}
use llm_inference.Server.Failover.{route-same, route-some}
use llm_inference.Server.Loop.{IsRegistered}
use llm_inference.Server.Request.{ServerConfig, Request, Ticket, Response}
use llm_inference.Server.Stages.{allowed, pin_session, pin_rag, verdict, admission_action}
use llm_inference.Server.Handler.{
  Selected, answered, ready, check_admission, disaggregate, conclude, select_backend,
}
use llm_inference.Server.Balance.{held, Frame, Frame-refl, Frame-trans, pin_session-Frame}
use llm_inference.Server.Targets.{allowed-All, pin_session-All, pin_rag-All}
use llm_inference.Server.Settling.{Answers, given_back}

module _ {Tokenizer : Type 0} where
  -- The outcome of a check that passes or answers.
  abbrev Checked :
      ServerConfig
      → Tenant
      → ℕ
      → LoadTracker
      → Gateway Tokenizer
      → Gateway Tokenizer
      → Option Response
      → Type 0
  Checked cfg t k l g g' none = Frame g g'
  Checked cfg t k l g g' (some response) = Answers cfg t k l g' response

  -- What a selection has come to.
  abbrev pub Picked :
      ServerConfig
      → Tenant
      → ℕ
      → LoadTracker
      → Gateway Tokenizer
      → Gateway Tokenizer
      → Selected
      → Type 0
  Picked cfg t k l g g' (answered response) = Answers cfg t k l g' response
  Picked cfg t k l g g' (ready ticket) =
      Frame g g' × IsRegistered g' ticket.remaining × (ticket.tenant ≡ t)

module _ {Tokenizer : Type 0} (from_pretrained : Text → Option Tokenizer)
    (encode_ids : Tokenizer → Text → List ℕ) where
  verdict-Checked :
      (cfg : ServerConfig) (t : Ticket) (a : Action) (k : ℕ) (l : LoadTracker)
      (g g' : Gateway Tokenizer)
      → Frame g g'
      → inflight_of g.limiter t.tenant ≡ k + held cfg
      → SameLoad l (load_of g)
      → Checked cfg t.tenant k l g (verdict cfg t a g').0 (verdict cfg t a g').1
  verdict-Checked cfg t admit k l g g' f quota same = f
  verdict-Checked cfg t queue k l g g' f quota same =
      given_back cfg t.tenant t.reserved_output 0 k l g'
        (ap (λ x. inflight_of x t.tenant) f.limiter ∙ quota)
        (SameLoad-trans l (load_of g) (load_of g') same
          (same-SameLoad (load_of g) (load_of g') f.load))
  verdict-Checked cfg t reject k l g g' f quota same =
      given_back cfg t.tenant t.reserved_output 0 k l g'
        (ap (λ x. inflight_of x t.tenant) f.limiter ∙ quota)
        (SameLoad-trans l (load_of g) (load_of g') same
          (same-SameLoad (load_of g) (load_of g') f.load))

  check_admission-Checked :
      (cfg : ServerConfig) (q : Request) (t : Ticket) (bs : List Text) (k : ℕ) (l : LoadTracker)
      (g : Gateway Tokenizer)
      → inflight_of g.limiter t.tenant ≡ k + held cfg
      → SameLoad l (load_of g)
      → let (g', refusal) = check_admission from_pretrained encode_ids cfg q t bs g in
        Checked cfg t.tenant k l g g' refusal
  unfolding check_admission
  check_admission-Checked cfg q t [] k l g quota same = Frame-refl g
  check_admission-Checked cfg q t (b ∷ bs) k l g quota same = elim (Option-cases cfg.admission) [
    | inl off ↦ rw (off, check_admission) (Frame-refl g)
    | inr (adm, on) ↦
        let (p, found) = route-some from_pretrained encode_ids q.prompt b bs t.strategy t.seed g in
        let probed = (route from_pretrained encode_ids q.prompt (b ∷ bs) t.strategy t.seed g).0 in
        let kept = route-same from_pretrained encode_ids q.prompt (b ∷ bs) t.strategy t.seed g in
        let frame : Frame g probed = record {
          registry = kept.1;
          limiter = kept.3;
          load = kept.0;
        } in
        rw (on, check_admission, found)
          (verdict-Checked cfg t (admission_action adm t (b ∷ bs) p g) k l g probed frame quota
            same)
  ]

  -- A check that passes leaves the targets registered.
  picked :
      (cfg : ServerConfig) (t : Ticket) (k : ℕ) (l : LoadTracker) (g c : Gateway Tokenizer)
      (refusal : Option Response) (targets : List Text)
      → Checked cfg t.tenant k l g c refusal
      → All (λ b. Dict.has b g.registry.by_id ≡ true) targets
      → Picked cfg t.tenant k l g c (conclude from_pretrained encode_ids refusal t targets)
  picked cfg t k l g c none targets f h = (f, rw f.registry h, refl)
  picked cfg t k l g c (some response) targets f h = f

  not_split :
      (cfg : ServerConfig) (q : Request) (t : Ticket) (n : ℕ) (bs : List Text)
      (g : Gateway Tokenizer)
      → cfg.disagg ≡ none
      → disaggregate from_pretrained encode_ids cfg q t n bs g ≡ bs
  unfolding disaggregate
  not_split cfg q t n [] g off = refl
  not_split cfg q t n (b ∷ bs) g off = rw (off, disaggregate) refl

  Picked-after :
      (cfg : ServerConfig) (t : Tenant) (k : ℕ) (l : LoadTracker) (g h g' : Gateway Tokenizer)
      (s : Selected)
      → Frame g h
      → Picked cfg t k l h g' s
      → Picked cfg t k l g g' s
  Picked-after cfg t k l g h g' (answered response) f p = p
  Picked-after cfg t k l g h g' (ready ticket) f p = (Frame-trans g h g' f p.0, p.1, p.2)

  pub select_backend-Picked :
      (cfg : ServerConfig) (w : World) (q : Request) (t : Ticket) (n : ℕ) (bs : List Text) (k : ℕ)
      (l : LoadTracker) (g : Gateway Tokenizer)
      → cfg.disagg ≡ none
      → IsRegistered g bs
      → inflight_of g.limiter t.tenant ≡ k + held cfg
      → SameLoad l (load_of g)
      → let (g', s) = select_backend from_pretrained encode_ids cfg w q t n bs g in
        Picked cfg t.tenant k l g g' s
  unfolding select_backend
  select_backend-Picked cfg w q t n [] k l g off reg quota same =
      given_back cfg t.tenant t.reserved_output 0 k l g quota same
  select_backend-Picked cfg w q t n (b ∷ bs) k l g off reg quota same =
      let P : Text → Type 0 = λ c. Dict.has c g.registry.by_id ≡ true in
      let open_ids = allowed w.now (b ∷ bs) g in
      let (pinned, after_pin) = pin_session t.session w.now open_ids g in
      let remaining = pin_rag cfg.rag t.rag_chunks after_pin pinned in
      let (checked, refusal) =
        check_admission from_pretrained encode_ids cfg q t remaining pinned in
      let frame = pin_session-Frame t.session w.now open_ids g in
      let here =
        pin_rag-All P cfg.rag t.rag_chunks after_pin pinned
          (pin_session-All P t.session w.now open_ids g (allowed-All P w.now (b ∷ bs) g reg)) in
      let same' : SameLoad l (load_of pinned) =
        SameLoad-trans l (load_of g) (load_of pinned) same
          (same-SameLoad (load_of g) (load_of pinned) frame.load) in
      rw (not_split cfg q t n remaining checked off) (
        Picked-after cfg t.tenant k l g pinned checked
          (conclude from_pretrained encode_ids refusal t remaining) frame
          (picked cfg t k l pinned checked refusal remaining
            (check_admission-Checked cfg q t remaining k l pinned
              (ap (λ x. inflight_of x t.tenant) frame.limiter ∙ quota) same')
            (rw frame.registry here)))
