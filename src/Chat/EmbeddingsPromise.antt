-- ===== src/Chat/EmbeddingsPromise.antt =====
-- What a response with vectors says of the request.
use mathlib.Core.List.{foldl}
use sovereign_rag_gateway.Prelude.{
  ℕ, ◌≡◌, refl, sym, ap, ap₂, ◌∙◌, String, true, Option, some, List, [], ◌∷◌, ltb, max, sum_of, map,
  keep, str_eq, if◌then◌else◌, Option-cases, Bool-cases, inl, inr, arith, subst,
}
use sovereign_rag_gateway.Prelude.Text.{word_count}
use sovereign_rag_gateway.Policy.{Transform, model_of}
use sovereign_rag_gateway.Redaction.{redact_messages}
use sovereign_rag_gateway.Chat.Prepare.{must_redact, model_allowed}
use sovereign_rag_gateway.Models.{EmbeddingsRequest, EmbeddingsResponse}
use sovereign_rag_gateway.Budget.{Summary}
use sovereign_rag_gateway.Webhooks.{EventType}
use sovereign_rag_gateway.Chat.Service.{
  Service, Caller, EmbeddingsCall, AuditEvent, ok, persisted, within_budget, of_inputs,
}
use sovereign_rag_gateway.Chat.Gate.{Verdict, Gateway, build_audit_event, resolve_policy_decision}
use sovereign_rag_gateway.Chat.Call.{Answered, Called}
use sovereign_rag_gateway.Chat.Stages.{Logged-cases, ok-injective, slot-ok, log-release_inflight}
use sovereign_rag_gateway.Chat.Answer.{log-queue_if, log-record_budget_usage, log-count_request}
use sovereign_rag_gateway.Chat.Monad.{continue-ok}
use sovereign_rag_gateway.Chat.Passed.{Permitted, gate_policy-ok, served_by-ok, enforce-passed}
use sovereign_rag_gateway.Chat.Embeddings.{
  raw_inputs, user_message, override_model, estimate_input_tokens, embeddings_ask, embeddings_input,
  select_model, redact_inputs, embeddings_call, call_embeddings, embeddings_facts,
  settle_embeddings, complete_embeddings, serve_embeddings, handle_embeddings,
}
use sovereign_rag_gateway.Chat.EmbeddingsRelease.{List-cases}

module _ (svc : Service) where
  -- The entry of a response in the audit log.
  pub record Entered (caller : Caller) (c : EmbeddingsCall) (a : Answered svc.Vectors)
      (log end : svc.Log) (r : EmbeddingsResponse) : Type 0 where
    pub valid : svc.validate_vectors a.result ≡ some r
    pub event : AuditEvent
    pub logged : svc.write_event event log ≡ (persisted, end)
    pub of_request : event.request_id ≡ caller.request_id
    pub of_provider : event.facts.provider ≡ a.routed_provider
    pub of_tokens : event.facts.tokens_in ≡ r.usage.prompt_tokens
    pub of_sent : event.facts.redacted_payload_hash ≡ svc.hash (of_inputs c.inputs)

  log-settle_embeddings :
      (caller : Caller) (req : EmbeddingsRequest) (d : Verdict svc) (c : EmbeddingsCall) (n : ℕ)
      (budget : Option Summary) (a : Answered svc.Vectors) (used : ℕ) (g : Gateway svc)
      → (settle_embeddings svc caller req d c n budget a used g).1.log ≡ g.log
  unfolding settle_embeddings
  log-settle_embeddings caller req d c n budget a used g =
      log-queue_if svc (ltb 0 n) EventType.redaction_hit _ _
      ∙ log-queue_if svc (ltb 1 a.provider_attempts) EventType.provider_fallback [] _
      ∙ log-record_budget_usage svc caller used budget g

  certify :
      (caller : Caller) (req : EmbeddingsRequest) (d : Verdict svc) (c : EmbeddingsCall) (n : ℕ)
      (budget : Option Summary) (a : Answered svc.Vectors) (g : Gateway svc)
      (r : EmbeddingsResponse) (end : svc.Log)
      → let settled = settle_embeddings svc caller req d c n budget a r.usage.prompt_tokens g in
        svc.validate_vectors a.result ≡ some r
        → (svc.write_event settled.0 settled.1.log).0 ≡ persisted
        → (svc.write_event settled.0 settled.1.log).1 ≡ end
        → Entered caller c a g.log end r
  unfolding settle_embeddings embeddings_facts build_audit_event
  certify caller req d c n budget a g r end e y l =
      let used = r.usage.prompt_tokens in
      let settled = settle_embeddings svc caller req d c n budget a used g in
      record {
        valid = e;
        event = settled.0;
        logged =
            ap (svc.write_event settled.0)
              (sym (log-settle_embeddings caller req d c n budget a used g))
            ∙ ap₂ (λ u v. (u, v)) y l;
        of_request = refl;
        of_provider = refl;
        of_tokens = refl;
        of_sent = refl;
      }

  complete_embeddings-ok :
      (caller : Caller) (req : EmbeddingsRequest) (d : Verdict svc) (c : EmbeddingsCall) (n : ℕ)
      (budget : Option Summary) (a : Answered svc.Vectors) (g : Gateway svc)
      (r : EmbeddingsResponse)
      → (complete_embeddings svc caller req d c n budget a g).0 ≡ ok r
      → Entered caller c a g.log (complete_embeddings svc caller req d c n budget a g).1.log r
  unfolding complete_embeddings
  complete_embeddings-ok caller req d c n budget a g r =
      elim (Option-cases (svc.validate_vectors a.result)) [
        | inl o ↦ rw (o, complete_embeddings) (λ h. absurd (ground arith))
        | inr (v, e) ↦
            let used = v.usage.prompt_tokens in
            let settled = settle_embeddings svc caller req d c n budget a used g in
            rw (e, complete_embeddings)
              (elim (Logged-cases (svc.write_event settled.0 settled.1.log).0) [
                | inl y ↦ simp y (λ h. subst (Entered caller c a g.log _) (ok-injective h) (
                    certify caller req d c n budget a g v _ e y
                      (sym (log-count_request svc 200 caller c.model settled.0.facts _))))
                | inr (inl y) ↦ simp y (λ h. absurd (ground arith))
                | inr (inr y) ↦ simp y (λ h. absurd (ground arith))
              ])
      ]

  -- All that is behind a response.
  pub record Embedded (caller : Caller) (req : EmbeddingsRequest) (ledger : Option svc.Ledger)
      (log end : svc.Log) (r : EmbeddingsResponse) : Type 0 where
    pub decision : Verdict svc
    pub decided : resolve_policy_decision svc (embeddings_input svc caller req) ≡ ok decision
    pub permitted : Permitted svc decision
    pub call : EmbeddingsCall
    pub of_model :
        call.model
        ≡ foldl
            (λ model t. model_of svc.json t model)
            req.model
            (keep (λ t. str_eq t.type "override_model") decision.transforms)
    pub model_ok : model_allowed svc decision call.model ≡ true
    pub redacted : call.inputs ≡ (
        if must_redact svc caller
        then map
            (λ m. m.content)
            (redact_messages svc.patterns (map user_message (raw_inputs req.input))).messages
        else raw_inputs req.input)
    pub within :
        (l : svc.Ledger)
        → ledger ≡ some l
        → (svc.check caller.tenant_id (max (sum_of word_count call.inputs) 1) l).0 ≡ within_budget
    pub answer : Answered svc.Vectors
    pub called : call_embeddings svc decision call ≡ Called.answered answer
    pub entered : Entered caller call answer log end r

  override_model-foldl :
      (ts : List (Transform svc.json.Value)) (model : String)
      → override_model svc ts model
        ≡ foldl (λ m t. model_of svc.json t m) model (keep (λ t. str_eq t.type "override_model") ts)
  unfolding override_model
  override_model-foldl [] model = refl
  override_model-foldl (t ∷ ts) model = elim (Bool-cases (str_eq t.type "override_model")) [
    | inl y ↦ rw y (override_model-foldl ts (model_of svc.json t model))
    | inr n ↦ rw n (override_model-foldl ts model)
  ]

  select_model-allowed :
      (d : Verdict svc) (requested model : String)
      → select_model svc d requested ≡ ok model
      → (model
          ≡ foldl
              (λ m t. model_of svc.json t m)
              requested
              (keep (λ t. str_eq t.type "override_model") d.transforms))
        × (model_allowed svc d model ≡ true)
  unfolding select_model
  select_model-allowed d requested model =
      let chosen = override_model svc d.transforms requested in
      elim (Bool-cases (model_allowed svc d chosen)) [
        | inl y ↦ simp y (λ h.
            let e = ok-injective h in
            (
              sym e ∙ override_model-foldl d.transforms requested,
              subst (λ m. model_allowed svc d m ≡ true) e y,
            ))
        | inr n ↦ simp n (λ h. absurd (ground arith))
      ]

  redact_inputs-redacted :
      (caller : Caller) (inputs : List String)
      → (redact_inputs svc caller inputs).0 ≡ (
          if must_redact svc caller
          then map
              (λ m. m.content)
              (redact_messages svc.patterns (map user_message inputs)).messages
          else inputs)
  unfolding redact_inputs
  redact_inputs-redacted caller inputs = elim (Bool-cases (must_redact svc caller)) [
    | inl y ↦ simp y refl
    | inr n ↦ simp n refl
  ]

  serve_embeddings-ok :
      (caller : Caller) (req : EmbeddingsRequest) (g : Gateway svc) (r : EmbeddingsResponse)
      → (serve_embeddings svc caller req g).0 ≡ ok r
      → Embedded caller req g.ledger g.log (serve_embeddings svc caller req g).1.log r
  unfolding serve_embeddings
  serve_embeddings-ok caller req g r h0 =
      let ask = embeddings_ask svc req in
      let redacted = redact_inputs svc caller (raw_inputs req.input) in
      let n = estimate_input_tokens redacted.0 in
      let (d, s1, e1, h1, k1) = continue-ok _ _ r h0 in
      let (u, s2, e2, h2, k2) = continue-ok _ _ r h1 in
      let (model, s3, e3, h3, k3) = continue-ok _ _ r h2 in
      let (found, s4, e4, h4, k4) = continue-ok _ _ r h3 in
      let (a, s5, e5, h5, k5) = continue-ok _ _ r h4 in
      let c = embeddings_call svc model redacted in
      let opened = gate_policy-ok svc caller ask d s1 s2 u e2 in
      let passed = enforce-passed svc caller ask model d n s3 s4 found e4 in
      let served = served_by-ok svc (call_embeddings svc d c) s4 s5 a e5 in
      let same3 : s3 ≡ g = sym (ap (λ x. x.1) e3) ∙ opened.1 ∙ sym (ap (λ x. x.1) e1) in
      let same_log : s5.log ≡ g.log = ap (λ s. s.log) served.1 ∙ passed.0 ∙ ap (λ s. s.log) same3 in
      let chosen = select_model-allowed d req.model model (ap (λ x. x.0) e3) in
      let whole = k1 ∙ k2 ∙ k3 ∙ k4 ∙ k5 in
      record {
        decision = d;
        decided = ap (λ x. x.0) e1;
        permitted = opened.0;
        call = c;
        of_model = chosen.0;
        model_ok = chosen.1;
        redacted = redact_inputs-redacted caller (raw_inputs req.input);
        within = λ l has. passed.1 l (ap (λ s. s.ledger) same3 ∙ has);
        answer = a;
        called = served.0;
        entered =
            subst (λ l. Entered caller c a l (serve_embeddings svc caller req g).1.log r) same_log
              (subst (λ l. Entered caller c a s5.log l r) (ap (λ s. s.log) (sym whole))
                (complete_embeddings-ok caller req d c redacted.1 found a s5 r h5));
      }

  -- Vectors are given only after all of this: the policy has decided, and allows the request if the mode
  -- is "enforce"; the model is the one of the request or of the last override, and allowed; the inputs are redacted where the
  -- caller's classification asks for it, and the budget had room for their words; a provider has
  -- answered that very request; and the log has persisted one event, of this request, with the provider,
  -- its tokens and the hash of the inputs it got.
  pub handle_embeddings-answered :
      (caller : Caller) (req : EmbeddingsRequest) (g : Gateway svc) (r : EmbeddingsResponse)
      → (handle_embeddings svc caller req g).0 ≡ ok r
      → Embedded caller req g.ledger g.log (handle_embeddings svc caller req g).1.log r
  unfolding handle_embeddings
  handle_embeddings-answered caller req g r = elim (List-cases (raw_inputs req.input)) [
    | inl e ↦ rw (e, handle_embeddings) (λ h. absurd (ground arith))
    | inr (text, rest, e) ↦
        rw (e, handle_embeddings)
          (λ h.
            let (u, s, taken, h1, k) = continue-ok _ _ r h in
            let same = slot-ok svc caller (embeddings_ask svc req) g s taken in
            let served = serve_embeddings-ok caller req s r h1 in
            let freed = log-release_inflight svc caller (serve_embeddings svc caller req s).1 in
            let end = (serve_embeddings svc caller req s).1.log in
            subst (λ l. Embedded caller req g.ledger g.log l r) (sym (ap (λ s. s.log) k ∙ freed.0))
              (subst (λ l. Embedded caller req g.ledger l end r) same.1
                (subst (λ l. Embedded caller req l s.log end r) same.0 served)))
  ]
