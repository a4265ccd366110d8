-- ===== src/Chat/Completion.antt =====
-- What `handle_chat` does with an answer of the provider.
use sovereign_rag_gateway.Prelude.{
  ℕ, ◌+◌, ◌*◌, String, Bool, false, Option, none, some, List, [], ◌∷◌, ltb, if◌then◌else◌,
}
use sovereign_rag_gateway.Models.{ChatRequest, Choice, Citation, ChatResponse}
use sovereign_rag_gateway.Redaction.{TextResult, redact_text}
use sovereign_rag_gateway.Budget.{Summary}
use sovereign_rag_gateway.Metrics.{record_request}
use sovereign_rag_gateway.Webhooks.{EventType}
use sovereign_rag_gateway.Chat.Service.{
  Service, Caller, Facts, AuditEvent, Result, ok, failed, crashed, persisted, invalid_event,
  log_crashed, of_request, of_messages, of_call, of_reply,
}
use sovereign_rag_gateway.Chat.Gate.{
  Verdict, Gateway, error, build_audit_event, queue_event, policy_decision_label,
}
use sovereign_rag_gateway.Chat.Call.{Answered}
use sovereign_rag_gateway.Chat.Prepare.{Prepared, must_redact}

-- The citations go to the first choice, where there are both.
unfoldable pub attach_citations : Option (List Citation) → List Choice → List Choice
attach_citations (some (c ∷ cs)) (choice ∷ choices) =
    record choice { citations = some (c ∷ cs) } ∷ choices
attach_citations _ choices = choices

module _ (svc : Service) where
  open svc use {
    settings, patterns, Reply, validate_reply, hash, write_event, record_usage, summary, latency,
  }

  -- The loop over the choices of an answer: the choices, and the number of redactions.
  unfoldable pub redact_choices : List Choice → List Choice × ℕ
  redact_choices [] = ([], 0)
  redact_choices (c ∷ cs) =
      let result : TextResult = redact_text patterns c.content in
      let (rest, n) = redact_choices cs in
      (
        (if ltb 0 result.redaction_count then record c { content = result.text } else c) ∷ rest,
        result.redaction_count + n,
      )

  unfoldable pub redact_output : Caller → List Choice → List Choice × ℕ
  unfolding redact_choices
  redact_output caller choices =
      let redacted = redact_choices choices in
      if must_redact svc caller then redacted else (choices, 0)

  -- `_record_budget_usage`
  unfoldable pub record_budget_usage :
      Caller → ℕ → Option Summary → Gateway svc → Option Summary × Gateway svc
  record_budget_usage caller used current g = elim g.ledger [
    | none ↦ (current, g)
    | some ledger ↦
        let (recorded, ledger1) = record_usage caller.tenant_id used ledger in
        let (found, ledger2) = summary caller.tenant_id ledger1 in
        if recorded
        then (elim found [ none ↦ current | some s ↦ some s ], record g { ledger = some ledger2 })
        else (current, record g { ledger = some ledger1 })
  ]

  abbrev pub queue_if :
      Bool → EventType → List EventType → Gateway svc → List EventType × Gateway svc
  queue_if b e events g = if b then queue_event svc e events g else (events, g)

  -- What a request that a provider has served is counted with.
  abbrev pub count_request : ℕ → Caller → String → Facts → Gateway svc → Gateway svc
  count_request status caller model facts g =
      if settings.metrics_enabled
      then record g {
        metrics =
            record_request
              (record {
                endpoint = caller.endpoint;
                provider = facts.provider;
                model = model;
                policy_decision = facts.policy_decision;
                status_code = status;
                latency = latency;
                tokens_in = facts.tokens_in;
                tokens_out = facts.tokens_out;
                cost = facts.cost;
                redaction_count = facts.redaction_count;
                provider_attempts = facts.provider_attempts;
              })
              g.metrics;
      }
      else g

  -- The facts of an answered request.
  unfoldable pub answer_facts :
      ChatRequest
      → Verdict svc
      → Prepared
      → Answered Reply
      → ChatResponse
      → ℕ
      → Option Summary
      → List EventType
      → Facts
  answer_facts req d p a response redactions budget events = record {
    selected_model = p.request.model;
    provider = a.routed_provider;
    policy_decision = policy_decision_label svc d;
    redaction_count = p.input_redaction_count + redactions;
    request_payload_hash = hash (of_request req);
    redacted_payload_hash = hash (of_messages p.request.messages);
    provider_request_hash = some (hash (of_call p.request));
    provider_response_hash = some (hash (of_reply a.result));
    retrieval_citations = elim p.citations [ none ↦ [] | some cs ↦ cs ];
    streaming = false;
    tokens_in = response.usage.prompt_tokens;
    tokens_out = response.usage.completion_tokens;
    cost = (response.usage.prompt_tokens + response.usage.completion_tokens) * 100;
    provider_attempts = a.provider_attempts;
    fallback_chain = a.fallback_chain;
    budget = budget;
    webhook_events = events;
    input_redaction_count = some p.input_redaction_count;
    output_redaction_count = some redactions;
    overload_shed_reason = none;
  }

  -- The audit event of an answered request, and the state it is written in.
  unfoldable pub settle_answer :
      Caller
      → ChatRequest
      → Verdict svc
      → Prepared
      → Answered Reply
      → ChatResponse
      → ℕ
      → Option Summary
      → Gateway svc
      → AuditEvent × Gateway svc
  unfolding answer_facts record_budget_usage
  settle_answer caller req d p a response redactions budget g =
      let used : ℕ = response.usage.prompt_tokens + response.usage.completion_tokens in
      let (budget', g1) = record_budget_usage caller used budget g in
      let (events1, g2) = queue_if (ltb 1 a.provider_attempts) EventType.provider_fallback [] g1 in
      let (events2, g3) =
        queue_if (ltb 0 (p.input_redaction_count + redactions)) EventType.redaction_hit events1
          g2 in
      (
        build_audit_event svc caller req.model d
            (answer_facts req d p a response redactions budget' events2),
        g3,
      )

  -- From the provider's answer to the response.
  unfoldable pub complete :
      Caller
      → ChatRequest
      → Verdict svc
      → Prepared
      → Option Summary
      → Answered Reply
      → Gateway svc
      → Result ChatResponse × Gateway svc
  unfolding settle_answer redact_output
  complete caller req d p budget a g = elim (validate_reply a.result) [
    | none ↦ (crashed, g)
    | some response ↦
        let (choices, redactions) = redact_output caller response.choices in
        let (event, g') = settle_answer caller req d p a response redactions budget g in
        let (logged, log) = write_event event g'.log in
        let g'' : Gateway svc = record g' { log = log } in
        elim logged [
          | persisted ↦ (
            ok (record response { choices = attach_citations p.citations choices }),
            count_request 200 caller p.request.model event.facts g'',
          )
          | invalid_event ↦ (
            failed (error 502 "audit_write_failed" "provider" "Failed to persist audit event"),
            g'',
          )
          | log_crashed ↦ (crashed, g'')
        ]
  ]
