-- ===== src/Chat/Settle.antt =====
-- The `finally` block of the generator of `handle_chat_stream`, and the life of a streamed request.
use sovereign_rag_gateway.Prelude.{
  is_some, ℕ, ◌+◌, ◌*◌, true, Option, none, some, List, [], ltb, ◌==◌, if◌then◌else◌,
}
use sovereign_rag_gateway.Prelude.Text.{word_count}
use sovereign_rag_gateway.Models.{ChatRequest}
use sovereign_rag_gateway.Budget.{Summary}
use sovereign_rag_gateway.Webhooks.{EventType}
use sovereign_rag_gateway.Chat.Service.{
  Service, Caller, Facts, AuditEvent, ok, persisted, invalid_event, log_crashed, of_request,
  of_messages, of_call, of_stream,
}
use sovereign_rag_gateway.Chat.Gate.{
  Gateway, build_audit_event, policy_decision_label, release_inflight,
}
use sovereign_rag_gateway.Chat.Completion.{record_budget_usage, queue_if, count_request}
use sovereign_rag_gateway.Chat.Monad.{M, ◌>>=◌}
use sovereign_rag_gateway.Chat.OpenStream.{Started, handle_chat_stream}
use sovereign_rag_gateway.Chat.Stream.{Progress}
use sovereign_rag_gateway.Chat.StreamEnd.{Reader, Ended, join, ended}

-- The tokens of the answer: those that the provider has counted, or else the words that were sent.
unfoldable pub completion_tokens : Progress → ℕ
completion_tokens s =
    if s.usage_completion_tokens == 0
    then word_count (join s.completion_parts)
    else s.usage_completion_tokens

module _ (svc : Service) where
  open svc use {hash, write_event}

  unfoldable pub stream_facts :
      ChatRequest → Started svc → Ended svc.Ledger → Option Summary → List EventType → Facts
  unfolding completion_tokens
  stream_facts req t e budget events =
      let s : Progress = e.progress in
      let tokens_out : ℕ = completion_tokens s in
      let p = t.prepared in
      record {
        selected_model = p.request.model;
        provider = t.answer.routed_provider;
        policy_decision = policy_decision_label svc t.decision;
        redaction_count = p.input_redaction_count + s.output_redaction_count;
        request_payload_hash = hash (of_request req);
        redacted_payload_hash = hash (of_messages p.request.messages);
        provider_request_hash = some (hash (of_call p.request));
        provider_response_hash = some (
            hash (
              of_stream (join s.completion_parts) s.usage_prompt_tokens tokens_out s.chunk_id
                p.request.model));
        retrieval_citations = elim p.citations [ none ↦ [] | some cs ↦ cs ];
        streaming = true;
        tokens_in = s.usage_prompt_tokens;
        tokens_out = tokens_out;
        cost = (s.usage_prompt_tokens + tokens_out) * 100;
        provider_attempts = t.answer.provider_attempts;
        fallback_chain = t.answer.fallback_chain;
        budget = budget;
        webhook_events = events;
        input_redaction_count = some p.input_redaction_count;
        output_redaction_count = some s.output_redaction_count;
        overload_shed_reason = none;
      }

  unfoldable pub stream_event :
      Caller
      → ChatRequest
      → Started svc
      → Ended svc.Ledger
      → Option Summary
      → List EventType
      → AuditEvent
  unfolding stream_facts
  stream_event caller req t e budget events =
      record (build_audit_event svc caller req.model t.decision
        (stream_facts req t e budget events)) {
          stream_error = e.stream_error;
          budget_mid_stream_terminated = e.budget_mid_stream_terminated;
        }

  -- The usage is recorded and the webhook events are queued; then the event is built.
  unfoldable pub settle_stream :
      Caller → ChatRequest → Started svc → Ended svc.Ledger → Gateway svc → AuditEvent × Gateway svc
  unfolding stream_event record_budget_usage
  settle_stream caller req t e g =
      let s : Progress = e.progress in
      let used : ℕ = s.usage_prompt_tokens + completion_tokens s in
      let redactions : ℕ = t.prepared.input_redaction_count + s.output_redaction_count in
      let (budget, g1) = record_budget_usage svc caller used t.budget g in
      let (events1, g2) =
        queue_if svc (ltb 1 t.answer.provider_attempts) EventType.provider_fallback [] g1 in
      let (events2, g3) = queue_if svc (ltb 0 redactions) EventType.redaction_hit events1 g2 in
      let (events3, g4) =
        queue_if svc (is_some e.stream_error) EventType.provider_error events2 g3 in
      (stream_event caller req t e budget events3, g4)

  -- `stream_status_code`
  abbrev pub stream_status : Ended svc.Ledger → ℕ
  stream_status e = if is_some e.stream_error then 499 else 200

  -- The `finally` block. An event that is not valid is only logged; another exception of the writer
  -- leaves the block.
  unfoldable pub finish_stream :
      Caller → ChatRequest → Started svc → Ended svc.Ledger → Gateway svc → Gateway svc
  finish_stream caller req t e g =
      let (event, g') = settle_stream caller req t e (record g { ledger = e.ledger }) in
      let (logged, log) = write_event event g'.log in
      let written : Gateway svc = record g' { log = log } in
      let counted : Gateway svc =
        count_request svc (stream_status e) caller t.prepared.request.model event.facts written in
      elim logged [
        | persisted ↦ release_inflight svc caller counted
        | invalid_event ↦ release_inflight svc caller counted
        | log_crashed ↦ written
      ]

  -- What the generator does to the state, as far as its reader runs it.
  unfoldable pub run_stream :
      Caller → ChatRequest → Started svc → Reader → Gateway svc → Gateway svc
  run_stream caller req t reader g = elim (ended svc caller t reader g.ledger) [
    | none ↦ g
    | some e ↦ finish_stream caller req t e g
  ]

  -- A streamed request from its first gate to the end of its generator.
  unfoldable pub stream_chat : Caller → ChatRequest → Reader → M (Gateway svc) (Unit {0})
  stream_chat caller req reader =
      handle_chat_stream svc caller req >>= λ t g. (ok tt, run_stream caller req t reader g)
