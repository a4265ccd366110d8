-- ===== src/Chat/WiringExamples.antt =====
-- A sensitive request that is answered by the gateway with the in-process tracker, and with the audit
-- writer over a small codec.
use sovereign_rag_gateway.Prelude.{◌+◌, ◌≤◌, ◌≡◌, refl, String, true, none, some, [], ◌∷◌}
use sovereign_rag_gateway.Prelude.Dict.{Dict, get, put}
use sovereign_rag_gateway.Prelude.Text.{word_count}
use sovereign_rag_gateway.Metrics.{no_metrics}
use sovereign_rag_gateway.Audit.{append_line, is_event_hash_valid, last_payload_hash}
use sovereign_rag_gateway.Audit as Audit
use sovereign_rag_gateway.Audit.Examples.{codec, healthy}
use sovereign_rag_gateway.Policy.{
  evaluate_local, apply_transforms, apply_transform, guardrail_of, max_tokens_of,
}
use sovereign_rag_gateway.Redaction.{redact_messages, messages_loop, redact_text, redact_loop}
use sovereign_rag_gateway.Inflight.{init, try_acquire}
use sovereign_rag_gateway.Budget.{
  Tracker, check, record_usage, summary, current_tokens, ceiling_for,
}
use sovereign_rag_gateway.Budget.Window.{fresh}
use sovereign_rag_gateway.Chat.Service.{AuditEvent}
use sovereign_rag_gateway.Chat.Gate.{
  Gateway, acquire_inflight_or_deny, resolve_policy_decision, queue_event,
}
use sovereign_rag_gateway.Chat.BudgetGate.{enforce_budget_or_deny}
use sovereign_rag_gateway.Chat.Prepare.{policy_input, prepare, estimate_requested_tokens}
use sovereign_rag_gateway.Chat.Call.{call_provider}
use sovereign_rag_gateway.Chat.Completion.{complete, attach_citations}
use sovereign_rag_gateway.Chat.Handle.{handle_chat}
use sovereign_rag_gateway.Chat.Promise.{Answer}
use sovereign_rag_gateway.Chat.Wiring.{
  with_tracker, with_audit_log, handle_chat-within_ceiling, handle_chat-appends,
}
use sovereign_rag_gateway.Chat.Examples.{service, caller, request, response, guard, start}

abbrev tracker : Tracker
tracker = fresh 1000 60 []

handle_chat-within_ceiling_example :
    (answer : Answer
      (with_tracker 0 service)
      caller
      (request "gpt")
      start.ledger
      start.log
      (handle_chat (with_tracker 0 service) caller (request "gpt") start).1.log
      response)
    × (current_tokens 0 caller.tenant_id tracker + estimate_requested_tokens answer.prepared.request
        ≤ ceiling_for tracker caller.tenant_id)
unfolding handle_chat acquire_inflight_or_deny try_acquire init get put resolve_policy_decision
    evaluate_local policy_input prepare apply_transforms apply_transform guardrail_of max_tokens_of
    word_count enforce_budget_or_deny check estimate_requested_tokens redact_messages messages_loop
    redact_text redact_loop call_provider complete attach_citations queue_event record_usage summary
handle_chat-within_ceiling_example =
    handle_chat-within_ceiling 0 service caller (request "gpt") start tracker response refl refl

abbrev encode : AuditEvent → Dict String
encode e = ("request_id", e.request_id) ∷ ("tenant_id", e.tenant_id) ∷ []

abbrev unlogged : Gateway (with_audit_log codec healthy encode "e1" "t1" service)
unlogged = record {
  guard = some guard;
  ledger = some tracker;
  log = none;
  metrics = no_metrics;
  queued = [];
}

handle_chat-appends_example :
    let end =
      (handle_chat
        (with_audit_log codec healthy encode "e1" "t1" service)
        caller
        (request "gpt")
        unlogged).1 in
    (p : Dict String) × (end.log ≡ append_line codec p none) × (is_event_hash_valid codec p ≡ true)
unfolding handle_chat acquire_inflight_or_deny try_acquire init get put resolve_policy_decision
    evaluate_local policy_input prepare apply_transforms apply_transform guardrail_of max_tokens_of
    word_count enforce_budget_or_deny check estimate_requested_tokens redact_messages messages_loop
    redact_text redact_loop call_provider complete attach_citations queue_event record_usage summary
    Audit.write_event last_payload_hash
handle_chat-appends_example =
    handle_chat-appends codec healthy encode "e1" "t1" service (λ e. refl) caller (request "gpt")
      unlogged response refl
