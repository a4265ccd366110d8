-- ===== src/Chat/SessionExamples.antt =====
-- A streamed request of a sensitive caller, read to its end, closed at its second frame, and left before
-- its first.
use sovereign_rag_gateway.Prelude.{
  List, ◌++◌, ◌⊎◌, is_some, max, map, sum_of, ◌==◌, if◌then◌else◌, ◌+◌, ◌≡◌, refl, true, none, some,
  [], ◌∷◌,
}
use sovereign_rag_gateway.Prelude.Dict.{get, put}
use sovereign_rag_gateway.Prelude.Int.{pos}
use sovereign_rag_gateway.Prelude.Text.{word_count}
use sovereign_rag_gateway.Policy.{
  evaluate_local, apply_transforms, apply_transform, guardrail_of, max_tokens_of, guardrail,
}
use sovereign_rag_gateway.Models.{Chunk}
use sovereign_rag_gateway.Redaction.{redact_messages, messages_loop, redact_text, redact_loop}
use sovereign_rag_gateway.Inflight.{init, try_acquire}
use sovereign_rag_gateway.Budget.{check, summary, Tracker, Summary, pruned}
use sovereign_rag_gateway.Budget.Window.{fresh}
use sovereign_rag_gateway.Chat.Service.{AuditEvent, of_messages, log_crashed}
use sovereign_rag_gateway.Chat.Gate.{Gateway, resolve_policy_decision}
use sovereign_rag_gateway.Chat.BudgetGate.{enforce_budget_or_deny}
use sovereign_rag_gateway.Chat.Prepare.{Prepared, policy_input, prepare, estimate_requested_tokens}
use sovereign_rag_gateway.Chat.Completion.{record_budget_usage}
use sovereign_rag_gateway.Chat.Monad.{continue}
use sovereign_rag_gateway.Chat.OpenStream.{Started, open_stream, handle_chat_stream}
use sovereign_rag_gateway.Chat.StreamEnd.{
  join, Reader, reads_to_end, stops_after, Ended, ended, ran_out,
}
use sovereign_rag_gateway.Chat.Settle.{stream_chat, run_stream, settle_stream}
use sovereign_rag_gateway.Chat.StreamPromise.{Promised, handle_chat_stream-promises}
use sovereign_rag_gateway.Chat.Gate.{acquire_inflight_or_deny, resolve_policy_decision}
use sovereign_rag_gateway.Chat.StreamLeak.{stream_chat-leaks}
use sovereign_rag_gateway.Chat.StreamRead.{last_of, sent_texts, all_chunks}
use sovereign_rag_gateway.Chat.StreamRecord.{run_stream-records}
use sovereign_rag_gateway.Chat.Examples.{
  service, caller, request, guard, start, allowance, chunk, rest, admitted,
}

abbrev closes : Reader
closes = stops_after 2 "GeneratorExit"

abbrev within : Summary
within = record { tenant_id = "a"; window_seconds = 60; ceiling = 1000; used = 0; remaining = 1000 }

abbrev ready : Prepared
ready = record {
  request = record {
    model = "gpt";
    messages =
        guardrail "Do not expose sensitive identifiers. Use masked placeholders."
        ∷ record { role = "user"; content = "[MRN_REDACTED]" }
        ∷ [];
    max_tokens = some (pos 256);
  };
  citations = none;
  input_redaction_count = 1;
  allowed_provider_names = some ("stub" ∷ []);
}

abbrev started : Started service
started = record {
  decision = allowance;
  prepared = ready;
  answer = record {
    result = record { first_chunk = some chunk; stream = rest };
    routed_provider = "stub";
    provider_attempts = 1;
    fallback_chain = "stub" ∷ [];
  };
  budget = some within;
}

-- The state when the stream is open.
abbrev seen : Tracker
seen = pruned 0 "a" (pruned 0 "a" (fresh 1000 60 []))

abbrev opened : Gateway service
opened = record admitted { ledger = some seen }

stream_chat-leaks_example :
    let taken = (try_acquire "a" guard).1 in
    let e = ran_out service caller started (some seen) in
    let (event, settled) =
      settle_stream service caller
        (request "gpt")
        started
        e
        (record opened { ledger = e.ledger }) in
    (taken.global_inflight ≡ guard.global_inflight + 1)
    × ((stream_chat service caller (request "gpt") (stops_after 0 "GeneratorExit") start).1.guard
        ≡ some taken)
    × ((service.write_event event settled.log).0 ≡ log_crashed
        → (stream_chat service caller (request "gpt") reads_to_end start).1.guard ≡ some taken)
unfolding continue open_stream try_acquire init get put resolve_policy_decision evaluate_local
    policy_input prepare apply_transforms apply_transform guardrail_of max_tokens_of word_count
    enforce_budget_or_deny check summary estimate_requested_tokens redact_messages messages_loop
    redact_text redact_loop
stream_chat-leaks_example =
    stream_chat-leaks service caller (request "gpt") "GeneratorExit" start opened guard started refl
      refl refl

abbrev whole : Ended Tracker
whole = ran_out service caller started (some seen)

run_stream-records_example :
    (read : List Chunk) × (left : List Chunk) × (all_chunks service caller started ≡ read ++ left)
    × ((left ≡ [])
        ⊎ (is_some whole.stream_error ≡ true)
        ⊎ (whole.budget_mid_stream_terminated ≡ true))
    × (let end = run_stream service caller (request "gpt") started reads_to_end opened in
        let words = sum_of (λ m. word_count m.content) ready.request.messages in
        let tokens_in = last_of (max words 1) (map (λ c. c.prompt_tokens) read) in
        let counted = last_of 0 (map (λ c. c.completion_tokens) read) in
        let tokens_out =
          if counted == 0 then word_count (join (sent_texts service caller read)) else counted in
        (event : AuditEvent) × (end.log ≡ (service.write_event event opened.log).1)
        × (end.ledger
            ≡ (record_budget_usage service caller
                (tokens_in + tokens_out)
                started.budget
                (record opened { ledger = whole.ledger })).1.ledger)
        × (event.request_id ≡ caller.request_id)
        × (event.policy_decision_id ≡ allowance.decision_id)
        × (event.facts.provider ≡ "stub")
        × (event.facts.streaming ≡ true)
        × (event.facts.tokens_in ≡ tokens_in)
        × (event.facts.tokens_out ≡ tokens_out)
        × (event.facts.redacted_payload_hash ≡ service.hash (of_messages ready.request.messages))
        × (event.stream_error ≡ whole.stream_error)
        × (event.budget_mid_stream_terminated ≡ whole.budget_mid_stream_terminated))
unfolding ended
run_stream-records_example =
    run_stream-records service caller (request "gpt") started reads_to_end opened whole refl

handle_chat_stream-promises_example :
    Promised service caller
      (request "gpt")
      start
      (handle_chat_stream service caller (request "gpt") start).1
      started
unfolding continue handle_chat_stream acquire_inflight_or_deny open_stream try_acquire init get put
    resolve_policy_decision evaluate_local policy_input prepare apply_transforms apply_transform
    guardrail_of max_tokens_of word_count enforce_budget_or_deny check summary
    estimate_requested_tokens redact_messages messages_loop redact_text redact_loop
handle_chat_stream-promises_example =
    handle_chat_stream-promises service caller (request "gpt") start started refl
