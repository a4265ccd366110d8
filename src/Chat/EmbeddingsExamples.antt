-- ===== src/Chat/EmbeddingsExamples.antt =====
-- A request for embeddings of a sensitive caller, with one text to redact.
use sovereign_rag_gateway.Prelude.{◌≡◌, refl, String, some, [], ◌∷◌}
use sovereign_rag_gateway.Prelude.Dict.{get, put}
use sovereign_rag_gateway.Prelude.Text.{word_count}
use sovereign_rag_gateway.Models.{EmbeddingsRequest, EmbeddingsResponse, texts}
use sovereign_rag_gateway.Policy.{evaluate_local}
use sovereign_rag_gateway.Redaction.{redact_messages, messages_loop, redact_text, redact_loop}
use sovereign_rag_gateway.Inflight.{Guard, init, try_acquire, inflight_of}
use sovereign_rag_gateway.Budget.{check, summary, record_usage}
use sovereign_rag_gateway.Chat.Gate.{acquire_inflight_or_deny, resolve_policy_decision, queue_event}
use sovereign_rag_gateway.Chat.BudgetGate.{enforce_budget_or_deny}
use sovereign_rag_gateway.Chat.Prepare.{model_allowed}
use sovereign_rag_gateway.Chat.Monad.{continue}
use sovereign_rag_gateway.Chat.OpenStream.{gate_policy, served_by}
use sovereign_rag_gateway.Chat.Embeddings.{
  raw_inputs, select_model, redact_inputs, call_embeddings, complete_embeddings, settle_embeddings,
  serve_embeddings, handle_embeddings,
}
use sovereign_rag_gateway.Chat.EmbeddingsRelease.{handle_embeddings-releases}
use sovereign_rag_gateway.Chat.EmbeddingsPromise.{Embedded, handle_embeddings-answered}
use sovereign_rag_gateway.Chat.Examples.{service, caller, guard, start, vectors_of}

abbrev embeds : EmbeddingsRequest
embeds = record { model = "vectors"; input = texts ("MRN 123456" ∷ "a note" ∷ []) }

abbrev vectors : EmbeddingsResponse
vectors = vectors_of (record { model = "vectors"; inputs = "[MRN_REDACTED]" ∷ "a note" ∷ [] })

handle_embeddings-releases_example :
    (after : Guard) × ((handle_embeddings service caller embeds start).1.guard ≡ some after)
    × ((k : String) → inflight_of after k ≡ inflight_of guard k)
    × (after.global_inflight ≡ guard.global_inflight)
    × (raw_inputs embeds.input ≡ [] → after ≡ guard)
handle_embeddings-releases_example =
    handle_embeddings-releases service caller embeds start guard refl

handle_embeddings-answered_example :
    Embedded service caller embeds start.ledger start.log
      (handle_embeddings service caller embeds start).1.log
      vectors
unfolding continue handle_embeddings serve_embeddings acquire_inflight_or_deny gate_policy
    try_acquire init get put resolve_policy_decision evaluate_local select_model redact_inputs
    word_count enforce_budget_or_deny check summary redact_messages messages_loop redact_text
    redact_loop served_by call_embeddings model_allowed complete_embeddings settle_embeddings
    queue_event record_usage
handle_embeddings-answered_example =
    handle_embeddings-answered service caller embeds start vectors refl
