-- ===== src/Chat/Embeddings.antt =====
-- `handle_embeddings`: the gates of `handle_chat` without transforms of the text and without retrieval,
-- and vectors in place of an answer.
use sovereign_rag_gateway.Prelude.{
  ℕ, ◌*◌, max, String, false, Option, none, some, List, [], ◌∷◌, map, str_eq, ltb, if◌then◌else◌,
  sum_of,
}
use sovereign_rag_gateway.Prelude.Text.{word_count}
use Prim.Native.String.{◌++◌ as str_append}
use sovereign_rag_gateway.Models.{
  Message, EmbeddingsInput, one_text, texts, EmbeddingsRequest, EmbeddingsResponse,
}
use sovereign_rag_gateway.Policy.{PolicyInput, Transform, model_of}
use sovereign_rag_gateway.Redaction.{redact_messages}
use sovereign_rag_gateway.Budget.{Summary}
use sovereign_rag_gateway.Providers.{route_embeddings_with_fallback}
use sovereign_rag_gateway.Webhooks.{EventType}
use sovereign_rag_gateway.Chat.Service.{
  Service, Caller, Ask, EmbeddingsCall, Facts, AuditEvent, Result, ok, failed, crashed, persisted,
  invalid_event, log_crashed, of_embeddings_request, of_inputs, of_embeddings_call, of_vectors,
}
use sovereign_rag_gateway.Chat.Gate.{
  Verdict, Gateway, error, build_audit_event, policy_decision_label, acquire_inflight_or_deny,
  release_inflight, resolve_policy_decision,
}
use sovereign_rag_gateway.Chat.BudgetGate.{enforce_budget_or_deny}
use sovereign_rag_gateway.Chat.Prepare.{must_redact, model_allowed, allowed_providers}
use sovereign_rag_gateway.Chat.Call.{Answered, Called, call_with}
use sovereign_rag_gateway.Chat.Completion.{record_budget_usage, queue_if, count_request}
use sovereign_rag_gateway.Chat.Monad.{M, ◌>>=◌, ◌>>◌, lift}
use sovereign_rag_gateway.Chat.OpenStream.{gate_policy, served_by}

abbrev pub raw_inputs : EmbeddingsInput → List String
raw_inputs (one_text s) = s ∷ []
raw_inputs (texts ss) = ss

-- The number of words, and at least one token.
abbrev pub estimate_input_tokens : List String → ℕ
estimate_input_tokens inputs = max (sum_of word_count inputs) 1

abbrev pub user_message : String → Message
user_message text = record { role = "user"; content = text }

module _ (svc : Service) where
  open svc use {
    settings, json, patterns, Vectors, embeddings, embeddings_direct, validate_vectors, hash,
    write_event,
  }

  abbrev pub embeddings_ask : EmbeddingsRequest → Ask
  embeddings_ask req = record {
    requested_model = req.model;
    request_payload_hash = hash (of_embeddings_request req);
    streaming = false;
  }

  abbrev pub embeddings_input : Caller → EmbeddingsRequest → PolicyInput
  embeddings_input caller req = record {
    tenant_id = caller.tenant_id;
    user_id = caller.user_id;
    endpoint = caller.endpoint;
    requested_model = req.model;
    classification = caller.classification;
    estimated_tokens = sum_of word_count (raw_inputs req.input);
    connector_targets = [];
    request_id = caller.request_id;
  }

  -- The loop over the transforms, of which only those that override the model count here.
  unfoldable pub override_model : List (Transform json.Value) → String → String
  override_model [] model = model
  override_model (t ∷ ts) model =
      override_model ts (if str_eq t.type "override_model" then model_of json t model else model)

  -- `_validate_model_constraints`
  unfoldable pub select_model : Verdict svc → String → Result String
  unfolding override_model
  select_model d requested =
      let model : String = override_model d.transforms requested in
      if model_allowed svc d model
      then ok model
      else failed
          (error 403 "model_forbidden" "policy" (str_append "Model not allowed by policy: " model))

  -- The inputs as the provider gets them, and the number of redactions.
  unfoldable pub redact_inputs : Caller → List String → List String × ℕ
  redact_inputs caller inputs =
      let r = redact_messages patterns (map user_message inputs) in
      if must_redact svc caller
      then (map (λ m. m.content) r.messages, r.redaction_count)
      else (inputs, 0)

  unfoldable pub call_embeddings : Verdict svc → EmbeddingsCall → Called Vectors
  unfolding call_with
  call_embeddings d c =
      let allowed = allowed_providers svc d in
      call_with svc allowed
        (λ r.
          route_embeddings_with_fallback (λ e. embeddings e.name c) r settings.provider_name c.model
            allowed)
        (embeddings_direct c)

  unfoldable pub embeddings_facts :
      EmbeddingsRequest
      → Verdict svc
      → EmbeddingsCall
      → ℕ
      → Answered Vectors
      → ℕ
      → Option Summary
      → List EventType
      → Facts
  embeddings_facts req d c redactions a tokens_in budget events = record {
    selected_model = c.model;
    provider = a.routed_provider;
    policy_decision = policy_decision_label svc d;
    redaction_count = redactions;
    request_payload_hash = hash (of_embeddings_request req);
    redacted_payload_hash = hash (of_inputs c.inputs);
    provider_request_hash = some (hash (of_embeddings_call c));
    provider_response_hash = some (hash (of_vectors a.result));
    retrieval_citations = [];
    streaming = false;
    tokens_in = tokens_in;
    tokens_out = 0;
    cost = tokens_in * 20;
    provider_attempts = a.provider_attempts;
    fallback_chain = a.fallback_chain;
    budget = budget;
    webhook_events = events;
    input_redaction_count = some redactions;
    output_redaction_count = some 0;
    overload_shed_reason = none;
  }

  -- The usage is recorded and the webhook events are queued; then the event is built.
  unfoldable pub settle_embeddings :
      Caller
      → EmbeddingsRequest
      → Verdict svc
      → EmbeddingsCall
      → ℕ
      → Option Summary
      → Answered Vectors
      → ℕ
      → Gateway svc
      → AuditEvent × Gateway svc
  unfolding embeddings_facts record_budget_usage
  settle_embeddings caller req d c redactions budget a tokens_in g =
      let (budget', g1) = record_budget_usage svc caller tokens_in budget g in
      let (events1, g2) =
        queue_if svc (ltb 1 a.provider_attempts) EventType.provider_fallback [] g1 in
      let (events2, g3) = queue_if svc (ltb 0 redactions) EventType.redaction_hit events1 g2 in
      (
        build_audit_event svc caller req.model d
            (embeddings_facts req d c redactions a tokens_in budget' events2),
        g3,
      )

  -- From the provider's vectors to the response.
  unfoldable pub complete_embeddings :
      Caller
      → EmbeddingsRequest
      → Verdict svc
      → EmbeddingsCall
      → ℕ
      → Option Summary
      → Answered Vectors
      → M (Gateway svc) EmbeddingsResponse
  complete_embeddings caller req d c redactions budget a g = elim (validate_vectors a.result) [
    | none ↦ (crashed, g)
    | some response ↦
        let (event, g') =
          settle_embeddings caller req d c redactions budget a response.usage.prompt_tokens g in
        let (logged, log) = write_event event g'.log in
        let g'' : Gateway svc = record g' { log = log } in
        elim logged [
          | persisted ↦ (ok response, count_request svc 200 caller c.model event.facts g'')
          | invalid_event ↦ (
            failed (error 502 "audit_write_failed" "provider" "Failed to persist audit event"),
            g'',
          )
          | log_crashed ↦ (crashed, g'')
        ]
  ]

  abbrev pub embeddings_call : String → List String × ℕ → EmbeddingsCall
  embeddings_call model (inputs, n) = record { model = model; inputs = inputs }

  -- The body of the `try` block after the slot is taken.
  unfoldable pub serve_embeddings : Caller → EmbeddingsRequest → M (Gateway svc) EmbeddingsResponse
  serve_embeddings caller req = do
    d ← lift (resolve_policy_decision svc (embeddings_input caller req))
    gate_policy svc caller (embeddings_ask req) d
    model ← lift (select_model d req.model)
    let redacted = redact_inputs caller (raw_inputs req.input)
    let c = embeddings_call model redacted
    found ←
        enforce_budget_or_deny svc caller (embeddings_ask req) model d
          (estimate_input_tokens redacted.0)
    a ← served_by svc (call_embeddings d c)
    complete_embeddings caller req d c redacted.1 found a

  -- The `finally` block.
  abbrev pub and_release : {A : Type 0} → Caller → M (Gateway svc) A → M (Gateway svc) A
  and_release caller m g = let (r, g') = m g in (r, release_inflight svc caller g')

  abbrev pub empty_input : {A : Type 0} → Result A
  empty_input = failed (error 422 "request_validation_failed" "validation" "Input cannot be empty")

  unfoldable pub handle_embeddings : Caller → EmbeddingsRequest → M (Gateway svc) EmbeddingsResponse
  handle_embeddings caller req = elim (raw_inputs req.input) [
    | [] ↦ lift empty_input
    | text ∷ rest ↦ acquire_inflight_or_deny svc caller (embeddings_ask req) >>= λ _.
        and_release caller (serve_embeddings caller req)
  ]
