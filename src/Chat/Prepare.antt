-- ===== src/Chat/Prepare.antt =====
-- What `handle_chat` makes of a request before it asks for the budget: the transforms, the retrieved
-- context, the redaction, and the constraints on the model and the providers.
use Prim.Native.String.{◌++◌ as str_append}
use mathlib.Core.Option
use sovereign_rag_gateway.Prelude.{
  ℕ, ◌+◌, max, String, Bool, true, Option, none, some, List, [], ◌∷◌, ◌++◌, map, keep, str_eq, ltb,
  ◌&&◌, if◌then◌else◌, sum_of,
}
use sovereign_rag_gateway.Prelude.Int.{pos_part}
use sovereign_rag_gateway.Prelude.Text.{word_count}
use sovereign_rag_gateway.Models.{Message, ChatRequest, RagOptions, Citation, DocumentChunk}
use sovereign_rag_gateway.Policy.{PolicyInput, apply_transforms, is_sensitive, member_of}
use sovereign_rag_gateway.Redaction.{redact_messages}
use sovereign_rag_gateway.Retrieval.{
  RetrievalRequest, chunks, retrieval_denied, connector_not_found, search_crashed, retrieve,
}
use sovereign_rag_gateway.Chat.Service.{
  Service, Caller, ProviderRequest, Result, ok, failed, crashed,
}
use sovereign_rag_gateway.Chat.Gate.{Verdict, error}

-- `_last_user_message`: the content of the last message of a user, or else of the last message.
abbrev pub last_user : List Message → Option String
last_user [] = none
last_user (m ∷ ms) = elim (last_user ms) [
  | some s ↦ some s
  | none ↦ if str_eq m.role "user" then some m.content else none
]

abbrev pub last_content : List Message → String
last_content [] = ""
last_content (m ∷ []) = m.content
last_content (m ∷ n ∷ ms) = last_content (n ∷ ms)

pub last_user_message : List Message → String
last_user_message ms = elim (last_user ms) [ none ↦ last_content ms | some s ↦ s ]

-- `_build_retrieval_context`
abbrev pub chunk_line : DocumentChunk → String
chunk_line c = str_append "[" (str_append c.chunk_id (str_append "] " c.text))

abbrev pub join_lines : List String → String
join_lines [] = ""
join_lines (l ∷ []) = l
join_lines (l ∷ m ∷ ls) = str_append l (str_append "\n" (join_lines (m ∷ ls)))

pub build_retrieval_context : List DocumentChunk → String
build_retrieval_context cs =
    str_append "Retrieved context chunks:\n" (join_lines (map chunk_line cs))

abbrev pub citation_of : DocumentChunk → Citation
citation_of c = record {
  source_id = c.source_id;
  connector = c.connector;
  uri = c.uri;
  chunk_id = c.chunk_id;
  score = c.score;
}

-- The names in a list of constraints that are not blank.
abbrev pub named : List String → List String
named names = keep (λ s. ltb 0 (word_count s)) names

-- The request and the citations, ready for the budget and the provider.
pub record Prepared : Type 0 where
  pub request : ProviderRequest
  pub citations : Option (List Citation)
  pub input_redaction_count : ℕ
  pub allowed_provider_names : Option (List String)

-- `_estimate_requested_tokens`
unfoldable pub estimate_requested_tokens : ProviderRequest → ℕ
estimate_requested_tokens r =
    let asked : ℕ = elim r.max_tokens [ none ↦ 0 | some n ↦ pos_part n ] in
    max (sum_of (λ m. word_count m.content) r.messages) 1 + asked

module _ (svc : Service) where
  open svc use {settings, json, patterns, retrieval}

  -- `rag_requested`, with the options.
  unfoldable pub rag_requested : ChatRequest → Option RagOptions
  rag_requested req = elim req.rag [
    | none ↦ none
    | some rag ↦ if settings.rag_enabled && rag.enabled then some rag else none
  ]

  abbrev pub connector_targets : Option RagOptions → List String
  connector_targets none = []
  connector_targets (some rag) = rag.connector ∷ []

  unfoldable pub policy_input : Caller → ChatRequest → PolicyInput
  unfolding rag_requested
  policy_input caller req = record {
    tenant_id = caller.tenant_id;
    user_id = caller.user_id;
    endpoint = caller.endpoint;
    requested_model = req.model;
    classification = caller.classification;
    estimated_tokens = sum_of (λ m. word_count m.content) req.messages;
    connector_targets = connector_targets (rag_requested req);
    request_id = caller.request_id;
  }

  -- `_allowed_connectors`
  unfoldable pub allowed_connectors : Verdict svc → Option (List String)
  allowed_connectors d =
      let by_settings : Option (List String) = elim settings.rag_allowed_connectors [
        | [] ↦ none
        | c ∷ cs ↦ some (c ∷ cs)
      ] in
      elim d.connector_constraints [
        | none ↦ by_settings
        | some allowed ↦ elim allowed [ none ↦ by_settings | some names ↦ some names ]
      ]

  -- `_retrieve_chunks`
  unfoldable pub retrieve_chunks : RetrievalRequest → Verdict svc → Result (List DocumentChunk)
  unfolding allowed_connectors
  retrieve_chunks request d = elim retrieval [
    | none ↦
        failed
          (error 503 "retrieval_unavailable" "provider" "Retrieval orchestrator is not configured")
    | some o ↦ elim (retrieve o request (allowed_connectors d)) [
      | chunks cs ↦ ok cs
      | retrieval_denied name ↦ failed (
          error 403 "retrieval_forbidden" "policy"
            (str_append "connector '" (str_append name "' is not allowed")))
      | connector_not_found name ↦ failed (
          error 422 "connector_not_found" "validation"
            (str_append "Connector not configured: " name))
      | search_crashed ↦ crashed
    ]
  ]

  abbrev pub retrieval_request : ChatRequest → RagOptions → RetrievalRequest
  retrieval_request req rag = record {
    query = last_user_message req.messages;
    connector = rag.connector;
    k = rag.top_k;
    filters = elim rag.filters [ none ↦ [] | some f ↦ f ];
  }

  -- The messages with the retrieved context behind them, and the citations.
  abbrev pub with_context :
      List Message → List DocumentChunk → List Message × Option (List Citation)
  with_context messages [] = (messages, none)
  with_context messages (c ∷ cs) = (
    messages ++ record { role = "system"; content = build_retrieval_context (c ∷ cs) } ∷ [],
    some (map citation_of (c ∷ cs)),
  )

  unfoldable pub add_context :
      ChatRequest → Verdict svc → List Message → Result (List Message × Option (List Citation))
  unfolding rag_requested retrieve_chunks
  add_context req d messages = elim (rag_requested req) [
    | none ↦ ok (messages, none)
    | some rag ↦ elim (retrieve_chunks (retrieval_request req rag) d) [
      | ok cs ↦ ok (with_context messages cs)
      | failed e ↦ failed e
      | crashed ↦ crashed
    ]
  ]

  -- `redaction_enabled and classification in {"phi", "pii"}`
  abbrev pub must_redact : Caller → Bool
  must_redact caller = settings.redaction_enabled && is_sensitive caller.classification

  unfoldable pub redact_input : Caller → List Message → List Message × ℕ
  redact_input caller messages =
      let r = redact_messages patterns messages in
      if must_redact caller then (r.messages, r.redaction_count) else (messages, 0)

  -- `_allowed_models` and `_allowed_providers`
  abbrev pub allowed_models : Verdict svc → Option (List String)
  allowed_models d = elim d.provider_constraints [
    | none ↦ none
    | some c ↦ Option.map named c.allowed_models
  ]

  abbrev pub allowed_providers : Verdict svc → Option (List String)
  allowed_providers d = elim d.provider_constraints [
    | none ↦ none
    | some c ↦ Option.map named c.allowed_providers
  ]

  -- `_validate_model_constraints`, as whether it passes.
  unfoldable pub model_allowed : Verdict svc → String → Bool
  model_allowed d model = elim (allowed_models d) [
    | none ↦ true
    | some names ↦ member_of names model
  ]

  unfoldable pub prepare : Caller → ChatRequest → Verdict svc → Result Prepared
  unfolding add_context redact_input model_allowed
  prepare caller req d = elim (apply_transforms json req d.transforms) [
    | none ↦ crashed
    | some transformed ↦ elim (add_context req d transformed.messages) [
      | failed e ↦ failed e
      | crashed ↦ crashed
      | ok found ↦
          let (messages, redactions) = redact_input caller found.0 in
          if model_allowed d transformed.model
          then ok (record {
            request = record {
              model = transformed.model;
              messages = messages;
              max_tokens = transformed.max_tokens;
            };
            citations = found.1;
            input_redaction_count = redactions;
            allowed_provider_names = allowed_providers d;
          })
          else failed (
              error 403 "model_forbidden" "policy"
                (str_append "Model not allowed by policy: " transformed.model))
    ]
  ]
