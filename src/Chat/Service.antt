-- ===== src/Chat/Service.antt =====
-- The data of ChatService: its settings, its parts, and the state that a request changes. Spans, log
-- lines and the payload of a webhook event are left out.
use sovereign_rag_gateway.Prelude.{ℕ, String, Bool, Option, List}
use sovereign_rag_gateway.Prelude.Int.{ℤ}
use sovereign_rag_gateway.Models.{
  Message, ChatRequest, Citation, ChatResponse, AppError, Chunk, EmbeddingsRequest,
  EmbeddingsResponse,
}
use sovereign_rag_gateway.Policy.{Json, Evaluated, PolicyInput, ProviderConstraints}
use sovereign_rag_gateway.Redaction.{Pattern}
use sovereign_rag_gateway.Retrieval.{Orchestrator}
use sovereign_rag_gateway.Providers.{Registry, Outcome, Opened}
use sovereign_rag_gateway.Inflight.{Guard}
use sovereign_rag_gateway.Budget.{BudgetExceeded, Summary}
use sovereign_rag_gateway.Metrics.{Metrics}
use sovereign_rag_gateway.Webhooks.{EventType}

pub record Settings : Type 0 where
  pub rag_enabled : Bool
  pub redaction_enabled : Bool
  pub provider_fallback_enabled : Bool
  pub metrics_enabled : Bool
  pub opa_mode : String
  pub provider_name : String
  pub rag_allowed_connectors : List String

-- `request.state` and the path of the request.
pub record Caller : Type 0 where
  pub request_id : String
  pub tenant_id : String
  pub user_id : String
  pub classification : String
  pub endpoint : String

-- The arguments of the gates that differ between the handlers.
pub record Ask : Type 0 where
  pub requested_model : String
  pub request_payload_hash : String
  pub streaming : Bool

pub record ProviderRequest : Type 0 where
  pub model : String
  pub messages : List Message
  pub max_tokens : Option ℤ

-- What an embeddings provider is asked.
pub record EmbeddingsCall : Type 0 where
  pub model : String
  pub inputs : List String

-- What is left of a provider's stream after the first chunk: the chunks to come, and the class of the
-- exception that it then raises, if it does.
pub record Rest : Type 0 where
  pub chunks : List Chunk
  pub raises : Option String

-- The arguments of `_build_audit_event` that differ between its callers.
pub record Facts : Type 0 where
  pub selected_model : String
  pub provider : String
  pub policy_decision : String
  pub redaction_count : ℕ
  pub request_payload_hash : String
  pub redacted_payload_hash : String
  pub provider_request_hash : Option String
  pub provider_response_hash : Option String
  pub retrieval_citations : List Citation
  pub streaming : Bool
  pub tokens_in : ℕ
  pub tokens_out : ℕ
  pub cost : ℕ
  pub provider_attempts : ℕ
  pub fallback_chain : List String
  pub budget : Option Summary
  pub webhook_events : List EventType
  pub input_redaction_count : Option ℕ
  pub output_redaction_count : Option ℕ
  pub overload_shed_reason : Option String

-- An audit event: what it has of the request and of the decision, the facts, and what a stream adds.
pub record AuditEvent : Type 0 where
  pub request_id : String
  pub tenant_id : String
  pub user_id : String
  pub endpoint : String
  pub requested_model : String
  pub policy_decision_id : String
  pub policy_evaluated_at : String
  pub policy_allow : Bool
  pub policy_mode : String
  pub transforms_applied : List String
  pub policy_hash : String
  pub trace_id : String
  pub deny_reason : Option String
  pub provider_constraints : Option ProviderConstraints
  pub connector_constraints : Option (Option (List String))
  pub facts : Facts
  pub stream_error : Option String
  pub budget_mid_stream_terminated : Bool

-- How `AuditWriter.write_event` ends: it persists the event, raises `AuditValidationError`, or raises
-- another exception.
pub data Logged : Type 0 where
  persisted invalid_event log_crashed : Logged

-- How `BudgetTracker.check` ends: quietly, with `BudgetExceededError`, or with `BudgetBackendError`.
pub data Checked : Type 0 where
  within_budget : Checked
  budget_exceeded : BudgetExceeded → Checked
  backend_error : Checked

-- How a call ends: with a result, an `AppError`, or another exception.
pub data Result (A : Type 0) : Type 0 where
  ok : A → Result A
  failed : AppError → Result A
  crashed : Result A

-- What `_hash_value` is called on.
pub data Hashed (Reply Vectors : Type 0) : Type 0 where
  of_request : ChatRequest → Hashed Reply Vectors
  of_messages : List Message → Hashed Reply Vectors
  of_call : ProviderRequest → Hashed Reply Vectors
  of_reply : Reply → Hashed Reply Vectors
  of_stream :
      (completion_text : String)
      → (prompt_tokens completion_tokens : ℕ) → (chunk_id model : String) → Hashed Reply Vectors
  of_embeddings_request : EmbeddingsRequest → Hashed Reply Vectors
  of_inputs : List String → Hashed Reply Vectors
  of_embeddings_call : EmbeddingsCall → Hashed Reply Vectors
  of_vectors : Vectors → Hashed Reply Vectors

-- `ChatService` with the parts that it calls. The tracker is known by the four methods that the
-- service calls; `none` of its summary and `false` of its record are a `BudgetBackendError`. A
-- provider is known by its name, and the direct one by the fields in `_direct`.
pub record Service : Type 1 where
  pub settings : Settings
  pub json : Json
  pub policy : PolicyInput → Evaluated json.Value
  pub patterns : List Pattern
  pub retrieval : Option Orchestrator
  pub registry : Option Registry
  pub Reply : Type 0
  pub chat : String → ProviderRequest → Outcome Reply
  pub chat_direct : ProviderRequest → Outcome Reply
  pub validate_reply : Reply → Option ChatResponse
  pub chat_stream : String → ProviderRequest → Outcome (Opened Chunk Rest)
  pub chat_stream_direct : ProviderRequest → Outcome (Opened Chunk Rest)
  pub Vectors : Type 0
  pub embeddings : String → EmbeddingsCall → Outcome Vectors
  pub embeddings_direct : EmbeddingsCall → Outcome Vectors
  pub validate_vectors : Vectors → Option EmbeddingsResponse
  pub hash : Hashed Reply Vectors → String
  pub Log : Type 0
  pub write_event : AuditEvent → Log → Logged × Log
  pub Ledger : Type 0
  pub check : String → ℕ → Ledger → Checked × Ledger
  pub record_usage : String → ℕ → Ledger → Bool × Ledger
  pub summary : String → Ledger → Option Summary × Ledger
  pub check_running : String → ℕ → Ledger → Bool × Ledger
  pub fires : EventType → Bool
  pub uuid : String
  pub now : String
  pub timestamp : ℤ
  pub latency : ℕ

-- What a request changes. `queued` is the webhook events whose dispatch has been started.
pub record State (Log Ledger : Type 0) : Type 0 where
  pub guard : Option Guard
  pub ledger : Option Ledger
  pub log : Log
  pub metrics : Metrics
  pub queued : List EventType
