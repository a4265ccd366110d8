-- ===== src/Chat/Examples.antt =====
-- A gateway with the local policy, one provider, one redaction pattern and the in-process tracker: a
-- sensitive request that is answered, and one for a forbidden model.
use sovereign_rag_gateway.Prelude.{
  ◌≡◌, refl, String, true, false, none, some, List, [], ◌∷◌, ◌++◌, str_eq, if◌then◌else◌, All,
  arith, map, ◌↔◌, starts_with,
}
use sovereign_rag_gateway.Prelude.Dict.{get, put}
use sovereign_rag_gateway.Prelude.Text.{word_count}
use sovereign_rag_gateway.Prelude.Int.{ℤ, pos}
use sovereign_rag_gateway.Models.{Message, ChatRequest, ChatResponse, Chunk, EmbeddingsResponse}
use sovereign_rag_gateway.Policy.{
  apply_transform, guardrail_of, max_tokens_of, Json, Decision, decided, evaluate_local,
  local_transforms, apply_transforms, member_of, guardrail, PolicyInput,
}
use sovereign_rag_gateway.Policy.Transforms.{Guarded, apply_transforms-Guarded}
use sovereign_rag_gateway.Policy.Local.{evaluate_local-allow}
use sovereign_rag_gateway.Redaction.{
  messages_loop, redact_loop, Pattern, phi, redact_text, redact_messages,
}
use sovereign_rag_gateway.Redaction.Counts.{LeavesText}
use sovereign_rag_gateway.Providers.{reply}
use sovereign_rag_gateway.Inflight.{Guard, init, inflight_of, try_acquire}
use sovereign_rag_gateway.Budget.{Tracker, check, check_running, record_usage, summary}
use sovereign_rag_gateway.Budget.Window.{fresh}
use sovereign_rag_gateway.Metrics.{no_metrics}
use sovereign_rag_gateway.Chat.Service.{
  Service, Caller, Rest, EmbeddingsCall, AuditEvent, persisted, within_budget, budget_exceeded,
}
use sovereign_rag_gateway.Chat.BudgetGate.{enforce_budget_or_deny}
use sovereign_rag_gateway.Chat.Gate.{
  queue_event, Gateway, error, deny_reason_of, acquire_inflight_or_deny, resolve_policy_decision,
}
use sovereign_rag_gateway.Chat.Call.{call_provider}
use sovereign_rag_gateway.Chat.Completion.{complete, attach_citations}
use sovereign_rag_gateway.Chat.Handle.{handle_chat}
use sovereign_rag_gateway.Chat.Prepare.{prepare, estimate_requested_tokens, policy_input}
use sovereign_rag_gateway.Chat.Stages.{gate_result}
use sovereign_rag_gateway.Chat.Release.{handle_chat-releases}
use sovereign_rag_gateway.Chat.Promise.{Answer, handle_chat-answered}
use sovereign_rag_gateway.Chat.Denial.{handle_chat-denied}

pub data Scalar : Type 0 where
  number : ℤ → Scalar
  text : String → Scalar

abbrev pub json : Json
json = record {
  Value = Scalar;
  int = λ v. elim v [ number n ↦ some n | text s ↦ none ];
  str = λ v. elim v [ number n ↦ "" | text s ↦ s ];
  of_int = number;
  of_str = text;
  int-of_int = λ n. refl;
  str-of_str = λ s. refl;
}

abbrev mrn : Pattern
mrn = record {
  name = "mrn";
  subn = λ s. if str_eq s "MRN 123456" then ("[MRN_REDACTED]", 1) else (s, 0);
  category = phi;
}

abbrev pub connectors : List String
connectors = "filesystem" ∷ []

-- A chunk of a streamed answer, with a number to redact.
abbrev pub chunk : Chunk
chunk = record {
  id = some "c";
  created = some (pos 0);
  choices =
      record { content = some "MRN 123456"; has_citations = false; finish_reason = none } ∷ [];
  prompt_tokens = none;
  completion_tokens = none;
}

abbrev pub rest : Rest
rest = record { chunks = chunk ∷ []; raises = none }

abbrev pub vectors_of : EmbeddingsCall → EmbeddingsResponse
vectors_of r = record {
  items = map (λ text. record { index = pos 0; embedding = pos 1 ∷ [] }) r.inputs;
  model = r.model;
  usage = record { prompt_tokens = 3; total_tokens = 3 };
}

abbrev pub service : Service
service = record {
  settings = record {
    rag_enabled = true;
    redaction_enabled = true;
    provider_fallback_enabled = false;
    metrics_enabled = false;
    opa_mode = "enforce";
    provider_name = "stub";
    rag_allowed_connectors = connectors;
  };
  json = json;
  policy = λ input. decided (evaluate_local json "id" "hash" "time" connectors input);
  patterns = mrn ∷ [];
  retrieval = none;
  registry = none;
  Reply = ChatResponse;
  chat = λ name r. reply (record {
    id = "c";
    created = pos 0;
    model = r.model;
    choices = [];
    usage = record { prompt_tokens = 3; completion_tokens = 4; total_tokens = 7 };
  });
  chat_direct = λ r. reply (record {
    id = "c";
    created = pos 0;
    model = r.model;
    choices = record { index = pos 0; content = "MRN 123456"; citations = none } ∷ [];
    usage = record { prompt_tokens = 3; completion_tokens = 4; total_tokens = 7 };
  });
  validate_reply = λ r. some r;
  chat_stream = λ name r. reply (record { first_chunk = some chunk; stream = rest });
  chat_stream_direct = λ r. reply (record { first_chunk = some chunk; stream = rest });
  Vectors = EmbeddingsResponse;
  embeddings = λ name r. reply (vectors_of r);
  embeddings_direct = λ r. reply (vectors_of r);
  validate_vectors = λ v. some v;
  hash = λ v. "digest";
  Log = List AuditEvent;
  write_event = λ e log. (persisted, log ++ e ∷ []);
  Ledger = Tracker;
  check = λ tenant n t.
      let (x, t') = check 0 tenant n t in
      (elim x [ none ↦ within_budget | some e ↦ budget_exceeded e ], t');
  record_usage = λ tenant n t. (true, record_usage 0 tenant n t);
  summary = λ tenant t. let (s, t') = summary 0 tenant t in (some s, t');
  check_running = λ tenant n t. check_running 0 tenant n t;
  fires = λ e. false;
  uuid = "u";
  now = "time";
  timestamp = pos 0;
  latency = 0;
}

abbrev pub guard : Guard
guard = init (pos 2) (pos 1) []

abbrev pub start : Gateway service
start = record {
  guard = some guard;
  ledger = some (fresh 1000 60 []);
  log = [];
  metrics = no_metrics;
  queued = [];
}

abbrev pub caller : Caller
caller = record {
  request_id = "r1";
  tenant_id = "a";
  user_id = "u";
  classification = "phi";
  endpoint = "/v1/chat/completions";
}

abbrev pub messages : List Message
messages = record { role = "user"; content = "MRN 123456" } ∷ []

abbrev pub request : String → ChatRequest
request model = record {
  model = model;
  messages = messages;
  temperature = none;
  max_tokens = some (pos 900);
  stream = false;
  rag = none;
}

abbrev pub response : ChatResponse
response = record {
  id = "c";
  created = pos 0;
  model = "gpt";
  choices = record { index = pos 0; content = "[MRN_REDACTED]"; citations = none } ∷ [];
  usage = record { prompt_tokens = 3; completion_tokens = 4; total_tokens = 7 };
}

handle_chat-releases_example :
    (after : Guard) × ((handle_chat service caller (request "gpt") start).1.guard ≡ some after)
    × ((k : String) → inflight_of after k ≡ inflight_of guard k)
    × (after.global_inflight ≡ guard.global_inflight)
handle_chat-releases_example = handle_chat-releases service caller (request "gpt") start guard refl

handle_chat-answered_example :
    Answer service caller
      (request "gpt")
      start.ledger
      start.log
      (handle_chat service caller (request "gpt") start).1.log
      response
unfolding handle_chat acquire_inflight_or_deny try_acquire init get put resolve_policy_decision
    evaluate_local policy_input prepare apply_transforms apply_transform guardrail_of max_tokens_of
    word_count enforce_budget_or_deny check estimate_requested_tokens redact_messages messages_loop
    redact_text redact_loop call_provider complete attach_citations queue_event record_usage summary
handle_chat-answered_example =
    handle_chat-answered service caller (request "gpt") start response refl

abbrev input : PolicyInput
input = policy_input service caller (request "forbidden-model")

abbrev denial : Decision Scalar
denial = evaluate_local json "id" "hash" "time" connectors input

abbrev pub admitted : Gateway service
admitted = record start { guard = some (try_acquire "a" guard).1 }

handle_chat-denied_example :
    let (r, end) = handle_chat service caller (request "forbidden-model") start in
    (event : AuditEvent) × (r
      ≡ gate_result service
          (service.write_event event start.log).0
          (error 403 "policy_denied" "policy" (deny_reason_of service denial)))
    × (end.log ≡ (service.write_event event start.log).1)
    × (end.ledger ≡ start.ledger)
    × (event.request_id ≡ caller.request_id)
    × (event.policy_decision_id ≡ denial.decision_id)
    × (event.facts.policy_decision ≡ "deny")
    × (event.facts.provider_request_hash ≡ none)
unfolding evaluate_local acquire_inflight_or_deny try_acquire init get resolve_policy_decision
    policy_input
handle_chat-denied_example =
    handle_chat-denied service caller (request "forbidden-model") start admitted denial refl refl
      refl refl

abbrev allowed_input : PolicyInput
allowed_input = policy_input service caller (request "gpt")

abbrev pub allowance : Decision Scalar
allowance = evaluate_local json "id" "hash" "time" connectors allowed_input

evaluate_local-allow_example :
    (allowance.allow ≡ true ↔ (
      (starts_with allowed_input.requested_model "forbidden" ≡ false)
      × All (λ item. member_of connectors item ≡ true) allowed_input.connector_targets))
    × (allowance.deny_reason ≡ none ↔ allowance.allow ≡ true)
    × (allowance.allow ≡ false → allowance.transforms ≡ [])
evaluate_local-allow_example = evaluate_local-allow json "id" "hash" "time" connectors allowed_input

abbrev guarded_request : ChatRequest
guarded_request = record (request "gpt") {
  max_tokens = some (pos 256);
  messages = guardrail "Do not expose sensitive identifiers. Use masked placeholders." ∷ messages;
}

apply_transforms-Guarded_example : Guarded (request "gpt") guarded_request
unfolding apply_transforms apply_transform guardrail_of max_tokens_of get
apply_transforms-Guarded_example =
    apply_transforms-Guarded json (local_transforms json) (request "gpt") guarded_request refl

mrn_leaves : LeavesText mrn
mrn_leaves s = ground arith
