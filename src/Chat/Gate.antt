-- ===== src/Chat/Gate.antt =====
-- The gates of ChatService for the in-flight guard and the policy, each of which may end a request
-- with an audit event of its own, and how an audit event is built.
use Prim.Native.String.{◌++◌ as str_append}
use sovereign_rag_gateway.Prelude.{
  ℕ, String, Bool, true, false, Option, none, some, List, [], ◌∷◌, ◌++◌, map, str_eq, not, ◌&&◌,
  if◌then◌else◌,
}
use sovereign_rag_gateway.Prelude.Text.{show_nat}
use sovereign_rag_gateway.Models.{ChatRequest, AppError}
use sovereign_rag_gateway.Policy.{
  Decision, PolicyInput, decided, timed_out, contract_invalid, evaluation_crashed,
}
use sovereign_rag_gateway.Inflight.{Reason, AcquireResult, try_acquire, release}
use sovereign_rag_gateway.Budget.{Summary}
use sovereign_rag_gateway.Metrics.{inc_counter, unit}
use sovereign_rag_gateway.Webhooks.{EventType}
use sovereign_rag_gateway.Chat.Service.{
  Service, State, Caller, Facts, AuditEvent, Result, ok, failed, crashed, persisted, invalid_event,
  log_crashed, of_request, Ask,
}

abbrev pub error : ℕ → String → String → String → AppError
error status_code code error_type message = record {
  status_code = status_code;
  code = code;
  error_type = error_type;
  message = message;
}

abbrev pub reason_text : Option Reason → String
reason_text none = "overload"
reason_text (some Reason.global_limit) = "global_limit"
reason_text (some Reason.tenant_limit) = "tenant_limit"

module _ (svc : Service) where
  open svc use {settings, json, policy, hash, write_event, check, summary, fires, uuid, now}

  abbrev pub Gateway : Type 0
  Gateway = State svc.Log svc.Ledger

  abbrev pub Verdict : Type 0
  Verdict = Decision json.Value

  -- `_build_audit_event`
  unfoldable pub build_audit_event : Caller → String → Verdict → Facts → AuditEvent
  build_audit_event caller requested_model d facts = record {
    request_id = caller.request_id;
    tenant_id = caller.tenant_id;
    user_id = caller.user_id;
    endpoint = caller.endpoint;
    requested_model = requested_model;
    policy_decision_id = d.decision_id;
    policy_evaluated_at = d.evaluated_at;
    policy_allow = d.allow;
    policy_mode = settings.opa_mode;
    transforms_applied = map (λ t. t.type) d.transforms;
    policy_hash = d.policy_hash;
    trace_id = caller.request_id;
    deny_reason = d.deny_reason;
    provider_constraints = d.provider_constraints;
    connector_constraints = d.connector_constraints;
    facts = facts;
    stream_error = none;
    budget_mid_stream_terminated = false;
  }

  -- What `handle_chat` and `handle_chat_stream` pass to the gates.
  abbrev pub chat_ask : Bool → ChatRequest → Ask
  chat_ask streaming req = record {
    requested_model = req.model;
    request_payload_hash = hash (of_request req);
    streaming = streaming;
  }

  -- The facts of a request that a gate ends.
  abbrev pub gate_facts : String → String → Ask → Option Summary → List EventType → Facts
  gate_facts gate selected_model ask budget events = record {
    selected_model = selected_model;
    provider = gate;
    policy_decision = "deny";
    redaction_count = 0;
    request_payload_hash = ask.request_payload_hash;
    redacted_payload_hash = ask.request_payload_hash;
    provider_request_hash = none;
    provider_response_hash = none;
    retrieval_citations = [];
    streaming = ask.streaming;
    tokens_in = 0;
    tokens_out = 0;
    cost = 0;
    provider_attempts = 1;
    fallback_chain = [];
    budget = budget;
    webhook_events = events;
    input_redaction_count = none;
    output_redaction_count = none;
    overload_shed_reason = none;
  }

  -- `_queue_webhook_event`, on the events of the request and the state.
  unfoldable pub queue_event : EventType → List EventType → Gateway → List EventType × Gateway
  queue_event e events g =
      if fires e then (events ++ e ∷ [], record g { queued = g.queued ++ e ∷ [] }) else (events, g)

  -- The audit of a gate: an event that is not valid is only logged.
  unfoldable pub write_gate_audit : AuditEvent → AppError → Gateway → Result Unit × Gateway
  write_gate_audit event e g =
      let (logged, log) = write_event event g.log in
      (
        elim logged [ persisted ↦ failed e | invalid_event ↦ failed e | log_crashed ↦ crashed ],
        record g { log = log },
      )

  -- The decision that an overload is audited with.
  abbrev pub overload_decision : Verdict
  overload_decision = record {
    decision_id = str_append "overload-" uuid;
    allow = false;
    deny_reason = some "overload_shed";
    policy_hash = "runtime-overload";
    evaluated_at = now;
    transforms = [];
    provider_constraints = none;
    connector_constraints = none;
    max_tokens_override = none;
  }

  abbrev pub overload_event : Caller → Ask → String → AuditEvent
  overload_event caller ask reason =
      let facts : Facts = gate_facts "overload-gate" ask.requested_model ask none [] in
      record (build_audit_event caller ask.requested_model overload_decision
        (record facts { overload_shed_reason = some reason })) {
          deny_reason = some "overload_shed";
        }

  abbrev pub overload_error : AcquireResult → AppError
  overload_error r = error 503 "overload_shed" "policy" (
      str_append "Request shed due to overload (reason=" (
        str_append (reason_text r.reason) (
          str_append ", global_inflight=" (
            str_append (show_nat r.global_inflight)
              (str_append ", tenant_inflight=" (str_append (show_nat r.tenant_inflight) ")"))))))

  abbrev pub count_shed : Caller → String → Gateway → Gateway
  count_shed caller reason g =
      if settings.metrics_enabled
      then record g {
        metrics =
            inc_counter "srg_overload_shed_total"
              (("tenant", caller.tenant_id)
                ∷ ("endpoint", caller.endpoint)
                ∷ ("reason", reason)
                ∷ [])
              unit g.metrics;
      }
      else g

  -- `_acquire_inflight_or_deny`
  unfoldable pub acquire_inflight_or_deny : Caller → Ask → Gateway → Result Unit × Gateway
  unfolding write_gate_audit build_audit_event
  acquire_inflight_or_deny caller ask g = elim g.guard [
    | none ↦ (ok tt, g)
    | some guard ↦
        let (r, guard') = try_acquire caller.tenant_id guard in
        let seen : Gateway = record g { guard = some guard' } in
        let reason : String = reason_text r.reason in
        if r.allowed
        then (ok tt, seen)
        else write_gate_audit (overload_event caller ask reason) (overload_error r)
            (count_shed caller reason seen)
  ]

  -- `_release_inflight`
  unfoldable pub release_inflight : Caller → Gateway → Gateway
  release_inflight caller g = elim g.guard [
    | none ↦ g
    | some guard ↦ record g { guard = some (release caller.tenant_id guard) }
  ]

  -- `_observe_mode_decision`
  abbrev pub observe_mode_decision : String → Verdict
  observe_mode_decision reason = record {
    decision_id = str_append "observe-" uuid;
    allow = true;
    deny_reason = some reason;
    policy_hash = "observe-mode";
    evaluated_at = now;
    transforms = [];
    provider_constraints = none;
    connector_constraints = none;
    max_tokens_override = none;
  }

  -- `_resolve_policy_decision`
  unfoldable pub resolve_policy_decision : PolicyInput → Result Verdict
  resolve_policy_decision input = elim (policy input) [
    | decided d ↦ ok d
    | timed_out text ↦
        if str_eq settings.opa_mode "observe"
        then ok (observe_mode_decision (str_append "policy_timeout:" text))
        else failed (error 503 "policy_unavailable" "policy" "Policy service unavailable")
    | contract_invalid text ↦
        if str_eq settings.opa_mode "observe"
        then ok (observe_mode_decision (str_append "policy_contract_invalid:" text))
        else failed
            (error 503 "policy_contract_invalid" "policy" "Policy decision contract invalid")
    | evaluation_crashed ↦ crashed
  ]

  -- `_policy_decision_label`
  unfoldable pub policy_decision_label : Verdict → String
  policy_decision_label d =
      let has_reason : Bool = elim d.deny_reason [ none ↦ false | some r ↦ not (str_eq r "") ] in
      if not d.allow
      then "deny"
      else if str_eq settings.opa_mode "observe" && has_reason
      then "observe"
      else elim d.transforms [ [] ↦ "allow" | _ ∷ _ ↦ "transform" ]

  -- `decision.deny_reason or "policy_denied"`
  abbrev pub deny_reason_of : Verdict → String
  deny_reason_of d = elim d.deny_reason [
    | none ↦ "policy_denied"
    | some r ↦ if str_eq r "" then "policy_denied" else r
  ]

  abbrev pub policy_deny_event : Caller → Ask → Verdict → List EventType → AuditEvent
  policy_deny_event caller ask d events =
      record (build_audit_event caller ask.requested_model d
        (gate_facts "policy-gate" ask.requested_model ask none events)) {
          deny_reason = some (deny_reason_of d);
        }

  -- What `handle_chat` does with a decision that denies, in the mode "enforce".
  unfoldable pub deny_by_policy : Caller → Ask → Verdict → Gateway → Result Unit × Gateway
  unfolding queue_event write_gate_audit build_audit_event
  deny_by_policy caller ask d g =
      let (events, g') = queue_event EventType.policy_denied [] g in
      write_gate_audit (policy_deny_event caller ask d events)
        (error 403 "policy_denied" "policy" (deny_reason_of d)) g'
