-- ===== src/Chat/Wiring.antt =====
-- The parts that app/main.py gives the chat service: the in-process tracker and the audit writer, and
-- what a response says of them.
use sovereign_rag_gateway.Prelude.{
  ℕ, ◌+◌, ◌≤◌, ◌≡◌, refl, String, true, Option, none, some, List, arith, ap, ◌∙◌, sym,
}
use sovereign_rag_gateway.Prelude.Dict.{Dict, get}
use sovereign_rag_gateway.Models.{ChatRequest, ChatResponse}
use sovereign_rag_gateway.Budget.{
  Tracker, BudgetExceeded, current_tokens, ceiling_for, check, check_running, record_usage, summary,
}
use sovereign_rag_gateway.Budget.Admission.{check_exact}
use sovereign_rag_gateway.Audit.{
  Codec, Disk, Written, written, invalid, append_line, is_event_hash_valid,
}
use sovereign_rag_gateway.Audit as Audit
use sovereign_rag_gateway.Audit.Integrity.{write_event-is_event_hash_valid, write_event-append_line}
use sovereign_rag_gateway.Chat.Service.{
  Service, Caller, AuditEvent, Logged, persisted, invalid_event, log_crashed, Checked,
  within_budget, budget_exceeded, ok,
}
use sovereign_rag_gateway.Chat.Gate.{Gateway}
use sovereign_rag_gateway.Chat.Prepare.{estimate_requested_tokens}
use sovereign_rag_gateway.Chat.Handle.{handle_chat}
use sovereign_rag_gateway.Chat.Promise.{Answer, handle_chat-answered}

-- How `TokenBudgetTracker.check` ends, as the service sees it.
abbrev pub checked : Option BudgetExceeded → Checked
checked none = within_budget
checked (some x) = budget_exceeded x

-- The service with `TokenBudgetTracker`, at a time of the clock.
abbrev pub with_tracker : ℕ → Service → Service
with_tracker now svc = record svc {
  Ledger = Tracker;
  check = λ tenant n t. let (x, t') = check now tenant n t in (checked x, t');
  record_usage = λ tenant n t. (true, record_usage now tenant n t);
  check_running = λ tenant n t. check_running now tenant n t;
  summary = λ tenant t. let (s, t') = summary now tenant t in (some s, t');
}

checked-within : (x : Option BudgetExceeded) → checked x ≡ within_budget → x ≡ none
checked-within none h = refl
checked-within (some x) h = absurd (ground arith)

module _ (now : ℕ) (svc : Service) where
  -- With the in-process tracker, a request gets a response only if the tokens that its tenant has in
  -- the window and the estimate for the request that went to the provider are together within the
  -- tenant's ceiling.
  pub handle_chat-within_ceiling :
      (caller : Caller) (req : ChatRequest) (g : Gateway (with_tracker now svc)) (t : Tracker)
      (r : ChatResponse)
      → g.ledger ≡ some t
      → (handle_chat (with_tracker now svc) caller req g).0 ≡ ok r
      → (answer : Answer
          (with_tracker now svc)
          caller
          req
          g.ledger
          g.log
          (handle_chat (with_tracker now svc) caller req g).1.log
          r)
        × (current_tokens now caller.tenant_id t + estimate_requested_tokens answer.prepared.request
            ≤ ceiling_for t caller.tenant_id)
  handle_chat-within_ceiling caller req g t r has h =
      let answer = handle_chat-answered (with_tracker now svc) caller req g r h in
      let fits = answer.forwarded.within t has in
      (
        answer,
        (check_exact now caller.tenant_id (estimate_requested_tokens answer.prepared.request) t).0.0
            (checked-within _ fits),
      )

-- How `AuditWriter.write_event` ends, as the service sees it.
abbrev pub logged : {V : Type 0} → Written V → Logged
logged (written p) = persisted
logged invalid = invalid_event
logged Written.crashed = log_crashed

-- The service with `AuditWriter`: `encode` is the dictionary of an event; the file system, the clock's
-- text and the identifier are those of its call.
abbrev pub with_audit_log :
    (c : Codec) → Disk → (AuditEvent → Dict c.Value) → String → String → Service → Service
with_audit_log c disk encode event_id created_at svc = record svc {
  Log = Option (List ℕ);
  write_event = λ e log.
      let (w, log') = Audit.write_event c disk event_id created_at (encode e) log in
      (logged w, log');
}

Written-cases : {V : Type 0} (w : Written V) → logged w ≡ persisted → (p : Dict V) × (w ≡ written p)
Written-cases (written p) h = (p, refl)
Written-cases invalid h = absurd (ground arith)
Written-cases Written.crashed h = absurd (ground arith)

module _ (c : Codec) (disk : Disk) (encode : AuditEvent → Dict c.Value)
    (event_id created_at : String) (svc : Service) where
  abbrev audited : Service
  audited = with_audit_log c disk encode event_id created_at svc

  -- With the audit writer, a request that gets a response has appended one line to the log's file: a
  -- payload that carries the hash of its own content, as the replay script checks it, if the service's
  -- events have no hash of their own.
  pub handle_chat-appends :
      ((e : AuditEvent) → get "payload_hash" (encode e) ≡ none)
      → (caller : Caller) (req : ChatRequest) (g : Gateway audited) (r : ChatResponse)
      → (handle_chat audited caller req g).0 ≡ ok r
      → (p : Dict c.Value) × ((handle_chat audited caller req g).1.log ≡ append_line c p g.log)
        × (is_event_hash_valid c p ≡ true)
  handle_chat-appends unhashed caller req g r h =
      let done = (handle_chat-answered audited caller req g r h).forwarded.completed in
      let (p, e) = Written-cases _ (ap (λ x. x.0) done.logged) in
      (
        p,
        sym (ap (λ x. x.1) done.logged)
            ∙ write_event-append_line c disk event_id created_at (encode done.event) g.log p e,
        write_event-is_event_hash_valid c disk event_id created_at (encode done.event) g.log p
            (unhashed done.event) e,
      )
