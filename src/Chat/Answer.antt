-- ===== src/Chat/Answer.antt =====
-- What a response of `handle_chat` tells of everything that came before it.
use mathlib.Core.Path.{subst}
use mathlib.Core.Option.{some-injective}
use sovereign_rag_gateway.Prelude.{
  ℕ, ◌≡◌, ◌≢◌, ◌+◌, refl, String, Bool, true, false, Option, some, List, [], arith, ltb, Bool-cases,
  Option-cases, inl, inr, ap, ap₂, sym, ◌∙◌,
}
use sovereign_rag_gateway.Models.{ChatRequest, ChatResponse}
use sovereign_rag_gateway.Budget.{BudgetExceeded, Summary}
use sovereign_rag_gateway.Webhooks.{EventType}
use sovereign_rag_gateway.Chat.Service.{
  Service, Caller, Ask, AuditEvent, persisted, within_budget, ok, Facts, of_messages,
}
use sovereign_rag_gateway.Chat.Gate.{Verdict, Gateway, chat_ask, build_audit_event, queue_event}
use sovereign_rag_gateway.Chat.BudgetGate.{deny_by_budget, no_summary, enforce_budget_or_deny}
use sovereign_rag_gateway.Chat.Call.{Answered, Called, call_provider}
use sovereign_rag_gateway.Chat.Completion.{
  queue_if, record_budget_usage, settle_answer, attach_citations, count_request, answer_facts,
  complete, redact_output,
}
use sovereign_rag_gateway.Chat.Handle.{forward}
use sovereign_rag_gateway.Chat.Prepare.{Prepared, estimate_requested_tokens}
use sovereign_rag_gateway.Chat.Stages.{
  ok-injective, gate-ends, Checked-cases, Result-cases, Logged-cases, Called-cases,
}

module _ (svc : Service) where
  pub log-queue_if :
      (b : Bool) (e : EventType) (events : List EventType) (g : Gateway svc)
      → (queue_if svc b e events g).1.log ≡ g.log
  unfolding queue_event
  log-queue_if true e events g = elim (Bool-cases (svc.fires e)) [
    | inl y ↦ simp y refl
    | inr n ↦ simp n refl
  ]
  log-queue_if false e events g = refl

  pub log-record_budget_usage :
      (caller : Caller) (used : ℕ) (current : Option Summary) (g : Gateway svc)
      → (record_budget_usage svc caller used current g).1.log ≡ g.log
  unfolding record_budget_usage
  log-record_budget_usage caller used current g = elim (Option-cases g.ledger) [
    | inl n ↦ rw (n, record_budget_usage) refl
    | inr (l, e) ↦
        rw (e, record_budget_usage)
          (elim (Bool-cases (svc.record_usage caller.tenant_id used l).0) [
            | inl y ↦ simp y refl
            | inr n ↦ simp n refl
          ])
  ]

  pub log-settle_answer :
      (caller : Caller) (req : ChatRequest) (d : Verdict svc) (p : Prepared)
      (a : Answered svc.Reply) (response : ChatResponse) (n : ℕ) (budget : Option Summary)
      (g : Gateway svc)
      → (settle_answer svc caller req d p a response n budget g).1.log ≡ g.log
  unfolding settle_answer
  log-settle_answer caller req d p a response n budget g =
      log-queue_if (ltb 0 (p.input_redaction_count + n)) EventType.redaction_hit _ _
      ∙ log-queue_if (ltb 1 a.provider_attempts) EventType.provider_fallback [] _
      ∙ log-record_budget_usage caller _ budget g

  -- What a response says of the answer it is made of, and of the log it was entered in.
  pub record Completed (caller : Caller) (p : Prepared) (a : Answered svc.Reply) (log end : svc.Log)
      (r : ChatResponse) : Type 0 where
    pub reply : ChatResponse
    pub valid : svc.validate_reply a.result ≡ some reply
    pub response : r ≡ record reply {
      choices = attach_citations p.citations (redact_output svc caller reply.choices).0;
    }
    pub event : AuditEvent
    pub logged : svc.write_event event log ≡ (persisted, end)
    pub of_request : event.request_id ≡ caller.request_id
    pub of_provider : event.facts.provider ≡ a.routed_provider
    pub of_attempts : event.facts.provider_attempts ≡ a.provider_attempts
    pub of_tokens :
        event.facts.tokens_in + event.facts.tokens_out
        ≡ reply.usage.prompt_tokens + reply.usage.completion_tokens
    pub of_messages : event.facts.redacted_payload_hash ≡ svc.hash (of_messages p.request.messages)

  pub log-count_request :
      (status : ℕ) (caller : Caller) (model : String) (facts : Facts) (g : Gateway svc)
      → (count_request svc status caller model facts g).log ≡ g.log
  log-count_request status caller model facts g = elim (Bool-cases svc.settings.metrics_enabled) [
    | inl y ↦ simp y refl
    | inr n ↦ simp n refl
  ]

  certify :
      (caller : Caller) (req : ChatRequest) (d : Verdict svc) (p : Prepared)
      (budget : Option Summary) (a : Answered svc.Reply) (g : Gateway svc) (reply r : ChatResponse)
      (end : svc.Log)
      → let redacted = redact_output svc caller reply.choices in
        let settled = settle_answer svc caller req d p a reply redacted.1 budget g in
        svc.validate_reply a.result ≡ some reply
        → r ≡ record reply { choices = attach_citations p.citations redacted.0 }
        → (svc.write_event settled.0 settled.1.log).0 ≡ persisted
        → (svc.write_event settled.0 settled.1.log).1 ≡ end
        → Completed caller p a g.log end r
  unfolding settle_answer answer_facts build_audit_event
  certify caller req d p budget a g reply r end e q y l =
      let redacted = redact_output svc caller reply.choices in
      let settled = settle_answer svc caller req d p a reply redacted.1 budget g in
      record {
        reply = reply;
        valid = e;
        response = q;
        event = settled.0;
        logged =
            ap (svc.write_event settled.0)
              (sym (log-settle_answer caller req d p a reply redacted.1 budget g))
            ∙ ap₂ (λ u v. (u, v)) y l;
        of_request = refl;
        of_provider = refl;
        of_attempts = refl;
        of_tokens = refl;
        of_messages = refl;
      }

  complete-ok :
      (caller : Caller) (req : ChatRequest) (d : Verdict svc) (p : Prepared)
      (budget : Option Summary) (a : Answered svc.Reply) (g : Gateway svc) (r : ChatResponse)
      → (complete svc caller req d p budget a g).0 ≡ ok r
      → Completed caller p a g.log (complete svc caller req d p budget a g).1.log r
  unfolding complete
  complete-ok caller req d p budget a g r = elim (Option-cases (svc.validate_reply a.result)) [
    | inl n ↦ rw (n, complete) (λ h. absurd (ground arith))
    | inr (reply, e) ↦
        let n = (redact_output svc caller reply.choices).1 in
        let settled = settle_answer svc caller req d p a reply n budget g in
        rw (e, complete)
          (elim (Logged-cases (svc.write_event settled.0 settled.1.log).0) [
            | inl y ↦ simp y (λ h.
                certify caller req d p budget a g reply r _ e (sym (ok-injective h)) y
                  (sym (log-count_request 200 caller p.request.model settled.0.facts _)))
            | inr (inl y) ↦ simp y (λ h. absurd (ground arith))
            | inr (inr y) ↦ simp y (λ h. absurd (ground arith))
          ])
  ]

  pub deny_by_budget-ends :
      (caller : Caller) (ask : Ask) (model : String) (d : Verdict svc) (x : BudgetExceeded)
      (l : svc.Ledger) (g : Gateway svc) (s : Option Summary)
      → no_summary svc (deny_by_budget svc caller ask model d x l g).0 ≢ ok s
  unfolding deny_by_budget
  deny_by_budget-ends caller ask model d x l g s =
      let summed : Gateway svc = record g { ledger = some (svc.summary caller.tenant_id l).1 } in
      gate-ends svc _ _ (queue_event svc EventType.budget_exceeded [] summed).1 s

  pub enforce-ok :
      (caller : Caller) (ask : Ask) (model : String) (d : Verdict svc) (n : ℕ) (g : Gateway svc)
      (s : Option Summary)
      → (enforce_budget_or_deny svc caller ask model d n g).0 ≡ ok s
      → ((enforce_budget_or_deny svc caller ask model d n g).1.log ≡ g.log)
        × ((l : svc.Ledger)
            → g.ledger ≡ some l
            → (svc.check caller.tenant_id n l).0 ≡ within_budget)
  unfolding enforce_budget_or_deny
  enforce-ok caller ask model d n g s = elim (Option-cases g.ledger) [
    | inl o ↦ rw (o, enforce_budget_or_deny) (λ h. (refl, λ l k. absurd (ground arith)))
    | inr (l, e) ↦
        let l1 = (svc.check caller.tenant_id n l).1 in
        rw (e, enforce_budget_or_deny)
          (elim (Checked-cases (svc.check caller.tenant_id n l).0) [
            | inl w ↦
                let here : (m : svc.Ledger)
                    → some l ≡ some m
                    → (svc.check caller.tenant_id n m).0 ≡ within_budget =
                  λ m k.
                    subst (λ i. (svc.check caller.tenant_id n i).0 ≡ within_budget)
                      (some-injective _ _ k) w in
                simp w (elim (Option-cases (svc.summary caller.tenant_id l1).0) [
                  | inl o ↦ simp o (λ h. absurd (ground arith))
                  | inr (t, o) ↦ simp o (λ h. (refl, here))
                ])
            | inr (inl (x, b)) ↦ simp b (λ h.
                absurd
                  (deny_by_budget-ends caller ask model d x l1 (record g { ledger = some l1 }) s h))
            | inr (inr b) ↦ simp b (λ h. absurd (ground arith))
          ])
  ]

  -- What a response says of the prepared request.
  pub record Forwarded (caller : Caller) (p : Prepared) (ledger : Option svc.Ledger)
      (log end : svc.Log) (r : ChatResponse) : Type 0 where
    pub within :
        (l : svc.Ledger)
        → ledger ≡ some l
        → (svc.check caller.tenant_id (estimate_requested_tokens p.request) l).0 ≡ within_budget
    pub answer : Answered svc.Reply
    pub called : call_provider svc p ≡ Called.answered answer
    pub completed : Completed caller p answer log end r

  pub forward-ok :
      (caller : Caller) (req : ChatRequest) (d : Verdict svc) (p : Prepared) (g : Gateway svc)
      (r : ChatResponse)
      → (forward svc caller req d p g).0 ≡ ok r
      → Forwarded caller p g.ledger g.log (forward svc caller req d p g).1.log r
  unfolding forward
  forward-ok caller req d p g r =
      let n = estimate_requested_tokens p.request in
      let gate = enforce_budget_or_deny svc caller (chat_ask svc false req) p.request.model d n g in
      elim (Result-cases gate.0) [
        | inl (found, e) ↦
            let passed = enforce-ok caller (chat_ask svc false req) p.request.model d n g found e in
            rw (e, forward)
              (elim (Called-cases (call_provider svc p)) [
                | inl (a, q) ↦ simp q (λ h. record {
                  within = passed.1;
                  answer = a;
                  called = q;
                  completed =
                      subst
                        (λ log.
                          Completed caller p a log
                            (complete svc caller req d p found a gate.1).1.log r)
                        passed.0 (complete-ok caller req d p found a gate.1 r h);
                })
                | inr (inl (x, q)) ↦ simp q (λ h. absurd (ground arith))
                | inr (inr (inl (x, q))) ↦ simp q (λ h. absurd (ground arith))
                | inr (inr (inr q)) ↦ simp q (λ h. absurd (ground arith))
              ])
        | inr (inl (x, e)) ↦ rw (e, forward) (λ h. absurd (ground arith))
        | inr (inr e) ↦ rw (e, forward) (λ h. absurd (ground arith))
      ]
