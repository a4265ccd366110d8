-- ===== src/Chat/Release.antt =====
-- The slot of the in-flight guard: no part of a request but the two ends touches the guard.
use sovereign_rag_gateway.Prelude.{
  ℕ, ◌≡◌, ◌+◌, refl, String, false, Option, some, [], ltb, not, ◌&&◌, str_eq, Bool-cases,
  Option-cases, inl, inr, ap, ◌∙◌,
}
use sovereign_rag_gateway.Models.{ChatRequest, ChatResponse}
use sovereign_rag_gateway.Inflight.{Guard, try_acquire, inflight_of}
use sovereign_rag_gateway.Inflight.Counts.{restored}
use sovereign_rag_gateway.Budget.{Summary}
use sovereign_rag_gateway.Webhooks.{EventType}
use sovereign_rag_gateway.Chat.Service.{Service, Caller}
use sovereign_rag_gateway.Chat.Gate.{
  Verdict, Gateway, chat_ask, release_inflight, resolve_policy_decision,
}
use sovereign_rag_gateway.Chat.BudgetGate.{enforce_budget_or_deny}
use sovereign_rag_gateway.Chat.Call.{Answered, call_provider}
use sovereign_rag_gateway.Chat.Completion.{settle_answer, complete, redact_output}
use sovereign_rag_gateway.Chat.Handle.{forward, follow, serve, handle_chat}
use sovereign_rag_gateway.Chat.Prepare.{Prepared, policy_input, prepare, estimate_requested_tokens}
use sovereign_rag_gateway.Chat.Stages.{
  Result-cases, Logged-cases, Called-cases, acquire-admitted, acquire-refused, handle_chat-acquired,
  handle_chat-ended,
}
use sovereign_rag_gateway.Chat.Kept.{
  guard-count_shed, guard-queue_event, guard-queue_if, guard-deny_by_policy,
  guard-enforce_budget_or_deny, guard-record_budget_usage, guard-count_request,
}

module _ (svc : Service) where
  guard-settle_answer :
      (caller : Caller) (req : ChatRequest) (d : Verdict svc) (p : Prepared)
      (a : Answered svc.Reply) (response : ChatResponse) (n : ℕ) (budget : Option Summary)
      (g : Gateway svc)
      → (settle_answer svc caller req d p a response n budget g).1.guard ≡ g.guard
  unfolding settle_answer
  guard-settle_answer caller req d p a response n budget g =
      guard-queue_if svc (ltb 0 (p.input_redaction_count + n)) EventType.redaction_hit _ _
      ∙ guard-queue_if svc (ltb 1 a.provider_attempts) EventType.provider_fallback [] _
      ∙ guard-record_budget_usage svc caller _ budget g

  guard-complete :
      (caller : Caller) (req : ChatRequest) (d : Verdict svc) (p : Prepared)
      (budget : Option Summary) (a : Answered svc.Reply) (g : Gateway svc)
      → (complete svc caller req d p budget a g).1.guard ≡ g.guard
  unfolding complete
  guard-complete caller req d p budget a g = elim (Option-cases (svc.validate_reply a.result)) [
    | inl n ↦ rw (n, complete) refl
    | inr (response, e) ↦
        let n = (redact_output svc caller response.choices).1 in
        let settled = settle_answer svc caller req d p a response n budget g in
        let same = guard-settle_answer caller req d p a response n budget g in
        rw (e, complete)
          (elim (Logged-cases (svc.write_event settled.0 settled.1.log).0) [
            | inl y ↦
                simp y (guard-count_request svc 200 caller p.request.model settled.0.facts _ ∙ same)
            | inr (inl y) ↦ simp y same
            | inr (inr y) ↦ simp y same
          ])
  ]

  guard-forward :
      (caller : Caller) (req : ChatRequest) (d : Verdict svc) (p : Prepared) (g : Gateway svc)
      → (forward svc caller req d p g).1.guard ≡ g.guard
  unfolding forward
  guard-forward caller req d p g =
      let n = estimate_requested_tokens p.request in
      let gate = enforce_budget_or_deny svc caller (chat_ask svc false req) p.request.model d n g in
      let same =
        guard-enforce_budget_or_deny svc caller (chat_ask svc false req) p.request.model d n g in
      elim (Result-cases gate.0) [
        | inl (found, e) ↦
            rw (e, forward)
              (elim (Called-cases (call_provider svc p)) [
                | inl (a, q) ↦ simp q (guard-complete caller req d p found a gate.1 ∙ same)
                | inr (inl (x, q)) ↦
                    simp q (guard-queue_event svc EventType.provider_error [] gate.1 ∙ same)
                | inr (inr (inl (x, q))) ↦ simp q same
                | inr (inr (inr q)) ↦ simp q same
              ])
        | inr (inl (x, e)) ↦ rw (e, forward) same
        | inr (inr e) ↦ rw (e, forward) same
      ]

  guard-follow :
      (caller : Caller) (req : ChatRequest) (d : Verdict svc) (g : Gateway svc)
      → (follow svc caller req d g).1.guard ≡ g.guard
  unfolding follow
  guard-follow caller req d g =
      elim (Bool-cases (not d.allow && str_eq svc.settings.opa_mode "enforce")) [
        | inl y ↦ simp y (guard-deny_by_policy svc caller (chat_ask svc false req) d g)
        | inr n ↦ simp n (elim (Result-cases (prepare svc caller req d)) [
          | inl (p, e) ↦ simp e (guard-forward caller req d p g)
          | inr (inl (x, e)) ↦ simp e refl
          | inr (inr e) ↦ simp e refl
        ])
      ]

  guard-serve :
      (caller : Caller) (req : ChatRequest) (g : Gateway svc)
      → (serve svc caller req g).1.guard ≡ g.guard
  unfolding serve
  guard-serve caller req g =
      elim (Result-cases (resolve_policy_decision svc (policy_input svc caller req))) [
        | inl (d, e) ↦ rw (e, serve) (guard-follow caller req d g)
        | inr (inl (x, e)) ↦ rw (e, serve) refl
        | inr (inr e) ↦ rw (e, serve) refl
      ]

  -- However a request ends, with a response, with an error of any gate, of retrieval, of a provider
  -- or of the audit, or with another exception, the guard is left with the counts it had before, for
  -- every tenant and in total.
  pub handle_chat-releases :
      (caller : Caller) (req : ChatRequest) (g : Gateway svc) (guard : Guard)
      → g.guard ≡ some guard
      → (after : Guard) × ((handle_chat svc caller req g).1.guard ≡ some after)
        × ((k : String) → inflight_of after k ≡ inflight_of guard k)
        × (after.global_inflight ≡ guard.global_inflight)
  unfolding release_inflight
  handle_chat-releases caller req g guard has =
      let t = caller.tenant_id in
      let h : Gateway svc = record g { guard = some (try_acquire t guard).1 } in
      let ask = chat_ask svc false req in
      restored t guard (handle_chat svc caller req g).1.guard
        (λ y.
          ap (λ x. x.1.guard)
            (handle_chat-acquired svc caller req g h
              (acquire-admitted svc caller ask g guard has y))
          ∙ rw (guard-serve caller req h, release_inflight) refl)
        (λ n.
          ap (λ x. x.1.guard)
            (handle_chat-ended svc caller req g _ _ _
              (acquire-refused svc caller ask g guard has n))
          ∙ guard-count_shed svc caller _ _)
