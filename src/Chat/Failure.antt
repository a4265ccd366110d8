-- ===== src/Chat/Failure.antt =====
-- How a request of handle_chat ends, and what of it the audit log has.
use sovereign_rag_gateway.Prelude.{
  ◌≡◌, refl, sym, ap, ◌∙◌, false, not, ◌&&◌, inl, inr, Bool-cases, Option-cases, Option, [], str_eq,
  subst,
}
use sovereign_rag_gateway.Models.{ChatRequest}
use sovereign_rag_gateway.Budget.{Summary}
use sovereign_rag_gateway.Webhooks.{EventType}
use sovereign_rag_gateway.Chat.Service.{Service, Caller, ok}
use sovereign_rag_gateway.Chat.Gate.{
  Verdict, Gateway, chat_ask, acquire_inflight_or_deny, release_inflight, resolve_policy_decision,
  build_audit_event,
}
use sovereign_rag_gateway.Chat.BudgetGate.{enforce_budget_or_deny}
use sovereign_rag_gateway.Chat.Call.{Answered, Called, call_provider}
use sovereign_rag_gateway.Chat.Completion.{complete, settle_answer, redact_output, answer_facts}
use sovereign_rag_gateway.Chat.Handle.{forward, follow, serve, handle_chat}
use sovereign_rag_gateway.Chat.Prepare.{Prepared, estimate_requested_tokens, policy_input, prepare}
use sovereign_rag_gateway.Chat.Stages.{
  slot-ok, log-release_inflight, Result-cases, Called-cases, Logged-cases,
}
use sovereign_rag_gateway.Chat.Answer.{log-settle_answer, log-count_request}
use sovereign_rag_gateway.Chat.Denial.{queue_event-keeps, denied-state, event_of}
use sovereign_rag_gateway.Chat.Endings.{
  Decided, undecided, undecidable, unprepared, unpreparable, unbudgeted, unrouted, unanswered,
  uncalled, malformed, Ending, audited, unaudited, app_error-Translated,
}
use sovereign_rag_gateway.Chat.EndingGates.{enforce-ends, acquire-ends}

module _ (svc : Service) (caller : Caller) (req : ChatRequest) where
  complete-Ending :
      (d : Verdict svc) (p : Prepared) (budget : Option Summary) (a : Answered svc.Reply)
      (g : Gateway svc)
      → Decided svc caller req d
      → prepare svc caller req d ≡ ok p
      → call_provider svc p ≡ Called.answered a
      → Ending svc caller req g.log
          (complete svc caller req d p budget a g).0
          (complete svc caller req d p budget a g).1.log
  unfolding complete settle_answer answer_facts build_audit_event
  complete-Ending d p budget a g decided prepared called =
      elim (Option-cases (svc.validate_reply a.result)) [
        | inl n ↦
            rw (n, complete) (unaudited _ g.log (malformed d p a decided prepared called n) refl)
        | inr (reply, e) ↦
            let n = (redact_output svc caller reply.choices).1 in
            let settled = settle_answer svc caller req d p a reply n budget g in
            let same = log-settle_answer svc caller req d p a reply n budget g in
            let given = ap (λ l. (svc.write_event settled.0 l).1) same in
            rw (e, complete)
              (elim (Logged-cases (svc.write_event settled.0 settled.1.log).0) [
                | inl y ↦ simp y (
                    audited _ _ (record {
                      event = settled.0;
                      of_request = refl;
                      given =
                          log-count_request svc 200 caller p.request.model settled.0.facts _
                          ∙ given;
                    }))
                | inr (inl y) ↦
                    simp y
                      (audited _ _ (record { event = settled.0; of_request = refl; given = given }))
                | inr (inr y) ↦
                    simp y
                      (audited _ _ (record { event = settled.0; of_request = refl; given = given }))
              ])
      ]

  forward-Ending :
      (d : Verdict svc) (p : Prepared) (g : Gateway svc)
      → Decided svc caller req d
      → prepare svc caller req d ≡ ok p
      → Ending svc caller req g.log
          (forward svc caller req d p g).0
          (forward svc caller req d p g).1.log
  unfolding forward
  forward-Ending d p g decided prepared =
      let ask = chat_ask svc false req in
      let n = estimate_requested_tokens p.request in
      let gate = enforce_budget_or_deny svc caller ask p.request.model d n g in
      elim (enforce-ends svc caller req ask p.request.model d n g) [
        | inl (same, inl (found, e)) ↦
            rw (e, forward)
              (elim (Called-cases (call_provider svc p)) [
                | inl (a, q) ↦ simp q (
                    let done = complete svc caller req d p found a gate.1 in
                    subst (λ l. Ending svc caller req l done.0 done.1.log) same
                      (complete-Ending d p found a gate.1 decided prepared q))
                | inr (inl (f, q)) ↦ simp q (
                    unaudited _ _ (unanswered d p f _ decided prepared q (app_error-Translated f))
                      ((queue_event-keeps svc EventType.provider_error [] gate.1).0 ∙ same))
                | inr (inr (inl (x, q))) ↦
                    simp q (unaudited _ _ (unrouted d p x decided prepared q) same)
                | inr (inr (inr q)) ↦ simp q (unaudited _ _ (uncalled d p decided prepared q) same)
              ])
        | inl (same, inr (fails, e)) ↦
            rw (e, forward) (unaudited _ _ (unbudgeted d p decided prepared fails) same)
        | inr (entry, no_pass) ↦ elim (Result-cases gate.0) [
          | inl (found, e) ↦ absurd (no_pass found e)
          | inr (inl (x, e)) ↦ rw (e, forward) (audited _ _ entry)
          | inr (inr e) ↦ rw (e, forward) (audited _ _ entry)
        ]
      ]

  follow-Ending :
      (d : Verdict svc) (g : Gateway svc)
      → Decided svc caller req d
      → Ending svc caller req g.log (follow svc caller req d g).0 (follow svc caller req d g).1.log
  unfolding follow build_audit_event
  follow-Ending d g decided =
      elim (Bool-cases (not d.allow && str_eq svc.settings.opa_mode "enforce")) [
        | inl y ↦ simp y (
            audited _ _ (record {
              event = event_of svc caller req d g;
              of_request = refl;
              given = (denied-state svc caller req g d).0;
            }))
        | inr n ↦ simp n (elim (Result-cases (prepare svc caller req d)) [
          | inl (p, e) ↦ simp e (forward-Ending d p g decided e)
          | inr (inl (x, e)) ↦ simp e (unaudited _ g.log (unprepared d x decided e) refl)
          | inr (inr e) ↦ simp e (unaudited _ g.log (unpreparable d decided e) refl)
        ])
      ]

  serve-Ending :
      (g : Gateway svc)
      → Ending svc caller req g.log (serve svc caller req g).0 (serve svc caller req g).1.log
  unfolding serve
  serve-Ending g = elim (Result-cases (resolve_policy_decision svc (policy_input svc caller req))) [
    | inl (d, e) ↦ rw (e, serve) (follow-Ending d g e)
    | inr (inl (x, e)) ↦ rw (e, serve) (unaudited _ g.log (undecided x e) refl)
    | inr (inr e) ↦ rw (e, serve) (unaudited _ g.log (undecidable e) refl)
  ]

  -- However handle_chat ends, at most one event is given to the audit log, of the caller's request. A
  -- response has one. An error or an exception leaves none only for a cause that is named: the policy
  -- gave no decision, the request could not be prepared, the backend of the budget failed, routing
  -- forbade the call, the call or the check of the provider's reply raised an exception, or the
  -- provider failed. In the last case the client gets the provider's own status, code, type and message
  -- for the statuses 429, 501, 502 and 503, and for any other the status 502, the code
  -- "provider_upstream_error", the type "provider" and the provider's message.
  pub handle_chat-ends :
      (g : Gateway svc)
      → Ending svc caller req g.log
          (handle_chat svc caller req g).0
          (handle_chat svc caller req g).1.log
  unfolding handle_chat
  handle_chat-ends g =
      let ask = chat_ask svc false req in
      let gate = acquire_inflight_or_deny svc caller ask g in
      elim (acquire-ends svc caller req ask g) [
        | inl e ↦
            let served = serve svc caller req gate.1 in
            let same = (slot-ok svc caller ask g gate.1 (ap (λ r. (r, gate.1)) e)).1 in
            let kept = (log-release_inflight svc caller served.1).0 in
            rw (e, handle_chat)
              (subst
                (λ l. Ending svc caller req l served.0 (release_inflight svc caller served.1).log)
                same
                (subst (λ l. Ending svc caller req gate.1.log served.0 l) (sym kept)
                  (serve-Ending gate.1)))
        | inr (entry, refused) ↦ elim (Result-cases gate.0) [
          | inl (u, e) ↦ absurd (refused e)
          | inr (inl (x, e)) ↦ rw (e, handle_chat) (audited _ _ entry)
          | inr (inr e) ↦ rw (e, handle_chat) (audited _ _ entry)
        ]
      ]
