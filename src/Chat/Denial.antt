-- ===== src/Chat/Denial.antt =====
-- A request that the policy denies.
use sovereign_rag_gateway.Prelude.{
  ◌≡◌, refl, true, false, not, ◌&&◌, none, List, [], str_eq, Bool-cases, inl, inr, ap, ◌∙◌,
}
use sovereign_rag_gateway.Models.{ChatRequest}
use sovereign_rag_gateway.Webhooks.{EventType}
use sovereign_rag_gateway.Chat.Service.{Service, Caller, AuditEvent, ok}
use sovereign_rag_gateway.Chat.Gate.{
  Verdict, Gateway, chat_ask, error, deny_reason_of, build_audit_event, policy_deny_event,
  write_gate_audit, queue_event, acquire_inflight_or_deny, deny_by_policy, resolve_policy_decision,
}
use sovereign_rag_gateway.Chat.Handle.{no_response, follow, serve, handle_chat}
use sovereign_rag_gateway.Chat.Prepare.{policy_input}
use sovereign_rag_gateway.Chat.Stages.{
  Logged-cases, gate_result, handle_chat-acquired, slot-ok, log-release_inflight,
}

module _ (svc : Service) where
  pub queue_event-keeps :
      (e : EventType) (events : List EventType) (g : Gateway svc)
      → ((queue_event svc e events g).1.log ≡ g.log)
        × ((queue_event svc e events g).1.ledger ≡ g.ledger)
  unfolding queue_event
  queue_event-keeps e events g = elim (Bool-cases (svc.fires e)) [
    | inl y ↦ simp y (refl, refl)
    | inr n ↦ simp n (refl, refl)
  ]

  abbrev pub event_of : Caller → ChatRequest → Verdict svc → Gateway svc → AuditEvent
  event_of caller req d g =
      policy_deny_event svc caller (chat_ask svc false req) d
        (queue_event svc EventType.policy_denied [] g).0

  serve-denied :
      (caller : Caller) (req : ChatRequest) (g : Gateway svc) (d : Verdict svc)
      → resolve_policy_decision svc (policy_input svc caller req) ≡ ok d
      → not d.allow && str_eq svc.settings.opa_mode "enforce" ≡ true
      → serve svc caller req g ≡ (
          let (r, g') = deny_by_policy svc caller (chat_ask svc false req) d g in
          (no_response svc r, g'))
  unfolding serve follow
  serve-denied caller req g d decided denies = rw (decided, serve) (simp denies refl)

  denied-result :
      (caller : Caller) (req : ChatRequest) (g : Gateway svc) (d : Verdict svc)
      → no_response svc (deny_by_policy svc caller (chat_ask svc false req) d g).0
        ≡ gate_result svc
            (svc.write_event (event_of caller req d g) g.log).0
            (error 403 "policy_denied" "policy" (deny_reason_of svc d))
  unfolding deny_by_policy write_gate_audit
  denied-result caller req g d =
      let event = event_of caller req d g in
      let same = (queue_event-keeps EventType.policy_denied [] g).0 in
      rw same (elim (Logged-cases (svc.write_event event g.log).0) [
        | inl y ↦ rw y refl
        | inr (inl y) ↦ rw y refl
        | inr (inr y) ↦ rw y refl
      ])

  pub denied-state :
      (caller : Caller) (req : ChatRequest) (g : Gateway svc) (d : Verdict svc)
      → ((deny_by_policy svc caller (chat_ask svc false req) d g).1.log
          ≡ (svc.write_event (event_of caller req d g) g.log).1)
        × ((deny_by_policy svc caller (chat_ask svc false req) d g).1.ledger ≡ g.ledger)
  unfolding deny_by_policy write_gate_audit
  denied-state caller req g d =
      let same = queue_event-keeps EventType.policy_denied [] g in
      (ap (λ l. (svc.write_event (event_of caller req d g) l).1) same.0, same.1)

  -- A request that has a slot, and that the policy denies in the mode "enforce", ends with the status
  -- 403, whatever the providers, the retrieval and the budget would say: the budget is as before, and
  -- one event has been given to the audit log, of the caller's request, with the decision that denied
  -- it and no call of a provider. If the log raises something other than a validation error, that
  -- exception takes the place of the 403.
  pub handle_chat-denied :
      (caller : Caller) (req : ChatRequest) (g h : Gateway svc) (d : Verdict svc)
      → acquire_inflight_or_deny svc caller (chat_ask svc false req) g ≡ (ok tt, h)
      → resolve_policy_decision svc (policy_input svc caller req) ≡ ok d
      → d.allow ≡ false
      → svc.settings.opa_mode ≡ "enforce"
      → let (r, end) = handle_chat svc caller req g in
        (event : AuditEvent) × (r
          ≡ gate_result svc
              (svc.write_event event g.log).0
              (error 403 "policy_denied" "policy" (deny_reason_of svc d)))
        × (end.log ≡ (svc.write_event event g.log).1)
        × (end.ledger ≡ g.ledger)
        × (event.request_id ≡ caller.request_id)
        × (event.policy_decision_id ≡ d.decision_id)
        × (event.facts.policy_decision ≡ "deny")
        × (event.facts.provider_request_hash ≡ none)
  unfolding build_audit_event
  handle_chat-denied caller req g h d slot decided no_allow enforce =
      let denies : not d.allow && str_eq svc.settings.opa_mode "enforce" ≡ true =
        simp (no_allow, enforce) refl in
      let whole = handle_chat-acquired svc caller req g h slot in
      let served = serve-denied caller req h d decided denies in
      let kept = log-release_inflight svc caller (serve svc caller req h).1 in
      let same = slot-ok svc caller (chat_ask svc false req) g h slot in
      let event = event_of caller req d h in
      let state = denied-state caller req h d in
      (
        event,
        ap (λ x. x.0) whole
            ∙ ap (λ x. x.0) served
            ∙ denied-result caller req h d
            ∙ ap
                (λ l.
                  gate_result svc (svc.write_event event l).0
                    (error 403 "policy_denied" "policy" (deny_reason_of svc d)))
                same.1,
        ap (λ x. x.1.log) whole
            ∙ kept.0
            ∙ ap (λ x. x.1.log) served
            ∙ state.0
            ∙ ap (λ l. (svc.write_event event l).1) same.1,
        ap (λ x. x.1.ledger) whole ∙ kept.1 ∙ ap (λ x. x.1.ledger) served ∙ state.1 ∙ same.0,
        refl,
        refl,
        refl,
        refl,
      )
