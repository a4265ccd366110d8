-- ===== src/Chat/EndingGates.antt =====
-- The gates of handle_chat, by what they leave in the audit log.
use sovereign_rag_gateway.Prelude.{
  ℕ, String, ◌≡◌, ◌≢◌, refl, ap, ◌⊎◌, inl, inr, Bool-cases, Option-cases, Option, none, some, [],
  arith,
}
use sovereign_rag_gateway.Models.{ChatRequest, AppError}
use sovereign_rag_gateway.Budget.{Summary, BudgetExceeded}
use sovereign_rag_gateway.Webhooks.{EventType}
use sovereign_rag_gateway.Inflight.{try_acquire}
use sovereign_rag_gateway.Chat.Service.{Service, Caller, Ask, AuditEvent, ok, failed}
use sovereign_rag_gateway.Chat.Gate.{
  Verdict, Gateway, error, acquire_inflight_or_deny, build_audit_event, overload_event, count_shed,
  write_gate_audit, queue_event,
}
use sovereign_rag_gateway.Chat.BudgetGate.{
  enforce_budget_or_deny, deny_by_budget, budget_event, summary_of_error,
}
use sovereign_rag_gateway.Chat.Stages.{
  acquire-admitted, acquire-refused, Checked-cases, Logged-cases,
}
use sovereign_rag_gateway.Chat.Answer.{deny_by_budget-ends}
use sovereign_rag_gateway.Chat.Denial.{queue_event-keeps}
use sovereign_rag_gateway.Chat.Endings.{BudgetFails, Audited}

module _ (svc : Service) (caller : Caller) (req : ChatRequest) where
  deny_by_budget-Audited :
      (ask : Ask) (model : String) (d : Verdict svc) (x : BudgetExceeded) (l : svc.Ledger)
      (g : Gateway svc)
      → Audited svc caller req g.log (deny_by_budget svc caller ask model d x l g).1.log
  unfolding deny_by_budget write_gate_audit build_audit_event
  deny_by_budget-Audited ask model d x l g =
      let (found, l1) = svc.summary caller.tenant_id l in
      let budget : Summary = elim found [
        | none ↦ summary_of_error svc caller.tenant_id x
        | some s ↦ s
      ] in
      let summed : Gateway svc = record g { ledger = some l1 } in
      let events = (queue_event svc EventType.budget_exceeded [] summed).0 in
      let event = budget_event svc caller ask model d budget events in
      record {
        event = event;
        of_request = refl;
        given =
            ap (λ l. (svc.write_event event l).1)
              (queue_event-keeps svc EventType.budget_exceeded [] summed).0;
      }

  -- The gate of the budget: it lets the request on, its backend fails, or it has given an event to the log.
  pub enforce-ends :
      (ask : Ask) (model : String) (d : Verdict svc) (n : ℕ) (g : Gateway svc)
      → let gate = enforce_budget_or_deny svc caller ask model d n g in
        (gate.1.log ≡ g.log)
          × (((found : Option Summary) × (gate.0 ≡ ok found))
              ⊎ BudgetFails svc caller req n
                × (gate.0
                    ≡ failed (
                        error 503 "budget_backend_unavailable" "policy"
                          "Budget backend unavailable")))
        ⊎ Audited svc caller req g.log gate.1.log × ((found : Option Summary) → gate.0 ≢ ok found)
  unfolding enforce_budget_or_deny
  enforce-ends ask model d n g = elim (Option-cases g.ledger) [
    | inl o ↦ rw (o, enforce_budget_or_deny) (inl (refl, inl (none, refl)))
    | inr (l, e) ↦
        let l1 = (svc.check caller.tenant_id n l).1 in
        rw (e, enforce_budget_or_deny)
          (elim (Checked-cases (svc.check caller.tenant_id n l).0) [
            | inl w ↦ simp w (elim (Option-cases (svc.summary caller.tenant_id l1).0) [
              | inl o ↦ simp o (inl (refl, inr ((l, inr (w, o)), refl)))
              | inr (t, o) ↦ simp o (inl (refl, inl (some t, refl)))
            ])
            | inr (inl (x, b)) ↦ simp b (
                let spent : Gateway svc = record g { ledger = some l1 } in
                inr (
                  deny_by_budget-Audited ask model d x l1 spent,
                  deny_by_budget-ends svc caller ask model d x l1 spent,
                ))
            | inr (inr b) ↦ simp b (inl (refl, inr ((l, inl b), refl)))
          ])
  ]

  slot-free :
      (ask : Ask) (g : Gateway svc)
      → g.guard ≡ none
      → (acquire_inflight_or_deny svc caller ask g).0 ≡ ok tt
  unfolding acquire_inflight_or_deny
  slot-free ask g n = rw (n, acquire_inflight_or_deny) refl

  gate-refuses :
      (event : AuditEvent) (x : AppError) (g : Gateway svc)
      → (write_gate_audit svc event x g).0 ≢ ok tt
  unfolding write_gate_audit
  gate-refuses event x g = elim (Logged-cases (svc.write_event event g.log).0) [
    | inl y ↦ rw y (λ h. absurd (ground arith))
    | inr (inl y) ↦ rw y (λ h. absurd (ground arith))
    | inr (inr y) ↦ rw y (λ h. absurd (ground arith))
  ]

  refused-Audited :
      (ask : Ask) (reason : String) (x : AppError) (g : Gateway svc)
      → let gate =
          write_gate_audit svc
            (overload_event svc caller ask reason)
            x
            (count_shed svc caller reason g) in
        Audited svc caller req g.log gate.1.log
  unfolding write_gate_audit build_audit_event
  refused-Audited ask reason x g = elim (Bool-cases svc.settings.metrics_enabled) [
    | inl y ↦
        simp y
          (record { event = overload_event svc caller ask reason; of_request = refl; given = refl })
    | inr n ↦
        simp n
          (record { event = overload_event svc caller ask reason; of_request = refl; given = refl })
  ]

  -- The gate of the slots: it lets the request on, or it has given an event to the log.
  pub acquire-ends :
      (ask : Ask) (g : Gateway svc)
      → let gate = acquire_inflight_or_deny svc caller ask g in
        (gate.0 ≡ ok tt) ⊎ Audited svc caller req g.log gate.1.log × (gate.0 ≢ ok tt)
  acquire-ends ask g = elim (Option-cases g.guard) [
    | inl n ↦ inl (slot-free ask g n)
    | inr (guard, e) ↦ elim (Bool-cases (try_acquire caller.tenant_id guard).0.allowed) [
      | inl y ↦ inl (ap (λ x. x.0) (acquire-admitted svc caller ask g guard e y))
      | inr n ↦ rw (acquire-refused svc caller ask g guard e n) (
          inr (
            refused-Audited ask _ _
                (record g { guard = some (try_acquire caller.tenant_id guard).1 }),
            gate-refuses _ _ _,
          ))
    ]
  ]
