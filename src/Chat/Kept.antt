-- ===== src/Chat/Kept.antt =====
-- The parts of a request between its two ends leave the in-flight guard as it was.
use sovereign_rag_gateway.Prelude.{
  ℕ, ◌≡◌, refl, String, Bool, true, false, Option, some, List, [], Bool-cases, Option-cases, inl,
  inr,
}
use sovereign_rag_gateway.Budget.{BudgetExceeded, Summary}
use sovereign_rag_gateway.Webhooks.{EventType}
use sovereign_rag_gateway.Chat.Service.{Service, Caller, Ask, Facts}
use sovereign_rag_gateway.Chat.Gate.{
  count_shed, Verdict, Gateway, queue_event, write_gate_audit, deny_by_policy,
}
use sovereign_rag_gateway.Chat.BudgetGate.{deny_by_budget, enforce_budget_or_deny}
use sovereign_rag_gateway.Chat.Completion.{queue_if, record_budget_usage, count_request}
use sovereign_rag_gateway.Chat.Stages.{Checked-cases}

module _ (svc : Service) where
  pub guard-queue_event :
      (e : EventType) (events : List EventType) (g : Gateway svc)
      → (queue_event svc e events g).1.guard ≡ g.guard
  unfolding queue_event
  guard-queue_event e events g = elim (Bool-cases (svc.fires e)) [
    | inl y ↦ simp y refl
    | inr n ↦ simp n refl
  ]

  pub guard-queue_if :
      (b : Bool) (e : EventType) (events : List EventType) (g : Gateway svc)
      → (queue_if svc b e events g).1.guard ≡ g.guard
  guard-queue_if true e events g = guard-queue_event e events g
  guard-queue_if false e events g = refl

  pub guard-deny_by_policy :
      (caller : Caller) (ask : Ask) (d : Verdict svc) (g : Gateway svc)
      → (deny_by_policy svc caller ask d g).1.guard ≡ g.guard
  unfolding deny_by_policy write_gate_audit
  guard-deny_by_policy caller ask d g = guard-queue_event EventType.policy_denied [] g

  pub guard-deny_by_budget :
      (caller : Caller) (ask : Ask) (model : String) (d : Verdict svc) (x : BudgetExceeded)
      (ledger : svc.Ledger) (g : Gateway svc)
      → (deny_by_budget svc caller ask model d x ledger g).1.guard ≡ g.guard
  unfolding deny_by_budget write_gate_audit
  guard-deny_by_budget caller ask model d x ledger g =
      guard-queue_event EventType.budget_exceeded []
        (record g { ledger = some (svc.summary caller.tenant_id ledger).1 })

  pub guard-enforce_budget_or_deny :
      (caller : Caller) (ask : Ask) (model : String) (d : Verdict svc) (n : ℕ) (g : Gateway svc)
      → (enforce_budget_or_deny svc caller ask model d n g).1.guard ≡ g.guard
  unfolding enforce_budget_or_deny
  guard-enforce_budget_or_deny caller ask model d n g = elim (Option-cases g.ledger) [
    | inl n ↦ rw (n, enforce_budget_or_deny) refl
    | inr (l, e) ↦
        rw (e, enforce_budget_or_deny)
          (elim (Checked-cases (svc.check caller.tenant_id n l).0) [
            | inl w ↦
                let l1 = (svc.check caller.tenant_id n l).1 in
                simp w (elim (Option-cases (svc.summary caller.tenant_id l1).0) [
                  | inl o ↦ simp o refl
                  | inr (s, o) ↦ simp o refl
                ])
            | inr (inl (x, b)) ↦
                let l1 = (svc.check caller.tenant_id n l).1 in
                simp b
                  (guard-deny_by_budget caller ask model d x l1 (record g { ledger = some l1 }))
            | inr (inr b) ↦ simp b refl
          ])
  ]

  pub guard-record_budget_usage :
      (caller : Caller) (used : ℕ) (current : Option Summary) (g : Gateway svc)
      → (record_budget_usage svc caller used current g).1.guard ≡ g.guard
  unfolding record_budget_usage
  guard-record_budget_usage caller used current g = elim (Option-cases g.ledger) [
    | inl n ↦ rw (n, record_budget_usage) refl
    | inr (l, e) ↦
        rw (e, record_budget_usage)
          (elim (Bool-cases (svc.record_usage caller.tenant_id used l).0) [
            | inl y ↦ simp y refl
            | inr n ↦ simp n refl
          ])
  ]

  pub guard-count_request :
      (status : ℕ) (caller : Caller) (model : String) (facts : Facts) (g : Gateway svc)
      → (count_request svc status caller model facts g).guard ≡ g.guard
  guard-count_request status caller model facts g = elim (Bool-cases svc.settings.metrics_enabled) [
    | inl y ↦ simp y refl
    | inr n ↦ simp n refl
  ]

  pub guard-count_shed :
      (caller : Caller) (reason : String) (g : Gateway svc)
      → (count_shed svc caller reason g).guard ≡ g.guard
  guard-count_shed caller reason g = elim (Bool-cases svc.settings.metrics_enabled) [
    | inl y ↦ simp y refl
    | inr n ↦ simp n refl
  ]
