-- ===== src/Chat/BudgetGate.antt =====
-- The gate of ChatService for the budget, which may end a request with an audit event of its own.
use Prim.Native.String.{◌++◌ as str_append}
use sovereign_rag_gateway.Prelude.{ℕ, ◌-◌, String, Option, none, some, List, []}
use sovereign_rag_gateway.Prelude.Text.{show_nat}
use sovereign_rag_gateway.Models.{AppError}
use sovereign_rag_gateway.Budget.{BudgetExceeded, Summary}
use sovereign_rag_gateway.Webhooks.{EventType}
use sovereign_rag_gateway.Chat.Service.{
  Service, Caller, Ask, AuditEvent, Result, ok, failed, crashed, within_budget, budget_exceeded,
  backend_error,
}
use sovereign_rag_gateway.Chat.Gate.{
  Gateway, Verdict, build_audit_event, gate_facts, queue_event, write_gate_audit, error,
}

module _ (svc : Service) where
  open svc use {check, summary}

  abbrev pub budget_event :
      Caller → Ask → String → Verdict svc → Summary → List EventType → AuditEvent
  budget_event caller ask selected_model d budget events =
      record (build_audit_event svc caller ask.requested_model d
        (gate_facts svc "budget-gate" selected_model ask (some budget) events)) {
          deny_reason = some "budget_exceeded";
        }

  -- The summary made of the error, where the backend gives none.
  abbrev pub summary_of_error : String → BudgetExceeded → Summary
  summary_of_error tenant_id x = record {
    tenant_id = tenant_id;
    window_seconds = x.window_seconds;
    ceiling = x.ceiling;
    used = x.used;
    remaining = x.ceiling - x.used;
  }

  abbrev pub budget_error : String → BudgetExceeded → AppError
  budget_error tenant_id x = error 429 "budget_exceeded" "policy" (
      str_append "Token budget exceeded for tenant " (
        str_append tenant_id (
          str_append ": " (
            str_append (show_nat x.used) (
              str_append "/" (
                str_append (show_nat x.ceiling)
                  (str_append " in " (str_append (show_nat x.window_seconds) "s window"))))))))

  abbrev pub backend_unavailable : AppError
  backend_unavailable = error 503 "budget_backend_unavailable" "policy" "Budget backend unavailable"

  -- What `_enforce_budget_or_deny` does with a `BudgetExceededError`.
  unfoldable pub deny_by_budget :
      Caller
      → Ask
      → String
      → Verdict svc
      → BudgetExceeded
      → svc.Ledger
      → Gateway svc
      → Result Unit × Gateway svc
  unfolding queue_event write_gate_audit build_audit_event
  deny_by_budget caller ask selected_model d x ledger g =
      let (found, ledger') = summary caller.tenant_id ledger in
      let budget : Summary = elim found [
        | none ↦ summary_of_error caller.tenant_id x
        | some s ↦ s
      ] in
      let (events, g') =
        queue_event svc EventType.budget_exceeded [] (record g { ledger = some ledger' }) in
      write_gate_audit svc (budget_event caller ask selected_model d budget events)
        (budget_error caller.tenant_id x) g'

  abbrev pub no_summary : Result Unit → Result (Option Summary)
  no_summary (ok u) = ok none
  no_summary (failed e) = failed e
  no_summary crashed = crashed

  -- `_enforce_budget_or_deny`
  unfoldable pub enforce_budget_or_deny :
      Caller → Ask → String → Verdict svc → ℕ → Gateway svc → Result (Option Summary) × Gateway svc
  unfolding deny_by_budget
  enforce_budget_or_deny caller ask selected_model d requested g = elim g.ledger [
    | none ↦ (ok none, g)
    | some ledger ↦
        let (checked, ledger1) = check caller.tenant_id requested ledger in
        let g1 : Gateway svc = record g { ledger = some ledger1 } in
        elim checked [
          | backend_error ↦ (failed backend_unavailable, g1)
          | budget_exceeded x ↦
              let (r, g2) = deny_by_budget caller ask selected_model d x ledger1 g1 in
              (no_summary r, g2)
          | within_budget ↦
              let (found, ledger2) = summary caller.tenant_id ledger1 in
              let g2 : Gateway svc = record g1 { ledger = some ledger2 } in
              elim found [ none ↦ (failed backend_unavailable, g2) | some s ↦ (ok (some s), g2) ]
        ]
  ]
