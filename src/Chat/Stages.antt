-- ===== src/Chat/Stages.antt =====
-- How the stages of a request follow each other, as equations, and the ways each may end.
use sovereign_rag_gateway.Prelude.{
  arith, none, Option, Option-cases, Bool-cases, sym, ◌≢◌, sym, ◌≡◌, refl, true, false, some, inl,
  inr, ap, ◌⊎◌,
}
use sovereign_rag_gateway.Models.{ChatRequest, ChatResponse, AppError}
use sovereign_rag_gateway.Inflight.{Guard, try_acquire}
use sovereign_rag_gateway.Providers.{ProviderError}
use sovereign_rag_gateway.Budget.{Summary, BudgetExceeded}
use sovereign_rag_gateway.Chat.Service.{
  Service, Caller, Ask, AuditEvent, Logged, persisted, invalid_event, log_crashed, Checked, Result,
  ok, failed, crashed,
}
use sovereign_rag_gateway.Chat.Gate.{
  Gateway, chat_ask, write_gate_audit, acquire_inflight_or_deny, release_inflight, overload_error,
  reason_text, overload_event, count_shed,
}
use sovereign_rag_gateway.Chat.BudgetGate.{no_summary}
use sovereign_rag_gateway.Chat.Call.{Answered, Called}
use sovereign_rag_gateway.Chat.Handle.{serve, handle_chat}

pub Checked-cases :
    (c : Checked)
    → (c ≡ Checked.within_budget)
      ⊎ ((x : BudgetExceeded) × (c ≡ Checked.budget_exceeded x))
      ⊎ (c ≡ Checked.backend_error)
Checked-cases Checked.within_budget = inl refl
Checked-cases (Checked.budget_exceeded x) = inr (inl (x, refl))
Checked-cases Checked.backend_error = inr (inr refl)

pub Result-cases :
    {A : Type 0} (r : Result A)
    → ((a : A) × (r ≡ ok a)) ⊎ ((e : AppError) × (r ≡ failed e)) ⊎ (r ≡ crashed)
Result-cases (ok a) = inl (a, refl)
Result-cases (failed e) = inr (inl (e, refl))
Result-cases crashed = inr (inr refl)

pub Logged-cases : (l : Logged) → (l ≡ persisted) ⊎ (l ≡ invalid_event) ⊎ (l ≡ log_crashed)
Logged-cases persisted = inl refl
Logged-cases invalid_event = inr (inl refl)
Logged-cases log_crashed = inr (inr refl)

pub Called-cases :
    {R : Type 0} (c : Called R)
    → ((a : Answered R) × (c ≡ Called.answered a))
      ⊎ ((x : ProviderError) × (c ≡ Called.provider_failed x))
      ⊎ ((e : AppError) × (c ≡ Called.forbidden e))
      ⊎ (c ≡ Called.call_crashed)
Called-cases (Called.answered a) = inl (a, refl)
Called-cases (Called.provider_failed x) = inr (inl (x, refl))
Called-cases (Called.forbidden e) = inr (inr (inl (e, refl)))
Called-cases Called.call_crashed = inr (inr (inr refl))

pub ok-injective : {A : Type 0} {a b : A} → ok a ≡ ok b → a ≡ b
ok-injective {a = a} h = ap (λ r. elim r [ ok x ↦ x | _ ↦ a ]) h

module _ (svc : Service) where
  -- The two ways of the first gate.
  pub acquire-admitted :
      (caller : Caller) (ask : Ask) (g : Gateway svc) (guard : Guard)
      → g.guard ≡ some guard
      → (try_acquire caller.tenant_id guard).0.allowed ≡ true
      → acquire_inflight_or_deny svc caller ask g
        ≡ (ok tt, record g { guard = some (try_acquire caller.tenant_id guard).1 })
  unfolding acquire_inflight_or_deny
  acquire-admitted caller ask g guard has open_slot =
      rw (has, acquire_inflight_or_deny) (simp open_slot refl)

  pub acquire-refused :
      (caller : Caller) (ask : Ask) (g : Gateway svc) (guard : Guard)
      → g.guard ≡ some guard
      → (try_acquire caller.tenant_id guard).0.allowed ≡ false
      → acquire_inflight_or_deny svc caller ask g ≡ (
          let r = (try_acquire caller.tenant_id guard).0 in
          write_gate_audit svc
            (overload_event svc caller ask (reason_text r.reason))
            (overload_error svc r)
            (count_shed svc caller
              (reason_text r.reason)
              (record g { guard = some (try_acquire caller.tenant_id guard).1 })))
  unfolding acquire_inflight_or_deny
  acquire-refused caller ask g guard has shut = rw (has, acquire_inflight_or_deny) (simp shut refl)

  pub handle_chat-acquired :
      (caller : Caller) (req : ChatRequest) (g h : Gateway svc)
      → acquire_inflight_or_deny svc caller (chat_ask svc false req) g ≡ (ok tt, h)
      → handle_chat svc caller req g
        ≡ ((serve svc caller req h).0, release_inflight svc caller (serve svc caller req h).1)
  unfolding handle_chat
  handle_chat-acquired caller req g h e =
      rw (e, handle_chat)
        (ap
          (λ x. (
            (serve svc caller req x.1).0,
            release_inflight svc caller (serve svc caller req x.1).1,
          ))
          e)

  -- What `handle_chat` gives where a gate has ended the request.
  abbrev pub gate_result : Logged → AppError → Result ChatResponse
  gate_result log_crashed e = crashed
  gate_result _ e = failed e

  pub handle_chat-ended :
      (caller : Caller) (req : ChatRequest) (g h : Gateway svc) (event : AuditEvent) (e : AppError)
      → acquire_inflight_or_deny svc caller (chat_ask svc false req) g
        ≡ write_gate_audit svc event e h
      → handle_chat svc caller req g ≡ (
        gate_result (svc.write_event event h.log).0 e,
        record h { log = (svc.write_event event h.log).1 },
      )
  unfolding handle_chat write_gate_audit
  handle_chat-ended caller req g h event e q = elim (Logged-cases (svc.write_event event h.log).0) [
    | inl y ↦ rw (q, handle_chat) (rw y (ap (λ x. (failed e, x.1)) q))
    | inr (inl y) ↦ rw (q, handle_chat) (rw y (ap (λ x. (failed e, x.1)) q))
    | inr (inr y) ↦ rw (q, handle_chat) (rw y (ap (λ x. (crashed, x.1)) q))
  ]

  pub gate-ends :
      (event : AuditEvent) (e : AppError) (g : Gateway svc) (s : Option Summary)
      → no_summary svc (write_gate_audit svc event e g).0 ≢ ok s
  unfolding write_gate_audit
  gate-ends event e g s = elim (Logged-cases (svc.write_event event g.log).0) [
    | inl y ↦ rw y (λ h. absurd (ground arith))
    | inr (inl y) ↦ rw y (λ h. absurd (ground arith))
    | inr (inr y) ↦ rw y (λ h. absurd (ground arith))
  ]

  -- A slot is taken without a change of the budget or the log.
  pub slot-ok :
      (caller : Caller) (ask : Ask) (g h : Gateway svc)
      → acquire_inflight_or_deny svc caller ask g ≡ (ok tt, h)
      → (h.ledger ≡ g.ledger) × (h.log ≡ g.log)
  unfolding acquire_inflight_or_deny write_gate_audit
  slot-ok caller ask g h = elim (Option-cases g.guard) [
    | inl n ↦
        rw (n, acquire_inflight_or_deny)
          (λ q. (sym (ap (λ x. x.1.ledger) q), sym (ap (λ x. x.1.log) q)))
    | inr (guard, e) ↦ elim (Bool-cases (try_acquire caller.tenant_id guard).0.allowed) [
      | inl y ↦
          rw (acquire-admitted caller ask g guard e y)
            (λ q. (sym (ap (λ x. x.1.ledger) q), sym (ap (λ x. x.1.log) q)))
      | inr n ↦ rw (acquire-refused caller ask g guard e n) (λ q. absurd (
          gate-ends _ _
            (count_shed svc caller (reason_text (try_acquire caller.tenant_id guard).0.reason)
              (record g { guard = some (try_acquire caller.tenant_id guard).1 }))
            none (ap (λ x. no_summary svc x.0) q)))
    ]
  ]

  pub log-release_inflight :
      (caller : Caller) (g : Gateway svc)
      → ((release_inflight svc caller g).log ≡ g.log)
        × ((release_inflight svc caller g).ledger ≡ g.ledger)
  unfolding release_inflight
  log-release_inflight caller g = elim (Option-cases g.guard) [
    | inl n ↦ rw (n, release_inflight) (refl, refl)
    | inr (guard, e) ↦ rw (e, release_inflight) (refl, refl)
  ]
