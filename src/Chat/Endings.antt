-- ===== src/Chat/Endings.antt =====
-- The ways in which a request of handle_chat ends, and what of it the audit log has.
use sovereign_rag_gateway.Prelude.{ℕ, ◌≡◌, ◌≢◌, ◌||◌, ◌==◌, ◌⊎◌, inl, inr, Bool-cases, none, arith}
use sovereign_rag_gateway.Models.{ChatRequest, ChatResponse, AppError}
use sovereign_rag_gateway.Providers.{ProviderError}
use sovereign_rag_gateway.Chat.Service.{
  Service, Caller, AuditEvent, Result, ok, failed, crashed, Checked,
}
use sovereign_rag_gateway.Chat.Gate.{Verdict, error, resolve_policy_decision}
use sovereign_rag_gateway.Chat.Call.{Answered, Called, call_provider, app_error_from_provider_error}
use sovereign_rag_gateway.Chat.Prepare.{Prepared, estimate_requested_tokens, policy_input, prepare}

-- The error that a client gets for a provider's: its own where the status says that another attempt may
-- help or that the provider cannot do it, or else the status 502. The message is the provider's.
pub data Translated (x : ProviderError) : AppError → Type 0 where
  as_it_is :
      (x.status_code ≡ 429) ⊎ (x.status_code ≡ 501) ⊎ (x.status_code ≡ 502) ⊎ (x.status_code ≡ 503)
      → Translated x (record {
        status_code = x.status_code;
        code = x.code;
        error_type = x.error_type;
        message = x.message;
      })
  as_upstream :
      x.status_code ≢ 429
      → x.status_code ≢ 501
      → x.status_code ≢ 502
      → x.status_code ≢ 503
      → Translated x (record {
        status_code = 502;
        code = "provider_upstream_error";
        error_type = "provider";
        message = x.message;
      })

pub app_error-Translated : (x : ProviderError) → Translated x (app_error_from_provider_error x)
unfolding app_error_from_provider_error
app_error-Translated x =
    elim (Bool-cases (
      x.status_code == 429
      || x.status_code == 501
      || x.status_code == 502
      || x.status_code == 503)) [
        | inl y ↦ rw y (as_it_is (ground (arith, y)))
        | inr n ↦ rw n (
            as_upstream (ground (arith, n)) (ground (arith, n)) (ground (arith, n))
              (ground (arith, n)))
      ]

module _ (svc : Service) (caller : Caller) (req : ChatRequest) where
  -- What handle_chat asks of the policy, and of it for the request as it is prepared.
  abbrev pub Decided : Verdict svc → Type 0
  Decided d = resolve_policy_decision svc (policy_input svc caller req) ≡ ok d

  -- The budget's backend fails, on the check of n tokens or on the summary after it.
  abbrev pub BudgetFails : ℕ → Type 0
  BudgetFails n =
      (l : svc.Ledger) × (((svc.check caller.tenant_id n l).0 ≡ Checked.backend_error)
        ⊎ ((svc.check caller.tenant_id n l).0 ≡ Checked.within_budget)
          × ((svc.summary caller.tenant_id (svc.check caller.tenant_id n l).1).0 ≡ none))

  -- The ends that leave nothing in the audit log, each with what has caused it.
  pub data Unaudited : Result ChatResponse → Type 0 where
    undecided :
        (x : AppError)
        → resolve_policy_decision svc (policy_input svc caller req) ≡ failed x
        → Unaudited (failed x)
    undecidable :
        resolve_policy_decision svc (policy_input svc caller req) ≡ crashed → Unaudited crashed
    unprepared :
        (d : Verdict svc) (x : AppError)
        → Decided d
        → prepare svc caller req d ≡ failed x
        → Unaudited (failed x)
    unpreparable :
        (d : Verdict svc) → Decided d → prepare svc caller req d ≡ crashed → Unaudited crashed
    unbudgeted :
        (d : Verdict svc) (p : Prepared)
        → Decided d
        → prepare svc caller req d ≡ ok p
        → BudgetFails (estimate_requested_tokens p.request)
        → Unaudited
            (failed (error 503 "budget_backend_unavailable" "policy" "Budget backend unavailable"))
    unrouted :
        (d : Verdict svc) (p : Prepared) (x : AppError)
        → Decided d
        → prepare svc caller req d ≡ ok p
        → call_provider svc p ≡ Called.forbidden x
        → Unaudited (failed x)
    unanswered :
        (d : Verdict svc) (p : Prepared) (f : ProviderError) (x : AppError)
        → Decided d
        → prepare svc caller req d ≡ ok p
        → call_provider svc p ≡ Called.provider_failed f
        → Translated f x
        → Unaudited (failed x)
    uncalled :
        (d : Verdict svc) (p : Prepared)
        → Decided d
        → prepare svc caller req d ≡ ok p
        → call_provider svc p ≡ Called.call_crashed
        → Unaudited crashed
    malformed :
        (d : Verdict svc) (p : Prepared) (a : Answered svc.Reply)
        → Decided d
        → prepare svc caller req d ≡ ok p
        → call_provider svc p ≡ Called.answered a
        → svc.validate_reply a.result ≡ none
        → Unaudited crashed

  -- One event of the request has been given to the log.
  pub record Audited (log end : svc.Log) : Type 0 where
    pub event : AuditEvent
    pub of_request : event.request_id ≡ caller.request_id
    pub given : end ≡ (svc.write_event event log).1

  -- How a request ends, and what of it the log has.
  pub data Ending (log : svc.Log) : Result ChatResponse → svc.Log → Type 0 where
    audited : (r : Result ChatResponse) (end : svc.Log) → Audited log end → Ending log r end
    unaudited :
        (r : Result ChatResponse) (end : svc.Log) → Unaudited r → end ≡ log → Ending log r end
