-- ===== src/Chat/Handle.antt =====
-- `handle_chat`: the whole request.
use sovereign_rag_gateway.Prelude.{[], false, str_eq, not, ◌&&◌, if◌then◌else◌}
use sovereign_rag_gateway.Models.{ChatRequest, ChatResponse}
use sovereign_rag_gateway.Webhooks.{EventType}
use sovereign_rag_gateway.Chat.Service.{Service, Caller, Result, ok, failed, crashed}
use sovereign_rag_gateway.Chat.Gate.{
  Verdict, Gateway, chat_ask, queue_event, acquire_inflight_or_deny, release_inflight,
  resolve_policy_decision, deny_by_policy,
}
use sovereign_rag_gateway.Chat.BudgetGate.{enforce_budget_or_deny}
use sovereign_rag_gateway.Chat.Call.{
  answered, provider_failed, forbidden, call_crashed, call_provider, app_error_from_provider_error,
}
use sovereign_rag_gateway.Chat.Completion.{complete}
use sovereign_rag_gateway.Chat.Prepare.{Prepared, estimate_requested_tokens, policy_input, prepare}

module _ (svc : Service) where
  open svc use {settings}

  -- From the prepared request to the response: the budget, the provider, and what follows.
  unfoldable pub forward :
      Caller
      → ChatRequest
      → Verdict svc
      → Prepared
      → Gateway svc
      → Result ChatResponse × Gateway svc
  unfolding complete call_provider
  forward caller req d p g =
      let (budget, g') =
        enforce_budget_or_deny svc caller (chat_ask svc false req) p.request.model d
          (estimate_requested_tokens p.request) g in
      elim budget [
        | failed e ↦ (failed e, g')
        | crashed ↦ (crashed, g')
        | ok found ↦ elim (call_provider svc p) [
          | answered a ↦ complete svc caller req d p found a g'
          | provider_failed x ↦ (
            failed (app_error_from_provider_error x),
            (queue_event svc EventType.provider_error [] g').1,
          )
          | forbidden e ↦ (failed e, g')
          | call_crashed ↦ (crashed, g')
        ]
      ]

  abbrev pub no_response : Result Unit → Result ChatResponse
  no_response (ok u) = crashed
  no_response (failed e) = failed e
  no_response crashed = crashed

  -- What follows the decision of the policy.
  unfoldable pub follow :
      Caller → ChatRequest → Verdict svc → Gateway svc → Result ChatResponse × Gateway svc
  unfolding forward
  follow caller req d g =
      if not d.allow && str_eq settings.opa_mode "enforce"
      then (let (r, g') = deny_by_policy svc caller (chat_ask svc false req) d g in
          (no_response r, g'))
      else elim (prepare svc caller req d) [
        | failed e ↦ (failed e, g)
        | crashed ↦ (crashed, g)
        | ok p ↦ forward caller req d p g
      ]

  -- What `handle_chat` does once it has a slot.
  unfoldable pub serve : Caller → ChatRequest → Gateway svc → Result ChatResponse × Gateway svc
  unfolding follow
  serve caller req g = elim (resolve_policy_decision svc (policy_input svc caller req)) [
    | failed e ↦ (failed e, g)
    | crashed ↦ (crashed, g)
    | ok d ↦ follow caller req d g
  ]

  unfoldable pub handle_chat :
      Caller → ChatRequest → Gateway svc → Result ChatResponse × Gateway svc
  unfolding serve
  handle_chat caller req g =
      let (slot, g') = acquire_inflight_or_deny svc caller (chat_ask svc false req) g in
      elim slot [
        | failed e ↦ (failed e, g')
        | crashed ↦ (crashed, g')
        | ok u ↦ let (r, g'') = serve caller req g' in (r, release_inflight svc caller g'')
      ]
