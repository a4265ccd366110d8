-- ===== src/Chat/OpenStream.antt =====
-- `handle_chat_stream` until it hands on the generator: the same gates as `handle_chat`, and a stream
-- of the provider of which the first chunk has been read.
use sovereign_rag_gateway.Prelude.{true, Option, [], not, ◌&&◌, str_eq, if◌then◌else◌}
use sovereign_rag_gateway.Models.{ChatRequest, Chunk}
use sovereign_rag_gateway.Budget.{Summary}
use sovereign_rag_gateway.Providers.{Opened, route_stream_with_fallback}
use sovereign_rag_gateway.Webhooks.{EventType}
use sovereign_rag_gateway.Chat.Service.{Service, Caller, Ask, Rest, Result, ok, failed, crashed}
use sovereign_rag_gateway.Chat.Gate.{
  Verdict, Gateway, chat_ask, queue_event, acquire_inflight_or_deny, release_inflight,
  resolve_policy_decision, deny_by_policy,
}
use sovereign_rag_gateway.Chat.BudgetGate.{enforce_budget_or_deny}
use sovereign_rag_gateway.Chat.Prepare.{Prepared, estimate_requested_tokens, policy_input, prepare}
use sovereign_rag_gateway.Chat.Call.{
  Answered, Called, answered, provider_failed, forbidden, call_crashed, call_with,
  app_error_from_provider_error,
}
use sovereign_rag_gateway.Chat.Monad.{M, ◌>>=◌, ◌>>◌, lift}

module _ (svc : Service) where
  open svc use {settings, chat_stream, chat_stream_direct}

  -- A decision that denies ends the request in the mode "enforce".
  unfoldable pub gate_policy : Caller → Ask → Verdict svc → M (Gateway svc) (Unit {0})
  gate_policy caller ask d g =
      if not d.allow && str_eq settings.opa_mode "enforce"
      then deny_by_policy svc caller ask d g
      else (ok tt, g)

  -- What a handler makes of the call of a provider.
  unfoldable pub served_by : {R : Type 0} → Called R → M (Gateway svc) (Answered R)
  served_by (answered a) g = (ok a, g)
  served_by (provider_failed x) g =
      (failed (app_error_from_provider_error x), (queue_event svc EventType.provider_error [] g).1)
  served_by (forbidden e) g = (failed e, g)
  served_by call_crashed g = (crashed, g)

  unfoldable pub call_stream : Prepared → Called (Opened Chunk Rest)
  unfolding call_with
  call_stream p =
      call_with svc p.allowed_provider_names
        (λ r.
          route_stream_with_fallback (λ e. chat_stream e.name p.request) r settings.provider_name
            p.request.model p.allowed_provider_names)
        (chat_stream_direct p.request)

  -- What the generator closes over.
  pub record Started : Type 0 where
    pub decision : Verdict svc
    pub prepared : Prepared
    pub answer : Answered (Opened Chunk Rest)
    pub budget : Option Summary

  unfoldable pub open_stream : Caller → ChatRequest → M (Gateway svc) Started
  unfolding gate_policy served_by call_stream
  open_stream caller req = do
    d ← lift (resolve_policy_decision svc (policy_input svc caller req))
    gate_policy caller (chat_ask svc true req) d
    p ← lift (prepare svc caller req d)
    found ←
        enforce_budget_or_deny svc caller (chat_ask svc true req) p.request.model d
          (estimate_requested_tokens p.request)
    a ← served_by (call_stream p)
    lift (ok (record { decision = d; prepared = p; answer = a; budget = found }))

  -- The end of the `try` block: an exception gives the slot back.
  abbrev pub or_release : Caller → Result Started × Gateway svc → Result Started × Gateway svc
  or_release caller (ok s, g) = (ok s, g)
  or_release caller (failed e, g) = (failed e, release_inflight svc caller g)
  or_release caller (crashed, g) = (crashed, release_inflight svc caller g)

  unfoldable pub handle_chat_stream : Caller → ChatRequest → M (Gateway svc) Started
  unfolding open_stream
  handle_chat_stream caller req =
      acquire_inflight_or_deny svc caller (chat_ask svc true req) >>= λ _ g.
      or_release caller (open_stream caller req g)
