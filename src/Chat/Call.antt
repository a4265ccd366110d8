-- ===== src/Chat/Call.antt =====
-- The call of the provider by ChatService, through the registry or directly.
use Prim.Native.String.{◌++◌ as str_append}
use sovereign_rag_gateway.Prelude.{
  ℕ, String, Bool, true, Option, none, some, List, [], ◌∷◌, ◌||◌, ◌==◌, if◌then◌else◌,
}
use sovereign_rag_gateway.Models.{AppError}
use sovereign_rag_gateway.Policy.{member_of}
use sovereign_rag_gateway.Providers.{
  ProviderError, reply, provider_error, other_exception, Routed, routed, raised, assertion_failed,
  route_with_fallback, Registry, Outcome,
}
use sovereign_rag_gateway.Chat.Service.{Service}
use sovereign_rag_gateway.Chat.Gate.{error}
use sovereign_rag_gateway.Chat.Prepare.{Prepared}

-- `_app_error_from_provider_error`
unfoldable pub app_error_from_provider_error : ProviderError → AppError
app_error_from_provider_error x =
    if x.status_code == 429 || x.status_code == 501 || x.status_code == 502 || x.status_code == 503
    then error x.status_code x.code x.error_type x.message
    else error 502 "provider_upstream_error" "provider" x.message

-- What routing, or the direct call, hands on.
pub record Answered (Reply : Type 0) : Type 0 where
  pub result : Reply
  pub routed_provider : String
  pub provider_attempts : ℕ
  pub fallback_chain : List String

-- How the call of the provider ends: with an answer, a `ProviderError`, an `AppError`, or another
-- exception.
pub data Called (Reply : Type 0) : Type 0 where
  answered : Answered Reply → Called Reply
  provider_failed : ProviderError → Called Reply
  forbidden : AppError → Called Reply
  call_crashed : Called Reply

module _ (svc : Service) where
  open svc use {settings, registry, Reply, chat, chat_direct}

  -- `_validate_direct_provider_constraints`, as whether it passes.
  abbrev pub direct_allowed : Option (List String) → Bool
  direct_allowed none = true
  direct_allowed (some names) = member_of names settings.provider_name

  -- The end of a direct call.
  abbrev pub called_directly : {R : Type 0} → Outcome R → Called R
  called_directly (reply x) = answered (record {
    result = x;
    routed_provider = settings.provider_name;
    provider_attempts = 1;
    fallback_chain = settings.provider_name ∷ [];
  })
  called_directly (provider_error x) = provider_failed x
  called_directly other_exception = call_crashed

  unfoldable pub call_direct : {R : Type 0} → Option (List String) → Outcome R → Called R
  call_direct allowed outcome =
      if direct_allowed allowed
      then called_directly outcome
      else forbidden (
          error 403 "provider_forbidden" "policy"
            (str_append "Provider not allowed by policy: " settings.provider_name))

  abbrev pub called : {R : Type 0} → Routed R → Called R
  called (routed name result chain attempts) = answered (record {
    result = result;
    routed_provider = name;
    provider_attempts = attempts;
    fallback_chain = chain;
  })
  called (raised x) = provider_failed x
  called Routed.crashed = call_crashed
  called assertion_failed = call_crashed

  -- The call of a provider by a handler: through the registry, or directly.
  unfoldable pub call_with :
      {R : Type 0} → Option (List String) → (Registry → Routed R) → Outcome R → Called R
  unfolding call_direct
  call_with allowed route outcome = elim registry [
    | none ↦ call_direct allowed outcome
    | some r ↦
        if settings.provider_fallback_enabled then called (route r) else call_direct allowed outcome
  ]

  unfoldable pub call_provider : Prepared → Called Reply
  unfolding call_with
  call_provider p =
      call_with p.allowed_provider_names
        (λ r.
          route_with_fallback (λ e. chat e.name p.request) r settings.provider_name p.request.model
            p.allowed_provider_names)
        (chat_direct p.request)
