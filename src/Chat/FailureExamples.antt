-- ===== src/Chat/FailureExamples.antt =====
-- A request that the policy lets through and whose provider is overloaded.
use sovereign_rag_gateway.Prelude.{some, []}
use sovereign_rag_gateway.Providers.{ProviderError, provider_error}
use sovereign_rag_gateway.Chat.Service.{Service}
use sovereign_rag_gateway.Chat.Gate.{Gateway}
use sovereign_rag_gateway.Chat.Handle.{handle_chat}
use sovereign_rag_gateway.Chat.Endings.{Ending}
use sovereign_rag_gateway.Chat.Failure.{handle_chat-ends}
use sovereign_rag_gateway.Chat.Examples.{service, caller, request, guard, start}

abbrev overload : ProviderError
overload = record {
  status_code = 503;
  code = "overloaded";
  error_type = "provider";
  message = "busy";
}

abbrev overloaded : Service
overloaded = record service { chat_direct = λ r. provider_error overload }

abbrev before : Gateway overloaded
before = record {
  guard = some guard;
  ledger = start.ledger;
  log = [];
  metrics = start.metrics;
  queued = [];
}

handle_chat-ends_example :
    Ending overloaded caller
      (request "gpt")
      before.log
      (handle_chat overloaded caller (request "gpt") before).0
      (handle_chat overloaded caller (request "gpt") before).1.log
handle_chat-ends_example = handle_chat-ends overloaded caller (request "gpt") before
