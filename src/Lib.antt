-- ===== src/Lib.antt =====
-- The Sovereign RAG Gateway: a gateway between the clients of language models and their providers,
-- that limits, checks, routes and records every request.
--
-- The parts and how they interact. A request with a known key and its identity takes a slot of the in-flight guard, passes policy, is
-- transformed, given retrieved context and redacted, passes the token budget, is routed along the
-- fallback chain of the provider registry, has its usage recorded in the budget, is written to the
-- audit log and counted in the metrics, and gives its slot back. Events of interest go to webhooks,
-- and deliveries that fail to a dead-letter store.
--
-- Which file models which part, by its path from the repository's root:
--   Chat          app/services/chat_service.py: Service is the state and the parts, Gate the guard and
--                 the policy, BudgetGate the budget, Prepare what comes before a provider is called,
--                 Call that call, Completion what follows its answer, and Handle handle_chat. OpenStream
--                 is handle_chat_stream, Stream the frames of its generator, StreamEnd where a reader may
--                 leave it, and Settle its finally block; Embeddings is handle_embeddings; these two
--                 chain their steps by the monad of Monad. Wiring is the tracker and the audit writer
--                 that app/main.py gives the service
--   Auth          app/middleware/auth.py (dispatch)
--   Settings      app/config/settings.py (api_key_set and the other lists, and the maps of limits)
--   Policy        app/policy (evaluate, _evaluate_local, apply_transforms)
--   Redaction     app/redaction/engine.py (redact_text, redact_messages)
--   Retrieval     app/rag/retrieval.py and app/rag/registry.py (retrieve)
--   Filesystem    app/rag/connectors/filesystem.py (search, fetch)
--   Models        app/models/openai.py, app/rag/types.py, app/core/errors.py
--   Inflight      app/services/inflight_guard.py (InflightGuard: init, try_acquire, release)
--   Audit         app/audit/writer.py (write_event, _read_last_line, _last_payload_hash) and
--                 scripts/audit_replay_bundle.py (verify_hash_chain)
--   Providers     app/providers/base.py and app/providers/registry.py (the registry, its orders, and
--                 route_with_fallback, route_embeddings_with_fallback, route_stream_with_fallback)
--   Budget        app/budget/tracker.py (TokenBudgetTracker, and in Redis RedisTokenBudgetTracker)
--   Webhooks      app/webhooks/dispatcher.py (dispatch, _deliver, _record_delivery,
--                 _write_dead_letter), Webhooks/DeadLetters app/webhooks/dead_letter_store.py, and
--                 Webhooks/Replay scripts/replay_webhook_dead_letter.py (replay_dead_letter)
--   Metrics       app/metrics.py (inc_counter, observe_histogram, render_metrics, record_request)
--   Telemetry     app/telemetry/tracing.py (SpanContext, SpanCollector, and in Otlp _normalize_hex,
--                 _otlp_value and _to_payload)
--   Prelude       tests, lists, dictionaries, integers and texts that the others share
-- A method is a function from its arguments and the state to its result and the new state; an
-- exception that the code raises is a constructor or a none of the result. What the code asks of a
-- clock, of SHA-256, JSON, HTTP or a provider is an argument or a parameter record.
--
-- Bounds and fuel. Python's integers have no bound. The loops go over lists, over the positions of
-- a file, or over the attempts of a delivery, of which there are max_retries + 1, so none needs fuel.
-- A value that the code holds as a float is a natural number of a small unit: ticks of a clock,
-- microseconds, 10^-8 of a metric.
--
-- Not modelled: the regular expressions of app/redaction; the connectors of app/rag that are clients
-- of services, and the embedding vectors, which are floats; the HTTP clients of providers, OPA and
-- webhooks; the FastAPI application; the spans that the handlers open, and log lines; the release and
-- benchmark scripts. A line of the audit log is written whole or not at all.
pub mod Prelude
pub mod Audit
pub mod Auth
pub mod Budget
pub mod Chat
pub mod Filesystem
pub mod Inflight
pub mod Metrics
pub mod Models
pub mod Policy
pub mod Providers
pub mod Redaction
pub mod Retrieval
pub mod Settings
pub mod Telemetry
pub mod Webhooks
