-- ===== src/Telemetry/Examples.antt =====
-- A collector of one trace, to which a second one comes, and the identifier of a request.
use sovereign_rag_gateway.Prelude.{◌≡◌, refl, String, true, none, List, [], ◌∷◌}
use sovereign_rag_gateway.Prelude.Dict.{get, put, pop}
use sovereign_rag_gateway.Telemetry.{Span, Collector, new_collector, record_span, get_trace}
use sovereign_rag_gateway.Telemetry.Retention.{IsSynced}
use sovereign_rag_gateway.Telemetry.Runs.{Action, records, run, collector-IsSynced}

abbrev span : String → Span
span trace_id = record {
  trace_id = trace_id;
  span_id = "0123456789abcdef";
  parent_span_id = none;
  operation = "gateway.request";
  service = "sovereign-rag-gateway";
  start_time = 1;
  end_time = 2;
  duration = 1;
  status = "ok";
  attributes = [];
  events = [];
}

abbrev actions : List Action
actions = records "a" (span "a") ∷ records "b" (span "b") ∷ records "b" (span "b") ∷ []

collector-IsSynced_example : IsSynced (run actions (new_collector 1 true "gateway.request"))
collector-IsSynced_example = collector-IsSynced 1 true "gateway.request" actions

abbrev full : Collector
full = run (records "a" (span "a") ∷ []) (new_collector 1 true "gateway.request")

-- The first trace has made room for the second.
first_gone : get_trace "a" (record_span "b" (span "b") full).1 ≡ []
unfolding get_trace record_span get put pop
first_gone = refl
