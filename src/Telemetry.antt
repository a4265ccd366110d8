-- ===== src/Telemetry.antt =====
-- app/telemetry/tracing.py: the spans of a request, their collector, and their OTLP form. A time is a
-- number of microseconds, which is what the program rounds its floats to. The collector's methods are
-- single steps, as each holds the lock for its whole body; `max_traces` is not negative.
pub mod Otlp
pub mod Ids
pub mod Retention
pub mod Runs
mod Examples
use sovereign_rag_gateway.Prelude.{
  ℕ, suc, ◌-◌, String, Bool, ◌&&◌, Option, none, some, List, [], ◌∷◌, ◌++◌, str_eq, ltb,
  if◌then◌else◌, any_of, length, drop,
}
use mathlib.Core.List.{reverse}
use sovereign_rag_gateway.Prelude.Dict.{Dict, get, put, pop, get_or}
use sovereign_rag_gateway.Prelude.Int.{ℤ}

-- The value of an attribute: a list stands in the block, a dictionary is known by its JSON text, and any
-- other object by its `str`. A float is in a small unit.
mutual
  pub data Attribute : Type 0 where
    of_bool : Bool → Attribute
    of_int : ℤ → Attribute
    of_float : ℤ → Attribute
    of_text : String → Attribute
    none_value : Attribute
    of_list : Attributes → Attribute
    of_dict : (json : String) → Attribute
    other_object : (text : String) → Attribute

  pub data Attributes : Type 0 where
    no_more : Attributes
    and_then : Attribute → Attributes → Attributes

pub record Event : Type 0 where
  pub name : String
  pub attributes : Dict Attribute

-- `Span`
pub record Span : Type 0 where
  pub trace_id : String
  pub span_id : String
  pub parent_span_id : Option String
  pub operation : String
  pub service : String
  pub start_time : ℕ
  pub end_time : ℕ
  pub duration : ℕ
  pub status : String
  pub attributes : Dict Attribute
  pub events : List Event

-- `SpanContext` inside its `with` block.
pub record SpanContext : Type 0 where
  pub trace_id : String
  pub operation : String
  pub parent_span_id : Option String
  pub attributes : Dict Attribute
  pub span_id : String
  pub start_time : ℕ
  pub events : List Event

-- The exception that leaves the block: the name of its class, and its text, cut to 500 characters.
pub record Raised : Type 0 where
  pub class_name : String
  pub message : String

unfoldable pub set_attribute : String → Attribute → SpanContext → SpanContext
set_attribute key value c = record c { attributes = put key value c.attributes }

-- `add_event` before the block is left.
unfoldable pub add_event : String → Dict Attribute → SpanContext → SpanContext
add_event name attributes c = record c {
  events = c.events ++ record { name = name; attributes = attributes } ∷ [];
}

abbrev pub exception_event : Raised → Event
exception_event x = record {
  name = "exception";
  attributes =
      ("exception.type", of_text x.class_name) ∷ ("exception.message", of_text x.message) ∷ [];
}

-- `__exit__`: the span, at the time of the end and with the measured duration.
unfoldable pub exit : Option Raised → ℕ → ℕ → SpanContext → Span
exit raised end_time duration c =
    let closed : Dict Attribute × List Event × String = elim raised [
      | none ↦ (c.attributes, c.events, "ok")
      | some x ↦ (
        put "error.type" (of_text x.class_name) c.attributes,
        c.events ++ exception_event x ∷ [],
        "error",
      )
    ] in
    record {
      trace_id = c.trace_id;
      span_id = c.span_id;
      parent_span_id = c.parent_span_id;
      operation = c.operation;
      service = "sovereign-rag-gateway";
      start_time = c.start_time;
      end_time = end_time;
      duration = duration;
      status = closed.2;
      attributes = closed.0;
      events = closed.1;
    }

-- `SpanCollector`; `exports` says whether it has an exporter.
pub record Collector : Type 0 where
  pub max_traces : ℕ
  pub exports : Bool
  pub export_root_operation : String
  pub traces : Dict (List Span)
  pub trace_order : List String

abbrev pub new_collector : ℕ → Bool → String → Collector
new_collector max_traces exports root = record {
  max_traces = max_traces;
  exports = exports;
  export_root_operation = root;
  traces = [];
  trace_order = [];
}

-- `trace_id in self._trace_order`
abbrev pub has : String → List String → Bool
has k ks = any_of (λ j. str_eq j k) ks

-- `while len(self._trace_order) > self._max_traces`
unfoldable pub evict : ℕ → List String → Dict (List Span) → List String × Dict (List Span)
evict max_traces [] traces = ([], traces)
evict max_traces (oldest ∷ order) traces =
    let rest = evict max_traces order (pop oldest traces) in
    if ltb max_traces (suc (length order)) then rest else (oldest ∷ order, traces)

-- `record_span`: what is exported, if anything, and the collector after it.
unfoldable pub record_span : String → Span → Collector → Option (List Span) × Collector
unfolding evict
record_span trace_id span c =
    let spans : List Span = get_or trace_id [] c.traces ++ span ∷ [] in
    let order : List String =
      if has trace_id c.trace_order then c.trace_order else c.trace_order ++ trace_id ∷ [] in
    let kept = evict c.max_traces order (put trace_id spans c.traces) in
    (
      if c.exports && str_eq span.operation c.export_root_operation then some spans else none,
      record c { traces = kept.1; trace_order = kept.0 },
    )

unfoldable pub get_trace : String → Collector → List Span
get_trace trace_id c = get_or trace_id [] c.traces

-- `list(reversed(self._trace_order[-limit:]))`, for a positive limit.
unfoldable pub list_traces : ℕ → Collector → List String
list_traces limit c = reverse (drop (length c.trace_order - limit) c.trace_order)

unfoldable pub trace_count : Collector → ℕ
trace_count c = length c.trace_order

unfoldable pub clear : Collector → Collector
clear c = record c { traces = []; trace_order = [] }
