-- ===== src/Telemetry/Otlp.antt =====
-- The OTLP form of a trace: `_normalize_hex`, `_otlp_value` and `_to_payload`. An identifier is the list
-- of its code points; a time in nanoseconds is a thousand times the microseconds of the span.
use sovereign_rag_gateway.Prelude.Text.Decimal.{code_points}
use sovereign_rag_gateway.Prelude.{
  ℕ, zero, suc, ◌+◌, ◌-◌, ◌*◌, String, Bool, ◌&&◌, ◌||◌, Option, none, some, List, [], ◌∷◌, ◌++◌,
  map, keep, leb, str_eq, if◌then◌else◌, length, take,
}
use sovereign_rag_gateway.Prelude.Dict.{Dict}
use sovereign_rag_gateway.Prelude.Int.{ℤ}
use sovereign_rag_gateway.Telemetry.{
  Attribute, Attributes, of_bool, of_int, of_float, of_text, none_value, of_list, of_dict,
  other_object, no_more, and_then, Event, Span,
}

-- `[0-9a-fA-F]`
abbrev pub is_hex : ℕ → Bool
is_hex c = leb 48 c && leb c 57 || leb 97 c && leb c 102 || leb 65 c && leb c 70

-- `str.lower` on a hexadecimal digit.
abbrev pub to_lower : ℕ → ℕ
to_lower c = if leb 65 c && leb c 70 then c + 32 else c

abbrev pub zeros : ℕ → List ℕ
zeros zero = []
zeros (suc n) = 48 ∷ zeros n

unfoldable pub normalize_hex : List ℕ → ℕ → List ℕ
normalize_hex value n =
    let normalized : List ℕ = map to_lower (keep is_hex value) in
    if leb n (length normalized)
    then take n normalized
    else zeros (n - length normalized) ++ normalized

-- The values of OTLP.
mutual
  pub data OtlpValue : Type 0 where
    bool_value : Bool → OtlpValue
    int_value : ℤ → OtlpValue
    double_value : ℤ → OtlpValue
    string_value : String → OtlpValue
    array_value : OtlpValues → OtlpValue

  pub data OtlpValues : Type 0 where
    nil : OtlpValues
    cons : OtlpValue → OtlpValues → OtlpValues

unfoldable mutual
  pub otlp_value : Attribute → OtlpValue
  otlp_value (of_bool b) = bool_value b
  otlp_value (of_int n) = int_value n
  otlp_value (of_float x) = double_value x
  otlp_value (of_text s) = string_value s
  otlp_value none_value = string_value "null"
  otlp_value (of_list xs) = array_value (otlp_values xs)
  otlp_value (of_dict json) = string_value json
  otlp_value (other_object text) = string_value text

  pub otlp_values : Attributes → OtlpValues
  otlp_values no_more = nil
  otlp_values (and_then x xs) = cons (otlp_value x) (otlp_values xs)

abbrev pub otlp_attribute : String × Attribute → String × OtlpValue
otlp_attribute (key, value) = (key, otlp_value value)

unfoldable pub otlp_attributes : Dict Attribute → List (String × OtlpValue)
otlp_attributes attributes = map otlp_attribute attributes

pub record OtlpEvent : Type 0 where
  pub name : String
  pub time : ℕ
  pub attributes : List (String × OtlpValue)

pub record OtlpSpan : Type 0 where
  pub trace_id : List ℕ
  pub span_id : List ℕ
  pub name : String
  pub start_time : ℕ
  pub end_time : ℕ
  pub attributes : List (String × OtlpValue)
  pub events : List OtlpEvent
  pub status_code : ℕ
  pub parent_span_id : Option (List ℕ)

abbrev pub otlp_event : ℕ → Event → OtlpEvent
otlp_event end_ns e = record {
  name = e.name;
  time = end_ns;
  attributes = otlp_attributes e.attributes;
}

-- `if span.parent_span_id`
abbrev pub parent_id : Option String → Option (List ℕ)
parent_id none = none
parent_id (some s) = if str_eq s "" then none else some (normalize_hex (code_points s) 16)

unfoldable pub otlp_span : Span → OtlpSpan
unfolding normalize_hex otlp_attributes
otlp_span span = record {
  trace_id = normalize_hex (code_points span.trace_id) 32;
  span_id = normalize_hex (code_points span.span_id) 16;
  name = span.operation;
  start_time = span.start_time * 1000;
  end_time = span.end_time * 1000;
  attributes = otlp_attributes span.attributes;
  events = map (otlp_event (span.end_time * 1000)) span.events;
  status_code = if str_eq span.status "ok" then 1 else 2;
  parent_span_id = parent_id span.parent_span_id;
}

-- The payload: none without spans, or else the name of the service and the spans.
unfoldable pub to_payload : String → List Span → Option (String × List OtlpSpan)
unfolding otlp_span
to_payload service_name [] = none
to_payload service_name (s ∷ spans) =
    some (if str_eq s.service "" then service_name else s.service, map otlp_span (s ∷ spans))
