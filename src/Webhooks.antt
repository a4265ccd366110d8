-- ===== src/Webhooks.antt =====
-- app/webhooks/dispatcher.py: the delivery of an event to the subscribed endpoints, with retries,
-- the delivery log and the dead letters. Times are in microseconds, where the program has floats;
-- what a POST comes to, the clock and the digests are arguments.
pub mod DeadLetters
pub mod Delivery
pub mod Dispatch
pub mod Replay
mod Examples
use Prim.Native.String.{◌++◌ as str_append}
use mathlib.Core.Option
use mathlib.Core.List.{reverse}
use sovereign_rag_gateway.Prelude.{
  ℕ, zero, suc, ◌+◌, ◌-◌, ◌*◌, ◌^◌, min, max, String, Bool, true, false, ◌&&◌, ◌||◌, Option, none,
  some, List, [], ◌∷◌, ◌++◌, not, ltb, leb, ◌==◌, if◌then◌else◌, any_of, length, drop,
}
use sovereign_rag_gateway.Prelude.Text.{show_nat}
use sovereign_rag_gateway.Metrics.{Metrics, inc_counter, observe_histogram, unit}
use sovereign_rag_gateway.Webhooks.DeadLetters.{
  Letter, Store, Clock, Backend, jsonl, sqlite, WriteResult, try_write,
}

pub data EventType : Type 0 where
  policy_denied provider_fallback budget_warning : EventType
  budget_exceeded redaction_hit provider_error : EventType

abbrev pub event_name : EventType → String
event_name policy_denied = "policy_denied"
event_name provider_fallback = "provider_fallback"
event_name budget_warning = "budget_warning"
event_name budget_exceeded = "budget_exceeded"
event_name redaction_hit = "redaction_hit"
event_name provider_error = "provider_error"

abbrev pub event_eq : EventType → EventType → Bool
event_eq policy_denied policy_denied = true
event_eq provider_fallback provider_fallback = true
event_eq budget_warning budget_warning = true
event_eq budget_exceeded budget_exceeded = true
event_eq redaction_hit redaction_hit = true
event_eq provider_error provider_error = true
event_eq _ _ = false

pub record Endpoint : Type 0 where
  pub url : String
  pub secret : String
  pub event_types : List EventType
  pub enabled : Bool

-- `WebhookDeliveryResult`
pub record DeliveryResult : Type 0 where
  pub endpoint_url : String
  pub event_type : String
  pub status_code : Option ℕ
  pub success : Bool
  pub error : Option String
  pub duration : ℕ
  pub attempt_count : ℕ
  pub idempotency_key : String

-- What a POST comes to: a status and the time it took, an httpx.HTTPError with its text, or any
-- other exception.
pub data PostOutcome : Type 0 where
  response : (status_code : ℕ) → (duration : ℕ) → PostOutcome
  http_error : String → PostOutcome
  other_exception : PostOutcome

-- The retry settings of the dispatcher; `backoff_base` is not negative, and `backoff_max` is not
-- below it.
pub record RetryPolicy : Type 0 where
  pub max_retries : ℕ
  pub backoff_base : ℕ
  pub backoff_max : ℕ

abbrev pub is_success : ℕ → Bool
is_success status_code = leb 200 status_code && ltb status_code 300

abbrev pub is_retryable : ℕ → Bool
is_retryable s = s == 429 || s == 500 || s == 502 || s == 503 || s == 504

abbrev pub backoff : RetryPolicy → ℕ → ℕ
backoff p attempt = min (p.backoff_base * 2 ^ attempt) p.backoff_max

-- The text of the last error.
abbrev pub attempt_error : ℕ → String → String
attempt_error attempt text =
    str_append "attempt " (str_append (show_nat (attempt + 1)) (str_append ": " text))

-- How `_deliver` ends, none by another exception, and the pauses it made.
pub record Delivered : Type 0 where
  pub result : Option DeliveryResult
  pub pauses : List ℕ

abbrev pub after_pause : ℕ → Delivered → Delivered
after_pause d r = record r { pauses = d ∷ r.pauses }

module _ (p : RetryPolicy) (url event_type idempotency_key : String) (post : ℕ → PostOutcome) where
  abbrev answered : ℕ → ℕ → ℕ → DeliveryResult
  answered attempt status duration = record {
    endpoint_url = url;
    event_type = event_type;
    status_code = some status;
    success = is_success status;
    error = none;
    duration = duration;
    attempt_count = attempt + 1;
    idempotency_key = idempotency_key;
  }

  abbrev gave_up : Option String → DeliveryResult
  gave_up last_error = record {
    endpoint_url = url;
    event_type = event_type;
    status_code = none;
    success = false;
    error = last_error;
    duration = 0;
    attempt_count = p.max_retries + 1;
    idempotency_key = idempotency_key;
  }

  -- The loop of `_deliver`: the rounds left, the attempt, and the last error.
  unfoldable pub deliver_loop : ℕ → ℕ → Option String → Delivered
  deliver_loop zero attempt last_error = record { result = some (gave_up last_error); pauses = [] }
  deliver_loop (suc left) attempt last_error = elim (post attempt) [
    | response status duration ↦
        let again = after_pause (backoff p attempt) (deliver_loop left (attempt + 1) last_error) in
        if not (is_success status) && ltb attempt p.max_retries && is_retryable status
        then again
        else record { result = some (answered attempt status duration); pauses = [] }
    | http_error text ↦
        let rest = deliver_loop left (attempt + 1) (some (attempt_error attempt text)) in
        if ltb attempt p.max_retries then after_pause (backoff p attempt) rest else rest
    | other_exception ↦ record { result = none; pauses = [] }
  ]

  unfoldable pub deliver : Delivered
  unfolding deliver_loop
  deliver = deliver_loop (suc p.max_retries) 0 none

-- `WebhookDispatcher`, with the metrics that it counts in.
pub record Dispatcher : Type 0 where
  pub endpoints : List Endpoint
  pub retry : RetryPolicy
  pub dead_letter_store : Option Store
  pub delivery_log : List DeliveryResult
  pub metrics : Metrics

abbrev pub max_log_entries : ℕ
max_log_entries = 500

abbrev pub is_subscribed : EventType → Endpoint → Bool
is_subscribed event_type ep = ep.enabled && any_of (event_eq event_type) ep.event_types

unfoldable pub should_fire : EventType → Dispatcher → Bool
should_fire event_type d = any_of (is_subscribed event_type) d.endpoints

abbrev pub add_endpoint : Endpoint → Dispatcher → Dispatcher
add_endpoint ep d = record d { endpoints = d.endpoints ++ ep ∷ [] }

-- `self._delivery_log[-n:]`, and the whole log where it is not longer.
abbrev pub last_entries : {A : Type 0} → ℕ → List A → List A
last_entries n log = drop (length log - n) log

abbrev pub trimmed : List DeliveryResult → List DeliveryResult
trimmed log = if ltb max_log_entries (length log) then last_entries max_log_entries log else log

abbrev pub success_text : Bool → String
success_text true = "true"
success_text false = "false"

-- The three metrics of `_record_delivery`.
unfoldable pub count_delivery : DeliveryResult → Metrics → Metrics
count_delivery r m =
    let m1 =
      inc_counter "srg_webhook_deliveries_total"
        (("event_type", r.event_type) ∷ ("success", success_text r.success) ∷ []) unit m in
    let m2 =
      inc_counter "srg_webhook_delivery_attempts_total" (("event_type", r.event_type) ∷ [])
        (max r.attempt_count 1 * unit) m1 in
    if ltb 0 r.duration
    then observe_histogram "srg_webhook_delivery_duration_seconds"
        (("event_type", r.event_type) ∷ []) (r.duration * 100) m2
    else m2

unfoldable pub record_delivery : DeliveryResult → Dispatcher → Dispatcher
record_delivery r d = record d {
  delivery_log = trimmed (d.delivery_log ++ r ∷ []);
  metrics = count_delivery r d.metrics;
}

-- `recent_deliveries`, for a positive limit.
pub recent_deliveries : ℕ → Dispatcher → List DeliveryResult
recent_deliveries limit d = reverse (last_entries limit d.delivery_log)

abbrev pub backend_name : Backend → String
backend_name jsonl = "jsonl"
backend_name sqlite = "sqlite"

abbrev pub letter_of : String → String → DeliveryResult → Letter
letter_of timestamp body r = record {
  timestamp = timestamp;
  event_type = r.event_type;
  endpoint_url = r.endpoint_url;
  status_code = r.status_code;
  error = r.error;
  attempt_count = r.attempt_count;
  idempotency_key = r.idempotency_key;
  body = body;
}

-- The two counters of `_write_dead_letter`.
unfoldable pub count_letter : String → WriteResult → Metrics → Metrics
count_letter event_type w m =
    let m1 =
      if ltb 0 w.written
      then inc_counter "srg_webhook_dead_letter_records_total"
          (("backend", backend_name w.backend) ∷ ("event_type", event_type) ∷ []) (w.written * unit)
          m
      else m in
    if ltb 0 w.pruned
    then inc_counter "srg_webhook_dead_letter_pruned_total"
        (("backend", backend_name w.backend) ∷ []) (w.pruned * unit) m1
    else m1

-- `_write_dead_letter`: an exception of the store is only logged, and nothing is counted then.
unfoldable pub write_dead_letter :
    Clock → (Letter → Option (Store → Store)) → Letter → Dispatcher → Dispatcher
write_dead_letter c disk l d = elim d.dead_letter_store [
  | none ↦ d
  | some store ↦
      let (written, store') = try_write c (disk l) l store in
      let counted : Metrics = elim written [
        | none ↦ d.metrics
        | some w ↦ count_letter l.event_type w d.metrics
      ] in
      record d { dead_letter_store = some store'; metrics = counted }
]

-- The surroundings of one dispatch: the clock, its text, the digest of a url and a body, what the POSTs
-- to an endpoint come to, attempt by attempt, and the exception that the write of a letter raises, by
-- what it leaves of the store.
pub record World : Type 0 where
  pub clock : Clock
  pub timestamp : String
  pub body : String
  pub digest : String → String → String
  pub post : Endpoint → ℕ → PostOutcome
  pub disk : Letter → Option (Store → Store)

-- What `dispatch` does with one delivery that came to a result.
abbrev pub settle : World → DeliveryResult → Dispatcher → Dispatcher
settle w r d =
    record_delivery r
      (if r.success then d else write_dead_letter w.clock w.disk (letter_of w.timestamp w.body r) d)

-- The loop of `dispatch` over the endpoints: the results, none if an exception ended it.
unfoldable pub dispatch_loop :
    World → EventType → List Endpoint → Dispatcher → Option (List DeliveryResult) × Dispatcher
dispatch_loop w event_type [] d = (some [], d)
dispatch_loop w event_type (ep ∷ eps) d =
    let skip = dispatch_loop w event_type eps d in
    let sent =
      deliver d.retry ep.url (event_name event_type) (w.digest ep.url w.body) (w.post ep) in
    let send : Option (List DeliveryResult) × Dispatcher = elim sent.result [
      | none ↦ (none, d)
      | some r ↦
          let (rest, end) = dispatch_loop w event_type eps (settle w r d) in
          (Option.map (λ rs. r ∷ rs) rest, end)
    ] in
    if is_subscribed event_type ep then send else skip

unfoldable pub dispatch : World → EventType → Dispatcher → Option (List DeliveryResult) × Dispatcher
unfolding dispatch_loop
dispatch w event_type d = dispatch_loop w event_type d.endpoints d
