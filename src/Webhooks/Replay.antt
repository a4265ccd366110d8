-- ===== src/Webhooks/Replay.antt =====
-- scripts/replay_webhook_dead_letter.py: dead letters are picked and sent again, and the script counts
-- what came of them. JSON text, SHA-256, `str.lower` and the sending are a parameter. A row is known by
-- what the script reads: the texts are those of `str`, empty where the key is missing, and the body is
-- none where it is no object.
pub mod Counts
mod Examples
use Prim.Native.String.{◌++◌ as str_append}
use sovereign_rag_gateway.Prelude.{
  ℕ, ◌+◌, String, Bool, true, not, ◌&&◌, Option, none, some, List, [], ◌∷◌, ◌++◌, map, keep, leb,
  ltb, str_eq, if◌then◌else◌, length,
}
use sovereign_rag_gateway.Prelude.Dict.{Dict, put, get_or}
use sovereign_rag_gateway.Prelude.Int.{ℤ, pos_part}
use sovereign_rag_gateway.Prelude.Text.{strip}
use sovereign_rag_gateway.Policy.{member_of}

pub record Row (Body : Type 0) : Type 0 where
  pub event_type : String
  pub endpoint_url : String
  pub idempotency_key : String
  pub body : Option Body

-- What the script calls. `canonical` is the sorted JSON text of a body and `dumps` the one that is sent;
-- a sender gives a status, 0 where there was none, and an error.
pub record Outside : Type 1 where
  pub Body : Type 0
  pub canonical : Body → String
  pub dumps : Body → String
  pub sha256_hex : String → String
  pub lower : String → String
  pub post : String → String → Dict String → ℕ × String

pub record ReplayFailure : Type 0 where
  pub event_type : String
  pub endpoint_url : String
  pub reason : String
  pub status_code : Option ℕ

-- The counts of an event type.
pub record Tally : Type 0 where
  pub attempted : ℕ
  pub succeeded : ℕ
  pub failed : ℕ

abbrev pub no_tally : Tally
no_tally = record { attempted = 0; succeeded = 0; failed = 0 }

pub record Counted : Type 0 where
  pub attempted : ℕ
  pub succeeded : ℕ
  pub failures : List ReplayFailure
  pub by_event : Dict Tally

abbrev pub nothing_yet : Counted
nothing_yet = record { attempted = 0; succeeded = 0; failures = []; by_event = [] }

pub record ReplaySummary : Type 0 where
  pub total_records : ℕ
  pub considered_records : ℕ
  pub attempted : ℕ
  pub succeeded : ℕ
  pub failed : ℕ
  pub dry_run : Bool
  pub failures : List ReplayFailure
  pub by_event : Dict Tally

-- The keyword arguments of `replay_dead_letter`.
pub record Options : Type 0 where
  pub event_types : List String
  pub endpoint_override : Option String
  pub max_events : ℤ
  pub dry_run : Bool
  pub idempotency_suffix : String

abbrev pub headers_of : String → String → Dict String
headers_of key original =
    ("Content-Type", "application/json")
    ∷ ("User-Agent", "SovereignRAGGateway/webhook-replay")
    ∷ ("X-SRG-Replay", "true")
    ∷ ("X-SRG-Idempotency-Key", key)
    ∷ (if str_eq original "" then [] else ("X-SRG-Original-Idempotency-Key", original) ∷ [])

-- How a row comes out: it is not sent, it is delivered (or would be), or the sending fails.
pub data Outcome : Type 0 where
  unsent : (endpoint_url reason : String) → Outcome
  delivered : Outcome
  undelivered : (endpoint_url reason : String) → Option ℕ → Outcome

abbrev pub judged : String → ℕ × String → Outcome
judged url (status, error) =
    if leb 200 status && ltb status 300
    then delivered
    else undelivered url (if str_eq error "" then "non-2xx response" else error)
        (if ltb 0 status then some status else none)

abbrev pub tally : Outcome → Tally → Tally
tally (unsent url reason) t = record t { failed = t.failed + 1 }
tally delivered t = record t { attempted = t.attempted + 1; succeeded = t.succeeded + 1 }
tally (undelivered url reason status) t = record t {
  attempted = t.attempted + 1;
  failed = t.failed + 1;
}

-- One round of the loop over the picked rows.
unfoldable pub count : String → Outcome → Counted → Counted
count event_type x c =
    let by_event : Dict Tally =
      put event_type (tally x (get_or event_type no_tally c.by_event)) c.by_event in
    elim x [
      | unsent url reason ↦ record c {
        failures =
            c.failures
            ++ record {
              event_type = event_type;
              endpoint_url = url;
              reason = reason;
              status_code = none;
            }
              ∷ [];
        by_event = by_event;
      }
      | delivered ↦ record c {
        attempted = c.attempted + 1;
        succeeded = c.succeeded + 1;
        by_event = by_event;
      }
      | undelivered url reason status ↦ record c {
        attempted = c.attempted + 1;
        failures =
            c.failures
            ++ record {
              event_type = event_type;
              endpoint_url = url;
              reason = reason;
              status_code = status;
            }
              ∷ [];
        by_event = by_event;
      }
    ]

module _ (o : Outside) where
  open o use {Body, canonical, dumps, sha256_hex, lower, post}

  unfoldable pub build_idempotency_key : String → Body → String → String → String
  build_idempotency_key endpoint_url body original_key suffix = sha256_hex (
      str_append endpoint_url (
        str_append "|" (
          str_append original_key
            (str_append "|" (str_append suffix (str_append "|" (canonical body)))))))

  abbrev pub normalized_types : List String → List String
  normalized_types types = map (λ t. lower (strip t)) (keep (λ t. not (str_eq (strip t) "")) types)

  -- The row is of one of the types, if any are named.
  abbrev pub is_wanted : List String → Row Body → Bool
  is_wanted [] r = true
  is_wanted (t ∷ ts) r = member_of (t ∷ ts) (lower (strip r.event_type))

  -- The loop that picks the rows, with the number of those that it has.
  unfoldable pub consider : List String → ℕ → List (Row Body) → ℕ → List (Row Body)
  consider types limit [] n = []
  consider types limit (r ∷ rs) n =
      let wanted : Bool = is_wanted types r in
      let rest = consider types limit rs (if wanted then n + 1 else n) in
      if not wanted then rest else if leb limit (n + 1) then r ∷ [] else r ∷ rest

  -- `endpoint_override or str(record.get("endpoint_url", "")).strip()`
  abbrev pub endpoint_of : Option String → Row Body → String
  endpoint_of none r = strip r.endpoint_url
  endpoint_of (some url) r = if str_eq url "" then strip r.endpoint_url else url

  unfoldable pub replay_row : Options → Row Body → Outcome
  unfolding build_idempotency_key
  replay_row opts r =
      let url : String = endpoint_of opts.endpoint_override r in
      let original : String = strip r.idempotency_key in
      if str_eq url "" then unsent "" "missing endpoint_url" else elim r.body [
        | none ↦ unsent url "body must be a JSON object"
        | some body ↦
            let key = build_idempotency_key url body original opts.idempotency_suffix in
            if opts.dry_run
            then delivered
            else judged url (post url (dumps body) (headers_of key original))
      ]

  unfoldable pub replay_rows : Options → List (Row Body) → Counted → Counted
  replay_rows opts [] c = c
  replay_rows opts (r ∷ rs) c =
      replay_rows opts rs (count (strip r.event_type) (replay_row opts r) c)

  unfoldable pub considered : Options → List (Row Body) → List (Row Body)
  unfolding consider
  considered opts rows =
      consider (normalized_types opts.event_types) (pos_part opts.max_events) rows 0

  unfoldable pub replay_dead_letter : Options → List (Row Body) → ReplaySummary
  unfolding considered replay_rows
  replay_dead_letter opts rows =
      let picked = considered opts rows in
      let c : Counted = replay_rows opts picked nothing_yet in
      record {
        total_records = length rows;
        considered_records = length picked;
        attempted = c.attempted;
        succeeded = c.succeeded;
        failed = length c.failures;
        dry_run = opts.dry_run;
        failures = c.failures;
        by_event = c.by_event;
      }
