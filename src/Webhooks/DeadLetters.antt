-- ===== src/Webhooks/DeadLetters.antt =====
-- app/webhooks/dead_letter_store.py: the two stores of webhook deliveries that failed. A time is a
-- number of ticks; how a timestamp's text is read (datetime.fromisoformat) and the text of the
-- cutoff are arguments.
pub mod Retention
use sovereign_rag_gateway.Prelude.{
  ℕ, zero, suc, ◌+◌, ◌-◌, ◌*◌, String, Bool, true, false, Option, none, some, List, [], ◌∷◌, ◌++◌,
  not, ltb, str_eq, if◌then◌else◌, keep, length, take, map,
}
use sovereign_rag_gateway.Prelude.Int.{ℤ, pos, pos_part, leb_ℤ, ltb_ℤ}
use sovereign_rag_gateway.Prelude.Text.{str_le}

-- A dead letter, as the dispatcher builds it.
pub record Letter : Type 0 where
  pub timestamp : String
  pub event_type : String
  pub endpoint_url : String
  pub status_code : Option ℕ
  pub error : Option String
  pub attempt_count : ℕ
  pub idempotency_key : String
  pub body : String

-- A JSON object: a letter, or another, by the text under "timestamp", if there is one, and its own text.
pub data Object : Type 0 where
  of_letter : Letter → Object
  other_object : Option String → String → Object

-- A line of a JSONL file: an object, what is no JSON, or JSON that is no object.
pub data FileLine : Type 0 where
  object : Object → FileLine
  no_json : String → FileLine
  no_object : String → FileLine

abbrev pub letter : Letter → FileLine
letter l = object (of_letter l)

pub data Backend : Type 0 where
  jsonl sqlite : Backend

-- A store: the lines of the file, or the rows of the table in the order of their `id`.
pub data Store : Type 0 where
  jsonl_store : (retention_days : Option ℤ) → (lines : List FileLine) → Store
  sqlite_store : (retention_days : Option ℤ) → (rows : List Letter) → Store

pub record WriteResult : Type 0 where
  pub backend : Backend
  pub written : ℕ
  pub pruned : ℕ

-- What the clock and `datetime` say at a call: how a timestamp is read, the time now, the length of
-- a day, and the text of a time.
pub record Clock : Type 0 where
  pub parse_timestamp : String → Option ℕ
  pub now : ℕ
  pub day : ℕ
  pub isoformat : ℕ → String

-- The retention in days where there is one: `none` or not positive is none.
unfoldable pub retention : Option ℤ → Option ℕ
retention none = none
retention (some days) = if leb_ℤ days (pos 0) then none else some (pos_part days)

abbrev pub cutoff_of : Clock → ℕ → ℕ
cutoff_of c days = c.now - days * c.day

-- `parsed.get("timestamp")`
abbrev timestamp_of : Object → Option String
timestamp_of (of_letter l) = some l.timestamp
timestamp_of (other_object timestamp _) = timestamp

abbrev time_of : Clock → Option String → Option ℕ
time_of c none = none
time_of c (some timestamp) = c.parse_timestamp timestamp

-- Whether a line of the file is older than the cutoff. What has no time is kept.
unfoldable pub is_expired : Clock → ℕ → FileLine → Bool
is_expired c cutoff (object o) = elim (time_of c (timestamp_of o)) [
  | none ↦ false
  | some t ↦ ltb t cutoff
]
is_expired c cutoff (no_json _) = false
is_expired c cutoff (no_object _) = false

-- `JsonlDeadLetterStore._prune`: the lines that stay, and how many go.
unfoldable pub prune_lines : Clock → Option ℕ → List FileLine → List FileLine × ℕ
prune_lines c none lines = (lines, 0)
prune_lines c (some days) lines =
    let kept = keep (λ l. not (is_expired c (cutoff_of c days) l)) lines in
    (kept, length lines - length kept)

-- `DELETE FROM webhook_dead_letter WHERE timestamp < ?`: SQLite compares the texts.
unfoldable pub prune_rows : Clock → Option ℕ → List Letter → List Letter × ℕ
prune_rows c none rows = (rows, 0)
prune_rows c (some days) rows =
    let kept = keep (λ l. str_le (c.isoformat (cutoff_of c days)) l.timestamp) rows in
    (kept, length rows - length kept)

unfoldable pub write : Clock → Letter → Store → WriteResult × Store
unfolding retention prune_lines prune_rows
write c l (jsonl_store days lines) =
    let (kept, pruned) = prune_lines c (retention days) (lines ++ letter l ∷ []) in
    (record { backend = jsonl; written = 1; pruned = pruned }, jsonl_store days kept)
write c l (sqlite_store days rows) =
    let (kept, pruned) = prune_rows c (retention days) (rows ++ l ∷ []) in
    (record { backend = sqlite; written = 1; pruned = pruned }, sqlite_store days kept)

-- A write that may raise an exception, which leaves the store as the function says.
unfoldable pub try_write :
    Clock → Option (Store → Store) → Letter → Store → Option WriteResult × Store
unfolding write
try_write c none l store = let (w, store') = write c l store in (some w, store')
try_write c (some left) l store = (none, left store)

-- `rows[:limit]`, where the limit is given and positive; `LIMIT ?` does the same.
abbrev pub limited : {A : Type 0} → Option ℤ → List A → List A
limited none rows = rows
limited (some limit) rows = if leb_ℤ limit (pos 0) then rows else take (pos_part limit) rows

-- The objects of a file; `none` is the JSONDecodeError of a line that is no JSON.
unfoldable pub load_lines : List FileLine → Option (List Object)
load_lines [] = some []
load_lines (object o ∷ lines) = elim (load_lines lines) [ none ↦ none | some os ↦ some (o ∷ os) ]
load_lines (no_json _ ∷ lines) = none
load_lines (no_object _ ∷ lines) = load_lines lines

unfoldable pub load : Option ℤ → Store → Option (List Object)
unfolding load_lines
load limit (jsonl_store days lines) = elim (load_lines lines) [
  | none ↦ none
  | some ls ↦ some (limited limit ls)
]
load limit (sqlite_store days rows) = some (map of_letter (limited limit rows))

-- How `create_dead_letter_store` ends; the backend's name comes stripped and in lower case.
pub data Created : Type 0 where
  no_store : Created
  created : Store → Created
  unsupported : Created

-- A new table is empty; a file may be there already.
pub create_dead_letter_store : String → Option (List FileLine) → Option ℤ → Created
create_dead_letter_store normalized_backend none days = no_store
create_dead_letter_store normalized_backend (some lines) days =
    if str_eq normalized_backend "sqlite"
    then created (sqlite_store days [])
    else if str_eq normalized_backend "jsonl"
    then created (jsonl_store days lines)
    else unsupported
