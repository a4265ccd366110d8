-- ===== src/Audit.antt =====
-- app/audit/writer.py and the chain check of scripts/audit_replay_bundle.py. The log is the bytes
-- of the file, or none while there is no file. JSON text, SHA-256 and the schema check are a
-- parameter; every line that json.dumps writes is ASCII (ensure_ascii), so a byte is a character.
-- The file system may refuse to open the file; a line is written whole.
pub mod Chain
pub mod Integrity
pub mod Examples
use sovereign_rag_gateway.Prelude.{
  ℕ, zero, suc, ◌+◌, ◌-◌, ◌≡◌, ◌≢◌, String, Bool, true, false, ◌&&◌, ◌||◌, Option, none, some, List,
  [], ◌∷◌, ◌++◌, leb, ◌==◌, str_eq, if◌then◌else◌, length, drop, All, not,
}
use sovereign_rag_gateway.Prelude.Dict.{Dict, get, put, pop}

-- What `json.loads` makes of a line.
pub data Loaded (V : Type 0) : Type 0 where
  object : Dict V → Loaded V
  other_value : Loaded V
  decode_error : Loaded V

-- JSON values and their texts, SHA-256 and the JSON schema. `dumps` is the line that is written,
-- `canonical` the sorted compact form that is hashed; a written line holds no newline.
pub record Codec : Type 1 where
  pub Value : Type 0
  pub text : String → Value
  pub show : Value → String
  pub dumps : Dict Value → List ℕ
  pub canonical : Dict Value → List ℕ
  pub loads : List ℕ → Loaded Value
  pub sha256_hex : List ℕ → String
  pub valid : Dict Value → Bool
  pub show-text : (s : String) → show (text s) ≡ s
  pub dumps_no_newline : (d : Dict Value) → All (λ b. b ≢ b'\n') (dumps d)
  pub digest_nonempty : (bs : List ℕ) → str_eq (sha256_hex bs) "" ≡ false

abbrev pub byte_at : ℕ → List ℕ → ℕ
byte_at i [] = 0
byte_at zero (b ∷ bs) = b
byte_at (suc i) (b ∷ bs) = byte_at i bs

-- The backwards loop of `_read_last_line`, from a position down to 0.
unfoldable pub find_start : List ℕ → ℕ → ℕ
find_start file zero = 0
find_start file (suc p) =
    let before = find_start file p in if byte_at (suc p) file == b'\n' then suc p + 1 else before

-- The ASCII characters that `str.strip` removes.
abbrev pub is_space : ℕ → Bool
is_space b = (leb 9 b && leb b 13) || (leb 28 b && leb b 32)

pub strip_left : List ℕ → List ℕ
strip_left [] = []
strip_left (b ∷ bs) = let rest = strip_left bs in if is_space b then rest else b ∷ bs

pub strip_right : List ℕ → List ℕ
strip_right [] = []
strip_right (b ∷ bs) = elim (strip_right bs) [
  | [] ↦ if is_space b then [] else b ∷ []
  | c ∷ cs ↦ b ∷ c ∷ cs
]

unfoldable pub strip : List ℕ → List ℕ
unfolding strip_left strip_right
strip bs = strip_right (strip_left bs)

unfoldable pub read_last_line : List ℕ → List ℕ
unfolding find_start strip
read_last_line [] = []
read_last_line (b ∷ bs) = strip (drop (find_start (b ∷ bs) (length bs)) (b ∷ bs))

-- How `write_event` ends: with the payload, with `AuditValidationError`, or with another exception:
-- the AttributeError of `parsed.get` where the last line is JSON but no object, or the OSError of a
-- file that cannot be opened.
pub data Written (V : Type 0) : Type 0 where
  written : Dict V → Written V
  invalid : Written V
  crashed : Written V

-- Whether the file system lets a call of `write_event` open the log's file to read it, and make its
-- directory and open it to append.
pub record Disk : Type 0 where
  pub reads : Bool
  pub appends : Bool

-- `payload.setdefault(key, value)`
abbrev pub set_default {ℓ} : {V : Type ℓ} → String → V → Dict V → Dict V
set_default k v d = elim (get k d) [ none ↦ put k v d | some w ↦ d ]

module _ (c : Codec) where
  open c use {Value, text, show, dumps, canonical, loads, sha256_hex, valid}

  -- `str(parsed.get(key, ""))`
  unfoldable pub text_at : String → Dict Value → String
  text_at k d = elim (get k d) [ none ↦ "" | some v ↦ show v ]

  abbrev hash_of_loaded : Loaded Value → Option String
  hash_of_loaded (object d) = some (text_at "payload_hash" d)
  hash_of_loaded other_value = none
  hash_of_loaded decode_error = some ""

  -- `_last_payload_hash`; `none` is the AttributeError.
  unfoldable pub last_payload_hash : Option (List ℕ) → Option String
  last_payload_hash none = some ""
  last_payload_hash (some file) = elim (read_last_line file) [
    | [] ↦ some ""
    | b ∷ bs ↦ hash_of_loaded (loads (b ∷ bs))
  ]

  unfoldable pub calculate_payload_hash : Dict Value → String
  calculate_payload_hash payload = sha256_hex (canonical payload)

  -- The payload with everything but its own hash.
  unfoldable pub linked : String → String → String → Dict Value → Dict Value
  linked event_id created_at prev_hash event =
      put "prev_hash" (text prev_hash)
        (set_default "created_at" (text created_at) (set_default "event_id" (text event_id) event))

  unfoldable pub sealed : Dict Value → Dict Value
  unfolding calculate_payload_hash
  sealed payload = put "payload_hash" (text (calculate_payload_hash payload)) payload

  -- `open("a")` makes the file if there is none.
  unfoldable pub append_line : Dict Value → Option (List ℕ) → Option (List ℕ)
  append_line payload none = some (dumps payload ++ b'\n' ∷ [])
  append_line payload (some file) = some (file ++ dumps payload ++ b'\n' ∷ [])

  -- The line in the file; `open` or `mkdir` may raise an OSError.
  abbrev append : Disk → Dict Value → Option (List ℕ) → Written Value × Option (List ℕ)
  append disk payload log =
      if disk.appends then (written payload, append_line payload log) else (crashed, log)

  abbrev persist : Disk → Dict Value → Option (List ℕ) → Written Value × Option (List ℕ)
  persist disk payload log = if valid payload then append disk payload log else (invalid, log)

  -- The hash of the last line; only a file that is there is opened for it.
  abbrev prev_hash_of : Disk → Option (List ℕ) → Option String
  prev_hash_of disk none = last_payload_hash none
  prev_hash_of disk (some file) = if disk.reads then last_payload_hash (some file) else none

  -- The clock, the identifiers that the call draws, and the file system are arguments.
  unfoldable pub write_event :
      Disk → String → String → Dict Value → Option (List ℕ) → Written Value × Option (List ℕ)
  write_event disk event_id created_at event log = elim (prev_hash_of disk log) [
    | none ↦ (crashed, log)
    | some prev_hash ↦ persist disk (sealed (linked event_id created_at prev_hash event)) log
  ]

  -- One call of `write_event` by the gateway.
  pub record Call : Type 0 where
    pub disk : Disk
    pub event_id : String
    pub created_at : String
    pub event : Dict Value

  abbrev collect : Written Value → List (Dict Value) → List (Dict Value)
  collect (written p) ps = p ∷ ps
  collect invalid ps = ps
  collect crashed ps = ps

  -- The calls in order: the payloads that were persisted, and the log at the end.
  unfoldable pub write_all : List Call → Option (List ℕ) → List (Dict Value) × Option (List ℕ)
  write_all [] log = ([], log)
  write_all (k ∷ ks) log =
      let (r, log') = write_event k.disk k.event_id k.created_at k.event log in
      let (ps, end) = write_all ks log' in (collect r ps, end)

  -- `_is_event_hash_valid` of scripts/audit_replay_bundle.py
  unfoldable pub is_event_hash_valid : Dict Value → Bool
  is_event_hash_valid event =
      str_eq (sha256_hex (canonical (pop "payload_hash" event))) (text_at "payload_hash" event)

  -- `verify_hash_chain`: each event's own hash, and its link to the event before it.
  unfoldable pub verify_from : String → List (Dict Value) → Bool
  verify_from expected_prev [] = true
  verify_from expected_prev (event ∷ events) =
      is_event_hash_valid event
      && str_eq (text_at "prev_hash" event) expected_prev
      && verify_from (text_at "payload_hash" event) events

  unfoldable pub verify_hash_chain : List (Dict Value) → Bool
  unfolding verify_from
  verify_hash_chain events = verify_from "" events
