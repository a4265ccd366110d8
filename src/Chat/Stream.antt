-- ===== src/Chat/Stream.antt =====
-- `event_stream` of `handle_chat_stream`: the frames that a streamed answer sends. A chunk is known by
-- the parts that the code reads; the provider's stream is the chunks it gives after the first, and
-- whether it then raises. The consumer reads to the end. The frames' texts are left out.
use Prim.Native.String.{◌++◌ as str_append}
use sovereign_rag_gateway.Prelude.{
  ℕ, ◌+◌, ◌%◌, max, String, Bool, true, false, Option, none, some, List, [], ◌∷◌, ◌++◌, not, ◌&&◌,
  ◌||◌, str_eq, ltb, ◌==◌, if◌then◌else◌,
}
use sovereign_rag_gateway.Prelude.Int.{ℤ}
use sovereign_rag_gateway.Prelude.Text.{word_count}
use sovereign_rag_gateway.Models.{Citation, Delta, Chunk}
use sovereign_rag_gateway.Redaction.{TextResult, redact_text}
use sovereign_rag_gateway.Chat.Service.{Service, Caller}
use sovereign_rag_gateway.Chat.Prepare.{must_redact}

-- A frame that is sent. The frames that the gateway makes itself carry the id and the time.
pub data Frame : Type 0 where
  chunk_frame : Chunk → Frame
  citations_frame : (chunk_id : String) → (created : ℤ) → List Citation → Frame
  finish_frame : (chunk_id : String) → (created : ℤ) → (finish_reason : String) → Frame
  done_frame : Frame

-- The local variables of the generator.
pub record Progress : Type 0 where
  pub completion_parts : List String
  pub usage_prompt_tokens : ℕ
  pub usage_completion_tokens : ℕ
  pub output_redaction_count : ℕ
  pub saw_finish : Bool
  pub saw_citations : Bool
  pub chunk_id : String
  pub chunk_created : ℤ
  pub chunk_count : ℕ

abbrev pub or_else {ℓ} : {A : Type ℓ} → Option A → A → A
or_else none a = a
or_else (some b) a = b

abbrev pub is_some_text : Option String → Bool
is_some_text none = false
is_some_text (some s) = not (str_eq s "")

-- `" ".join(parts)`
abbrev pub join_spaced : List String → String
join_spaced [] = ""
join_spaced (p ∷ []) = p
join_spaced (p ∷ q ∷ ps) = str_append p (str_append " " (join_spaced (q ∷ ps)))

-- The usage that a chunk reports takes the place of the one before.
abbrev pub read_usage : Chunk → Progress → Progress
read_usage c s = record s {
  usage_prompt_tokens = or_else c.prompt_tokens s.usage_prompt_tokens;
  usage_completion_tokens = or_else c.completion_tokens s.usage_completion_tokens;
}

-- What the loop over the chunks comes to.
pub record Looped (Ledger : Type 0) : Type 0 where
  pub frames : List Frame
  pub progress : Progress
  pub ledger : Option Ledger
  pub budget_mid_stream_terminated : Bool

module _ (svc : Service) (caller : Caller) (fresh_id : String)
    (check_running : String → ℕ → svc.Ledger → Bool × svc.Ledger) where
  -- The content of a delta after redaction, and the number of redactions.
  unfoldable pub scan_content : String → String × ℕ
  scan_content content =
      let result : TextResult = redact_text svc.patterns content in
      if must_redact svc caller && ltb 0 result.redaction_count
      then (result.text, result.redaction_count)
      else (content, 0)

  unfoldable pub scan_delta : Delta → Delta
  unfolding scan_content
  scan_delta d = elim d.content [
    | none ↦ d
    | some content ↦
        if str_eq content "" then d else record d { content = some (scan_content content).0 }
  ]

  -- What one choice leaves in the local variables.
  unfoldable pub read_delta : Delta → Progress → Progress
  unfolding scan_content
  read_delta d s =
      let s1 : Progress = elim d.content [
        | none ↦ s
        | some content ↦ if str_eq content "" then s else record s {
          completion_parts = s.completion_parts ++ (scan_content content).0 ∷ [];
          output_redaction_count = s.output_redaction_count + (scan_content content).1;
        }
      ] in
      record s1 {
        saw_citations = s1.saw_citations || d.has_citations;
        saw_finish = s1.saw_finish || is_some_text d.finish_reason;
      }

  -- The loop over the choices of a chunk.
  unfoldable pub scan_deltas : List Delta → List Delta
  unfolding scan_delta
  scan_deltas [] = []
  scan_deltas (d ∷ ds) = scan_delta d ∷ scan_deltas ds

  unfoldable pub read_deltas : List Delta → Progress → Progress
  unfolding read_delta
  read_deltas [] s = s
  read_deltas (d ∷ ds) s = read_deltas ds (read_delta d s)

  -- The chunk as it is sent, and the local variables after it.
  unfoldable pub scan_chunk : Chunk → Chunk
  unfolding scan_deltas
  scan_chunk c = record c { choices = scan_deltas c.choices }

  unfoldable pub read_chunk : Chunk → Progress → Progress
  unfolding read_deltas
  read_chunk c s =
      let named : Progress = record s {
        chunk_id = if str_eq s.chunk_id "" then or_else c.id fresh_id else s.chunk_id;
        chunk_created = or_else c.created s.chunk_created;
      } in
      read_usage c (read_deltas c.choices named)

  -- `_BUDGET_CHECK_INTERVAL` chunks have gone by since the last check.
  abbrev pub is_due : ℕ → Bool
  is_due count = count % 5 == 0

  abbrev pub estimated_running : Progress → ℕ
  estimated_running s =
      s.usage_prompt_tokens
      + max s.usage_completion_tokens (word_count (join_spaced s.completion_parts))

  -- The check of the running budget: whether the stream may go on.
  unfoldable pub may_go_on : Progress → Option svc.Ledger → Bool × Option svc.Ledger
  may_go_on s none = (true, none)
  may_go_on s (some ledger) =
      let (fits, ledger') = check_running caller.tenant_id (estimated_running s) ledger in
      if is_due s.chunk_count then (fits, some ledger') else (true, some ledger)

  -- `chunk_id or f"chatcmpl-{uuid4().hex}"`
  abbrev pub frame_id : Progress → String
  frame_id s = if str_eq s.chunk_id "" then fresh_id else s.chunk_id

  -- `async for chunk in provider_stream`
  unfoldable pub stream_loop : List Chunk → Progress → Option svc.Ledger → Looped svc.Ledger
  unfolding scan_chunk read_chunk may_go_on
  stream_loop [] s ledger = record {
    frames = [];
    progress = s;
    ledger = ledger;
    budget_mid_stream_terminated = false;
  }
  stream_loop (c ∷ cs) s ledger =
      let read : Progress = read_chunk c s in
      let counted : Progress = record read { chunk_count = read.chunk_count + 1 } in
      let (go_on, ledger') = may_go_on counted ledger in
      let rest = stream_loop cs counted ledger' in
      if go_on then record rest { frames = chunk_frame (scan_chunk c) ∷ rest.frames } else record {
        frames =
            chunk_frame (scan_chunk c)
            ∷ finish_frame (frame_id counted) counted.chunk_created "length"
            ∷ done_frame
            ∷ [];
        progress = counted;
        ledger = ledger';
        budget_mid_stream_terminated = true;
      }

  -- The first chunk, that routing has read already.
  unfoldable pub first_frames : Option Chunk → List Frame
  unfolding scan_chunk
  first_frames none = []
  first_frames (some c) = chunk_frame (scan_chunk c) ∷ []

  unfoldable pub after_first : Option Chunk → Progress → Progress
  unfolding read_chunk
  after_first none s = s
  after_first (some c) s = read_chunk c s

  -- What is sent after the loop.
  unfoldable pub closing_frames : Option (List Citation) → Progress → List Frame
  closing_frames citations s =
      let cited : List Frame = elim (or_else citations []) [
        | [] ↦ []
        | c ∷ cs ↦
            if s.saw_citations
            then []
            else citations_frame (frame_id s) s.chunk_created (c ∷ cs) ∷ []
      ] in
      let stopped : List Frame =
        if s.saw_finish then [] else finish_frame (frame_id s) s.chunk_created "stop" ∷ [] in
      cited ++ stopped ++ done_frame ∷ []

  -- The frames of a stream: `raises` says that the provider's stream raises after its last chunk,
  -- which nobody notices where the budget has ended the loop before.
  unfoldable pub event_stream :
      Option (List Citation)
      → Option Chunk
      → List Chunk
      → Bool
      → Progress
      → Option svc.Ledger
      → List Frame × Looped svc.Ledger
  unfolding stream_loop closing_frames after_first first_frames
  event_stream citations first chunks raises s ledger =
      let looped = stream_loop chunks (after_first first s) ledger in
      let closing : List Frame =
        if raises && not looped.budget_mid_stream_terminated
        then []
        else closing_frames citations looped.progress in
      (first_frames first ++ looped.frames ++ closing, looped)
