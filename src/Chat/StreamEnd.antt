-- ===== src/Chat/StreamEnd.antt =====
-- The generator of `handle_chat_stream` as its reader sees it: it stops at each frame that it yields,
-- where the reader may close it, and its `finally` block settles the request.
use Prim.Native.String.{◌++◌ as str_append}
use sovereign_rag_gateway.Prelude.{
  is_some, ℕ, zero, suc, ◌+◌, max, String, Bool, true, false, Option, none, some, List, [], ◌∷◌,
  ◌++◌, if◌then◌else◌, map, sum_of,
}
use sovereign_rag_gateway.Prelude.Text.{word_count}
use sovereign_rag_gateway.Models.{Chunk}
use sovereign_rag_gateway.Chat.Service.{Service, Caller}
use sovereign_rag_gateway.Chat.Prepare.{Prepared}
use sovereign_rag_gateway.Chat.OpenStream.{Started}
use sovereign_rag_gateway.Chat.Stream.{
  Frame, chunk_frame, finish_frame, done_frame, Progress, Looped, scan_chunk, read_chunk, may_go_on,
  frame_id, first_frames, after_first, closing_frames, stream_loop,
}

-- The generator where it waits at a `yield`.
pub record Pause (Ledger : Type 0) : Type 0 where
  pub frame : Frame
  pub progress : Progress
  pub ledger : Option Ledger
  pub budget_mid_stream_terminated : Bool

-- The reader asks for frames to the end, or asks for so many and then closes the generator, or is
-- cancelled there; with the class of the exception that the generator gets.
pub data Reader : Type 0 where
  reads_to_end : Reader
  stops_after : (frames : ℕ) → (error : String) → Reader

-- The local variables as the `finally` block finds them. `stream_error` is the class of the exception.
pub record Ended (Ledger : Type 0) : Type 0 where
  pub progress : Progress
  pub ledger : Option Ledger
  pub budget_mid_stream_terminated : Bool
  pub stream_error : Option String

-- `"".join(parts)`
abbrev pub join : List String → String
join [] = ""
join (p ∷ ps) = str_append p (join ps)

abbrev pub nth {ℓ} : {A : Type ℓ} → ℕ → List A → Option A
nth n [] = none
nth zero (x ∷ xs) = some x
nth (suc n) (x ∷ xs) = nth n xs

module _ (svc : Service) where
  open svc use {hash, write_event, uuid, timestamp, settings}

  -- The local variables when the generator starts.
  unfoldable pub initial_progress : Prepared → Progress
  initial_progress p = record {
    completion_parts = [];
    usage_prompt_tokens = max (sum_of (λ m. word_count m.content) p.request.messages) 1;
    usage_completion_tokens = 0;
    output_redaction_count = 0;
    saw_finish = false;
    saw_citations = false;
    chunk_id = "";
    chunk_created = timestamp;
    chunk_count = 0;
  }

  abbrev pub fresh_id : String
  fresh_id = str_append "chatcmpl-" uuid

  abbrev pub pause_at : Looped svc.Ledger → Frame → Pause svc.Ledger
  pause_at l frame = record {
    frame = frame;
    progress = l.progress;
    ledger = l.ledger;
    budget_mid_stream_terminated = l.budget_mid_stream_terminated;
  }

  -- The pauses of the loop over the chunks.
  unfoldable pub loop_pauses :
      Caller → List Chunk → Progress → Option svc.Ledger → List (Pause svc.Ledger)
  unfolding scan_chunk read_chunk may_go_on
  loop_pauses caller [] s ledger = []
  loop_pauses caller (c ∷ cs) s ledger =
      let read : Progress = read_chunk svc caller fresh_id svc.check_running c s in
      let counted : Progress = record read { chunk_count = read.chunk_count + 1 } in
      let (go_on, ledger') = may_go_on svc caller fresh_id svc.check_running counted ledger in
      let id : String = frame_id svc caller fresh_id svc.check_running counted in
      let rest = loop_pauses caller cs counted ledger' in
      let cut : Looped svc.Ledger = record {
        frames = [];
        progress = counted;
        ledger = ledger';
        budget_mid_stream_terminated = true;
      } in
      record {
        frame = chunk_frame (scan_chunk svc caller fresh_id svc.check_running c);
        progress = read;
        ledger = ledger;
        budget_mid_stream_terminated = false;
      }
      ∷ (if go_on
          then rest
          else pause_at cut (finish_frame id counted.chunk_created "length")
            ∷ pause_at cut done_frame
            ∷ [])

  -- How the loop comes out, and whether the provider breaks it off.
  abbrev pub looped_of : Caller → Started svc → Option svc.Ledger → Looped svc.Ledger
  looped_of caller t ledger =
      let opened = t.answer.result in
      let start = initial_progress t.prepared in
      stream_loop svc caller fresh_id svc.check_running opened.stream.chunks
        (after_first svc caller fresh_id svc.check_running opened.first_chunk start) ledger

  abbrev pub broken_off : Started svc → Looped svc.Ledger → Option String
  broken_off t l = if l.budget_mid_stream_terminated then none else t.answer.result.stream.raises

  abbrev pub closing_of : Caller → Started svc → Looped svc.Ledger → List Frame
  closing_of caller t l =
      if is_some (broken_off t l)
      then []
      else closing_frames svc caller fresh_id svc.check_running t.prepared.citations l.progress

  -- Every pause of the generator, in order.
  unfoldable pub pauses : Caller → Started svc → Option svc.Ledger → List (Pause svc.Ledger)
  unfolding loop_pauses stream_loop closing_frames after_first first_frames initial_progress
  pauses caller t ledger =
      let opened = t.answer.result in
      let s : Progress =
        after_first svc caller fresh_id svc.check_running opened.first_chunk
          (initial_progress t.prepared) in
      let looped : Looped svc.Ledger = looped_of caller t ledger in
      let first : Looped svc.Ledger = record {
        frames = [];
        progress = s;
        ledger = ledger;
        budget_mid_stream_terminated = false;
      } in
      map (pause_at first) (first_frames svc caller fresh_id svc.check_running opened.first_chunk)
      ++ loop_pauses caller opened.stream.chunks s ledger
      ++ map (pause_at looped) (closing_of caller t looped)

  -- The generator has run to its end, or the provider's exception has ended it.
  abbrev pub ran_out : Caller → Started svc → Option svc.Ledger → Ended svc.Ledger
  ran_out caller t ledger =
      let looped : Looped svc.Ledger = looped_of caller t ledger in
      record {
        progress = looped.progress;
        ledger = looped.ledger;
        budget_mid_stream_terminated = looped.budget_mid_stream_terminated;
        stream_error = broken_off t looped;
      }

  abbrev pub closed_at : String → Pause svc.Ledger → Ended svc.Ledger
  closed_at error p = record {
    progress = p.progress;
    ledger = p.ledger;
    budget_mid_stream_terminated = p.budget_mid_stream_terminated;
    stream_error = some error;
  }

  -- Where the reader leaves the generator; none if it has never been started.
  unfoldable pub ended :
      Caller → Started svc → Reader → Option svc.Ledger → Option (Ended svc.Ledger)
  ended caller t reads_to_end ledger = some (ran_out caller t ledger)
  ended caller t (stops_after zero error) ledger = none
  ended caller t (stops_after (suc n) error) ledger = elim (nth n (pauses caller t ledger)) [
    | none ↦ some (ran_out caller t ledger)
    | some p ↦ some (closed_at error p)
  ]
