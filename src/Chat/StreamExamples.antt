-- ===== src/Chat/StreamExamples.antt =====
-- Streams of six chunks, the first one read by routing: one that the running budget ends after the
-- fifth chunk of the loop, and a shorter one that goes on to its end.
use sovereign_rag_gateway.Prelude.{
  ℕ, ◌≡◌, refl, String, Bool, true, false, none, some, List, [], ◌∷◌, length, map, take,
  if◌then◌else◌,
}
use sovereign_rag_gateway.Prelude.Dict.{get}
use sovereign_rag_gateway.Prelude.Text.{word_count}
use sovereign_rag_gateway.Redaction.{redact_text, redact_loop}
use sovereign_rag_gateway.Prelude.Int.{pos}
use sovereign_rag_gateway.Budget.{Tracker, check_running}
use sovereign_rag_gateway.Budget.Window.{fresh}
use sovereign_rag_gateway.Chat.Examples.{service, caller}
use sovereign_rag_gateway.Models.{Chunk}
use sovereign_rag_gateway.Chat.Stream.{Frame, Looped, Progress, scan_chunk, event_stream}
use sovereign_rag_gateway.Chat.Frames.{dones, chunks_of, event_stream-dones, event_stream-chunks}

abbrev chunk : String → Chunk
chunk content = record {
  id = some "c1";
  created = some (pos 1);
  choices = record { content = some content; has_citations = false; finish_reason = none } ∷ [];
  prompt_tokens = none;
  completion_tokens = none;
}

abbrev before : Progress
before = record {
  completion_parts = [];
  usage_prompt_tokens = 6;
  usage_completion_tokens = 0;
  output_redaction_count = 0;
  saw_finish = false;
  saw_citations = false;
  chunk_id = "";
  chunk_created = pos 0;
  chunk_count = 0;
}

abbrev chunks : List Chunk
chunks =
    chunk "MRN 123456" ∷ chunk "b" ∷ chunk "c" ∷ chunk "d" ∷ chunk "e" ∷ chunk "f" ∷ chunk "g" ∷ []

abbrev running : String → ℕ → Tracker → Bool × Tracker
running tenant n t = check_running 0 tenant n t

abbrev streamed : List Frame × Looped Tracker
streamed =
    event_stream service caller "fresh" running none (some (chunk "a")) chunks false before
      (some (fresh 8 60 []))

-- Five chunks after the first, with six tokens of the prompt, are more than eight tokens.
ended_by_budget : streamed.1.budget_mid_stream_terminated ≡ true
unfolding event_stream check_running get word_count redact_text redact_loop
ended_by_budget = refl

event_stream-dones_example :
    dones streamed.0
    ≡ (if streamed.1.budget_mid_stream_terminated then 2 else if false then 0 else 1)
event_stream-dones_example =
    event_stream-dones service caller "fresh" running none (some (chunk "a")) chunks false before
      (some (fresh 8 60 []))

event_stream-chunks_example :
    (n : ℕ) × (chunks_of streamed.0
      ≡ take n (map (scan_chunk service caller "fresh" running) (chunk "a" ∷ chunks)))
    × (streamed.1.budget_mid_stream_terminated ≡ false → n ≡ length (chunk "a" ∷ chunks))
event_stream-chunks_example =
    event_stream-chunks service caller "fresh" running none (some (chunk "a")) chunks false before
      (some (fresh 8 60 []))
