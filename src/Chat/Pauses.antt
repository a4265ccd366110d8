-- ===== src/Chat/Pauses.antt =====
-- The pauses of the generator are the frames that `event_stream` sends, in their order.
use sovereign_rag_gateway.Prelude.{
  is_some, ◌+◌, ◌≡◌, refl, ap, ap₂, ◌∙◌, String, Bool, true, false, not, ◌&&◌, Option, none, some,
  List, [], ◌∷◌, ◌++◌, map, if◌then◌else◌, Bool-cases, inl, inr,
}
use mathlib.Core.List.{map-append}
use sovereign_rag_gateway.Models.{Chunk}
use sovereign_rag_gateway.Chat.Service.{Service, Caller}
use sovereign_rag_gateway.Chat.OpenStream.{Started}
use sovereign_rag_gateway.Chat.Stream.{
  Frame, chunk_frame, scan_chunk, Progress, Looped, first_frames, after_first, closing_frames,
  stream_loop, event_stream, read_chunk, may_go_on,
}
use sovereign_rag_gateway.Chat.StreamEnd.{
  Pause, initial_progress, fresh_id, pause_at, loop_pauses, looped_of, closing_of, pauses,
}

module _ (svc : Service) where
  abbrev frames_of : List (Pause svc.Ledger) → List Frame
  frames_of ps = map (λ p. p.frame) ps

  frames_of-pause_at :
      (l : Looped svc.Ledger) (fs : List Frame) → frames_of (map (pause_at svc l) fs) ≡ fs
  frames_of-pause_at l [] = refl
  frames_of-pause_at l (f ∷ fs) = ap (λ gs. f ∷ gs) (frames_of-pause_at l fs)

  frames_of-loop_pauses :
      (caller : Caller) (cs : List Chunk) (s : Progress) (ledger : Option svc.Ledger)
      → frames_of (loop_pauses svc caller cs s ledger)
        ≡ (stream_loop svc caller (fresh_id svc) svc.check_running cs s ledger).frames
  unfolding loop_pauses stream_loop
  frames_of-loop_pauses caller [] s ledger = refl
  frames_of-loop_pauses caller (c ∷ cs) s ledger =
      let read : Progress = read_chunk svc caller (fresh_id svc) svc.check_running c s in
      let counted : Progress = record read { chunk_count = read.chunk_count + 1 } in
      let next = may_go_on svc caller (fresh_id svc) svc.check_running counted ledger in
      elim (Bool-cases next.0) [
        | inl y ↦ simp y (
            ap (λ fs. chunk_frame (scan_chunk svc caller (fresh_id svc) svc.check_running c) ∷ fs)
              (frames_of-loop_pauses caller cs counted next.1))
        | inr n ↦ simp n refl
      ]

  closing_if :
      (b : Bool) (raises : Option String) (fs : List Frame)
      → (if is_some (if b then none else raises) then [] else fs)
        ≡ (if is_some raises && not b then [] else fs)
  closing_if true none fs = refl
  closing_if true (some e) fs = refl
  closing_if false none fs = refl
  closing_if false (some e) fs = refl

  -- A reader that stops at the pauses one after the other sees the frames of the stream, no more and no
  -- fewer, and the stream ends there: what is left of the provider's stream closes it or breaks it off.
  pub frames_of-pauses :
      (caller : Caller) (t : Started svc) (ledger : Option svc.Ledger)
      → let opened = t.answer.result in
        map (λ p. p.frame) (pauses svc caller t ledger)
        ≡ (event_stream svc caller
            (fresh_id svc)
            svc.check_running
            t.prepared.citations
            opened.first_chunk
            opened.stream.chunks
            (is_some opened.stream.raises)
            (initial_progress svc t.prepared)
            ledger).0
  unfolding pauses event_stream
  frames_of-pauses caller t ledger =
      let opened = t.answer.result in
      let id = fresh_id svc in
      let run = svc.check_running in
      let s = after_first svc caller id run opened.first_chunk (initial_progress svc t.prepared) in
      let looped = looped_of svc caller t ledger in
      let heads = first_frames svc caller id run opened.first_chunk in
      let closing = closing_frames svc caller id run t.prepared.citations looped.progress in
      let first : Looped svc.Ledger = record {
        frames = [];
        progress = s;
        ledger = ledger;
        budget_mid_stream_terminated = false;
      } in
      let loop = loop_pauses svc caller opened.stream.chunks s ledger in
      let before = map (pause_at svc first) heads in
      map-append (λ p. p.frame) (before ++ loop)
        (map (pause_at svc looped) (closing_of svc caller t looped))
      ∙ ap₂ ◌++◌
          (map-append (λ p. p.frame) before loop
            ∙ ap₂ ◌++◌ (frames_of-pause_at first heads)
                (frames_of-loop_pauses caller opened.stream.chunks s ledger))
          (frames_of-pause_at looped (closing_of svc caller t looped)
            ∙ closing_if looped.budget_mid_stream_terminated opened.stream.raises closing)
