-- ===== src/Chat/Frames.antt =====
-- The frames of a stream: what is sent of each chunk, and how the stream ends.
use sovereign_rag_gateway.Prelude.{
  append-nil, ℕ, suc, ◌+◌, ◌≡◌, refl, ap, ap₂, ◌∙◌, String, Bool, true, false, Option, none, some,
  List, [], ◌∷◌, ◌++◌, not, ◌&&◌, arith, length, map, take, if◌then◌else◌, Bool-cases, inl, inr,
}
use sovereign_rag_gateway.Models.{Citation, Chunk}
use sovereign_rag_gateway.Chat.Service.{Service, Caller}
use sovereign_rag_gateway.Chat.Stream.{
  Frame, chunk_frame, citations_frame, frame_id, finish_frame, done_frame, Progress, scan_chunk,
  read_chunk, may_go_on, stream_loop, first_frames, after_first, closing_frames, event_stream,
}

-- How often the frame that closes a stream is sent, and the chunks that are.
abbrev pub dones : List Frame → ℕ
dones [] = 0
dones (done_frame ∷ fs) = dones fs + 1
dones (_ ∷ fs) = dones fs

abbrev pub chunks_of : List Frame → List Chunk
chunks_of [] = []
chunks_of (chunk_frame c ∷ fs) = c ∷ chunks_of fs
chunks_of (_ ∷ fs) = chunks_of fs

dones-append : (fs gs : List Frame) → dones (fs ++ gs) ≡ dones fs + dones gs
dones-append [] gs = omega arith
dones-append (chunk_frame c ∷ fs) gs = dones-append fs gs
dones-append (citations_frame i t cs ∷ fs) gs = dones-append fs gs
dones-append (finish_frame i t r ∷ fs) gs = dones-append fs gs
dones-append (done_frame ∷ fs) gs = omega (arith, dones-append fs gs)

chunks_of-append : (fs gs : List Frame) → chunks_of (fs ++ gs) ≡ chunks_of fs ++ chunks_of gs
chunks_of-append [] gs = refl
chunks_of-append (chunk_frame c ∷ fs) gs = ap (λ cs. c ∷ cs) (chunks_of-append fs gs)
chunks_of-append (citations_frame i t cs ∷ fs) gs = chunks_of-append fs gs
chunks_of-append (finish_frame i t r ∷ fs) gs = chunks_of-append fs gs
chunks_of-append (done_frame ∷ fs) gs = chunks_of-append fs gs

count_dones :
    (raises b : Bool) (f l c : ℕ)
    → f ≡ 0
    → l ≡ (if b then 1 else 0)
    → c ≡ 1
    → f + l + (if raises && not b then 0 else c) ≡ (if b then 2 else if raises then 0 else 1)
count_dones raises b f l c hf hl hc = ground arith

dones-if : (b : Bool) (fs : List Frame) → dones (if b then [] else fs) ≡ (if b then 0 else dones fs)
dones-if true fs = refl
dones-if false fs = refl

chunks_of-if :
    (b : Bool) (fs : List Frame) → chunks_of fs ≡ [] → chunks_of (if b then [] else fs) ≡ []
chunks_of-if true fs h = refl
chunks_of-if false fs h = h

module _ (svc : Service) (caller : Caller) (fresh_id : String)
    (check_running : String → ℕ → svc.Ledger → Bool × svc.Ledger) where
  dones-loop :
      (cs : List Chunk) (s : Progress) (ledger : Option svc.Ledger)
      → let looped = stream_loop svc caller fresh_id check_running cs s ledger in
        dones looped.frames ≡ (if looped.budget_mid_stream_terminated then 1 else 0)
  unfolding stream_loop
  dones-loop [] s ledger = refl
  dones-loop (c ∷ cs) s ledger =
      let read = read_chunk svc caller fresh_id check_running c s in
      let counted = record read { chunk_count = read.chunk_count + 1 } in
      elim (Bool-cases (may_go_on svc caller fresh_id check_running counted ledger).0) [
        | inl y ↦
            simp y
              (dones-loop cs counted (may_go_on svc caller fresh_id check_running counted ledger).1)
        | inr n ↦ simp n refl
      ]

  stopped :
      (s : Progress)
      → let fs : List Frame =
          (if s.saw_finish
            then []
            else finish_frame (frame_id svc caller fresh_id check_running s) s.chunk_created "stop"
              ∷ [])
          ++ done_frame ∷ [] in
        (dones fs ≡ 1) × (chunks_of fs ≡ [])
  stopped s = elim (Bool-cases s.saw_finish) [
    | inl y ↦ simp y (omega arith, refl)
    | inr n ↦ simp n (omega arith, refl)
  ]

  dones-closing :
      (citations : Option (List Citation)) (s : Progress)
      → (dones (closing_frames svc caller fresh_id check_running citations s) ≡ 1)
        × (chunks_of (closing_frames svc caller fresh_id check_running citations s) ≡ [])
  unfolding closing_frames
  dones-closing none s = stopped s
  dones-closing (some []) s = stopped s
  dones-closing (some (c ∷ cs)) s = elim (Bool-cases s.saw_citations) [
    | inl y ↦ simp y (stopped s)
    | inr n ↦ simp n (stopped s)
  ]

  dones-first :
      (first : Option Chunk) → dones (first_frames svc caller fresh_id check_running first) ≡ 0
  unfolding first_frames
  dones-first none = refl
  dones-first (some c) = refl

  -- A stream that the budget ends sends the frame that closes a stream twice, one that is read to its
  -- end sends it once, and one that the provider breaks off does not send it.
  pub event_stream-dones :
      (citations : Option (List Citation)) (first : Option Chunk) (cs : List Chunk) (raises : Bool)
      (s : Progress) (ledger : Option svc.Ledger)
      → let (frames, looped) =
          event_stream svc caller fresh_id check_running citations first cs raises s ledger in
        dones frames ≡ (if looped.budget_mid_stream_terminated then 2 else if raises then 0 else 1)
  unfolding event_stream
  event_stream-dones citations first cs raises s ledger =
      let t = after_first svc caller fresh_id check_running first s in
      let looped = stream_loop svc caller fresh_id check_running cs t ledger in
      let fs = first_frames svc caller fresh_id check_running first in
      let closing = closing_frames svc caller fresh_id check_running citations looped.progress in
      let cut : Bool = raises && not looped.budget_mid_stream_terminated in
      dones-append (fs ++ looped.frames) (if cut then [] else closing)
      ∙ ap₂ ◌+◌ (dones-append fs looped.frames) (dones-if cut closing)
      ∙ count_dones raises looped.budget_mid_stream_terminated (dones fs) (dones looped.frames)
          (dones closing) (dones-first first) (dones-loop cs t ledger)
          (dones-closing citations looped.progress).0

  -- The chunks that the loop sends.
  chunks-loop :
      (cs : List Chunk) (s : Progress) (ledger : Option svc.Ledger)
      → let looped = stream_loop svc caller fresh_id check_running cs s ledger in
        (n : ℕ) × (chunks_of looped.frames
          ≡ take n (map (scan_chunk svc caller fresh_id check_running) cs))
        × (looped.budget_mid_stream_terminated ≡ false → n ≡ length cs)
  unfolding stream_loop
  chunks-loop [] s ledger = (0, refl, λ h. refl)
  chunks-loop (c ∷ cs) s ledger =
      let read = read_chunk svc caller fresh_id check_running c s in
      let counted = record read { chunk_count = read.chunk_count + 1 } in
      let go_on = may_go_on svc caller fresh_id check_running counted ledger in
      let sent = scan_chunk svc caller fresh_id check_running c in
      elim (Bool-cases go_on.0) [
        | inl y ↦ simp y (
            let (n, e, whole) = chunks-loop cs counted go_on.1 in
            (suc n, ap (λ l. sent ∷ l) e, λ h. ap suc (whole h)))
        | inr n ↦ simp n (1, refl, λ h. absurd (ground arith))
      ]

  with_first :
      (first : Option Chunk) (cs looped : List Chunk) (b : Bool) (all : List Chunk)
      → all ≡ chunks_of (first_frames svc caller fresh_id check_running first) ++ looped
      → (n : ℕ) × (looped ≡ take n (map (scan_chunk svc caller fresh_id check_running) cs))
        × (b ≡ false → n ≡ length cs)
      → let given : List Chunk = elim first [ none ↦ cs | some c ↦ c ∷ cs ] in
        (n : ℕ) × (all ≡ take n (map (scan_chunk svc caller fresh_id check_running) given))
        × (b ≡ false → n ≡ length given)
  unfolding first_frames
  with_first none cs looped b all h (n, e, whole) = (n, h ∙ e, whole)
  with_first (some c) cs looped b all h (n, e, whole) = (
    suc n,
    h ∙ ap (λ l. scan_chunk svc caller fresh_id check_running c ∷ l) e,
    λ k. ap suc (whole k),
  )

  -- The chunks that a stream sends are those of the provider, in their order and each scanned, the
  -- first one included: all of them, unless the budget ends the stream before.
  pub event_stream-chunks :
      (citations : Option (List Citation)) (first : Option Chunk) (cs : List Chunk) (raises : Bool)
      (s : Progress) (ledger : Option svc.Ledger)
      → let (frames, looped) =
          event_stream svc caller fresh_id check_running citations first cs raises s ledger in
        let given : List Chunk = elim first [ none ↦ cs | some c ↦ c ∷ cs ] in
        (n : ℕ) × (chunks_of frames
          ≡ take n (map (scan_chunk svc caller fresh_id check_running) given))
        × (looped.budget_mid_stream_terminated ≡ false → n ≡ length given)
  unfolding event_stream
  event_stream-chunks citations first cs raises s ledger =
      let t = after_first svc caller fresh_id check_running first s in
      let looped = stream_loop svc caller fresh_id check_running cs t ledger in
      let fs = first_frames svc caller fresh_id check_running first in
      let closing = closing_frames svc caller fresh_id check_running citations looped.progress in
      let cut : Bool = raises && not looped.budget_mid_stream_terminated in
      let sent : chunks_of (fs ++ looped.frames ++ (if cut then [] else closing))
          ≡ chunks_of fs ++ chunks_of looped.frames =
        chunks_of-append (fs ++ looped.frames) (if cut then [] else closing)
        ∙ ap₂ ◌++◌ (chunks_of-append fs looped.frames)
            (chunks_of-if cut closing (dones-closing citations looped.progress).1)
        ∙ append-nil (chunks_of fs ++ chunks_of looped.frames) in
      with_first first cs (chunks_of looped.frames) looped.budget_mid_stream_terminated _ sent
        (chunks-loop cs t ledger)
