-- ===== src/Chat/StreamRead.antt =====
-- What the generator of a streamed answer has read of the provider's chunks, wherever it ends: the usage
-- that they report, and the texts that were sent.
use mathlib.Core.Option.{some-injective}
use sovereign_rag_gateway.Prelude.{
  is_some, ℕ, zero, suc, ◌+◌, ◌≡◌, refl, ap, sym, ◌∙◌, String, Bool, true, false, ◌&&◌, ltb, Option,
  none, some, List, [], ◌∷◌, ◌++◌, append-nil, append_assoc, map, str_eq, if◌then◌else◌, ◌⊎◌, inl,
  inr, Bool-cases, Option-cases, All, arith, All-append, All-map, subst,
}
use sovereign_rag_gateway.Models.{Delta, Chunk}
use sovereign_rag_gateway.Redaction.{redact_text}
use sovereign_rag_gateway.Chat.Service.{Service, Caller}
use sovereign_rag_gateway.Chat.Prepare.{must_redact}
use sovereign_rag_gateway.Chat.OpenStream.{Started}
use sovereign_rag_gateway.Chat.Stream.{
  Frame, Progress, Looped, or_else, scan_content, read_delta, read_deltas, read_chunk, may_go_on,
  stream_loop, after_first, first_frames,
}
use sovereign_rag_gateway.Chat.StreamEnd.{
  Pause, Reader, reads_to_end, stops_after, Ended, nth, ran_out, closed_at, initial_progress,
  fresh_id, pause_at, loop_pauses, looped_of, closing_of, pauses, ended,
}

-- The last number that is reported, or the one from before.
abbrev pub last_of : ℕ → List (Option ℕ) → ℕ
last_of n [] = n
last_of n (none ∷ os) = last_of n os
last_of n (some m ∷ os) = last_of m os

or_else-last_of : (o : Option ℕ) (n m : ℕ) → n ≡ m → or_else o n ≡ last_of m (o ∷ [])
or_else-last_of none n m e = e
or_else-last_of (some k) n m e = refl

last_of-cons :
    (o : Option ℕ) (os : List (Option ℕ)) (n : ℕ)
    → last_of (last_of n (o ∷ [])) os ≡ last_of n (o ∷ os)
last_of-cons none os n = refl
last_of-cons (some k) os n = refl

module _ (svc : Service) (caller : Caller) where
  -- A content as it is sent: redacted where the caller's classification asks for it.
  abbrev pub sent_text : String → String
  sent_text content =
      if must_redact svc caller && ltb 0 (redact_text svc.patterns content).redaction_count
      then (redact_text svc.patterns content).text
      else content

  abbrev pub sent_content : Option String → List String
  sent_content none = []
  sent_content (some content) = if str_eq content "" then [] else sent_text content ∷ []

  abbrev pub sent_deltas : List Delta → List String
  sent_deltas [] = []
  sent_deltas (d ∷ ds) = sent_content d.content ++ sent_deltas ds

  abbrev pub sent_texts : List Chunk → List String
  sent_texts [] = []
  sent_texts (c ∷ cs) = sent_deltas c.choices ++ sent_texts cs

  -- The local variables after some chunks, as far as tokens and texts go.
  pub record Reads (read : List Chunk) (start end : Progress) : Type 0 where
    pub prompt :
        end.usage_prompt_tokens
        ≡ last_of start.usage_prompt_tokens (map (λ c. c.prompt_tokens) read)
    pub completion :
        end.usage_completion_tokens
        ≡ last_of start.usage_completion_tokens (map (λ c. c.completion_tokens) read)
    pub parts : end.completion_parts ≡ start.completion_parts ++ sent_texts read

  abbrev id : String
  id = fresh_id svc

  read_delta-keeps :
      (d : Delta) (s : Progress)
      → let e = read_delta svc caller id svc.check_running d s in
        (e.usage_prompt_tokens ≡ s.usage_prompt_tokens)
        × (e.usage_completion_tokens ≡ s.usage_completion_tokens)
        × (e.completion_parts ≡ s.completion_parts ++ sent_content d.content)
  unfolding read_delta scan_content
  read_delta-keeps d s = elim (Option-cases d.content) [
    | inl o ↦ rw (o, read_delta) (refl, refl, sym (append-nil s.completion_parts))
    | inr (content, e) ↦ elim (Bool-cases (str_eq content "")) [
      | inl y ↦ rw (e, read_delta) (simp y (refl, refl, sym (append-nil s.completion_parts)))
      | inr n ↦
          elim (Bool-cases
            (must_redact svc caller && ltb 0 (redact_text svc.patterns content).redaction_count)) [
              | inl r ↦ rw (e, read_delta) (simp (n, r) (refl, refl, refl))
              | inr r ↦ rw (e, read_delta) (simp (n, r) (refl, refl, refl))
            ]
    ]
  ]

  read_deltas-keeps :
      (ds : List Delta) (s : Progress)
      → let e = read_deltas svc caller id svc.check_running ds s in
        (e.usage_prompt_tokens ≡ s.usage_prompt_tokens)
        × (e.usage_completion_tokens ≡ s.usage_completion_tokens)
        × (e.completion_parts ≡ s.completion_parts ++ sent_deltas ds)
  unfolding read_deltas
  read_deltas-keeps [] s = (refl, refl, sym (append-nil s.completion_parts))
  read_deltas-keeps (d ∷ ds) s =
      let one = read_delta-keeps d s in
      let more = read_deltas-keeps ds (read_delta svc caller id svc.check_running d s) in
      (
        more.0 ∙ one.0,
        more.1 ∙ one.1,
        more.2
            ∙ ap (λ ps. ps ++ sent_deltas ds) one.2
            ∙ append_assoc s.completion_parts (sent_content d.content) (sent_deltas ds),
      )

  read_chunk-Reads :
      (c : Chunk) (s : Progress) → Reads (c ∷ []) s (read_chunk svc caller id svc.check_running c s)
  unfolding read_chunk
  read_chunk-Reads c s =
      let named : Progress = record s {
        chunk_id = if str_eq s.chunk_id "" then or_else c.id id else s.chunk_id;
        chunk_created = or_else c.created s.chunk_created;
      } in
      let kept = read_deltas-keeps c.choices named in
      record {
        prompt = or_else-last_of c.prompt_tokens _ s.usage_prompt_tokens kept.0;
        completion = or_else-last_of c.completion_tokens _ s.usage_completion_tokens kept.1;
        parts =
            kept.2 ∙ ap (λ ps. s.completion_parts ++ ps) (sym (append-nil (sent_deltas c.choices)));
      }

  Reads-cons :
      (c : Chunk) (cs : List Chunk) (s m e : Progress)
      → Reads (c ∷ []) s m
      → Reads cs m e
      → Reads (c ∷ cs) s e
  Reads-cons c cs s m e h k = record {
    prompt =
        k.prompt
        ∙ ap (λ n. last_of n (map (λ c. c.prompt_tokens) cs)) h.prompt
        ∙ last_of-cons c.prompt_tokens (map (λ c. c.prompt_tokens) cs) s.usage_prompt_tokens;
    completion =
        k.completion
        ∙ ap (λ n. last_of n (map (λ c. c.completion_tokens) cs)) h.completion
        ∙ last_of-cons c.completion_tokens (map (λ c. c.completion_tokens) cs)
            s.usage_completion_tokens;
    parts =
        k.parts
        ∙ ap (λ ps. ps ++ sent_texts cs)
            (h.parts ∙ ap (λ ps. s.completion_parts ++ ps) (append-nil (sent_deltas c.choices)))
        ∙ append_assoc s.completion_parts (sent_deltas c.choices) (sent_texts cs);
  }

  Reads-none : (s : Progress) → Reads [] s s
  Reads-none s = record {
    prompt = refl;
    completion = refl;
    parts = sym (append-nil s.completion_parts);
  }

  -- Of the chunks all have been read but the rest.
  abbrev pub ReadTo : List Chunk → List Chunk → Progress → Progress → Type 0
  ReadTo cs rest start end = (read : List Chunk) × (cs ≡ read ++ rest) × Reads read start end

  ReadTo-cons :
      (c : Chunk) (cs rest : List Chunk) (s m e : Progress)
      → Reads (c ∷ []) s m
      → ReadTo cs rest m e
      → ReadTo (c ∷ cs) rest s e
  ReadTo-cons c cs rest s m e h (read, split, k) =
      (c ∷ read, ap (λ xs. c ∷ xs) split, Reads-cons c read s m e h k)

  abbrev count_chunk : Progress → Progress
  count_chunk s = record s { chunk_count = s.chunk_count + 1 }

  counted-Reads :
      (c : Chunk) (s : Progress)
      → Reads (c ∷ []) s (count_chunk (read_chunk svc caller id svc.check_running c s))
  counted-Reads c s =
      let h = read_chunk-Reads c s in
      record { prompt = h.prompt; completion = h.completion; parts = h.parts }

  -- How much the loop over the chunks reads: all, or the budget ends it.
  abbrev LoopReads : List Chunk → Progress → Looped svc.Ledger → Type 0
  LoopReads cs s l =
      (rest : List Chunk) × ReadTo cs rest s l.progress
      × ((rest ≡ []) ⊎ (l.budget_mid_stream_terminated ≡ true))

  LoopReads-if :
      (b : Bool) (cs : List Chunk) (s : Progress) (l m : Looped svc.Ledger)
      → LoopReads cs s l
      → LoopReads cs s m
      → LoopReads cs s (if b then l else m)
  LoopReads-if true cs s l m h k = h
  LoopReads-if false cs s l m h k = k

  stream_loop-Reads :
      (cs : List Chunk) (s : Progress) (ledger : Option svc.Ledger)
      → LoopReads cs s (stream_loop svc caller id svc.check_running cs s ledger)
  unfolding stream_loop
  stream_loop-Reads [] s ledger = ([], ([], refl, Reads-none s), inl refl)
  stream_loop-Reads (c ∷ cs) s ledger =
      let counted : Progress = count_chunk (read_chunk svc caller id svc.check_running c s) in
      let h = counted-Reads c s in
      let next = may_go_on svc caller id svc.check_running counted ledger in
      let (rest, some_read, why) = stream_loop-Reads cs counted next.1 in
      LoopReads-if next.0 (c ∷ cs) s _ _ (rest, ReadTo-cons c cs rest s counted _ h some_read, why)
        (cs, (c ∷ [], refl, h), inr refl)

  abbrev PauseReads : List Chunk → Progress → Pause svc.Ledger → Type 0
  PauseReads cs s p = (rest : List Chunk) × ReadTo cs rest s p.progress

  All-if :
      (b : Bool) (P : Pause svc.Ledger → Type 0) (xs ys : List (Pause svc.Ledger))
      → All P xs
      → All P ys
      → All P (if b then xs else ys)
  All-if true P xs ys h k = h
  All-if false P xs ys h k = k

  loop_pauses-Reads :
      (cs : List Chunk) (s : Progress) (ledger : Option svc.Ledger)
      → All (PauseReads cs s) (loop_pauses svc caller cs s ledger)
  unfolding loop_pauses
  loop_pauses-Reads [] s ledger = tt
  loop_pauses-Reads (c ∷ cs) s ledger =
      let counted : Progress = count_chunk (read_chunk svc caller id svc.check_running c s) in
      let h = counted-Reads c s in
      let here : (rest : List Chunk) × ReadTo (c ∷ cs) rest s counted = (cs, (c ∷ [], refl, h)) in
      let next = may_go_on svc caller id svc.check_running counted ledger in
      (
        (cs, (c ∷ [], refl, read_chunk-Reads c s)),
        All-if next.0 (PauseReads (c ∷ cs) s) _ _
            (All-map (PauseReads cs counted) (PauseReads (c ∷ cs) s)
              (λ p (rest, k). (rest, ReadTo-cons c cs rest s counted p.progress h k))
              (loop_pauses svc caller cs counted next.1) (loop_pauses-Reads cs counted next.1))
            (here, (here, tt)),
      )

  -- The provider's chunks, with the one that routing has read already.
  abbrev pub all_chunks : Started svc → List Chunk
  all_chunks t =
      elim t.answer.result.first_chunk [ none ↦ [] | some c ↦ c ∷ [] ]
      ++ t.answer.result.stream.chunks

  from_first :
      (first : Option Chunk) (cs rest : List Chunk) (s e : Progress)
      → ReadTo cs rest (after_first svc caller id svc.check_running first s) e
      → ReadTo (elim first [ none ↦ [] | some c ↦ c ∷ [] ] ++ cs) rest s e
  unfolding after_first
  from_first none cs rest s e h = h
  from_first (some c) cs rest s e h =
      ReadTo-cons c cs rest s (read_chunk svc caller id svc.check_running c s) e
        (read_chunk-Reads c s) h

  All-pause_at :
      (P : Pause svc.Ledger → Type 0) (l : Looped svc.Ledger) (fs : List Frame)
      → ((f : Frame) → P (pause_at svc l f))
      → All P (map (pause_at svc l) fs)
  All-pause_at P l [] h = tt
  All-pause_at P l (f ∷ fs) h = (h f, All-pause_at P l fs h)

  nth-All :
      (P : Pause svc.Ledger → Type 0) (n : ℕ) (ps : List (Pause svc.Ledger)) (p : Pause svc.Ledger)
      → All P ps
      → nth n ps ≡ some p
      → P p
  nth-All P n [] p all h = absurd (ground arith)
  nth-All P zero (q ∷ ps) p all h = subst P (some-injective _ _ h) all.0
  nth-All P (suc n) (q ∷ ps) p all h = nth-All P n ps p all.1 h

  -- What a stream has read where it ends: everything, unless an exception or the budget has ended it.
  abbrev pub EndReads : Started svc → Ended svc.Ledger → Type 0
  EndReads t e =
      (rest : List Chunk) × ReadTo (all_chunks t) rest (initial_progress svc t.prepared) e.progress
      × ((rest ≡ []) ⊎ (is_some e.stream_error ≡ true) ⊎ (e.budget_mid_stream_terminated ≡ true))

  ran_out-Reads :
      (t : Started svc) (ledger : Option svc.Ledger) → EndReads t (ran_out svc caller t ledger)
  ran_out-Reads t ledger =
      let opened = t.answer.result in
      let start = initial_progress svc t.prepared in
      let s = after_first svc caller id svc.check_running opened.first_chunk start in
      let (rest, some_read, why) = stream_loop-Reads opened.stream.chunks s ledger in
      (
        rest,
        from_first opened.first_chunk opened.stream.chunks rest start _ some_read,
        elim why [ inl all ↦ inl all | inr cut ↦ inr (inr cut) ],
      )

  pauses-Reads :
      (t : Started svc) (ledger : Option svc.Ledger)
      → All
          (PauseReads (all_chunks t) (initial_progress svc t.prepared))
          (pauses svc caller t ledger)
  unfolding pauses
  pauses-Reads t ledger =
      let opened = t.answer.result in
      let start = initial_progress svc t.prepared in
      let s = after_first svc caller id svc.check_running opened.first_chunk start in
      let P = PauseReads (all_chunks t) start in
      let (rest, some_read, why) = ran_out-Reads t ledger in
      let cs = opened.stream.chunks in
      let heads = first_frames svc caller id svc.check_running opened.first_chunk in
      let looped : Looped svc.Ledger = looped_of svc caller t ledger in
      let first : Looped svc.Ledger = record {
        frames = [];
        progress = s;
        ledger = ledger;
        budget_mid_stream_terminated = false;
      } in
      let before = map (pause_at svc first) heads in
      let loop = loop_pauses svc caller cs s ledger in
      let closing = closing_of svc caller t looped in
      let unread : ReadTo (all_chunks t) cs start s =
        from_first opened.first_chunk cs cs start s ([], refl, Reads-none s) in
      All-append P (before ++ loop) (map (pause_at svc looped) closing)
        (All-append P before loop (All-pause_at P first heads (λ f. (cs, unread))) (
          All-map (PauseReads cs s) P
            (λ p (r, k). (r, from_first opened.first_chunk cs r start p.progress k)) loop
            (loop_pauses-Reads cs s ledger)))
        (All-pause_at P looped closing (λ f. (rest, some_read)))

  stopped-Reads :
      (t : Started svc) (ledger : Option svc.Ledger) (error : String)
      (o : Option (Pause svc.Ledger)) (e : Ended svc.Ledger)
      → ((p : Pause svc.Ledger)
          → o ≡ some p
          → PauseReads (all_chunks t) (initial_progress svc t.prepared) p)
      → elim o [ none ↦ some (ran_out svc caller t ledger) | some p ↦ some (closed_at svc error p) ]
        ≡ some e
      → EndReads t e
  stopped-Reads t ledger error none e read h =
      subst (EndReads t) (some-injective _ _ h) (ran_out-Reads t ledger)
  stopped-Reads t ledger error (some p) e read h =
      let (rest, some_read) = read p refl in
      subst (EndReads t) (some-injective _ _ h) (rest, some_read, inr (inl refl))

  pub ended-Reads :
      (t : Started svc) (reader : Reader) (ledger : Option svc.Ledger) (e : Ended svc.Ledger)
      → ended svc caller t reader ledger ≡ some e
      → EndReads t e
  unfolding ended
  ended-Reads t reads_to_end ledger e h =
      subst (EndReads t) (some-injective _ _ h) (ran_out-Reads t ledger)
  ended-Reads t (stops_after zero error) ledger e h = cc
  ended-Reads t (stops_after (suc n) error) ledger e h =
      stopped-Reads t ledger error (nth n (pauses svc caller t ledger)) e
        (λ p. nth-All _ n (pauses svc caller t ledger) p (pauses-Reads t ledger)) h
