-- ===== src/Chat/StreamRecord.antt =====
-- What a streamed request leaves in the budget and in the audit log.
use sovereign_rag_gateway.Prelude.{
  ap₂, ◌++◌, ◌⊎◌, max, map, sum_of, ◌==◌, if◌then◌else◌, is_some, ℕ, ◌+◌, ◌≡◌, refl, String, Bool,
  true, false, some, List, [], ltb, ap, ◌∙◌, Bool-cases, inl, inr,
}
use sovereign_rag_gateway.Prelude.Text.{word_count}
use sovereign_rag_gateway.Models.{ChatRequest, Chunk}
use sovereign_rag_gateway.Webhooks.{EventType}
use sovereign_rag_gateway.Chat.Service.{Service, Caller, AuditEvent, Facts, of_messages}
use sovereign_rag_gateway.Chat.Gate.{Gateway, release_inflight, queue_event, build_audit_event}
use sovereign_rag_gateway.Chat.Completion.{queue_if, record_budget_usage, count_request}
use sovereign_rag_gateway.Chat.Stages.{Logged-cases, log-release_inflight}
use sovereign_rag_gateway.Chat.Answer.{log-queue_if, log-record_budget_usage, log-count_request}
use sovereign_rag_gateway.Chat.OpenStream.{Started}
use sovereign_rag_gateway.Chat.Stream.{Progress}
use sovereign_rag_gateway.Chat.StreamRead.{last_of, sent_texts, Reads, all_chunks, ended-Reads}
use sovereign_rag_gateway.Chat.StreamEnd.{join, initial_progress, Reader, Ended, ended}
use sovereign_rag_gateway.Chat.Settle.{
  completion_tokens, stream_event, stream_facts, settle_stream, stream_status, finish_stream,
  run_stream,
}

module _ (svc : Service) where
  ledger-queue_if :
      (b : Bool) (e : EventType) (events : List EventType) (g : Gateway svc)
      → (queue_if svc b e events g).1.ledger ≡ g.ledger
  unfolding queue_event
  ledger-queue_if true e events g = elim (Bool-cases (svc.fires e)) [
    | inl y ↦ simp y refl
    | inr n ↦ simp n refl
  ]
  ledger-queue_if false e events g = refl

  ledger-count_request :
      (status : ℕ) (caller : Caller) (model : String) (facts : Facts) (g : Gateway svc)
      → (count_request svc status caller model facts g).ledger ≡ g.ledger
  ledger-count_request status caller model facts g =
      elim (Bool-cases svc.settings.metrics_enabled) [ inl y ↦ simp y refl | inr n ↦ simp n refl ]

  settled-state :
      (caller : Caller) (req : ChatRequest) (t : Started svc) (e : Ended svc.Ledger)
      (g : Gateway svc)
      → let s = e.progress in
        let used = s.usage_prompt_tokens + completion_tokens s in
        ((settle_stream svc caller req t e g).1.log ≡ g.log)
        × ((settle_stream svc caller req t e g).1.ledger
            ≡ (record_budget_usage svc caller used t.budget g).1.ledger)
  unfolding settle_stream
  settled-state caller req t e g =
      let cut = is_some e.stream_error in
      let again = ltb 1 t.answer.provider_attempts in
      let hits = ltb 0 (t.prepared.input_redaction_count + e.progress.output_redaction_count) in
      (
        log-queue_if svc cut EventType.provider_error _ _
            ∙ log-queue_if svc hits EventType.redaction_hit _ _
            ∙ log-queue_if svc again EventType.provider_fallback [] _
            ∙ log-record_budget_usage svc caller _ t.budget g,
        ledger-queue_if cut EventType.provider_error _ _
            ∙ ledger-queue_if hits EventType.redaction_hit _ _
            ∙ ledger-queue_if again EventType.provider_fallback [] _,
      )

  finished-state :
      (caller : Caller) (req : ChatRequest) (t : Started svc) (e : Ended svc.Ledger)
      (g : Gateway svc)
      → let (event, settled) = settle_stream svc caller req t e (record g { ledger = e.ledger }) in
        ((finish_stream svc caller req t e g).log ≡ (svc.write_event event settled.log).1)
        × ((finish_stream svc caller req t e g).ledger ≡ settled.ledger)
  unfolding finish_stream
  finished-state caller req t e g =
      let (event, settled) = settle_stream svc caller req t e (record g { ledger = e.ledger }) in
      let (logged, log) = svc.write_event event settled.log in
      let written : Gateway svc = record settled { log = log } in
      let status = stream_status svc e in
      let model = t.prepared.request.model in
      let counted = count_request svc status caller model event.facts written in
      let released = log-release_inflight svc caller counted in
      let kept : ((release_inflight svc caller counted).log ≡ log)
          × ((release_inflight svc caller counted).ledger ≡ settled.ledger) =
        (
          released.0 ∙ log-count_request svc status caller model event.facts written,
          released.1 ∙ ledger-count_request status caller model event.facts written,
        ) in
      elim (Logged-cases logged) [
        | inl y ↦ rw (y, finish_stream) kept
        | inr (inl y) ↦ rw (y, finish_stream) kept
        | inr (inr y) ↦ rw (y, finish_stream) (refl, refl)
      ]

  -- The tokens of an answer, by what the chunks that were read report, and the texts that were sent.
  answer_tokens :
      (caller : Caller) (t : Started svc) (read : List Chunk) (end : Progress)
      → Reads svc caller read (initial_progress svc t.prepared) end
      → let counted = last_of 0 (map (λ c. c.completion_tokens) read) in
        (end.usage_prompt_tokens
          ≡ last_of
              (max (sum_of (λ m. word_count m.content) t.prepared.request.messages) 1)
              (map (λ c. c.prompt_tokens) read))
        × (completion_tokens end
            ≡ (if counted == 0 then word_count (join (sent_texts svc caller read)) else counted))
  unfolding initial_progress completion_tokens
  answer_tokens caller t read end h =
      (h.prompt, ap₂ (λ n ps. if n == 0 then word_count (join ps) else n) h.completion h.parts)

  -- A stream that has been started, and wherever it ends, has read a first part of the provider's chunks,
  -- which is all of them unless an exception or the budget has ended it. Its tokens are recorded in the
  -- budget: of the prompt those that the last of these chunks to report any reports, or the words of the
  -- messages, and one at least; of the answer those reported, or the words that were sent, redacted as
  -- they were, where none is. And one event is given to the audit log: of its request, its decision, its
  -- provider, with these tokens, the hash of the messages that the provider got, and the exception that
  -- ended it.
  pub run_stream-records :
      (caller : Caller) (req : ChatRequest) (t : Started svc) (reader : Reader) (g : Gateway svc)
      (e : Ended svc.Ledger)
      → ended svc caller t reader g.ledger ≡ some e
      → (read : List Chunk) × (rest : List Chunk) × (all_chunks svc caller t ≡ read ++ rest)
        × ((rest ≡ []) ⊎ (is_some e.stream_error ≡ true) ⊎ (e.budget_mid_stream_terminated ≡ true))
        × (let end = run_stream svc caller req t reader g in
            let words = sum_of (λ m. word_count m.content) t.prepared.request.messages in
            let tokens_in = last_of (max words 1) (map (λ c. c.prompt_tokens) read) in
            let counted = last_of 0 (map (λ c. c.completion_tokens) read) in
            let tokens_out =
              if counted == 0 then word_count (join (sent_texts svc caller read)) else counted in
            (event : AuditEvent) × (end.log ≡ (svc.write_event event g.log).1)
            × (end.ledger
                ≡ (record_budget_usage svc caller
                    (tokens_in + tokens_out)
                    t.budget
                    (record g { ledger = e.ledger })).1.ledger)
            × (event.request_id ≡ caller.request_id)
            × (event.policy_decision_id ≡ t.decision.decision_id)
            × (event.facts.provider ≡ t.answer.routed_provider)
            × (event.facts.streaming ≡ true)
            × (event.facts.tokens_in ≡ tokens_in)
            × (event.facts.tokens_out ≡ tokens_out)
            × (event.facts.redacted_payload_hash
                ≡ svc.hash (of_messages t.prepared.request.messages))
            × (event.stream_error ≡ e.stream_error)
            × (event.budget_mid_stream_terminated ≡ e.budget_mid_stream_terminated))
  unfolding run_stream settle_stream stream_event stream_facts build_audit_event
  run_stream-records caller req t reader g e ends =
      let g0 : Gateway svc = record g { ledger = e.ledger } in
      let finished = finished-state caller req t e g in
      let settled = settled-state caller req t e g0 in
      let event = (settle_stream svc caller req t e g0).0 in
      let (rest, (read, split, reads), why) = ended-Reads svc caller t reader g.ledger e ends in
      let (of_prompt, of_answer) = answer_tokens caller t read e.progress reads in
      (
        read,
        rest,
        split,
        why,
        (
          event,
          rw (ends, run_stream) (finished.0 ∙ ap (λ l. (svc.write_event event l).1) settled.0),
          rw (ends, run_stream)
              (finished.1
                ∙ settled.1
                ∙ ap₂ (λ i o. (record_budget_usage svc caller (i + o) t.budget g0).1.ledger)
                    of_prompt of_answer),
          refl,
          refl,
          refl,
          refl,
          of_prompt,
          of_answer,
          refl,
          refl,
          refl,
        ),
      )
