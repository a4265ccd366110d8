-- ===== src/Chat/StreamLeak.antt =====
-- The ways in which a streamed request keeps its slot of the in-flight guard.
use sovereign_rag_gateway.Prelude.{◌+◌, ◌≡◌, String, true, some, ap, sym, ◌∙◌, arith}
use sovereign_rag_gateway.Models.{ChatRequest}
use sovereign_rag_gateway.Inflight.{Guard, try_acquire}
use sovereign_rag_gateway.Chat.Service.{Service, Caller, ok, log_crashed}
use sovereign_rag_gateway.Chat.Gate.{Gateway}
use sovereign_rag_gateway.Chat.Monad.{continue}
use sovereign_rag_gateway.Chat.OpenStream.{Started, open_stream}
use sovereign_rag_gateway.Chat.StreamEnd.{Ended, reads_to_end, stops_after, ended, ran_out}
use sovereign_rag_gateway.Chat.Settle.{settle_stream, finish_stream, run_stream, stream_chat}
use sovereign_rag_gateway.Chat.StreamRelease.{guard-open_stream, guard-settle_stream, guard-slot}

global-try_acquire :
    (t : String) (g : Guard)
    → (try_acquire t g).0.allowed ≡ true
    → (try_acquire t g).1.global_inflight ≡ g.global_inflight + 1
unfolding try_acquire
global-try_acquire t g h = ground arith

module _ (svc : Service) where
  guard-finish_crashed :
      (caller : Caller) (req : ChatRequest) (t : Started svc) (e : Ended svc.Ledger)
      (g : Gateway svc)
      → let (event, settled) = settle_stream svc caller req t e (record g { ledger = e.ledger }) in
        (svc.write_event event settled.log).0 ≡ log_crashed
        → (finish_stream svc caller req t e g).guard ≡ g.guard
  unfolding finish_stream
  guard-finish_crashed caller req t e g crash =
      rw (crash, finish_stream)
        (guard-settle_stream svc caller req t e (record g { ledger = e.ledger }))

  -- A request whose stream is open, and whose slot was free, holds the slot for ever in two cases: its
  -- reader leaves before it asks for the first frame, so that the generator never starts; or the
  -- generator runs to its end and the audit writer raises something other than its validation error.
  pub stream_chat-leaks :
      (caller : Caller) (req : ChatRequest) (error : String) (g g' : Gateway svc) (guard : Guard)
      (t : Started svc)
      → g.guard ≡ some guard
      → (try_acquire caller.tenant_id guard).0.allowed ≡ true
      → open_stream svc caller req
          (record g { guard = some (try_acquire caller.tenant_id guard).1 })
        ≡ (ok t, g')
      → let taken = (try_acquire caller.tenant_id guard).1 in
        let (event, settled) =
          settle_stream svc caller req t
            (ran_out svc caller t g'.ledger)
            (record g' { ledger = (ran_out svc caller t g'.ledger).ledger }) in
        (taken.global_inflight ≡ guard.global_inflight + 1)
        × ((stream_chat svc caller req (stops_after 0 error) g).1.guard ≡ some taken)
        × ((svc.write_event event settled.log).0 ≡ log_crashed
            → (stream_chat svc caller req reads_to_end g).1.guard ≡ some taken)
  unfolding continue run_stream ended
  stream_chat-leaks caller req error g g' guard t has allowed opened =
      let taken = (try_acquire caller.tenant_id guard).1 in
      let h : Gateway svc = record g { guard = some taken } in
      let held : g'.guard ≡ some taken =
        ap (λ x. x.1.guard) (sym opened) ∙ guard-open_stream svc caller req h in
      (
        global-try_acquire caller.tenant_id guard allowed,
        ap (λ x. x.guard) (guard-slot svc caller req (stops_after 0 error) g guard has allowed)
            ∙ rw opened held,
        λ crash.
            ap (λ x. x.guard) (guard-slot svc caller req reads_to_end g guard has allowed)
            ∙ rw opened (
                guard-finish_crashed caller req t (ran_out svc caller t g'.ledger) g' crash ∙ held),
      )
