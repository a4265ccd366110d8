-- ===== src/Chat/StreamPromise.antt =====
-- What an opened stream says of the request.
use sovereign_rag_gateway.Prelude.{◌≡◌, refl, sym, ap, ◌∙◌, true, some, subst, arith}
use sovereign_rag_gateway.Models.{ChatRequest}
use sovereign_rag_gateway.Chat.Service.{Service, Caller, Result, ok, within_budget}
use sovereign_rag_gateway.Chat.Gate.{Gateway, chat_ask, resolve_policy_decision}
use sovereign_rag_gateway.Chat.Call.{Called}
use sovereign_rag_gateway.Chat.Prepare.{policy_input, prepare, estimate_requested_tokens}
use sovereign_rag_gateway.Chat.Stages.{slot-ok, ok-injective}
use sovereign_rag_gateway.Chat.Monad.{continue-ok}
use sovereign_rag_gateway.Chat.OpenStream.{
  Started, call_stream, open_stream, or_release, handle_chat_stream,
}
use sovereign_rag_gateway.Chat.Passed.{Permitted, gate_policy-ok, served_by-ok, enforce-passed}

module _ (svc : Service) where
  -- What is behind an opened stream, where `g` is the state before.
  pub record Promised (caller : Caller) (req : ChatRequest) (g end : Gateway svc) (t : Started svc)
      : Type 0 where
    pub decided : resolve_policy_decision svc (policy_input svc caller req) ≡ ok t.decision
    pub permitted : Permitted svc t.decision
    pub prepared : prepare svc caller req t.decision ≡ ok t.prepared
    pub within :
        (l : svc.Ledger)
        → g.ledger ≡ some l
        → (svc.check caller.tenant_id (estimate_requested_tokens t.prepared.request) l).0
          ≡ within_budget
    pub called : call_stream svc t.prepared ≡ Called.answered t.answer
    pub unlogged : end.log ≡ g.log

  open_stream-ok :
      (caller : Caller) (req : ChatRequest) (g : Gateway svc) (t : Started svc)
      → (open_stream svc caller req g).0 ≡ ok t
      → Promised caller req g (open_stream svc caller req g).1 t
  unfolding open_stream
  open_stream-ok caller req g t h0 =
      let ask = chat_ask svc true req in
      let (d, s1, e1, h1, k1) = continue-ok _ _ t h0 in
      let (u, s2, e2, h2, k2) = continue-ok _ _ t h1 in
      let (p, s3, e3, h3, k3) = continue-ok _ _ t h2 in
      let (found, s4, e4, h4, k4) = continue-ok _ _ t h3 in
      let (a, s5, e5, h5, k5) = continue-ok _ _ t h4 in
      let opened = gate_policy-ok svc caller ask d s1 s2 u e2 in
      let n = estimate_requested_tokens p.request in
      let passed = enforce-passed svc caller ask p.request.model d n s3 s4 found e4 in
      let served = served_by-ok svc (call_stream svc p) s4 s5 a e5 in
      let same3 : s3 ≡ g = sym (ap (λ x. x.1) e3) ∙ opened.1 ∙ sym (ap (λ x. x.1) e1) in
      let same_log : s5.log ≡ g.log = ap (λ s. s.log) served.1 ∙ passed.0 ∙ ap (λ s. s.log) same3 in
      let end = (open_stream svc caller req g).1 in
      let made : Started svc = record { decision = d; prepared = p; answer = a; budget = found } in
      let all : Promised caller req g end made = record {
        decided = ap (λ x. x.0) e1;
        permitted = opened.0;
        prepared = ap (λ x. x.0) e3;
        within = λ l has. passed.1 l (ap (λ s. s.ledger) same3 ∙ has);
        called = served.0;
        unlogged = ap (λ s. s.log) (k1 ∙ k2 ∙ k3 ∙ k4 ∙ k5) ∙ same_log;
      } in
      subst (Promised caller req g end) (ok-injective h5) all

  released-ok :
      (caller : Caller) (x : Result (Started svc) × Gateway svc) (t : Started svc)
      → (or_release svc caller x).0 ≡ ok t
      → (x.0 ≡ ok t) × ((or_release svc caller x).1 ≡ x.1)
  released-ok caller (ok s, g) t h = (h, refl)
  released-ok caller (Result.failed e, g) t h = absurd (ground arith)
  released-ok caller (Result.crashed, g) t h = absurd (ground arith)

  -- The generator of a streamed answer is handed on only after all of this: the policy has decided, and
  -- allows the request if the mode is "enforce"; the messages are those of `prepare`, with transforms,
  -- context, redaction and an allowed model; the budget had room for the estimate; and a provider has
  -- opened a stream for that very request. The audit log is still as it was.
  pub handle_chat_stream-promises :
      (caller : Caller) (req : ChatRequest) (g : Gateway svc) (t : Started svc)
      → (handle_chat_stream svc caller req g).0 ≡ ok t
      → Promised caller req g (handle_chat_stream svc caller req g).1 t
  unfolding handle_chat_stream
  handle_chat_stream-promises caller req g t h =
      let (u, s, taken, h1, k) = continue-ok _ _ t h in
      let same = slot-ok svc caller (chat_ask svc true req) g s taken in
      let (opens, keeps) = released-ok caller (open_stream svc caller req s) t h1 in
      let p = open_stream-ok caller req s t opens in
      record {
        decided = p.decided;
        permitted = p.permitted;
        prepared = p.prepared;
        within = λ l has. p.within l (same.0 ∙ has);
        called = p.called;
        unlogged = ap (λ s. s.log) (k ∙ keeps) ∙ p.unlogged ∙ same.1;
      }
