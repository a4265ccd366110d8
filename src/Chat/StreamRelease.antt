-- ===== src/Chat/StreamRelease.antt =====
-- The slot of the in-flight guard over the life of a streamed request.
use sovereign_rag_gateway.Prelude.{
  is_some, ◌<◌, ◌+◌, ◌≡◌, ◌≢◌, refl, true, Option, some, [], ltb, not, ◌&&◌, str_eq, Bool-cases,
  inl, inr, ◌∙◌,
}
use sovereign_rag_gateway.Models.{ChatRequest, AppError}
use sovereign_rag_gateway.Inflight.{Guard, try_acquire, release}
use sovereign_rag_gateway.Webhooks.{EventType}
use sovereign_rag_gateway.Chat.Service.{Service, Caller, Ask, AuditEvent, ok, log_crashed}
use sovereign_rag_gateway.Chat.Gate.{
  Verdict, Gateway, chat_ask, release_inflight, write_gate_audit, count_shed, reason_text,
}
use sovereign_rag_gateway.Chat.Call.{Called}
use sovereign_rag_gateway.Chat.Prepare.{estimate_requested_tokens}
use sovereign_rag_gateway.Chat.Kept.{
  guard-queue_event, guard-queue_if, guard-deny_by_policy, guard-enforce_budget_or_deny,
  guard-record_budget_usage,
}
use sovereign_rag_gateway.Chat.Stages.{Logged-cases, acquire-admitted}
use sovereign_rag_gateway.Chat.Monad.{M, Keeps, continue, continue-Keeps}
use sovereign_rag_gateway.Chat.OpenStream.{
  Started, gate_policy, served_by, call_stream, open_stream, or_release, handle_chat_stream,
}
use sovereign_rag_gateway.Chat.StreamEnd.{Reader, reads_to_end, stops_after, Ended}
use sovereign_rag_gateway.Chat.Settle.{settle_stream, run_stream, stream_chat}

module _ (svc : Service) where
  abbrev pub guard_of : Gateway svc → Option Guard
  guard_of g = g.guard

  pub guard-gate_policy :
      (caller : Caller) (ask : Ask) (d : Verdict svc)
      → Keeps guard_of (gate_policy svc caller ask d)
  unfolding gate_policy
  guard-gate_policy caller ask d g =
      elim (Bool-cases (not d.allow && str_eq svc.settings.opa_mode "enforce")) [
        | inl y ↦ simp y (guard-deny_by_policy svc caller ask d g)
        | inr n ↦ simp n refl
      ]

  pub guard-served_by : {R : Type 0} (c : Called R) → Keeps guard_of (served_by svc c)
  unfolding served_by
  guard-served_by (Called.answered a) g = refl
  guard-served_by (Called.provider_failed x) g = guard-queue_event svc EventType.provider_error [] g
  guard-served_by (Called.forbidden e) g = refl
  guard-served_by Called.call_crashed g = refl

  pub guard-open_stream :
      (caller : Caller) (req : ChatRequest) → Keeps guard_of (open_stream svc caller req)
  unfolding open_stream
  guard-open_stream caller req g =
      let ask = chat_ask svc true req in
      continue-Keeps guard_of g _ _ refl λ d s.
        continue-Keeps guard_of s _ _ (guard-gate_policy caller ask d s) λ u s.
          continue-Keeps guard_of s _ _ refl λ p s.
            continue-Keeps guard_of s _ _
              (guard-enforce_budget_or_deny svc caller ask p.request.model d
                (estimate_requested_tokens p.request) s)
              λ found s.
                continue-Keeps guard_of s _ _ (guard-served_by (call_stream svc p) s) λ a s. refl

  pub guard-settle_stream :
      (caller : Caller) (req : ChatRequest) (t : Started svc) (e : Ended svc.Ledger)
      (g : Gateway svc)
      → (settle_stream svc caller req t e g).1.guard ≡ g.guard
  unfolding settle_stream
  guard-settle_stream caller req t e g =
      guard-queue_if svc (is_some e.stream_error) EventType.provider_error _ _
      ∙ guard-queue_if svc
          (ltb 0 (t.prepared.input_redaction_count + e.progress.output_redaction_count))
          EventType.redaction_hit _ _
      ∙ guard-queue_if svc (ltb 1 t.answer.provider_attempts) EventType.provider_fallback [] _
      ∙ guard-record_budget_usage svc caller _ t.budget g

  pub guard-release_inflight :
      (caller : Caller) (g : Gateway svc) (k : Guard)
      → g.guard ≡ some k
      → (release_inflight svc caller g).guard ≡ some (release caller.tenant_id k)
  unfolding release_inflight
  guard-release_inflight caller g k has = rw (has, release_inflight) refl

  -- The exceptions of the audit writer are those of its own check.
  abbrev pub NeverCrashes : Type 0
  NeverCrashes = (event : AuditEvent) (log : svc.Log) → (svc.write_event event log).0 ≢ log_crashed

  -- The reader asks for a frame at least.
  abbrev pub Starts : Reader → Type 0
  Starts reads_to_end = Unit {0}
  Starts (stops_after n error) = 0 < n

  -- The state where the guard has refused a slot.
  abbrev refused : Caller → ChatRequest → Guard → Gateway svc → Gateway svc
  refused caller req guard g =
      count_shed svc caller (reason_text (try_acquire caller.tenant_id guard).0.reason)
        (record g { guard = some (try_acquire caller.tenant_id guard).1 })

  pub guard-ended_once :
      {A : Type 0} (event : AuditEvent) (x : AppError) (h : Gateway svc)
      (f : Unit {0} → M (Gateway svc) A)
      → (continue (write_gate_audit svc event x h) f).1.guard ≡ h.guard
  unfolding continue write_gate_audit
  guard-ended_once event x h f = elim (Logged-cases (svc.write_event event h.log).0) [
    | inl y ↦ rw y refl
    | inr (inl y) ↦ rw y refl
    | inr (inr y) ↦ rw y refl
  ]

  pub guard-slot :
      (caller : Caller) (req : ChatRequest) (reader : Reader) (g : Gateway svc) (guard : Guard)
      → g.guard ≡ some guard
      → (try_acquire caller.tenant_id guard).0.allowed ≡ true
      → (stream_chat svc caller req reader g).1
        ≡ (continue
            (or_release svc caller (
              open_stream svc caller req
                (record g { guard = some (try_acquire caller.tenant_id guard).1 })))
            (λ t g. (ok tt, run_stream svc caller req t reader g))).1
  unfolding stream_chat handle_chat_stream continue
  guard-slot caller req reader g guard has y =
      rw (acquire-admitted svc caller (chat_ask svc true req) g guard has y) refl
