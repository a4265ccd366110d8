-- ===== src/Chat/EmbeddingsRelease.antt =====
-- The slot of the in-flight guard over a request for embeddings.
use sovereign_rag_gateway.Prelude.{
  ℕ, ◌≡◌, refl, String, true, false, Option, some, List, [], ◌∷◌, ltb, Option-cases, inl, inr, ◌⊎◌,
  arith, ◌∙◌,
}
use sovereign_rag_gateway.Models.{EmbeddingsRequest}
use sovereign_rag_gateway.Inflight.{Guard, try_acquire, release, inflight_of}
use sovereign_rag_gateway.Inflight.Counts.{restored}
use sovereign_rag_gateway.Budget.{Summary}
use sovereign_rag_gateway.Webhooks.{EventType}
use sovereign_rag_gateway.Chat.Service.{Service, Caller, EmbeddingsCall}
use sovereign_rag_gateway.Chat.Gate.{Verdict, Gateway}
use sovereign_rag_gateway.Chat.Call.{Answered}
use sovereign_rag_gateway.Chat.Kept.{
  guard-queue_if, guard-enforce_budget_or_deny, guard-record_budget_usage, guard-count_request,
  guard-count_shed,
}
use sovereign_rag_gateway.Chat.Stages.{Logged-cases, acquire-admitted, acquire-refused}
use sovereign_rag_gateway.Chat.Monad.{continue, continue-Keeps}
use sovereign_rag_gateway.Chat.Embeddings.{
  raw_inputs, estimate_input_tokens, embeddings_ask, redact_inputs, embeddings_call,
  call_embeddings, settle_embeddings, complete_embeddings, serve_embeddings, handle_embeddings,
}
use sovereign_rag_gateway.Chat.StreamRelease.{
  guard_of, guard-gate_policy, guard-served_by, guard-release_inflight, guard-ended_once,
}

pub List-cases : {A : Type 0} (xs : List A) → (xs ≡ []) ⊎ ((x : A) × (ys : List A) × (xs ≡ x ∷ ys))
List-cases [] = inl refl
List-cases (x ∷ xs) = inr (x, xs, refl)

module _ (svc : Service) where
  guard-settle_embeddings :
      (caller : Caller) (req : EmbeddingsRequest) (d : Verdict svc) (c : EmbeddingsCall) (n : ℕ)
      (budget : Option Summary) (a : Answered svc.Vectors) (used : ℕ) (g : Gateway svc)
      → (settle_embeddings svc caller req d c n budget a used g).1.guard ≡ g.guard
  unfolding settle_embeddings
  guard-settle_embeddings caller req d c n budget a used g =
      guard-queue_if svc (ltb 0 n) EventType.redaction_hit _ _
      ∙ guard-queue_if svc (ltb 1 a.provider_attempts) EventType.provider_fallback [] _
      ∙ guard-record_budget_usage svc caller used budget g

  guard-complete_embeddings :
      (caller : Caller) (req : EmbeddingsRequest) (d : Verdict svc) (c : EmbeddingsCall) (n : ℕ)
      (budget : Option Summary) (a : Answered svc.Vectors) (g : Gateway svc)
      → (complete_embeddings svc caller req d c n budget a g).1.guard ≡ g.guard
  unfolding complete_embeddings
  guard-complete_embeddings caller req d c n budget a g =
      elim (Option-cases (svc.validate_vectors a.result)) [
        | inl o ↦ rw (o, complete_embeddings) refl
        | inr (response, e) ↦
            let used = response.usage.prompt_tokens in
            let settled = settle_embeddings svc caller req d c n budget a used g in
            let same = guard-settle_embeddings caller req d c n budget a used g in
            rw (e, complete_embeddings)
              (elim (Logged-cases (svc.write_event settled.0 settled.1.log).0) [
                | inl y ↦
                    simp y (guard-count_request svc 200 caller c.model settled.0.facts _ ∙ same)
                | inr (inl y) ↦ simp y same
                | inr (inr y) ↦ simp y same
              ])
      ]

  guard-serve_embeddings :
      (caller : Caller) (req : EmbeddingsRequest) (g : Gateway svc)
      → (serve_embeddings svc caller req g).1.guard ≡ g.guard
  unfolding serve_embeddings
  guard-serve_embeddings caller req g =
      let ask = embeddings_ask svc req in
      let redacted = redact_inputs svc caller (raw_inputs req.input) in
      continue-Keeps (guard_of svc) g _ _ refl λ d s.
        continue-Keeps (guard_of svc) s _ _ (guard-gate_policy svc caller ask d s) λ u s.
          continue-Keeps (guard_of svc) s _ _ refl λ model s.
            continue-Keeps (guard_of svc) s _ _
              (guard-enforce_budget_or_deny svc caller ask model d
                (estimate_input_tokens redacted.0) s)
              λ found s.
                continue-Keeps (guard_of svc) s _ _
                  (guard-served_by svc (call_embeddings svc d (embeddings_call svc model redacted))
                    s)
                  λ a s.
                    guard-complete_embeddings caller req d (embeddings_call svc model redacted)
                      redacted.1 found a s

  guard-no_slot :
      (caller : Caller) (req : EmbeddingsRequest) (g : Gateway svc) (guard : Guard) (text : String)
      (rest : List String)
      → raw_inputs req.input ≡ text ∷ rest
      → g.guard ≡ some guard
      → (try_acquire caller.tenant_id guard).0.allowed ≡ false
      → (handle_embeddings svc caller req g).1.guard ≡ some (try_acquire caller.tenant_id guard).1
  unfolding handle_embeddings
  guard-no_slot caller req g guard text rest some_input has n =
      rw (some_input, handle_embeddings)
        (rw (acquire-refused svc caller (embeddings_ask svc req) g guard has n)
          (guard-ended_once svc _ _ _ _ ∙ guard-count_shed svc caller _ _))

  guard-slot :
      (caller : Caller) (req : EmbeddingsRequest) (g : Gateway svc) (guard : Guard) (text : String)
      (rest : List String)
      → raw_inputs req.input ≡ text ∷ rest
      → g.guard ≡ some guard
      → (try_acquire caller.tenant_id guard).0.allowed ≡ true
      → (handle_embeddings svc caller req g).1.guard
        ≡ some (release caller.tenant_id (try_acquire caller.tenant_id guard).1)
  unfolding handle_embeddings continue
  guard-slot caller req g guard text rest some_input has y =
      let taken : Gateway svc = record g { guard = some (try_acquire caller.tenant_id guard).1 } in
      rw (some_input, handle_embeddings)
        (rw (acquire-admitted svc caller (embeddings_ask svc req) g guard has y)
          (guard-release_inflight svc caller _ _ (guard-serve_embeddings caller req taken)))

  -- However a request for embeddings ends, with vectors, with an error or with another exception, the
  -- guard is left with the counts it had before, for every tenant and in total; where there is no input,
  -- it is not asked at all.
  pub handle_embeddings-releases :
      (caller : Caller) (req : EmbeddingsRequest) (g : Gateway svc) (guard : Guard)
      → g.guard ≡ some guard
      → (after : Guard) × ((handle_embeddings svc caller req g).1.guard ≡ some after)
        × ((k : String) → inflight_of after k ≡ inflight_of guard k)
        × (after.global_inflight ≡ guard.global_inflight)
        × (raw_inputs req.input ≡ [] → after ≡ guard)
  unfolding handle_embeddings
  handle_embeddings-releases caller req g guard has = elim (List-cases (raw_inputs req.input)) [
    | inl e ↦ (guard, rw (e, handle_embeddings) has, λ k. refl, refl, λ h. refl)
    | inr (text, rest, e) ↦
        let (after, same, counts, total) =
          restored caller.tenant_id guard (handle_embeddings svc caller req g).1.guard
            (guard-slot caller req g guard text rest e has)
            (guard-no_slot caller req g guard text rest e has) in
        (after, same, counts, total, λ h. absurd (ground arith))
  ]
