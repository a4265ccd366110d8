-- ===== src/Chat/Passed.antt =====
-- What is known of a request that has passed the gates that streams and embeddings share.
use sovereign_rag_gateway.Prelude.{
  ℕ, ◌≡◌, ◌≢◌, ◌⊎◌, refl, sym, ap, ◌∙◌, String, Bool, true, false, Option, some, not, ◌&&◌, str_eq,
  Bool-cases, inl, inr, arith,
}
use sovereign_rag_gateway.Models.{AppError}
use sovereign_rag_gateway.Budget.{Summary}
use sovereign_rag_gateway.Chat.Service.{Service, Caller, Ask, AuditEvent, ok, within_budget}
use sovereign_rag_gateway.Chat.Gate.{Verdict, Gateway, write_gate_audit, deny_by_policy}
use sovereign_rag_gateway.Chat.BudgetGate.{enforce_budget_or_deny}
use sovereign_rag_gateway.Chat.Call.{Answered, Called}
use sovereign_rag_gateway.Chat.Stages.{Logged-cases, ok-injective}
use sovereign_rag_gateway.Chat.Answer.{enforce-ok}
use sovereign_rag_gateway.Chat.OpenStream.{gate_policy, served_by}

either_permits : (a e : Bool) → not a && e ≡ false → (a ≡ true) ⊎ (e ≡ false)
either_permits true e h = inl refl
either_permits false e h = inr h

module _ (svc : Service) where
  audit-ends :
      (event : AuditEvent) (e : AppError) (g g' : Gateway svc) (u : Unit {0})
      → write_gate_audit svc event e g ≢ (ok u, g')
  unfolding write_gate_audit
  audit-ends event e g g' u = elim (Logged-cases (svc.write_event event g.log).0) [
    | inl y ↦ rw y (λ h. absurd (ground (arith, ap (λ x. x.0) h)))
    | inr (inl y) ↦ rw y (λ h. absurd (ground (arith, ap (λ x. x.0) h)))
    | inr (inr y) ↦ rw y (λ h. absurd (ground (arith, ap (λ x. x.0) h)))
  ]

  -- The policy allows the request, or is not enforced.
  abbrev pub Permitted : Verdict svc → Type 0
  Permitted d = (d.allow ≡ true) ⊎ (str_eq svc.settings.opa_mode "enforce" ≡ false)

  pub gate_policy-ok :
      (caller : Caller) (ask : Ask) (d : Verdict svc) (g g' : Gateway svc) (u : Unit {0})
      → gate_policy svc caller ask d g ≡ (ok u, g')
      → Permitted d × (g' ≡ g)
  unfolding gate_policy deny_by_policy
  gate_policy-ok caller ask d g g' u =
      elim (Bool-cases (not d.allow && str_eq svc.settings.opa_mode "enforce")) [
        | inl y ↦ simp y (λ h. absurd (audit-ends _ _ _ g' u h))
        | inr n ↦ simp n (λ h. (either_permits d.allow _ n, sym (ap (λ x. x.1) h)))
      ]

  pub served_by-ok :
      {R : Type 0} (c : Called R) (g g' : Gateway svc) (a : Answered R)
      → served_by svc c g ≡ (ok a, g')
      → (c ≡ Called.answered a) × (g' ≡ g)
  unfolding served_by
  served_by-ok (Called.answered b) g g' a h =
      (ap Called.answered (ok-injective (ap (λ x. x.0) h)), sym (ap (λ x. x.1) h))
  served_by-ok (Called.provider_failed x) g g' a h = absurd (ground (arith, ap (λ x. x.0) h))
  served_by-ok (Called.forbidden e) g g' a h = absurd (ground (arith, ap (λ x. x.0) h))
  served_by-ok Called.call_crashed g g' a h = absurd (ground (arith, ap (λ x. x.0) h))

  -- The budget's gate, as a pair.
  pub enforce-passed :
      (caller : Caller) (ask : Ask) (model : String) (d : Verdict svc) (n : ℕ) (g g' : Gateway svc)
      (s : Option Summary)
      → enforce_budget_or_deny svc caller ask model d n g ≡ (ok s, g')
      → (g'.log ≡ g.log)
        × ((l : svc.Ledger)
            → g.ledger ≡ some l
            → (svc.check caller.tenant_id n l).0 ≡ within_budget)
  enforce-passed caller ask model d n g g' s h =
      let passed = enforce-ok svc caller ask model d n g s (ap (λ x. x.0) h) in
      (ap (λ x. x.1.log) (sym h) ∙ passed.0, passed.1)
