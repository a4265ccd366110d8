-- ===== src/Policy/Local.antt =====
-- The local policy: what it allows, and what it asks for.
use sovereign_rag_gateway.Prelude.{
  ◌≡◌, ◌↔◌, refl, String, true, false, none, some, List, [], ◌∷◌, arith, starts_with, if◌then◌else◌,
  Bool-cases, inl, inr, any_of, not, All,
}
use sovereign_rag_gateway.Prelude.Dict.{get}
use sovereign_rag_gateway.Prelude.Int.{pos}
use sovereign_rag_gateway.Models.{ChatRequest}
use sovereign_rag_gateway.Policy.{
  Json, Transform, Decision, PolicyInput, member_of, is_sensitive, guardrail, apply_transform,
  apply_transforms, max_tokens_of, guardrail_of, local_guardrail, local_max_tokens,
  local_transforms, evaluate_local,
}

targets_allowed :
    (allowed targets : List String)
    → any_of (λ item. not (member_of allowed item)) targets ≡ false
      ↔ All (λ item. member_of allowed item ≡ true) targets
targets_allowed allowed [] = (λ h. tt, λ h. refl)
targets_allowed allowed (t ∷ ts) =
    let ih = targets_allowed allowed ts in
    (λ h. (ground arith, ih.0 (ground arith)), λ h. ground (arith, ih.1 h.1))

abbrev text : String
text = "Do not expose sensitive identifiers. Use masked placeholders."

module _ (j : Json) (r : ChatRequest) where
  put_guardrail :
      (t : Transform j.Value)
      → t.type ≡ "prepend_system_guardrail"
      → guardrail_of j t ≡ text
      → apply_transform j t r ≡ some (record r { messages = guardrail text ∷ r.messages })
  unfolding apply_transform guardrail_of
  put_guardrail t e g = rw (e, g) refl

  set_max :
      (t : Transform j.Value)
      → t.type ≡ "set_max_tokens"
      → max_tokens_of j t r ≡ some (pos 256)
      → apply_transform j t r ≡ some (record r { max_tokens = some (pos 256) })
  unfolding apply_transform max_tokens_of
  set_max t e g = rw (e, g) refl

module _ (j : Json) (r : ChatRequest) where
  local_transforms-applied :
      apply_transforms j r (local_transforms j)
      ≡ some (record r { max_tokens = some (pos 256); messages = guardrail text ∷ r.messages })
  unfolding apply_transforms guardrail_of max_tokens_of get
  local_transforms-applied =
      rw (put_guardrail j r (local_guardrail j) refl (j.str-of_str text), apply_transforms)
        (rw
          (
            set_max j (record r { messages = guardrail text ∷ r.messages }) (local_max_tokens j)
                refl (j.int-of_int (pos 256)),
            apply_transforms,
          )
          refl)

module _ (j : Json) (id hash time : String) (connectors : List String) (p : PolicyInput) where
  abbrev decision : Decision j.Value
  decision = evaluate_local j id hash time connectors p

  -- The local policy allows a request exactly if its model is not one of the forbidden ones and each
  -- connector it targets is in the allow list; it gives a reason exactly if it denies, and then asks
  -- for no transform.
  pub evaluate_local-allow :
      (decision.allow ≡ true ↔ (
        (starts_with p.requested_model "forbidden" ≡ false)
        × All (λ item. member_of connectors item ≡ true) p.connector_targets))
      × (decision.deny_reason ≡ none ↔ decision.allow ≡ true)
      × (decision.allow ≡ false → decision.transforms ≡ [])
  unfolding evaluate_local
  evaluate_local-allow =
      let members = targets_allowed connectors p.connector_targets in
      (
        (λ h. (ground arith, members.0 (ground arith)), λ h. ground (arith, members.1 h.1)),
        (λ h. ground arith, λ h. ground arith),
        λ h. ground arith,
      )

  -- A sensitive request that the local policy allows goes on with the guardrail before its messages
  -- and at most 256 tokens, whatever it asked for; another one that it allows goes on unchanged.
  pub evaluate_local-transforms :
      (r : ChatRequest)
      → decision.allow ≡ true
      → apply_transforms j r decision.transforms ≡ (
          if is_sensitive p.classification
          then some (record r {
            max_tokens = some (pos 256);
            messages =
                guardrail "Do not expose sensitive identifiers. Use masked placeholders."
                ∷ r.messages;
          })
          else some r)
  unfolding evaluate_local
  evaluate_local-transforms r h =
      let asked : decision.transforms
          ≡ (if is_sensitive p.classification then local_transforms j else []) =
        simp h refl in
      rw asked (elim (Bool-cases (is_sensitive p.classification)) [
        | inl y ↦ rw y (local_transforms-applied j r)
        | inr n ↦ rw n (unfold apply_transforms in refl)
      ])
