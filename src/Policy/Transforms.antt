-- ===== src/Policy/Transforms.antt =====
-- What transforms may do to a request.
use sovereign_rag_gateway.Prelude.{
  ◌≡◌, refl, String, some, List, [], ◌∷◌, ◌++◌, All, arith, str_eq, Bool-cases, Option-cases, inl,
  inr, All-append, append_assoc, sym, ◌∙◌, ap,
}
use mathlib.Core.Option.{some-injective}
use mathlib.Core.Path.{subst}
use sovereign_rag_gateway.Models.{Message, ChatRequest}
use sovereign_rag_gateway.Policy.{
  Json, Transform, apply_transform, apply_transforms, max_tokens_of, guardrail_of, guardrail,
}

-- The messages of a request after transforms: some system messages, and then those of before.
pub record Guarded (before after : ChatRequest) : Type 0 where
  pub guardrails : List Message
  pub split : after.messages ≡ guardrails ++ before.messages
  pub system : All (λ m. m.role ≡ "system") guardrails
  pub rag : after.rag ≡ before.rag
  pub stream : after.stream ≡ before.stream

-- A request with the same messages, options and flag.
kept :
    (r s t : ChatRequest)
    → some t ≡ some s
    → t.messages ≡ r.messages
    → t.rag ≡ r.rag
    → t.stream ≡ r.stream
    → Guarded r s
kept r s t h m g f =
    subst (Guarded r) (some-injective _ _ h)
      (record { guardrails = []; split = m; system = tt; rag = g; stream = f })

guarded :
    (text : String) (r s : ChatRequest)
    → some (record r { messages = guardrail text ∷ r.messages }) ≡ some s
    → Guarded r s
guarded text r s h = subst (Guarded r) (some-injective _ _ h) (record {
  guardrails = guardrail text ∷ [];
  split = refl;
  system = (refl, tt);
  rag = refl;
  stream = refl;
})

and_then : (r s t : ChatRequest) → Guarded r s → Guarded s t → Guarded r t
and_then r s t g h = record {
  guardrails = h.guardrails ++ g.guardrails;
  split =
      h.split
      ∙ ap (λ ms. h.guardrails ++ ms) g.split
      ∙ sym (append_assoc h.guardrails g.guardrails r.messages);
  system = All-append _ h.guardrails g.guardrails h.system g.system;
  rag = h.rag ∙ g.rag;
  stream = h.stream ∙ g.stream;
}

module _ (j : Json) where
  apply_transform-Guarded :
      (t : Transform j.Value) (r s : ChatRequest) → apply_transform j t r ≡ some s → Guarded r s
  unfolding apply_transform
  apply_transform-Guarded t r s = elim (Bool-cases (str_eq t.type "set_max_tokens")) [
    | inl y ↦ rw y (elim (Option-cases (max_tokens_of j t r)) [
      | inl n ↦ rw n (λ h. absurd (ground arith))
      | inr (v, e) ↦ rw e (λ h. kept r s _ h refl refl refl)
    ])
    | inr n ↦ rw n (elim (Bool-cases (str_eq t.type "override_model")) [
      | inl y ↦ rw y (λ h. kept r s _ h refl refl refl)
      | inr n ↦ rw n (elim (Bool-cases (str_eq t.type "prepend_system_guardrail")) [
        | inl y ↦ rw y (elim (Bool-cases (str_eq (guardrail_of j t) "")) [
          | inl y ↦ rw y (λ h. kept r s r h refl refl refl)
          | inr n ↦ rw n (λ h. guarded (guardrail_of j t) r s h)
        ])
        | inr n ↦ rw n (λ h. kept r s r h refl refl refl)
      ])
    ])
  ]

  -- Whatever the transforms, where none raises the messages are the client's, in order and unchanged,
  -- behind system messages that the transforms put first; retrieval and streaming are as asked.
  pub apply_transforms-Guarded :
      (ts : List (Transform j.Value)) (r s : ChatRequest)
      → apply_transforms j r ts ≡ some s
      → Guarded r s
  unfolding apply_transforms
  apply_transforms-Guarded [] r s = λ h. kept r s r h refl refl refl
  apply_transforms-Guarded (t ∷ ts) r s = elim (Option-cases (apply_transform j t r)) [
    | inl n ↦ rw (n, apply_transforms) (λ h. absurd (ground arith))
    | inr (u, e) ↦
        rw (e, apply_transforms)
          (λ h.
            and_then r u s (apply_transform-Guarded t r u e) (apply_transforms-Guarded ts u s h))
  ]
