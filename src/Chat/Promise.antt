-- ===== src/Chat/Promise.antt =====
-- The promises of `handle_chat`, for a request that gets a response.
use mathlib.Core.Path.{subst}
use sovereign_rag_gateway.Prelude.{
  ◌≡◌, ◌≢◌, refl, String, Bool, true, false, not, ◌&&◌, Option, some, List, [], arith, str_eq,
  Bool-cases, Option-cases, inl, inr, ap, sym, ◌⊎◌, if◌then◌else◌,
}
use sovereign_rag_gateway.Models.{
  Message, ChatRequest, ChatResponse, RagOptions, DocumentChunk, Citation,
}
use sovereign_rag_gateway.Policy.{apply_transforms}
use sovereign_rag_gateway.Redaction.{redact_messages}
use sovereign_rag_gateway.Retrieval.{
  is_denied, retrieve, Orchestrator, RetrievalRequest, Retrieved, chunks, search_crashed,
  retrieval_denied, connector_not_found,
}
use sovereign_rag_gateway.Webhooks.{EventType}
use sovereign_rag_gateway.Chat.Service.{Service, Caller, ok}
use sovereign_rag_gateway.Chat.Gate.{
  Verdict, Gateway, chat_ask, policy_deny_event, write_gate_audit, acquire_inflight_or_deny,
  release_inflight, deny_by_policy, resolve_policy_decision, queue_event,
}
use sovereign_rag_gateway.Chat.Handle.{follow, serve, handle_chat, no_response}
use sovereign_rag_gateway.Chat.Prepare.{
  Prepared, policy_input, prepare, add_context, redact_input, must_redact, model_allowed,
  allowed_providers, allowed_connectors, rag_requested, retrieve_chunks, retrieval_request,
}
use sovereign_rag_gateway.Chat.Stages.{
  ok-injective, slot-ok, log-release_inflight, Result-cases, Logged-cases,
}
use sovereign_rag_gateway.Chat.Answer.{Forwarded, forward-ok}

module _ (svc : Service) where
  retrieve-allowed :
      (o : Orchestrator) (request : RetrievalRequest) (allowed : Option (List String))
      (cs : List DocumentChunk)
      → retrieve o request allowed ≡ chunks cs
      → is_denied allowed request.connector ≡ false
  unfolding retrieve
  retrieve-allowed o request allowed cs = elim (Bool-cases (is_denied allowed request.connector)) [
    | inl y ↦ rw y (λ h. absurd (ground arith))
    | inr n ↦ λ h. n
  ]

  Retrieved-cases :
      (r : Retrieved)
      → ((cs : List DocumentChunk) × (r ≡ chunks cs))
        ⊎ ((s : String) × (r ≡ retrieval_denied s))
        ⊎ ((s : String) × (r ≡ connector_not_found s))
        ⊎ (r ≡ search_crashed)
  Retrieved-cases (chunks cs) = inl (cs, refl)
  Retrieved-cases (retrieval_denied s) = inr (inl (s, refl))
  Retrieved-cases (connector_not_found s) = inr (inr (inl (s, refl)))
  Retrieved-cases search_crashed = inr (inr (inr refl))

  retrieve_chunks-allowed :
      (request : RetrievalRequest) (d : Verdict svc) (cs : List DocumentChunk)
      → retrieve_chunks svc request d ≡ ok cs
      → is_denied (allowed_connectors svc d) request.connector ≡ false
  unfolding retrieve_chunks
  retrieve_chunks-allowed request d cs = elim (Option-cases svc.retrieval) [
    | inl n ↦ rw (n, retrieve_chunks) (λ h. absurd (ground arith))
    | inr (o, e) ↦
        let allowed = allowed_connectors svc d in
        rw (e, retrieve_chunks)
          (elim (Retrieved-cases (retrieve o request allowed)) [
            | inl (xs, q) ↦ λ h. retrieve-allowed o request allowed xs q
            | inr (inl (s, q)) ↦ rw q (λ h. absurd (ground arith))
            | inr (inr (inl (s, q))) ↦ rw q (λ h. absurd (ground arith))
            | inr (inr (inr q)) ↦ rw q (λ h. absurd (ground arith))
          ])
  ]

  add_context-allowed :
      (req : ChatRequest) (d : Verdict svc) (messages : List Message) (rag : RagOptions)
      → rag_requested svc req ≡ some rag
      → (found : _) → add_context svc req d messages ≡ ok found
      → is_denied (allowed_connectors svc d) rag.connector ≡ false
  unfolding add_context
  add_context-allowed req d messages rag asked found =
      rw (asked, add_context)
        (elim (Result-cases (retrieve_chunks svc (retrieval_request svc req rag) d)) [
          | inl (cs, q) ↦ λ h. retrieve_chunks-allowed (retrieval_request svc req rag) d cs q
          | inr (inl (x, q)) ↦ rw q (λ h. absurd (ground arith))
          | inr (inr q) ↦ rw q (λ h. absurd (ground arith))
        ])

  -- What a prepared request has been through.
  pub record Cleared (caller : Caller) (req : ChatRequest) (d : Verdict svc) (p : Prepared)
      : Type 0 where
    pub transformed : ChatRequest
    pub by_policy : apply_transforms svc.json req d.transforms ≡ some transformed
    pub messages : List Message
    pub in_context : add_context svc req d transformed.messages ≡ ok (messages, p.citations)
    pub redacted : p.request.messages ≡ (
        if must_redact svc caller
        then (redact_messages svc.patterns messages).messages
        else messages)
    pub of_model : p.request.model ≡ transformed.model
    pub model_ok : model_allowed svc d p.request.model ≡ true
    pub of_providers : p.allowed_provider_names ≡ allowed_providers svc d
    pub connector_ok :
        (rag : RagOptions)
        → rag_requested svc req ≡ some rag
        → is_denied (allowed_connectors svc d) rag.connector ≡ false

  cleared :
      (caller : Caller) (req : ChatRequest) (d : Verdict svc) (t : ChatRequest)
      (found : List Message × Option (List Citation))
      → apply_transforms svc.json req d.transforms ≡ some t
      → add_context svc req d t.messages ≡ ok found
      → model_allowed svc d t.model ≡ true
      → (p : Prepared)
      → record {
        request = record {
          model = t.model;
          messages = (redact_input svc caller found.0).0;
          max_tokens = t.max_tokens;
        };
        citations = found.1;
        input_redaction_count = (redact_input svc caller found.0).1;
        allowed_provider_names = allowed_providers svc d;
      }
        ≡ p
      → Cleared caller req d p
  unfolding redact_input
  cleared caller req d t found e q y p h = subst (Cleared caller req d) h (record {
    transformed = t;
    by_policy = e;
    messages = found.0;
    in_context = q;
    redacted = elim (Bool-cases (must_redact svc caller)) [
      | inl m ↦ simp m refl
      | inr m ↦ simp m refl
    ];
    of_model = refl;
    model_ok = y;
    of_providers = refl;
    connector_ok = λ rag asked. add_context-allowed req d t.messages rag asked found q;
  })

  either : (a b : Bool) → not a && b ≡ false → (a ≡ true) ⊎ (b ≡ false)
  either true b h = inl refl
  either false b h = inr h

  denied-ends :
      (caller : Caller) (req : ChatRequest) (d : Verdict svc) (g : Gateway svc) (r : ChatResponse)
      → no_response svc (deny_by_policy svc caller (chat_ask svc false req) d g).0 ≢ ok r
  unfolding deny_by_policy write_gate_audit
  denied-ends caller req d g r =
      let (events, h) = queue_event svc EventType.policy_denied [] g in
      let event = policy_deny_event svc caller (chat_ask svc false req) d events in
      elim (Logged-cases (svc.write_event event h.log).0) [
        | inl y ↦ rw y (λ h. absurd (ground arith))
        | inr (inl y) ↦ rw y (λ h. absurd (ground arith))
        | inr (inr y) ↦ rw y (λ h. absurd (ground arith))
      ]

  prepare-ok :
      (caller : Caller) (req : ChatRequest) (d : Verdict svc) (p : Prepared)
      → prepare svc caller req d ≡ ok p
      → Cleared caller req d p
  unfolding prepare redact_input
  prepare-ok caller req d p = elim (Option-cases (apply_transforms svc.json req d.transforms)) [
    | inl n ↦ rw (n, prepare) (λ h. absurd (ground arith))
    | inr (t, e) ↦
        rw (e, prepare)
          (elim (Result-cases (add_context svc req d t.messages)) [
            | inl (found, q) ↦ rw q (elim (Bool-cases (model_allowed svc d t.model)) [
              | inl y ↦ rw y (λ h. cleared caller req d t found e q y p (ok-injective h))
              | inr n ↦ rw n (λ h. absurd (ground arith))
            ])
            | inr (inl (x, q)) ↦ rw q (λ h. absurd (ground arith))
            | inr (inr q) ↦ rw q (λ h. absurd (ground arith))
          ])
  ]

  -- What a response of `handle_chat` says of the whole request, from the state it began in to the log
  -- it ended with.
  pub record Answer (caller : Caller) (req : ChatRequest) (ledger : Option svc.Ledger)
      (log end : svc.Log) (r : ChatResponse) : Type 0 where
    pub decision : Verdict svc
    pub decided : resolve_policy_decision svc (policy_input svc caller req) ≡ ok decision
    pub permitted : (decision.allow ≡ true) ⊎ (str_eq svc.settings.opa_mode "enforce" ≡ false)
    pub prepared : Prepared
    pub cleared : Cleared caller req decision prepared
    pub forwarded : Forwarded svc caller prepared ledger log end r

  follow-ok :
      (caller : Caller) (req : ChatRequest) (d : Verdict svc) (g : Gateway svc) (r : ChatResponse)
      → resolve_policy_decision svc (policy_input svc caller req) ≡ ok d
      → (follow svc caller req d g).0 ≡ ok r
      → Answer caller req g.ledger g.log (follow svc caller req d g).1.log r
  unfolding follow
  follow-ok caller req d g r decided =
      elim (Bool-cases (not d.allow && str_eq svc.settings.opa_mode "enforce")) [
        | inl y ↦ simp y (λ h. absurd (denied-ends caller req d g r h))
        | inr n ↦ simp n (elim (Result-cases (prepare svc caller req d)) [
          | inl (p, e) ↦ simp e (λ h. record {
            decision = d;
            decided = decided;
            permitted = either d.allow (str_eq svc.settings.opa_mode "enforce") n;
            prepared = p;
            cleared = prepare-ok caller req d p e;
            forwarded = forward-ok svc caller req d p g r h;
          })
          | inr (inl (x, e)) ↦ simp e (λ h. absurd (ground arith))
          | inr (inr e) ↦ simp e (λ h. absurd (ground arith))
        ])
      ]

  serve-ok :
      (caller : Caller) (req : ChatRequest) (g : Gateway svc) (r : ChatResponse)
      → (serve svc caller req g).0 ≡ ok r
      → Answer caller req g.ledger g.log (serve svc caller req g).1.log r
  unfolding serve
  serve-ok caller req g r =
      elim (Result-cases (resolve_policy_decision svc (policy_input svc caller req))) [
        | inl (d, e) ↦ rw (e, serve) (λ h. follow-ok caller req d g r e h)
        | inr (inl (x, e)) ↦ rw (e, serve) (λ h. absurd (ground arith))
        | inr (inr e) ↦ rw (e, serve) (λ h. absurd (ground arith))
      ]

  -- A response is given only after all of this: the policy has decided, and allows the request if the
  -- mode is "enforce"; the messages are the transformed ones, with the context of a connector that
  -- is allowed, redacted where the caller's classification asks for it; the model is allowed, and the
  -- budget had room for the estimate; a provider has answered that very request; the response is its
  -- answer, redacted, with the citations; and the log has persisted one event, of this request, with
  -- the provider, its attempts and tokens, and the hash of the redacted messages.
  pub handle_chat-answered :
      (caller : Caller) (req : ChatRequest) (g : Gateway svc) (r : ChatResponse)
      → (handle_chat svc caller req g).0 ≡ ok r
      → Answer caller req g.ledger g.log (handle_chat svc caller req g).1.log r
  unfolding handle_chat
  handle_chat-answered caller req g r =
      elim (Result-cases (acquire_inflight_or_deny svc caller (chat_ask svc false req) g).0) [
        | inl (u, e) ↦
            let h = (acquire_inflight_or_deny svc caller (chat_ask svc false req) g).1 in
            let taken : acquire_inflight_or_deny svc caller (chat_ask svc false req) g
                ≡ (ok tt, h) =
              ap (λ x. (x, h)) e in
            let end = (serve svc caller req h).1 in
            let same = slot-ok svc caller (chat_ask svc false req) g h taken in
            rw (e, handle_chat)
              (λ k.
                subst (λ l. Answer caller req l g.log (release_inflight svc caller end).log r)
                  same.0
                  (subst (λ l. Answer caller req h.ledger l (release_inflight svc caller end).log r)
                    same.1
                    (subst (λ l. Answer caller req h.ledger h.log l r)
                      (sym (log-release_inflight svc caller end).0) (serve-ok caller req h r k))))
        | inr (inl (x, e)) ↦ rw (e, handle_chat) (λ h. absurd (ground arith))
        | inr (inr e) ↦ rw (e, handle_chat) (λ h. absurd (ground arith))
      ]
