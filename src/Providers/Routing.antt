-- ===== src/Providers/Routing.antt =====
-- What a routed request tells of the calls that were made.
use mathlib.Core.List.{map-append}
use mathlib.Core.Path.{subst}
use sovereign_rag_gateway.Prelude.{
  suc, sym, ℕ, ◌+◌, ◌≡◌, ◌≢◌, ◌⊎◌, refl, ap, String, true, false, Option, none, some, List, [], ◌∷◌,
  ◌++◌, arith, length, map, All, All-keep_self, Bool-cases, inl, inr, length-append, append_assoc,
  All-append, ◌∙◌,
}
use sovereign_rag_gateway.Providers.{
  Entry, Registry, Demand, is_eligible, eligible_chain, ProviderError, Outcome, reply,
  provider_error, other_exception, Routed, routed, raised, crashed, assertion_failed, retryable,
  no_match, route_loop, route_chain, route_with_fallback, can_operate, is_allowed, supports_model,
  fallback_chain,
}

abbrev names : List Entry → List String
names es = map (λ e. e.name) es

module _ {R : Type 0} (call : Entry → Outcome R) where
  -- The call fails in a way that lets the next provider be tried.
  abbrev pub FailsOver : Entry → Type 0
  FailsOver e = (x : ProviderError) × (call e ≡ provider_error x) × (retryable x.status_code ≡ true)

  -- `e` is the provider that ends the routing: the ones before it in the chain all failed over.
  pub record Ends (chain : List Entry) (e : Entry) : Type 0 where
    pub before : List Entry
    pub after : List Entry
    pub split : chain ≡ before ++ e ∷ after
    pub failed : All FailsOver before

  -- What the result says of the calls along a chain that is not empty.
  abbrev pub Explains : List Entry → Routed R → Type 0
  Explains chain (routed name result tried attempts) =
      (e : Entry) × (w : Ends chain e) × (call e ≡ reply result)
      × (name ≡ e.name)
      × (tried ≡ names (w.before ++ e ∷ []))
      × (attempts ≡ length w.before + 1)
  Explains chain (raised x) =
      (e : Entry) × (w : Ends chain e) × (call e ≡ provider_error x)
      × ((retryable x.status_code ≡ false) ⊎ (w.after ≡ []))
  Explains chain crashed = (e : Entry) × Ends chain e × (call e ≡ other_exception)
  Explains chain assertion_failed = ⊥

Outcome-cases :
    {R : Type 0} (o : Outcome R)
    → ((r : R) × (o ≡ reply r))
      ⊎ ((x : ProviderError) × (o ≡ provider_error x))
      ⊎ (o ≡ other_exception)
Outcome-cases (reply r) = inl (r, refl)
Outcome-cases (provider_error x) = inr (inl (x, refl))
Outcome-cases other_exception = inr (inr refl)

length-names : (es : List Entry) → length (names es) ≡ length es
length-names [] = refl
length-names (e ∷ es) = ap suc (length-names es)

module _ {R : Type 0} (call : Entry → Outcome R) where
  -- One round of the loop, from a point where the entries `done` have failed over.
  round-Explains :
      (e : Entry) (rest done chain : List Entry) (attempts : List String)
      (last : Option ProviderError)
      → chain ≡ done ++ e ∷ rest
      → attempts ≡ names done
      → All (FailsOver call) done
      → ((x : ProviderError)
          → call e ≡ provider_error x
          → retryable x.status_code ≡ true
          → Explains call chain (route_loop call rest (attempts ++ e.name ∷ []) (some x)))
      → Explains call chain (route_loop call (e ∷ rest) attempts last)
  unfolding route_loop
  round-Explains e rest done chain attempts last s a f go_on =
      let ends : Ends call chain e = record {
        before = done;
        after = rest;
        split = s;
        failed = f;
      } in
      elim (Outcome-cases (call e)) [
        | inl (r, q) ↦
            rw (q, route_loop)
              (
                e,
                ends,
                q,
                refl,
                rw a (sym (map-append (λ d. d.name) done (e ∷ []))),
                rw a (omega (arith, length-append (names done) (e.name ∷ []), length-names done)),
              )
        | inr (inl (x, q)) ↦ elim (Bool-cases (retryable x.status_code)) [
          | inl y ↦ rw (q, route_loop) (simp y (go_on x q y))
          | inr n ↦ rw (q, route_loop) (simp n (e, ends, q, inl refl))
        ]
        | inr (inr q) ↦ rw (q, route_loop) (e, ends, q)
      ]

  loop-Explains :
      (e : Entry) (rest done chain : List Entry) (attempts : List String)
      (last : Option ProviderError)
      → chain ≡ done ++ e ∷ rest
      → attempts ≡ names done
      → All (FailsOver call) done
      → Explains call chain (route_loop call (e ∷ rest) attempts last)
  loop-Explains e [] done chain attempts last s a f =
      round-Explains e [] done chain attempts last s a f λ x q y.
        unfold route_loop in
        (e, record { before = done; after = []; split = s; failed = f }, q, inr refl)
  loop-Explains e (g ∷ rest) done chain attempts last s a f =
      round-Explains e (g ∷ rest) done chain attempts last s a f λ x q y.
        loop-Explains g rest (done ++ e ∷ []) chain (attempts ++ e.name ∷ []) (some x)
          (s ∙ sym (append_assoc done (e ∷ []) (g ∷ rest)))
          (rw a (sym (map-append (λ d. d.name) done (e ∷ []))))
          (All-append _ done (e ∷ []) f ((x, q, y), tt))

  -- Routing along a chain that is not empty: the providers are called in the order of the chain,
  -- each only after all before it have failed with a status of 429, 502 or 503. The result is the
  -- first answer, with the names of all that were called and their number; or the first error that
  -- is not of that kind, or the error of the last provider; or another exception, at once. Along
  -- an empty chain nothing is called. The assertion never fails.
  pub route_chain-explained :
      (message : String) (chain : List Entry)
      → (chain ≡ [] → route_chain call message chain ≡ raised (no_match message))
        × (chain ≢ [] → Explains call chain (route_chain call message chain))
        × (route_chain call message chain ≢ assertion_failed)
  unfolding route_chain
  route_chain-explained message [] = (λ h. refl, λ h. absurd (h refl), λ h. cc)
  route_chain-explained message (e ∷ es) =
      let why = loop-Explains e es [] (e ∷ es) [] none refl refl tt in
      (λ h. absurd (ground arith), λ h. why, λ h. subst (Explains call (e ∷ es)) h why)

All-middle :
    (P : Entry → Type 0) (before after : List Entry) (e : Entry) → All P (before ++ e ∷ after) → P e
All-middle P [] after e h = h.0
All-middle P (b ∷ before) after e h = All-middle P before after e h.1

eligible_facts :
    (d : Demand) (e : Entry)
    → is_eligible d e ≡ true
    → (e.enabled ≡ true)
      × (is_allowed d.allowed_provider_names e.name ≡ true)
      × (can_operate d.operation e.capabilities ≡ true)
      × (supports_model e.capabilities d.model ≡ true)
      × (d.requires_stream ≡ true → e.capabilities.streaming ≡ true)
unfolding is_eligible
eligible_facts d e h = (ground arith, ground arith, ground arith, ground arith, λ s. ground arith)

module _ {R : Type 0} (call : Entry → Outcome R) where
  -- The provider that answered is eligible.
  routed_eligible :
      (message : String) (r : Registry) (primary : String) (d : Demand) (name : String) (result : R)
      (tried : List String) (attempts : ℕ)
      → route_chain call message (eligible_chain r primary d) ≡ routed name result tried attempts
      → (e : Entry) × (call e ≡ reply result) × (name ≡ e.name) × (is_eligible d e ≡ true)
  unfolding eligible_chain
  routed_eligible message r primary d name result tried attempts h =
      elim (chain-cases (eligible_chain r primary d)) [
        | inl n ↦ absurd (
            let empty = (route_chain-explained call message (eligible_chain r primary d)).0 n in cc)
        | inr n ↦
            let why : Explains call (eligible_chain r primary d)
                (routed name result tried attempts) =
              subst (Explains call (eligible_chain r primary d)) h
                ((route_chain-explained call message (eligible_chain r primary d)).1 n) in
            (
              why.0,
              why.2,
              why.3,
              All-middle (λ e. is_eligible d e ≡ true) why.1.before why.1.after why.0
                  (rw (why.1.split) at (All-keep_self (is_eligible d) (fallback_chain r primary))),
            )
      ]
    where
      chain-cases : (es : List Entry) → (es ≡ []) ⊎ (es ≢ [])
      chain-cases [] = inl refl
      chain-cases (e ∷ es) = inr (λ h. ground arith)

  -- A chat request is answered only by an enabled provider that can chat, supports the model, and
  -- is one of those that policy allows, where policy names any; its name is the one reported.
  pub route_with_fallback-allowed :
      (r : Registry) (primary model : String) (allowed : Option (List String)) (name : String)
      (result : R) (tried : List String) (attempts : ℕ)
      → route_with_fallback call r primary model allowed ≡ routed name result tried attempts
      → (e : Entry) × (call e ≡ reply result)
        × (name ≡ e.name)
        × (e.enabled ≡ true)
        × (is_allowed allowed name ≡ true)
        × (e.capabilities.chat ≡ true)
        × (supports_model e.capabilities model ≡ true)
  unfolding route_with_fallback
  route_with_fallback-allowed r primary model allowed name result tried attempts h =
      let (e, q, n, y) = routed_eligible _ r primary _ name result tried attempts h in
      let facts = eligible_facts _ e y in (e, q, n, facts.0, rw n facts.1, facts.2, facts.3)
