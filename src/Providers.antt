-- ===== src/Providers.antt =====
-- app/providers/base.py and app/providers/registry.py: the registered providers, their order for
-- fallback, and the routing of a request. A price is in a small unit of money, where the program
-- has floats; what a provider answers is an argument.
pub mod Sorting
pub mod Chain
pub mod Cheapest
pub mod Routing
mod Examples
use sovereign_rag_gateway.Prelude.{
  ℕ, ◌+◌, ◌*◌, String, Bool, true, false, ◌&&◌, ◌||◌, Option, none, some, List, [], ◌∷◌, ◌++◌, not,
  leb, ltb, str_eq, if◌then◌else◌, length, keep, any_of, ◌==◌, starts_with,
}
use sovereign_rag_gateway.Prelude.Dict.{Dict, get, put, values}
use sovereign_rag_gateway.Prelude.Sorting.{sort_by}
use sovereign_rag_gateway.Prelude.Int.{ℤ, leb_ℤ}

pub record Capabilities : Type 0 where
  pub chat : Bool
  pub embeddings : Bool
  pub streaming : Bool
  pub model_prefixes : List String

unfoldable pub supports_model : Capabilities → String → Bool
supports_model c model = elim c.model_prefixes [
  | [] ↦ true
  | p ∷ ps ↦ any_of (λ q. starts_with model q) (p ∷ ps)
]

pub record Cost : Type 0 where
  pub input_per_token : ℕ
  pub output_per_token : ℕ

-- `ProviderEntry`; the provider object is known by the entry's name.
pub record Entry : Type 0 where
  pub name : String
  pub cost : Cost
  pub capabilities : Capabilities
  pub priority : ℤ
  pub enabled : Bool

abbrev pub Registry : Type 0
Registry = Dict Entry

unfoldable pub register : Entry → Registry → Registry
register entry r = put entry.name entry r

abbrev pub by_priority : Entry → Entry → Bool
by_priority e f = leb_ℤ e.priority f.priority

-- `sorted(..., key=lambda e: e.priority)`
abbrev pub sort_by_priority : List Entry → List Entry
sort_by_priority entries = sort_by by_priority entries

abbrev pub enabled_entries : Registry → List Entry
enabled_entries r = keep (λ e. e.enabled) (values r)

pub list_providers : Registry → List Entry
list_providers r = sort_by_priority (enabled_entries r)

abbrev pub estimated_cost : ℕ → ℕ → Entry → ℕ
estimated_cost input output e = e.cost.input_per_token * input + e.cost.output_per_token * output

-- `min(..., key=...)`: the first of the least.
unfoldable pub min_by_cost : (Entry → ℕ) → Entry → List Entry → Entry
min_by_cost key best [] = best
min_by_cost key best (e ∷ es) = min_by_cost key (if ltb (key e) (key best) then e else best) es

unfoldable pub cheapest_for_tokens : Registry → ℕ → ℕ → Option Entry
cheapest_for_tokens r input output = elim (enabled_entries r) [
  | [] ↦ none
  | e ∷ es ↦ some (min_by_cost (estimated_cost input output) e es)
]

unfoldable pub fallback_chain : Registry → String → List Entry
fallback_chain r primary = elim (get primary r) [
  | none ↦ sort_by_priority (enabled_entries r)
  | some e ↦
      if e.enabled
      then e ∷ sort_by_priority (keep (λ f. not (str_eq f.name primary)) (enabled_entries r))
      else sort_by_priority (enabled_entries r)
]

pub data Operation : Type 0 where
  chat_operation embeddings_operation : Operation

abbrev pub member : String → List String → Bool
member k ks = any_of (λ j. str_eq j k) ks

-- What a request wants of a provider. `allowed_provider_names` is none where policy sets no limit.
pub record Demand : Type 0 where
  pub operation : Operation
  pub model : String
  pub requires_stream : Bool
  pub allowed_provider_names : Option (List String)

abbrev pub can_operate : Operation → Capabilities → Bool
can_operate chat_operation c = c.chat
can_operate embeddings_operation c = c.embeddings

abbrev pub is_allowed : Option (List String) → String → Bool
is_allowed none name = true
is_allowed (some names) name = member name names

unfoldable pub is_eligible : Demand → Entry → Bool
unfolding supports_model
is_eligible d e =
    if not e.enabled
    then false
    else if not (is_allowed d.allowed_provider_names e.name)
    then false
    else if not (can_operate d.operation e.capabilities)
    then false
    else if d.requires_stream && not e.capabilities.streaming
    then false
    else supports_model e.capabilities d.model

unfoldable pub eligible_chain : Registry → String → Demand → List Entry
eligible_chain r primary d = keep (is_eligible d) (fallback_chain r primary)

-- `ProviderError`
pub record ProviderError : Type 0 where
  pub status_code : ℕ
  pub code : String
  pub message : String
  pub error_type : String

-- What a call of a provider comes to: an answer, a `ProviderError`, or any other exception.
pub data Outcome (R : Type 0) : Type 0 where
  reply : R → Outcome R
  provider_error : ProviderError → Outcome R
  other_exception : Outcome R

-- How routing ends. `assertion_failed` is the `assert last_error is not None`.
pub data Routed (R : Type 0) : Type 0 where
  routed :
      (provider_name : String)
      → (result : R) → (fallback_chain : List String) → (attempts : ℕ) → Routed R
  raised : ProviderError → Routed R
  crashed : Routed R
  assertion_failed : Routed R

-- `frozenset({429, 502, 503})`
abbrev pub retryable : ℕ → Bool
retryable status_code = status_code == 429 || status_code == 502 || status_code == 503

abbrev pub no_match : String → ProviderError
no_match message = record {
  status_code = 503;
  code = "no_provider_match";
  message = message;
  error_type = "provider";
}

module _ {R : Type 0} (call : Entry → Outcome R) where
  -- The loop over the chain, with the names tried so far and the last error.
  unfoldable pub route_loop : List Entry → List String → Option ProviderError → Routed R
  route_loop [] attempts none = assertion_failed
  route_loop [] attempts (some last_error) = raised last_error
  route_loop (entry ∷ rest) attempts last_error =
      let tried : List String = attempts ++ entry.name ∷ [] in
      elim (call entry) [
        | reply result ↦ routed entry.name result tried (length tried)
        | provider_error exc ↦
            let go_on = route_loop rest tried (some exc) in
            if retryable exc.status_code then go_on else raised exc
        | other_exception ↦ crashed
      ]

  unfoldable pub route_chain : String → List Entry → Routed R
  unfolding route_loop
  route_chain message [] = raised (no_match message)
  route_chain message (e ∷ es) = route_loop (e ∷ es) [] none

  unfoldable pub route_with_fallback : Registry → String → String → Option (List String) → Routed R
  route_with_fallback r primary model allowed =
      route_chain "No eligible providers for requested chat operation" (
        eligible_chain r primary (record {
          operation = chat_operation;
          model = model;
          requires_stream = false;
          allowed_provider_names = allowed;
        }))

  unfoldable pub route_embeddings_with_fallback :
      Registry → String → String → Option (List String) → Routed R
  route_embeddings_with_fallback r primary model allowed =
      route_chain "No eligible providers for requested embeddings operation" (
        eligible_chain r primary (record {
          operation = embeddings_operation;
          model = model;
          requires_stream = false;
          allowed_provider_names = allowed;
        }))

-- A stream that has been opened: its first chunk, none if it was empty, and what is to come.
pub record Opened (C S : Type 0) : Type 0 where
  pub first_chunk : Option C
  pub stream : S

module _ {C S : Type 0} (open_stream : Entry → Outcome (Opened C S)) where
  unfoldable pub route_stream_with_fallback :
      Registry → String → String → Option (List String) → Routed (Opened C S)
  route_stream_with_fallback r primary model allowed =
      route_chain open_stream "No eligible providers for requested streaming chat operation" (
        eligible_chain r primary (record {
          operation = chat_operation;
          model = model;
          requires_stream = true;
          allowed_provider_names = allowed;
        }))
