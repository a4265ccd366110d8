-- ===== src/Providers/Examples.antt =====
-- A registry of three providers: a primary, a fallback that is cheaper, and one that is disabled.
use sovereign_rag_gateway.Prelude.{
  ◌↔◌, ℕ, ◌≡◌, ◌≢◌, ◌⊎◌, refl, String, Bool, true, false, Option, none, some, List, [], ◌∷◌, Perm,
  keep, ◌*◌, if◌then◌else◌, str_eq,
}
use sovereign_rag_gateway.Prelude.Sorting.{sort_by, insert_by}
use sovereign_rag_gateway.Prelude.Int.{pos}
use sovereign_rag_gateway.Prelude.Dict.{get, put, values}
use sovereign_rag_gateway.Providers.{
  register, route_with_fallback, fallback_chain, Entry, Registry, Demand, chat_operation,
  is_eligible, eligible_chain, is_allowed, supports_model, estimated_cost, enabled_entries,
  cheapest_for_tokens, ProviderError, Outcome, reply, provider_error, raised, assertion_failed,
  no_match, route_chain,
}
use sovereign_rag_gateway.Providers.Sorting.{IsSorted}
use sovereign_rag_gateway.Providers.Chain.{
  register_all, register_all-IsKeyed, eligible_chain-perm, eligible_chain-order,
}
use sovereign_rag_gateway.Providers.Cheapest.{IsFirstLeast, cheapest_for_tokens-IsFirstLeast}
use sovereign_rag_gateway.Providers.Routing.{
  Explains, route_chain-explained, route_with_fallback-allowed,
}

abbrev provider : String → ℕ → ℕ → Bool → Entry
provider name cost priority enabled = record {
  name = name;
  cost = record { input_per_token = cost; output_per_token = 2 * cost };
  capabilities = record {
    chat = true;
    embeddings = false;
    streaming = true;
    model_prefixes = "gpt" ∷ [];
  };
  priority = pos priority;
  enabled = enabled;
}

abbrev entries : List Entry
entries = provider "azure" 3 20 true ∷ provider "openai" 5 10 true ∷ provider "local" 1 5 false ∷ []

abbrev providers : Registry
providers = register_all entries

abbrev gpt : Demand
gpt = record {
  operation = chat_operation;
  model = "gpt-4o";
  requires_stream = false;
  allowed_provider_names = none;
}

eligible_chain-perm_example :
    Perm (eligible_chain providers "azure" gpt) (keep (is_eligible gpt) (values providers))
eligible_chain-perm_example =
    eligible_chain-perm providers "azure" gpt (register_all-IsKeyed entries)

eligible_chain-order_example :
    ((e : Entry) × (rest : List Entry) × (get "azure" providers ≡ some e)
      × (is_eligible gpt e ≡ true)
      × (eligible_chain providers "azure" gpt ≡ e ∷ rest)
      × IsSorted rest)
    ⊎ (((e : Entry) → get "azure" providers ≡ some e → is_eligible gpt e ≡ false)
        × IsSorted (eligible_chain providers "azure" gpt))
eligible_chain-order_example = eligible_chain-order providers "azure" gpt

cheapest_for_tokens-IsFirstLeast_example :
    ((e : Entry)
      → cheapest_for_tokens providers 100 50 ≡ some e
      → IsFirstLeast (estimated_cost 100 50) e (enabled_entries providers))
    × (cheapest_for_tokens providers 100 50 ≡ none ↔ enabled_entries providers ≡ [])
cheapest_for_tokens-IsFirstLeast_example = cheapest_for_tokens-IsFirstLeast providers 100 50

abbrev overloaded : ProviderError
overloaded = record {
  status_code = 503;
  code = "overloaded";
  message = "busy";
  error_type = "provider";
}

-- The primary provider is overloaded, and the next one answers.
abbrev call : Entry → Outcome String
call e = if str_eq e.name "azure" then provider_error overloaded else reply "hello"

route_chain-explained_example :
    (eligible_chain providers "azure" gpt ≡ []
      → route_chain call "none" (eligible_chain providers "azure" gpt) ≡ raised (no_match "none"))
    × (eligible_chain providers "azure" gpt ≢ []
        → Explains call
            (eligible_chain providers "azure" gpt)
            (route_chain call "none" (eligible_chain providers "azure" gpt)))
    × (route_chain call "none" (eligible_chain providers "azure" gpt) ≢ assertion_failed)
route_chain-explained_example =
    route_chain-explained call "none" (eligible_chain providers "azure" gpt)

abbrev allowed : Option (List String)
allowed = some ("openai" ∷ "azure" ∷ [])

route_with_fallback-allowed_example :
    (e : Entry) × (call e ≡ reply "hello")
    × ("openai" ≡ e.name)
    × (e.enabled ≡ true)
    × (is_allowed allowed "openai" ≡ true)
    × (e.capabilities.chat ≡ true)
    × (supports_model e.capabilities "gpt-4o" ≡ true)
unfolding route_with_fallback route_chain eligible_chain fallback_chain get register_all register
    put is_eligible sort_by insert_by
route_with_fallback-allowed_example =
    route_with_fallback-allowed call providers "azure" "gpt-4o" allowed "openai" "hello"
      ("azure" ∷ "openai" ∷ []) 2 refl
