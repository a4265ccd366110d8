-- ===== src/Retrieval.antt =====
-- app/rag/retrieval.py and app/rag/registry.py: the retrieval from a registered connector. What a
-- connector finds is an argument.
use sovereign_rag_gateway.Prelude.{
  String, Bool, false, Option, none, some, List, not, if◌then◌else◌, any_of, str_eq,
}
use sovereign_rag_gateway.Prelude.Dict.{Dict, get, put}
use sovereign_rag_gateway.Prelude.Int.{ℤ, pos, ltb_ℤ}
use sovereign_rag_gateway.Models.{DocumentChunk}

pub record RetrievalRequest : Type 0 where
  pub query : String
  pub connector : String
  pub k : ℤ
  pub filters : Dict String

-- `Connector.search`, by query, filters and k; none is an exception that it raises.
abbrev pub Connector : Type 0
Connector = String → Dict String → ℤ → Option (List DocumentChunk)

-- `ConnectorRegistry`
abbrev pub Connectors : Type 0
Connectors = Dict Connector

abbrev pub register_connector : String → Connector → Connectors → Connectors
register_connector name connector r = put name connector r

-- `RetrievalOrchestrator`
pub record Orchestrator : Type 0 where
  pub registry : Connectors
  pub default_k : ℤ

-- How `retrieve` ends: chunks, `RetrievalDeniedError`, `ConnectorNotFoundError`, or an exception of
-- the connector's search.
pub data Retrieved : Type 0 where
  chunks : List DocumentChunk → Retrieved
  retrieval_denied : String → Retrieved
  connector_not_found : String → Retrieved
  search_crashed : Retrieved

-- `allowed_connectors is not None and request.connector not in allowed_connectors`
abbrev pub is_denied : Option (List String) → String → Bool
is_denied none connector = false
is_denied (some names) connector = not (any_of (λ j. str_eq j connector) names)

abbrev found_by : Option (List DocumentChunk) → Retrieved
found_by none = search_crashed
found_by (some cs) = chunks cs

unfoldable pub retrieve : Orchestrator → RetrievalRequest → Option (List String) → Retrieved
retrieve o request allowed =
    if is_denied allowed request.connector
    then retrieval_denied request.connector
    else elim (get request.connector o.registry) [
      | none ↦ connector_not_found request.connector
      | some search ↦ found_by (
          search request.query request.filters
            (if ltb_ℤ (pos 0) request.k then request.k else o.default_k))
    ]
