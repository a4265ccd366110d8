-- ===== src/Policy.antt =====
-- app/policy: the decision of a policy, its local evaluation, and its transforms. The values of a
-- transform's arguments are JSON values, a parameter; so is what the remote OPA answers, as are the
-- identifier, the hash of the schema and the time that a local decision carries.
pub mod Transforms
pub mod Local
use mathlib.Core.Option
use sovereign_rag_gateway.Prelude.{
  ◌≡◌, ℕ, String, Bool, true, false, ◌&&◌, ◌||◌, Option, none, some, List, [], ◌∷◌, not, str_eq,
  starts_with, if◌then◌else◌, any_of,
}
use sovereign_rag_gateway.Prelude.Dict.{Dict, get}
use sovereign_rag_gateway.Prelude.Int.{ℤ, pos}
use sovereign_rag_gateway.Models.{Message, ChatRequest}

-- JSON values: `int(value)`, none where it raises, and `str(value)`.
pub record Json : Type 1 where
  pub Value : Type 0
  pub int : Value → Option ℤ
  pub str : Value → String
  pub of_int : ℤ → Value
  pub of_str : String → Value
  pub int-of_int : (n : ℤ) → int (of_int n) ≡ some n
  pub str-of_str : (s : String) → str (of_str s) ≡ s

-- `TransformAction`
pub record Transform (V : Type 0) : Type 0 where
  pub type : String
  pub args : Dict V

pub record ProviderConstraints : Type 0 where
  pub allowed_providers : Option (List String)
  pub allowed_models : Option (List String)

-- `PolicyDecision`
pub record Decision (V : Type 0) : Type 0 where
  pub decision_id : String
  pub allow : Bool
  pub deny_reason : Option String
  pub policy_hash : String
  pub evaluated_at : String
  pub transforms : List (Transform V)
  pub provider_constraints : Option ProviderConstraints
  pub connector_constraints : Option (Option (List String))
  pub max_tokens_override : Option ℤ

-- What the gateway asks of the policy.
pub record PolicyInput : Type 0 where
  pub tenant_id : String
  pub user_id : String
  pub endpoint : String
  pub requested_model : String
  pub classification : String
  pub estimated_tokens : ℕ
  pub connector_targets : List String
  pub request_id : String

-- How `evaluate` ends: a decision, `PolicyTimeoutError`, `PolicyValidationError`, or another
-- exception.
pub data Evaluated (V : Type 0) : Type 0 where
  decided : Decision V → Evaluated V
  timed_out : String → Evaluated V
  contract_invalid : String → Evaluated V
  evaluation_crashed : Evaluated V

abbrev pub member_of : List String → String → Bool
member_of names k = any_of (λ j. str_eq j k) names

-- `classification in {"phi", "pii"}`
abbrev pub is_sensitive : String → Bool
is_sensitive classification = str_eq classification "phi" || str_eq classification "pii"

abbrev pub guardrail : String → Message
guardrail text = record { role = "system"; content = text }

module _ (j : Json) where
  open j use {Value, int, str, of_int, of_str}

  -- `output.get("max_tokens", 256)`: the key is there, its value may be None, and `int(None)` raises.
  unfoldable pub max_tokens_of : Transform Value → ChatRequest → Option ℤ
  max_tokens_of t output = elim (get "value" t.args) [ none ↦ output.max_tokens | some v ↦ int v ]

  unfoldable pub model_of : Transform Value → String → String
  model_of t model = elim (get "model" t.args) [ none ↦ model | some v ↦ str v ]

  unfoldable pub guardrail_of : Transform Value → String
  guardrail_of t = elim (get "text" t.args) [ none ↦ "" | some v ↦ str v ]

  -- One round of the loop of `apply_transforms`; none where `int` raises.
  unfoldable pub apply_transform : Transform Value → ChatRequest → Option ChatRequest
  apply_transform t output =
      if str_eq t.type "set_max_tokens"
      then Option.map (λ value. record output { max_tokens = some value }) (max_tokens_of t output)
      else if str_eq t.type "override_model"
      then some (record output { model = model_of t output.model })
      else if str_eq t.type "prepend_system_guardrail"
      then if str_eq (guardrail_of t) ""
        then some output
        else some (record output { messages = guardrail (guardrail_of t) ∷ output.messages })
      else some output

  unfoldable pub apply_transforms : ChatRequest → List (Transform Value) → Option ChatRequest
  apply_transforms output [] = some output
  apply_transforms output (t ∷ ts) = elim (apply_transform t output) [
    | none ↦ none
    | some next ↦ apply_transforms next ts
  ]

  -- The transforms of the local policy.
  abbrev pub local_guardrail : Transform Value
  local_guardrail = record {
    type = "prepend_system_guardrail";
    args = ("text", of_str "Do not expose sensitive identifiers. Use masked placeholders.") ∷ [];
  }

  abbrev pub local_max_tokens : Transform Value
  local_max_tokens = record { type = "set_max_tokens"; args = ("value", of_int (pos 256)) ∷ [] }

  abbrev pub local_transforms : List (Transform Value)
  local_transforms = local_guardrail ∷ local_max_tokens ∷ []

  -- `_evaluate_local`; the allow list is the sorted set of the settings.
  unfoldable pub evaluate_local :
      String → String → String → List String → PolicyInput → Decision Value
  evaluate_local decision_id policy_hash evaluated_at allowed_connectors payload =
      let model_ok : Bool = not (starts_with payload.requested_model "forbidden") in
      let connectors_ok : Bool =
        not (any_of (λ item. not (member_of allowed_connectors item)) payload.connector_targets) in
      let allow : Bool = model_ok && connectors_ok in
      record {
        decision_id = decision_id;
        allow = allow;
        deny_reason =
            if not model_ok
            then some "model_not_allowed"
            else if not connectors_ok
            then some "connector_not_allowed"
            else none;
        policy_hash = policy_hash;
        evaluated_at = evaluated_at;
        transforms = if allow && is_sensitive payload.classification then local_transforms else [];
        provider_constraints = some (record {
          allowed_providers = some ("stub" ∷ []);
          allowed_models = some (payload.requested_model ∷ []);
        });
        connector_constraints = some (some allowed_connectors);
        max_tokens_override = if allow then some (pos 256) else none;
      }

  -- The settings that `evaluate` reads, with what a local decision carries.
  pub record PolicySettings : Type 0 where
    pub opa_simulate_timeout : Bool
    pub opa_url : Option String
    pub allowed_connectors : List String
    pub decision_id : String
    pub policy_hash : String
    pub evaluated_at : String

  -- `evaluate`: the remote answer stands for `_evaluate_remote` with the defaults and the schema
  -- check; the local decision has every key, so that no default is set.
  unfoldable pub evaluate :
      PolicySettings
      → (String → PolicyInput → Evaluated Value)
      → (Decision Value → Bool)
      → PolicyInput
      → Evaluated Value
  unfolding evaluate_local
  evaluate s remote valid payload =
      let local : Decision Value =
        evaluate_local s.decision_id s.policy_hash s.evaluated_at s.allowed_connectors payload in
      let here : Evaluated Value =
        if valid local then decided local else contract_invalid "schema" in
      if s.opa_simulate_timeout then timed_out "OPA timed out" else elim s.opa_url [
        | none ↦ here
        | some url ↦ if str_eq url "" then here else remote url payload
      ]
