-- ===== src/Settings.antt =====
-- app/config/settings.py: the settings that are lists and maps, as the gateway reads them from their
-- texts.
mod Examples
pub mod Limits
use Prim.Native.Char.{code}
use sovereign_rag_gateway.Prelude.{
  ℕ, String, Bool, true, false, not, ◌&&◌, Option, none, some, List, [], ◌∷◌, ltb, ◌==◌, str_eq,
  if◌then◌else◌, keep, map,
}
use sovereign_rag_gateway.Prelude.Dict.{Dict, put}
use sovereign_rag_gateway.Prelude.Int.{ℤ, pos_part}
use sovereign_rag_gateway.Prelude.Text.{strip}
use sovereign_rag_gateway.Prelude.Text.Decimal.{code_points, int_of}

-- `s.split(",")`
unfoldable pub split_commas : String → List String
split_commas String.[] = "" ∷ []
split_commas (String.◌∷◌ ch s) =
    let rest = split_commas s in
    if code ch == 44
    then "" ∷ rest
    else elim rest [ [] ↦ String.◌∷◌ ch "" ∷ [] | ◌∷◌ p ps ↦ String.◌∷◌ ch p ∷ ps ]

-- `api_key_set`, and `configured_models` and `rag_allowed_connector_set`, which differ in their text: a
-- set is a list of its items.
unfoldable pub items : String → List String
unfolding split_commas
items raw = keep (λ s. not (str_eq s "")) (map strip (split_commas raw))

-- `s.split(":", 1)`, none without a colon
unfoldable pub split_at_colon : String → Option (String × String)
split_at_colon String.[] = none
split_at_colon (String.◌∷◌ ch s) =
    let rest = split_at_colon s in
    if code ch == 58
    then some ("", s)
    else elim rest [ none ↦ none | some p ↦ some (String.◌∷◌ ch p.0, p.1) ]

-- The entry is left out where the tenant is empty, or the limit no positive number.
abbrev with_limit : String → Option ℤ → Dict ℕ → Dict ℕ
with_limit tenant none result = result
with_limit tenant (some n) result =
    if str_eq tenant ""
    then result
    else if ltb 0 (pos_part n)
    then put tenant (pos_part n) result
    else result

abbrev with_entry : Option (String × String) → Dict ℕ → Dict ℕ
with_entry none result = result
with_entry (some p) result = with_limit (strip p.0) (int_of (code_points (strip p.1))) result

-- The loop of `budget_tenant_ceiling_map` and of `inflight_tenant_limit_map`.
unfoldable pub add_limits : List String → Dict ℕ → Dict ℕ
unfolding split_at_colon
add_limits [] result = result
add_limits (item ∷ more) result = add_limits more (with_entry (split_at_colon (strip item)) result)

unfoldable pub limit_map : String → Dict ℕ
unfolding add_limits split_commas
limit_map raw = add_limits (split_commas raw) []
