-- ===== src/Settings/Examples.antt =====
-- Texts with spaces, with entries that are no limits, and with a tenant that is given twice.
use sovereign_rag_gateway.Prelude.{◌≡◌, refl, [], ◌∷◌}
use sovereign_rag_gateway.Prelude.Text.{strip}
use sovereign_rag_gateway.Prelude.Text.Decimal.{code_points, int_of}
use sovereign_rag_gateway.Prelude.Dict.{put}
use sovereign_rag_gateway.Settings.{split_commas, items, split_at_colon, add_limits, limit_map}

keys_read : items " a, ,b" ≡ "a" ∷ "b" ∷ []
unfolding items split_commas strip
keys_read = refl

limits_read : limit_map "acme: 5,none:0,x,b:1_0,acme:7, :3" ≡ ("acme", 7) ∷ ("b", 10) ∷ []
unfolding limit_map split_commas add_limits split_at_colon strip code_points int_of put
limits_read = refl
