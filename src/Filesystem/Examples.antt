-- ===== src/Filesystem/Examples.antt =====
-- An index of three records, one of another tenant; the tokens of a text are the text itself.
use sovereign_rag_gateway.Prelude.{ℕ, ◌≡◌, refl, String, List, [], ◌∷◌, keep, map, take, Perm}
use sovereign_rag_gateway.Prelude.Dict.{Dict, get}
use sovereign_rag_gateway.Prelude.Int.{ℤ, pos, pos_part, ◌≤ℤ◌}
use sovereign_rag_gateway.Prelude.Text.{strip}
use sovereign_rag_gateway.Prelude.Sorting.{IsOrdered, sort_by, insert_by}
use sovereign_rag_gateway.Models.{DocumentChunk}
use sovereign_rag_gateway.Filesystem.{Record, chunk_of, rank, search}
use sovereign_rag_gateway.Filesystem.TopK.{is_candidate, search-top}

abbrev whole_text : String → List String
whole_text s = s ∷ []

abbrev millionths : ℕ → ℕ → ℤ
millionths n of_all = pos n

abbrev entry : String → String → String → Record
entry chunk_id text tenant = record {
  source_id = "s";
  uri = "";
  chunk_id = chunk_id;
  text = text;
  metadata = ("tenant", tenant) ∷ [];
}

abbrev index : List Record
index = entry "1" "b" "acme" ∷ entry "2" "a" "acme" ∷ entry "3" "a" "other" ∷ []

abbrev filters : Dict String
filters = ("tenant", "acme") ∷ []

search-top_example :
    (ranked : List DocumentChunk) × Perm ranked
      (map (chunk_of whole_text millionths "fs" "a") (keep (is_candidate filters) index))
    × IsOrdered (λ c d. d.score ≤ℤ c.score) ranked
    × (search whole_text millionths "fs" index "a" filters (pos 1) ≡ take (pos_part (pos 1)) ranked)
search-top_example = search-top whole_text millionths "fs" "a" filters index (pos 1)

best_of_tenant :
    map (λ c. c.chunk_id) (search whole_text millionths "fs" index "a" filters (pos 1)) ≡ "2" ∷ []
unfolding search rank sort_by insert_by strip get
best_of_tenant = refl
