-- ===== src/Filesystem.antt =====
-- app/rag/connectors/filesystem.py: the connector that searches an index file. The records of the file
-- are given with fields that are texts, empty where a field is missing; the split of a text into
-- tokens, a set given as a list, and the rounded quotient of two numbers, in 10^-6, are parameters.
pub mod TopK
mod Examples
use Prim.Native.String.{◌++◌ as str_append}
use sovereign_rag_gateway.Prelude.{
  ℕ, String, Bool, false, not, ◌&&◌, Option, none, some, List, [], ◌∷◌, str_eq, if◌then◌else◌, keep,
  map, length, take, all_of, any_of,
}
use sovereign_rag_gateway.Prelude.Dict.{Dict, get}
use sovereign_rag_gateway.Prelude.Int.{ℤ, pos, ltb_ℤ, leb_ℤ, pos_part}
use sovereign_rag_gateway.Prelude.Text.{strip}
use sovereign_rag_gateway.Prelude.Sorting.{sort_by}
use sovereign_rag_gateway.Models.{DocumentChunk}
use sovereign_rag_gateway.Policy.{member_of}

-- A record of the index; the metadata are those of `_parse_metadata`.
pub record Record : Type 0 where
  pub source_id : String
  pub uri : String
  pub chunk_id : String
  pub text : String
  pub metadata : Dict String

pub record Document : Type 0 where
  pub source_id : String
  pub uri : String
  pub text : String
  pub metadata : Dict String

abbrev pub has_value : Option String → String → Bool
has_value none expected = false
has_value (some value) expected = str_eq value expected

-- `_matches_filters`
abbrev pub matches_filters : Dict String → Dict String → Bool
matches_filters metadata filters = all_of (λ f. has_value (get f.0 metadata) f.1) filters

-- The order of `ranked.sort(key=score, reverse=True)`, which keeps equal scores in place.
abbrev pub by_score : DocumentChunk → DocumentChunk → Bool
by_score a b = leb_ℤ b.score a.score

-- `"\n".join(texts)` of the texts that are not empty
abbrev joined_lines : List String → String
joined_lines [] = ""
joined_lines (t ∷ []) = t
joined_lines (t ∷ (u ∷ texts)) = str_append t (str_append "\n" (joined_lines (u ∷ texts)))

module _ (tokens : String → List String) (ratio : ℕ → ℕ → ℤ) where
  -- `len(query_tokens.intersection(chunk_tokens))`
  abbrev pub overlap : String → String → ℕ
  overlap query text = length (keep (λ t. member_of (tokens text) t) (tokens query))

  abbrev pub score_of : String → String → ℤ
  score_of query text = elim (tokens query) [
    | [] ↦ pos 0
    | ◌∷◌ t ts ↦ ratio (overlap query text) (length (t ∷ ts))
  ]

  abbrev pub chunk_of : String → String → Record → DocumentChunk
  chunk_of name query r = record {
    source_id = r.source_id;
    connector = name;
    uri = r.uri;
    chunk_id = r.chunk_id;
    text = strip r.text;
    score = score_of query (strip r.text);
    metadata = r.metadata;
  }

  -- The loop that ranks the records that match and have a text.
  unfoldable pub rank : String → String → Dict String → List Record → List DocumentChunk
  rank name query filters [] = []
  rank name query filters (r ∷ records) =
      let rest = rank name query filters records in
      if not (matches_filters r.metadata filters)
      then rest
      else if str_eq (strip r.text) ""
      then rest
      else chunk_of name query r ∷ rest

  -- `search`, on the records of the file
  unfoldable pub search : String → List Record → String → Dict String → ℤ → List DocumentChunk
  unfolding rank
  search name records query filters k =
      if ltb_ℤ k (pos 1)
      then []
      else take (pos_part k) (sort_by by_score (rank name query filters records))

-- `fetch`, on the records of the file
unfoldable pub fetch : List Record → String → Option Document
fetch records doc_id =
    let found = keep (λ r. str_eq r.source_id doc_id) records in
    elim found [
      | [] ↦ none
      | ◌∷◌ first more ↦ some (record {
        source_id = doc_id;
        uri = first.uri;
        text = joined_lines (keep (λ t. not (str_eq t "")) (map (λ r. r.text) (first ∷ more)));
        metadata = first.metadata;
      })
    ]
