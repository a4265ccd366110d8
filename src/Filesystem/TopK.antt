-- ===== src/Filesystem/TopK.antt =====
-- What a search of the index returns.
use sovereign_rag_gateway.Prelude.{
  ℕ, ◌≡◌, refl, String, Bool, not, ◌&&◌, List, [], ◌∷◌, arith, keep, map, take, Perm, str_eq,
  Bool-cases, inl, inr,
}
use sovereign_rag_gateway.Prelude.Dict.{Dict}
use sovereign_rag_gateway.Prelude.Int.{ℤ, pos, ltb_ℤ, ◌≤ℤ◌, pos_part}
use sovereign_rag_gateway.Prelude.Text.{strip}
use sovereign_rag_gateway.Prelude.Sorting.{sort_by, IsOrdered, sort_by-perm, sort_by-IsOrdered}
use sovereign_rag_gateway.Models.{DocumentChunk}
use sovereign_rag_gateway.Filesystem.{Record, matches_filters, by_score, chunk_of, rank, search}

-- The record passes the filters and has a text.
abbrev pub is_candidate : Dict String → Record → Bool
is_candidate filters r = matches_filters r.metadata filters && not (str_eq (strip r.text) "")

module _ (tokens : String → List String) (ratio : ℕ → ℕ → ℤ) where
  rank-candidates :
      (name query : String) (filters : Dict String) (records : List Record)
      → rank tokens ratio name query filters records
        ≡ map (chunk_of tokens ratio name query) (keep (is_candidate filters) records)
  unfolding rank
  rank-candidates name query filters [] = refl
  rank-candidates name query filters (r ∷ records) =
      elim (Bool-cases (matches_filters r.metadata filters)) [
        | inr other ↦ rw other (rank-candidates name query filters records)
        | inl fit ↦ elim (Bool-cases (str_eq (strip r.text) "")) [
          | inl empty ↦ rw (fit, empty) (rank-candidates name query filters records)
          | inr some_text ↦ rw (fit, some_text, rank-candidates name query filters records) refl
        ]
      ]

  -- A search gives the first k, if k is positive, of the chunks of all records that pass the filters and
  -- have a text, in the order of falling scores.
  pub search-top :
      (name query : String) (filters : Dict String) (records : List Record) (k : ℤ)
      → (ranked : List DocumentChunk) × Perm ranked
          (map (chunk_of tokens ratio name query) (keep (is_candidate filters) records))
        × IsOrdered (λ c d. d.score ≤ℤ c.score) ranked
        × (search tokens ratio name records query filters k ≡ take (pos_part k) ranked)
  unfolding search
  search-top name query filters records k =
      let candidates =
        map (chunk_of tokens ratio name query) (keep (is_candidate filters) records) in
      let ordered =
        sort_by-IsOrdered by_score (λ c d. d.score ≤ℤ c.score) (λ c d h. ground (arith, h))
          (λ c d h. ground (arith, h)) (λ c d e h i. omega arith) candidates in
      (
        sort_by by_score candidates,
        sort_by-perm by_score candidates,
        ordered,
        rw (rank-candidates name query filters records) (elim (Bool-cases (ltb_ℤ k (pos 1))) [
          | inl low ↦
              let none_left : pos_part k ≡ 0 = ground (arith, low) in rw (low, none_left) refl
          | inr high ↦ rw high refl
        ]),
      )
