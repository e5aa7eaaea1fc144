-- ===== src/Retrieval/Context.antt =====
-- vector-search.service.ts, keyword-search.service.ts and retrieval.service.ts of
-- backend/src/modules/retrieval. The embedding call and the two raw SQL queries are parameters; a
-- query answers with the ids of its rows, in their order.
pub mod Sources
pub mod Tests
use code_trace.Prelude.{
  ℕ, ◌+◌, String, ◌≡◌, refl, sym, ap, ◌∙◌, ◌⊎◌, inl, inr, Bool, true, false, ◌&&◌, Option, none,
  some, List, [], ◌∷◌, map, arith, is_space, if◌then◌else◌, codes, Text, text_eq, Map, lookup,
  insert_all, lookup-insert_all, Has, Has-map, includes, includes→Has, take, subst, Option-cases,
  eq_iff,
}
use code_trace.Errors.{Result, ok, err, ◌>>=◌, >>=-eq-ok, Response}
use code_trace.Database.{ChunkRow, Query}
use code_trace.Retrieval.Types.{RankedChunk, RetrievedChunk, retrieved_of}
use code_trace.Retrieval.Merge.{Score, QueryType, merge_rankings, classify_query}
use code_trace.Retrieval.Merge.Scores.{chunk_ids}
use code_trace.Retrieval.Merge.Order.{merge_rankings_exact}
use code_trace.Retrieval.Rerank.{
  RerankRequest, JinaRerankResponse, retrieval_top_k, rerank, rerank_safe,
}

-- `rows.map((row, index) => ({ chunkId: row.id, rank: index + 1 }))`
unfoldable pub rank_from : ℕ → List String → List RankedChunk
rank_from n [] = []
rank_from n (id ∷ ids) = record { chunk_id = id; rank = n } ∷ rank_from (n + 1) ids

-- `!queryText.trim()`
unfoldable pub is_blank : Text → Bool
is_blank [] = true
is_blank (c ∷ text) = is_space c && is_blank text

unfoldable pub entries_of : List ChunkRow → List (String × ChunkRow)
entries_of = map (λ (c : ChunkRow). (c.id, c))

-- the array `candidates`: ids with no row are dropped
unfoldable pub candidates_of : Map String ChunkRow → List String → List RetrievedChunk
candidates_of m [] = []
candidates_of m (id ∷ ids) =
    let rest = candidates_of m ids in
    elim (lookup id m) [ none ↦ rest | some c ↦ retrieved_of c ∷ rest ]

-- The services behind the search: the embedding of a text, the two SQL queries with their limit,
-- and the reranker.
pub record SearchServices (V : Type 0) : Type 0 where
  pub embed_query : String → Result V
  pub vector_rows : String → V → ℕ → Result (List String)
  pub keyword_rows : String → String → ℕ → Result (List String)
  pub jina : RerankRequest → Result (Response JinaRerankResponse)

module _ {V F : Type 0} (services : SearchServices V) (s : Score F) (chunks : Query ChunkRow) where
  open services use {embed_query, vector_rows, keyword_rows, jina}

  unfoldable pub vector_search : String → V → ℕ → Result (List RankedChunk)
  vector_search repository_id query_vector limit = do
    ids ← vector_rows repository_id query_vector limit
    ok (rank_from 1 ids)

  unfoldable pub keyword_search : String → String → ℕ → Result (List RankedChunk)
  unfolding is_blank
  keyword_search repository_id query limit =
      if is_blank (codes query)
      then ok []
      else (do ids ← keyword_rows repository_id query limit; ok (rank_from 1 ids))

  unfoldable pub fetch_and_rerank : String → List String → List RetrievedChunk
  fetch_and_rerank query [] = []
  fetch_and_rerank query (id ∷ ids) =
      let rows = chunks.find_many (λ c. includes c.id (id ∷ ids)) in
      rerank jina query (candidates_of (insert_all (entries_of rows) []) (id ∷ ids))

  -- `Promise.all` of the two searches; where both fail, the first failure is reported.
  unfoldable pub retrieve_context : String → String → Result (List RetrievedChunk)
  unfolding fetch_and_rerank
  retrieve_context repository_id query = do
    query_vector ← embed_query query
    vector_results ← vector_search repository_id query_vector retrieval_top_k
    keyword_results ← keyword_search repository_id query retrieval_top_k
    let merged = merge_rankings s (classify_query query) vector_results keyword_results
    ok (fetch_and_rerank query (chunk_ids (take retrieval_top_k merged)))
