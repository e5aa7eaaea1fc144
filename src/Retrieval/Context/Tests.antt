-- ===== src/Retrieval/Context/Tests.antt =====
-- A search that finds the same chunk by its vector and by its words.
use code_trace.Prelude.{
  ℕ, String, ◌≡◌, ◌≢◌, refl, ◌↔◌, ◌⊎◌, none, List, [], ◌∷◌, Has, insert, lookup, insert_all,
}
use code_trace.Errors.{ok, err, error}
use code_trace.Database.{ChunkRow, listing}
use code_trace.Retrieval.Types.{RankedChunk, RetrievedChunk, retrieved_of}
use code_trace.Retrieval.Merge.{
  semantic, identifier, classify_query, matches_identifier, merge_rankings, scores, add_scores,
  place, sort, number_from,
}
use code_trace.Retrieval.Merge.Scores.{chunk_ids}
use code_trace.Retrieval.Merge.Order.{merge_rankings_exact}
use code_trace.Retrieval.Rerank.{rerank, rerank_safe, try_rerank, or_fallback}
use code_trace.Retrieval.Context.{
  SearchServices, vector_search, keyword_search, retrieve_context, fetch_and_rerank, rank_from,
  is_blank, candidates_of, entries_of,
}
use code_trace.Retrieval.Merge.Whole.{whole_scores}

abbrev pub row_a : ChunkRow
row_a = record {
  id = "a";
  repository_id = "repo";
  file_id = "f";
  symbol = "login";
  symbol_type = "function";
  parent_symbol = none;
  language = "ts";
  start_line = 1;
  end_line = 9;
  content = "login()";
  file_path = "a.ts";
}

abbrev pub search_a : SearchServices ℕ
search_a = record {
  embed_query = λ text. ok 0;
  vector_rows = λ id v limit. ok ("a" ∷ "gone" ∷ []);
  keyword_rows = λ id query limit. ok ("a" ∷ []);
  jina = λ request. err (error none "offline");
}

abbrev ranked : String → ℕ → RankedChunk
ranked id rank = record { chunk_id = id; rank = rank }

abbrev retrieved_a : List RetrievedChunk
retrieved_a = retrieved_of row_a ∷ []

classify_test : classify_query "where is send_email handled" ≡ identifier
unfolding classify_query
classify_test = refl

merge_rankings_exact_example :
    Has "b"
      (chunk_ids (merge_rankings whole_scores semantic (ranked "a" 1 ∷ []) (ranked "b" 1 ∷ [])))
    ↔ (Has "b" (chunk_ids (ranked "a" 1 ∷ [])) ⊎ Has "b" (chunk_ids (ranked "b" 1 ∷ [])))
merge_rankings_exact_example =
    (merge_rankings_exact whole_scores semantic (ranked "a" 1 ∷ []) (ranked "b" 1 ∷ [])).1 "b"

rerank_safe_example : rerank search_a.jina "login" retrieved_a ≢ []
rerank_safe_example = (rerank_safe search_a.jina "login" retrieved_a).1 (λ e. absurd (cc e))

-- The id with no row is dropped, and the reranker's failure leaves the order.
retrieve_test :
    retrieve_context search_a whole_scores (listing (row_a ∷ [])) "repo" "login" ≡ ok retrieved_a
unfolding retrieve_context vector_search keyword_search fetch_and_rerank rank_from is_blank
    candidates_of merge_rankings scores add_scores place sort number_from classify_query
    matches_identifier rerank try_rerank or_fallback insert_all insert lookup entries_of
retrieve_test = refl
