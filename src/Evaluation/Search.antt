-- ===== src/Evaluation/Search.antt =====
-- evaluation.service.ts: `runConfigSearch` on the modelled searches, and how one question is scored. A sum
-- of quotients is kept as its terms.
pub mod Scoring
use code_trace.Prelude.{
  ℕ, suc, ◌+◌, String, Bool, true, false, ◌&&◌, Option, none, some, List, [], ◌∷◌, map, length,
  take, includes, ◌==◌, text_eq, if◌then◌else◌, is_some, Map, lookup, insert_all, ◌+++◌,
}
use code_trace.Errors.{Result, ok, err, ◌>>=◌}
use code_trace.Database.{ChunkRow, Query}
use code_trace.Retrieval.Types.{RankedChunk, RetrievedChunk}
use code_trace.Retrieval.Merge.{Score, semantic, merge_rankings}
use code_trace.Retrieval.Merge.Scores.{chunk_ids}
use code_trace.Retrieval.Rerank.{retrieval_final_k, rerank}
use code_trace.Retrieval.Context.{
  SearchServices, vector_search, keyword_search, candidates_of, entries_of,
}
use code_trace.Evaluation.Pr.{Quotient}

pub data EvalConfig : Type 0 where
  vector_only keyword_only hybrid hybrid_reranked : EvalConfig

pub record ExpectedChunkIdentity : Type 0 where
  pub path : String
  pub symbol : String

pub record EvalQuestion : Type 0 where
  pub id : String
  pub repository_id : String
  pub question : String
  pub expected_chunks : List ExpectedChunkIdentity

abbrev pub identity_key : String → String → String
identity_key path symbol = path +++ "#" +++ symbol

abbrev pub expected_keys : List ExpectedChunkIdentity → List String
expected_keys expected = map (λ (e : ExpectedChunkIdentity). identity_key e.path e.symbol) expected

abbrev pub identity_of : Option ChunkRow → Option String
identity_of none = none
identity_of (some c) = some (identity_key c.file_path c.symbol)

abbrev pub identity_in : Map String ChunkRow → String → Option String
identity_in chunk_by_id id = identity_of (lookup id chunk_by_id)

-- `id && expectedKeys.has(id)`; an identity has a "#" and is not the empty text.
abbrev pub is_expected : List String → Option String → Bool
is_expected keys none = false
is_expected keys (some id) = includes id keys

-- `findIndex`, from an index on
unfoldable pub first_hit_from : ℕ → List String → List (Option String) → Option ℕ
first_hit_from i keys [] = none
first_hit_from i keys (id ∷ ids) =
    let rest = first_hit_from (suc i) keys ids in if is_expected keys id then some i else rest

unfoldable pub count_relevant : List String → List (Option String) → ℕ
count_relevant keys [] = 0
count_relevant keys (id ∷ ids) =
    let rest = count_relevant keys ids in if is_expected keys id then suc rest else rest

-- `retrievedIdentities.filter(Boolean)`
unfoldable pub present : List (Option String) → List String
present [] = []
present (none ∷ ids) = present ids
present (some id ∷ ids) = id ∷ present ids

-- What the round of one question adds: a hit with 1 / (index + 1), or none; the precision, which is 0 where
-- nothing was retrieved; and the row of its result.
pub record Scored : Type 0 where
  pub question_id : String
  pub retrieved : List String
  pub first_hit : Option ℕ
  pub precision : Option Quotient

module _ {V F : Type 0} (services : SearchServices V) (s : Score F) (chunks : Query ChunkRow) where
  open services use {embed_query, jina}

  unfoldable pub hybrid_ids : String → String → Result (List String)
  hybrid_ids repository_id question = do
    query_vector ← embed_query question
    vector_results ← vector_search services s chunks repository_id query_vector retrieval_final_k
    keyword_results ← keyword_search services s chunks repository_id question retrieval_final_k
    ok (
        chunk_ids
          (take retrieval_final_k (merge_rankings s semantic vector_results keyword_results)))

  unfoldable pub rerank_ids : String → List String → List String
  rerank_ids question ids =
      let rows = chunks.find_many (λ c. includes c.id ids) in
      map (λ (c : RetrievedChunk). c.id)
        (rerank jina question (candidates_of (insert_all (entries_of rows) []) ids))

  -- The ids of the chunks that a configuration finds.
  unfoldable pub run_config_search : String → String → EvalConfig → Result (List String)
  run_config_search repository_id question vector_only = do
    query_vector ← embed_query question
    results ← vector_search services s chunks repository_id query_vector retrieval_final_k
    ok (chunk_ids results)
  run_config_search repository_id question keyword_only = do
    results ← keyword_search services s chunks repository_id question retrieval_final_k
    ok (chunk_ids results)
  run_config_search repository_id question hybrid = hybrid_ids repository_id question
  run_config_search repository_id question hybrid_reranked = do
    merged ← hybrid_ids repository_id question
    ok (rerank_ids question merged)

  unfoldable pub identities_of : List String → List (Option String)
  identities_of ids =
      let rows = chunks.find_many (λ c. includes c.id ids) in
      map (identity_in (insert_all (entries_of rows) [])) ids

  abbrev pub precision_of : List String → List (Option String) → Option Quotient
  precision_of keys [] = none
  precision_of keys (id ∷ ids) =
      some (record { count = count_relevant keys (id ∷ ids); of_all = length (id ∷ ids) })

  unfoldable pub score_question : EvalQuestion → List String → Scored
  score_question question ids =
      let keys = expected_keys question.expected_chunks in
      let identities = identities_of ids in
      record {
        question_id = question.id;
        retrieved = present identities;
        first_hit = first_hit_from 0 keys identities;
        precision = precision_of keys identities;
      }
