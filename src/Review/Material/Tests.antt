-- ===== src/Review/Material/Tests.antt =====
-- A review of one changed chunk, which the model's one finding cites.
use code_trace.Prelude.{
  ℕ, ◌≡◌, refl, inl, some, none, List, [], ◌∷◌, codes, Has, lookup, insert, insert_all, show,
}
use code_trace.Errors.{ok, err, error}
use code_trace.Exec.{Exec}
use code_trace.Database.{ChunkRow, listing}
use code_trace.Chat.Citations.{
  chunk_by_file_and_lines, citation_key, key_entries, validate_citation, agrees,
}
use code_trace.Retrieval.Merge.{merge_rankings, scores, add_scores, sort, number_from}
use code_trace.Retrieval.Context.{
  retrieve_context, vector_search, keyword_search, fetch_and_rerank, rank_from, is_blank,
}
use code_trace.Review.Types.{bug, ChangedLineRange, Citation, PrFinding}
use code_trace.Review.Chunks.{ref_at, map_changed_lines_to_chunks, chunks_of_range, one_hop, walk}
use code_trace.Review.Findings.{
  parse_raw_findings, findings_of, finding_of, checked_citation, citation_for, if_valid,
}
use code_trace.Review.Prompt.{combined_query}
use code_trace.Review.Services.{PullRequest, Completion, Services}
use code_trace.Review.Material.{Material, gather, related_to, findings_in}
use code_trace.Retrieval.Merge.Whole.{whole_scores}
use code_trace.Review.Material.Grounded.{gather-Grounded}

abbrev row_k : ChunkRow
row_k = record {
  id = "k";
  repository_id = "repo";
  file_id = "f";
  symbol = "login";
  symbol_type = "function";
  parent_symbol = none;
  language = "ts";
  start_line = 1;
  end_line = 9;
  content = "";
  file_path = "a.ts";
}

abbrev never : {A : Type 0} → Exec (Unit {0}) A
never s = (err (error none "offline"), s)

-- The search finds nothing, and the reply is the finding.
abbrev services_k : Services (Unit {0}) ℕ ℕ
services_k = record {
  files = listing (record { id = "f"; repository_id = "repo"; path = "a.ts" } ∷ []);
  chunks = listing (row_k ∷ []);
  relationships = listing [];
  search = record {
    embed_query = λ text. ok 0;
    vector_rows = λ id v limit. ok [];
    keyword_rows = λ id query limit. ok [];
    jina = λ request. err (error none "offline");
  };
  score = whole_scores;
  parse_json = λ text. ok (
      some (
        record {
          category = bug;
          file = "a.ts";
          line = 5;
          explanation = "wrong";
          related_symbol = none;
          citation_file = "a.ts";
          citation_start_line = 1;
          citation_end_line = 9;
        }
        ∷ []));
  chat_model = "gemini-2.5-flash";
  find_pull_request = λ id. never;
  mint_installation_token = λ n. never;
  compare = λ token url. never;
  generate_chat_completion = λ system user. never;
  create_usage_log = λ entry. never;
  post_review = λ token url post. never;
  random_uuid = never;
  now = λ s. 0;
}

abbrev pull_request_7 : PullRequest
pull_request_7 = record {
  id = "p";
  repository_id = "repo";
  github_pr_number = 7;
  base_sha = "base";
  head_sha = "c";
  owner = "octocat";
  name = "hello";
  github_installation_id = 1;
}

abbrev line_5 : List ChangedLineRange
line_5 = record { file_path = "a.ts"; start_line = 5; end_line = 5 } ∷ []

abbrev material_k : Material
material_k = record {
  changed = ref_at "a.ts" row_k ∷ [];
  dependencies = [];
  retrieved = [];
  chunk_rows = row_k ∷ [];
}

abbrev completion_k : Completion
completion_k = record {
  text = codes "```json\n[]\n```";
  usage = record { prompt_tokens = 10; candidates_tokens = 2; total_tokens = 12 };
}

abbrev citation_k : Citation
citation_k = record { file = "a.ts"; start_line = 1; end_line = 9; chunk_id = "k" }

abbrev finding_k : PrFinding
finding_k = record {
  category = bug;
  file = "a.ts";
  line = 5;
  explanation = "wrong";
  related_symbol = none;
  citation = some citation_k;
}

gather_test : gather services_k pull_request_7 line_5 ≡ ok material_k
unfolding gather related_to map_changed_lines_to_chunks chunks_of_range one_hop walk combined_query
    retrieve_context vector_search keyword_search fetch_and_rerank rank_from is_blank merge_rankings
    scores add_scores sort number_from
gather_test = refl

findings_test : findings_in services_k material_k completion_k ≡ finding_k ∷ []
unfolding findings_in parse_raw_findings findings_of finding_of checked_citation citation_for
    if_valid chunk_by_file_and_lines citation_key key_entries validate_citation agrees lookup insert
    insert_all show
findings_test = refl

gather-Grounded_example :
    (row : ChunkRow) × Has row (row_k ∷ [])
    × (row.id ≡ "k")
    × (row.file_path ≡ "a.ts")
    × (row.start_line ≡ 1)
    × (row.end_line ≡ 9)
gather-Grounded_example =
    gather-Grounded services_k pull_request_7 line_5 material_k completion_k finding_k citation_k
      gather_test (rw findings_test (inl refl)) refl
