-- ===== src/Review/Material.antt =====
-- The part of pr-review.service.ts between the claim of a review and the update that completes it: what
-- `runPrReview` reads, asks and computes.
pub mod Grounded
pub mod Tests
use code_trace.Prelude.{
  ℕ, ◌+◌, ◌-◌, String, Bool, ◌||◌, Option, none, some, List, [], ◌∷◌, ◌++◌, map, any, keep, length,
  contains, codes, includes, is_some, get_or, if◌then◌else◌, ◌==◌, text_eq,
}
use code_trace.Errors.{Result, ok, ◌>>=◌}
use code_trace.Database.{ChunkRow}
use code_trace.Chat.Pricing.{compute_cost}
use code_trace.Retrieval.Types.{RetrievedChunk, retrieved_of}
use code_trace.Retrieval.Context.{retrieve_context}
use code_trace.Review.Types.{ChangedLineRange, ChunkRef, PrFinding}
use code_trace.Review.Writeback.{ReviewForWriteback}
use code_trace.Review.Risk.{RiskResult, calculate_risk_score, Level, low, medium, high}
use code_trace.Review.Chunks.{map_changed_lines_to_chunks, one_hop, has_test_coverage}
use code_trace.Review.Findings.{parse_raw_findings, findings_of}
use code_trace.Review.Prompt.{
  combined_query, coverage_by_symbol, content_by_chunk_id, changed_block, related_block,
  user_prompt,
}
use code_trace.Review.Store.{ReviewRow}
use code_trace.Review.Services.{PullRequest, Completion, UsageEntry, pr_review, Services}

-- The chunks that the review looks at: those that the changed lines touch, their neighbours, what the
-- search found, and the rows of the first two.
pub record Material : Type 0 where
  pub changed : List ChunkRef
  pub dependencies : List ChunkRef
  pub retrieved : List RetrievedChunk
  pub chunk_rows : List ChunkRow

abbrev pub citable_of : Material → List RetrievedChunk
citable_of m = m.retrieved ++ map retrieved_of m.chunk_rows

-- `endLine - startLine + 1`, for a range that ends at or after the line before its start
pub lines_changed : List ChangedLineRange → ℕ
lines_changed [] = 0
lines_changed (r ∷ rs) = (r.end_line + 1 - r.start_line) + lines_changed rs

-- `/package\.json|requirements\.txt|pyproject\.toml/`
pub is_dependency_file : String → Bool
is_dependency_file path =
    contains (codes "package.json") (codes path)
    || contains (codes "requirements.txt") (codes path)
    || contains (codes "pyproject.toml") (codes path)

pub dependency_files_changed : List ChangedLineRange → Bool
unfolding is_dependency_file
dependency_files_changed = any (λ (r : ChangedLineRange). is_dependency_file r.file_path)

level_name : Level → String
level_name low = "LOW"
level_name medium = "MEDIUM"
level_name high = "HIGH"

level_name_of : Option Level → Option String
unfolding level_name
level_name_of none = none
level_name_of (some level) = some (level_name level)

-- the object that the write-back is given
pub for_writeback : ReviewRow → ReviewForWriteback
unfolding level_name_of
for_writeback row = record {
  risk_score = row.risk_score;
  risk_level = level_name_of row.risk_level;
  risk_factors = get_or row.risk_factors [];
  findings = get_or row.findings [];
}

module _ {S V F : Type 0} (services : Services S V F) where
  open services use {files, chunks, relationships, search, score, parse_json, chat_model}

  -- `combinedQuery ? await retrieveContext(…) : []`
  pub related_to : PullRequest → List ChunkRef → Result (List RetrievedChunk)
  related_to pull_request changed =
      if combined_query changed == ""
      then ok []
      else retrieve_context search score chunks pull_request.repository_id (combined_query changed)

  pub gather : PullRequest → List ChangedLineRange → Result Material
  gather pull_request ranges =
      let changed = map_changed_lines_to_chunks files chunks pull_request.repository_id ranges in
      let ids = map (λ (c : ChunkRef). c.chunk_id) changed in
      let dependencies = one_hop relationships pull_request.repository_id ids in
      do
        retrieved ← related_to pull_request changed
        ok (record {
          changed = changed;
          dependencies = dependencies;
          retrieved = retrieved;
          chunk_rows =
              chunks.find_many
                (λ c. includes c.id (map (λ (r : ChunkRef). r.chunk_id) (changed ++ dependencies)));
        })

  pub prompt_of : PullRequest → Material → String
  prompt_of pull_request m =
      user_prompt
        (changed_block
          (coverage_by_symbol (has_test_coverage chunks pull_request.repository_id) m.changed)
          (content_by_chunk_id m.chunk_rows) (m.changed ++ m.dependencies))
        (related_block m.retrieved)

  pub risk_of : PullRequest → List ChangedLineRange → List ChunkRef → RiskResult
  risk_of pull_request ranges changed = calculate_risk_score (has_test_coverage chunks) (record {
    repository_id = pull_request.repository_id;
    changed_file_paths = map (λ (r : ChangedLineRange). r.file_path) ranges;
    changed_symbols = map (λ (c : ChunkRef). c.symbol) changed;
    lines_changed = lines_changed ranges;
    dependency_files_changed = dependency_files_changed ranges;
    critical_directories = [];
  })

  pub findings_in : Material → Completion → List PrFinding
  findings_in m completion =
      findings_of (citable_of m) (parse_raw_findings parse_json completion.text)

  pub cited_count : List PrFinding → ℕ
  cited_count findings = length (keep (λ (f : PrFinding). is_some f.citation) findings)

  pub usage_entry : PullRequest → Option String → Material → Completion → String → ℕ → UsageEntry
  unfolding findings_in cited_count
  usage_entry pull_request job_id m completion request_id latency = record {
    repository_id = pull_request.repository_id;
    request_id = request_id;
    job_id = job_id;
    kind = pr_review;
    llm_latency_ms = latency;
    total_latency_ms = latency;
    tokens_used = completion.usage.total_tokens;
    cost = compute_cost chat_model completion.usage;
    chunks_retrieved = length m.retrieved;
    chunks_cited = cited_count (findings_in m completion);
  }
