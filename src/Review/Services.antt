-- ===== src/Review/Services.antt =====
-- What the review of a pull request calls: the database, GitHub, the search and the language model.
use code_trace.Prelude.{ℕ, String, ◌≡◌, Option, List, Text}
use code_trace.Errors.{Result, Response}
use code_trace.Database.{ChunkRow, FileRow, RelationshipRow, Query}
use code_trace.Exec.{Exec}
use code_trace.Chat.Pricing.{TokenUsage}
use code_trace.Retrieval.Merge.{Score}
use code_trace.Retrieval.Context.{SearchServices}
use code_trace.Review.Diff.Fetch.{CompareFile}
use code_trace.Review.Findings.{RawLlmFinding}
use code_trace.Review.Store.{ReviewTable}
use code_trace.Review.Writeback.{ReviewPost}

-- A row of pull_requests, with its repository and the installation of that.
pub record PullRequest : Type 0 where
  pub id : String
  pub repository_id : String
  pub github_pr_number : ℕ
  pub base_sha : String
  pub head_sha : String
  pub owner : String
  pub name : String
  pub github_installation_id : ℕ

-- `generateChatCompletion`'s result
pub record Completion : Type 0 where
  pub text : Text
  pub usage : TokenUsage

pub data UsageKind : Type 0 where
  indexing qa pr_review : UsageKind

-- A row of usage_logs, with the columns that a review fills.
pub record UsageEntry : Type 0 where
  pub repository_id : String
  pub request_id : String
  pub job_id : Option String
  pub kind : UsageKind
  pub llm_latency_ms : ℕ
  pub total_latency_ms : ℕ
  pub tokens_used : ℕ
  pub cost : ℕ
  pub chunks_retrieved : ℕ
  pub chunks_cited : ℕ

pub record PrReviewJobPayload : Type 0 where
  pub job_id : String
  pub pull_request_id : String
  pub repository_id : String
  pub commit_sha : String

-- The tables that the review only reads are values. The other calls may change the state and throw.
-- `now` is the clock, which does not go back between two calls.
pub record Services (S V F : Type 0) : Type 0 where
  pub files : Query FileRow
  pub chunks : Query ChunkRow
  pub relationships : Query RelationshipRow
  pub search : SearchServices V
  pub score : Score F
  pub parse_json : Text → Result (Option (List RawLlmFinding))
  pub chat_model : String
  pub find_pull_request : String → Exec S PullRequest
  pub mint_installation_token : ℕ → Exec S String
  pub compare : String → String → Exec S (Response (Option (List CompareFile)))
  pub generate_chat_completion : String → String → Exec S Completion
  pub create_usage_log : UsageEntry → Exec S (Unit {0})
  pub post_review : String → String → ReviewPost → Exec S (Response (Unit {0}))
  pub random_uuid : Exec S String
  pub now : S → ℕ

-- The calls that change the state leave the reviews as they are: only the review pipeline writes
-- them.
pub record LeavesReviews {S V F : Type 0} (table : ReviewTable S) (services : Services S V F)
    : Type 0 where
  pub find_pull_request :
      (id : String) (s : S) → table.rows (services.find_pull_request id s).1 ≡ table.rows s
  pub mint_installation_token :
      (n : ℕ) (s : S) → table.rows (services.mint_installation_token n s).1 ≡ table.rows s
  pub compare :
      (token url : String) (s : S) → table.rows (services.compare token url s).1 ≡ table.rows s
  pub generate_chat_completion :
      (system user : String) (s : S)
      → table.rows (services.generate_chat_completion system user s).1 ≡ table.rows s
  pub create_usage_log :
      (entry : UsageEntry) (s : S) → table.rows (services.create_usage_log entry s).1 ≡ table.rows s
  pub post_review :
      (token url : String) (post : ReviewPost) (s : S)
      → table.rows (services.post_review token url post s).1 ≡ table.rows s
  pub random_uuid : (s : S) → table.rows (services.random_uuid s).1 ≡ table.rows s
