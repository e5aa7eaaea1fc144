-- ===== src/Review/Pipeline/Tests.antt =====
-- Jobs that run on the table in memory, with services that answer at once.
use code_trace.Prelude.{
  ℕ, ◌≡◌, ◌≢◌, refl, ap, Bool, false, some, none, [], ◌∷◌, map, Has, inl, inr, ◌⊎◌, text_eq, codes,
  show,
}
use code_trace.Errors.{Result, ok, err, error, Response}
use code_trace.Exec.{Ends, ◌>>=◌, try_then}
use code_trace.Database.{listing}
use code_trace.Review.Types.{PrDiffResult}
use code_trace.Review.Diff.Fetch.{get_pr_diff, fetch_compare_files, compare_files}
use code_trace.Review.Store.{ReviewRow, ReviewStatus, complete, failed, update_row}
use code_trace.Review.Services.{PullRequest, PrReviewJobPayload, Services, LeavesReviews}
use code_trace.Review.Pipeline.{
  resume, run_recorded, run_claimed, process_pr_review_job, post_writeback_and_record_failure,
  mark_unposted,
}
use code_trace.Review.Pipeline.Rows.{HasIds}
use code_trace.Review.Pipeline.Outcome.{Settled, process_pr_review_job_settles}
use code_trace.Review.Pipeline.Resting.{process_pr_review_job_rests}
use code_trace.Review.Pipeline.Writing.{IsTaken, answer, post_writeback_and_record_failure_lem}
use code_trace.Retrieval.Merge.Whole.{whole_scores}
use code_trace.Review.Pipeline.Memory.{Rows, memory, memory-CanUpdate, at_once}

abbrev pull_request_7 : PullRequest
pull_request_7 = record {
  id = "p";
  repository_id = "repo";
  github_pr_number = 7;
  base_sha = "base";
  head_sha = "c";
  owner = "octocat";
  name = "hello";
  github_installation_id = 1;
}

-- GitHub answers every request with the status of success in `taken`.
abbrev services_with : Bool → Services Rows ℕ ℕ
services_with taken = record {
  files = listing [];
  chunks = listing [];
  relationships = listing [];
  search = record {
    embed_query = λ text. ok 0;
    vector_rows = λ id v limit. ok [];
    keyword_rows = λ id query limit. ok [];
    jina = λ request. err (error none "offline");
  };
  score = whole_scores;
  parse_json = λ text. ok (some []);
  chat_model = "gemini-2.5-flash";
  find_pull_request = λ id. at_once pull_request_7;
  mint_installation_token = λ n. at_once "token";
  compare = λ token url. at_once (record {
    success = taken;
    status = 200;
    status_text = "OK";
    body = ok (some []);
    message = none;
  });
  generate_chat_completion = λ system user. at_once (record {
    text = codes "[]";
    usage = record { prompt_tokens = 10; candidates_tokens = 2; total_tokens = 12 };
  });
  create_usage_log = λ entry. at_once tt;
  post_review = λ token url post. at_once (record {
    success = taken;
    status = 403;
    status_text = "Forbidden";
    body = ok tt;
    message = none;
  });
  random_uuid = at_once "u";
  now = λ rows. 1000;
}

services_with-LeavesReviews : (taken : Bool) → LeavesReviews memory (services_with taken)
services_with-LeavesReviews taken = record {
  find_pull_request = λ id s. refl;
  mint_installation_token = λ n s. refl;
  compare = λ token url s. refl;
  generate_chat_completion = λ system user s. refl;
  create_usage_log = λ entry s. refl;
  post_review = λ token url post s. refl;
  random_uuid = λ s. refl;
}

abbrev payload_c : PrReviewJobPayload
payload_c = record { job_id = "j"; pull_request_id = "p"; repository_id = "repo"; commit_sha = "c" }

abbrev row_with : ReviewStatus → ReviewRow
row_with status = record {
  id = "r0";
  pull_request_id = "p";
  commit_sha = "c";
  status = status;
  risk_score = none;
  risk_level = none;
  risk_factors = none;
  findings = none;
  llm_cost = none;
  writeback_failed_at = none;
  failure_reason = some "timeout";
}

row_with-HasIds : (status : ReviewStatus) → HasIds (row_with status ∷ [])
row_with-HasIds status = (unique, λ a h. filled a h)
  where
    unique :
        (a b : ReviewRow)
        → Has a (row_with status ∷ [])
        → Has b (row_with status ∷ [])
        → a.id ≡ b.id
        → a ≡ b
    unique a b (inl e) (inl f) same = cc
    unique a b (inl e) (inr f) same = absurd f
    unique a b (inr e) h same = absurd e

    filled : (a : ReviewRow) → Has a (row_with status ∷ []) → a.id ≢ ""
    filled a (inl e) h = absurd (cc (ap (λ r. r.id) e, h))
    filled a (inr e) h = absurd e

-- The retry of a failed review that GitHub refuses to answer.
process_pr_review_job_settles_example :
    Settled memory
      (services_with false)
      (services_with-LeavesReviews false)
      memory-CanUpdate
      payload_c
      (row_with failed ∷ [])
      (process_pr_review_job memory (services_with false) payload_c (row_with failed ∷ []))
process_pr_review_job_settles_example =
    process_pr_review_job_settles memory (services_with false) (services_with-LeavesReviews false)
      memory-CanUpdate payload_c (row_with failed ∷ []) (row_with-HasIds failed)

process_pr_review_job_rests_example :
    (outcome : Result (Unit {0}) × Rows) × (outcome.1 ≡ row_with complete ∷ [])
    × ((services : Services Rows ℕ ℕ)
        → process_pr_review_job memory services payload_c (row_with complete ∷ []) ≡ outcome)
process_pr_review_job_rests_example =
    process_pr_review_job_rests memory payload_c (row_with complete ∷ []) (row_with complete) refl
      refl

abbrev empty_diff : PrDiffResult
empty_diff = record { changed_ranges = []; position_by_file_and_line = [] }

abbrev refused : Result (Response (Unit {0})) × Rows
refused =
    answer memory (services_with false) (services_with-LeavesReviews false) memory-CanUpdate
      (row_with complete) pull_request_7 "token" empty_diff (row_with complete ∷ [])

post_writeback_and_record_failure_lem_example :
    Ends
      (post_writeback_and_record_failure memory
        (services_with false)
        (row_with complete)
        pull_request_7
        "token"
        empty_diff
        (row_with complete ∷ []))
      (λ done t.
        (IsTaken refused × (t ≡ row_with complete ∷ []))
        ⊎ ((IsTaken refused → ⊥)
            × (time : ℕ) × (t
                ≡ map (update_row "r0" (mark_unposted time)) (row_with complete ∷ []))))
      (λ e t. ⊥)
post_writeback_and_record_failure_lem_example =
    post_writeback_and_record_failure_lem memory (services_with false)
      (services_with-LeavesReviews false) memory-CanUpdate (row_with complete) pull_request_7
      "token" empty_diff (row_with complete ∷ []) (row_with complete) refl

-- The same retry, run: GitHub does not give the diff, and the row says so.
retry_test : process_pr_review_job memory (services_with false) payload_c (row_with failed ∷ []) ≡ (
  err (error none "Failed to fetch PR diff (status 200): unknown error"),
  record (row_with failed) {
    failure_reason = some "Failed to fetch PR diff (status 200): unknown error";
  }
      ∷ [],
)
unfolding process_pr_review_job resume run_recorded run_claimed get_pr_diff fetch_compare_files
    compare_files ◌>>=◌ try_then show
retry_test = refl
