-- ===== src/Webhooks/Dispatcher/Tests.antt =====
-- Events on one repository, whose installation is active or revoked.
use code_trace.Prelude.{
  ℕ, String, ◌≡◌, refl, ◌⊎◌, Option, none, some, List, [], ◌∷◌, map, find, text_eq,
}
use code_trace.Errors.{Result, ok, err, thrown}
use code_trace.Exec.{Ends, returned, threw, ◌>>=◌}
use code_trace.Indexing.{indexed, IndexJob, IndexTables, Repository, is_at, start_row}
use code_trace.Indexing.Tests.{count_of, count_of_zero, job_of}
use code_trace.Repositories.Installations.{InstallationTable}
use code_trace.Review.Services.{PrReviewJobPayload}
use code_trace.Webhooks.Dispatcher.{
  GitHubPushEvent, GitHubPullRequestEvent, HookRepository, HookPullRequest, HookServices,
  split_full_name, split_slashes, handle_push_event, push_to, start_incremental,
  handle_pull_request_event, review_in, queue_review,
}
use code_trace.Webhooks.Dispatcher.Gate.{
  Pushes, Queues, handle_push_event_lem, handle_pull_request_event_lem,
}

record Memory : Type 0 where
  rows : List HookRepository
  states : List Repository
  jobs : List IndexJob
  queued : List PrReviewJobPayload

abbrev settled : Memory → Result IndexJob × Memory → Result IndexJob × Memory
settled s (ok job, t) = (ok job, t)
settled s (err e, t) = (err e, s)

settled_lem :
    (s : Memory) (r : Result IndexJob × Memory)
    → Ends
        (settled s r)
        (λ job t. r ≡ (ok job, t))
        (λ e t. (t.states ≡ s.states) × (t.jobs ≡ s.jobs))
settled_lem s (ok job, t) = returned job t refl refl
settled_lem s (err e, t) = threw e s refl (refl, refl)

abbrev index : IndexTables Memory
index = record {
  repositories = λ s. s.states;
  jobs = λ s. s.jobs;
  update_many = λ id status s. (
    ok (count_of (find (is_at id status) s.states)),
    record s { states = map (start_row id status) s.states },
  );
  create_job = λ id type s. (ok (job_of id type), record s { jobs = job_of id type ∷ s.jobs });
  transaction = λ body s. settled s (body s);
  enqueue = λ job s. (ok tt, s);
  update_many_lem = λ id status s. returned _ _ refl (count_of_zero _, refl, refl);
  create_job_lem = λ id type s. returned _ _ refl (refl, refl, refl, refl);
  transaction_lem = λ body s. settled_lem s (body s);
  enqueue_lem = λ job s. returned tt s refl (refl, refl);
}

-- A table that refuses every call.
abbrev installation_table : InstallationTable Memory
installation_table = record {
  installations = λ s. [];
  find_unique = λ id s. (err (thrown "down"), s);
  find_many = λ p s. (err (thrown "down"), s);
  upsert = λ user_id n permissions s. (err (thrown "down"), s);
  update_many = λ n time s. (err (thrown "down"), s);
  now = λ s. 0;
  find_unique_lem = λ id s. threw _ s refl refl;
  find_many_lem = λ p s. threw _ s refl refl;
  upsert_lem = λ user_id n permissions s. threw _ s refl refl;
  update_many_lem = λ n time s. threw _ s refl refl;
}

abbrev pull_request : String → GitHubPullRequestEvent → HookPullRequest
pull_request repository_id payload = record {
  id = "p";
  repository_id = repository_id;
  github_pr_number = payload.number;
  title = payload.title;
  head_sha = payload.head_sha;
}

abbrev services : HookServices Memory
services = record {
  index = index;
  installations = installation_table;
  rows = λ s. s.rows;
  queued = λ s. s.queued;
  find_first = λ p s. (ok (find p s.rows), s);
  upsert = λ repository_id payload s. (ok (pull_request repository_id payload), s);
  random_uuid = λ s. "u";
  enqueue_pr_review_job = λ job s. (ok tt, record s { queued = job ∷ s.queued });
  find_first_lem = λ p s. returned _ s refl (refl, refl);
  upsert_lem = λ repository_id payload s. returned _ s refl (refl, refl, refl, refl);
  enqueue_lem = λ job s. returned tt _ refl refl;
}

abbrev row : Option ℕ → HookRepository
row revoked = record {
  id = "r";
  owner = "octo";
  name = "hello";
  status = indexed;
  installation_revoked_at = revoked;
}

abbrev start : Option ℕ → Memory
start revoked = record {
  rows = row revoked ∷ [];
  states = record { id = "r"; status = indexed } ∷ [];
  jobs = [];
  queued = [];
}

abbrev push : GitHubPushEvent
push = record { full_name = "octo/hello" }

abbrev opened : GitHubPullRequestEvent
opened = record {
  action = "opened";
  number = 4;
  full_name = "octo/hello";
  title = "t";
  author = "ann";
  base_sha = "b";
  head_sha = "h";
}

-- The installation is revoked: neither event does anything.
revoked_push_test : handle_push_event services push (start (some 1)) ≡ (ok tt, start (some 1))
unfolding handle_push_event push_to start_incremental split_full_name split_slashes ◌>>=◌
revoked_push_test = refl

revoked_pull_request_test :
    handle_pull_request_event services opened (start (some 1)) ≡ (ok tt, start (some 1))
unfolding handle_pull_request_event review_in queue_review split_full_name split_slashes ◌>>=◌
revoked_pull_request_test = refl

opened_test :
    (handle_pull_request_event services opened (start none)).1.queued
    ≡ record { job_id = "u"; pull_request_id = "p"; repository_id = "r"; commit_sha = "h" } ∷ []
unfolding handle_pull_request_event review_in queue_review split_full_name split_slashes ◌>>=◌
opened_test = refl

handle_push_event_lem_example :
    Ends
      (handle_push_event services push (start none))
      (λ done t. Pushes services "octo/hello" (start none) t)
      (λ e t. Pushes services "octo/hello" (start none) t)
handle_push_event_lem_example = handle_push_event_lem services push (start none)

handle_pull_request_event_lem_example :
    Ends
      (handle_pull_request_event services opened (start none))
      (λ done t. (t.queued ≡ []) ⊎ Queues services opened (start none) t)
      (λ e t. t.queued ≡ [])
handle_pull_request_event_lem_example = handle_pull_request_event_lem services opened (start none)
