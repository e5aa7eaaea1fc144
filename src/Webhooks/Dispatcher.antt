-- ===== src/Webhooks/Dispatcher.antt =====
-- webhook-dispatcher.service.ts: the three handlers, with the start of an index job of Indexing and the
-- revocation of Repositories.Installations.
mod Gate
mod Tests
use Prim.Native.Char.{code}
use Prim.Native.String
use code_trace.Prelude.{
  ℕ, String, ◌≡◌, Bool, true, false, not, ◌&&◌, ◌||◌, Option, none, some, List, [], ◌∷◌, find,
  is_some, includes, nat_eq, ◌==◌, text_eq, number_eq, if◌then◌else◌,
}
use code_trace.Errors.{Failure, app_error}
use code_trace.Exec.{Exec, pure, raise, ◌>>=◌, try_then, Ends}
use code_trace.Indexing.{
  RepositoryStatus, IndexJob, IndexTables, incremental, create_and_enqueue_index_job,
}
use code_trace.Repositories.Installations.{InstallationTable, revoke_installation}
use code_trace.Review.Services.{PrReviewJobPayload}

pub record GitHubPushEvent : Type 0 where
  pub full_name : String

pub record GitHubPullRequestEvent : Type 0 where
  pub action : String
  pub number : ℕ
  pub full_name : String
  pub title : String
  pub author : String
  pub base_sha : String
  pub head_sha : String

pub record GitHubInstallationEvent : Type 0 where
  pub action : String
  pub installation_id : ℕ

-- `text.split("/")`
unfoldable pub split_slashes : String → List String
split_slashes String.[] = "" ∷ []
split_slashes (String.◌∷◌ c s) =
    let rest = split_slashes s in
    if nat_eq (code c) b'/'
    then "" ∷ rest
    else elim rest [ [] ↦ String.◌∷◌ c "" ∷ [] | part ∷ parts ↦ String.◌∷◌ c part ∷ parts ]

abbrev pub owner_and_name : List String → Option (String × String)
owner_and_name [] = none
owner_and_name (owner ∷ []) = none
owner_and_name (owner ∷ name ∷ _) = if owner == "" || name == "" then none else some (owner, name)

unfoldable pub split_full_name : String → Option (String × String)
split_full_name full_name = owner_and_name (split_slashes full_name)

-- A row of repositories with `revokedAt` of its installation.
pub record HookRepository : Type 0 where
  pub id : String
  pub owner : String
  pub name : String
  pub status : RepositoryStatus
  pub installation_revoked_at : Option ℕ

-- `where: { owner, name, installation: { revokedAt: null } }`
abbrev pub is_target : String → String → HookRepository → Bool
is_target owner name r =
    r.owner == owner && (r.name == name && not (is_some r.installation_revoked_at))

-- A row of pull_requests, with the columns in use.
pub record HookPullRequest : Type 0 where
  pub id : String
  pub repository_id : String
  pub github_pr_number : ℕ
  pub title : String
  pub head_sha : String

-- The tables repositories and pull_requests and the queue of reviews, with what each call leaves as it
-- was. `index` and `installations` are the tables of the other two parts.
pub record HookServices (S : Type 0) : Type 0 where
  pub index : IndexTables S
  pub installations : InstallationTable S
  pub rows : S → List HookRepository
  pub queued : S → List PrReviewJobPayload
  pub find_first : (HookRepository → Bool) → Exec S (Option HookRepository)
  pub upsert : String → GitHubPullRequestEvent → Exec S HookPullRequest
  pub random_uuid : S → String
  pub enqueue_pr_review_job : PrReviewJobPayload → Exec S (Unit {0})
  pub find_first_lem :
      (p : HookRepository → Bool) (s : S)
      → Ends (find_first p s) (λ found t. (found ≡ find p (rows s)) × (t ≡ s)) (λ e t. t ≡ s)
  pub upsert_lem :
      (repository_id : String) (payload : GitHubPullRequestEvent) (s : S)
      → Ends
          (upsert repository_id payload s)
          (λ row t.
            (row.repository_id ≡ repository_id)
            × (row.github_pr_number ≡ payload.number)
            × (row.head_sha ≡ payload.head_sha)
            × (queued t ≡ queued s))
          (λ e t. queued t ≡ queued s)
  pub enqueue_lem :
      (job : PrReviewJobPayload) (s : S)
      → Ends
          (enqueue_pr_review_job job s)
          (λ done t. queued t ≡ job ∷ queued s)
          (λ e t. queued t ≡ queued s)

-- `err instanceof AppError && err.code === "ALREADY_INDEXING"`
abbrev pub is_already_indexing : Failure → Bool
is_already_indexing (app_error _ code _) = code == "ALREADY_INDEXING"
is_already_indexing _ = false

module _ {S : Type 0} (services : HookServices S) where
  open services use {index, installations, find_first, upsert, random_uuid, enqueue_pr_review_job}

  unfoldable pub start_incremental : Option HookRepository → Exec S (Unit {0})
  start_incremental none = pure tt
  start_incremental (some r) =
      try_then (create_and_enqueue_index_job index r.id incremental r.status) (λ job. pure tt)
        (λ e. if is_already_indexing e then pure tt else raise e)

  unfoldable pub push_to : Option (String × String) → Exec S (Unit {0})
  push_to none = pure tt
  push_to (some (owner, name)) = do
    repository ← find_first (is_target owner name)
    start_incremental repository

  unfoldable pub handle_push_event : GitHubPushEvent → Exec S (Unit {0})
  handle_push_event payload = push_to (split_full_name payload.full_name)

  abbrev pub job_of :
      GitHubPullRequestEvent → HookRepository → HookPullRequest → String → PrReviewJobPayload
  job_of payload r pull_request id = record {
    job_id = id;
    pull_request_id = pull_request.id;
    repository_id = r.id;
    commit_sha = payload.head_sha;
  }

  unfoldable pub queue_review : GitHubPullRequestEvent → Option HookRepository → Exec S (Unit {0})
  queue_review payload none = pure tt
  queue_review payload (some r) = do
    pull_request ← upsert r.id payload
    id ← (λ s. pure (random_uuid s) s)
    enqueue_pr_review_job (job_of payload r pull_request id)

  unfoldable pub review_in : GitHubPullRequestEvent → Option (String × String) → Exec S (Unit {0})
  review_in payload none = pure tt
  review_in payload (some (owner, name)) = do
    repository ← find_first (is_target owner name)
    queue_review payload repository

  unfoldable pub handle_pull_request_event : GitHubPullRequestEvent → Exec S (Unit {0})
  handle_pull_request_event payload =
      if includes payload.action ("opened" ∷ "synchronize" ∷ [])
      then review_in payload (split_full_name payload.full_name)
      else pure tt

  unfoldable pub handle_installation_event : GitHubInstallationEvent → Exec S (Unit {0})
  handle_installation_event payload =
      if payload.action == "deleted" || payload.action == "suspend"
      then revoke_installation installations payload.installation_id
      else pure tt
