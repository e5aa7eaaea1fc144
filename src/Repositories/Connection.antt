-- ===== src/Repositories/Connection.antt =====
-- repository.service.ts over the tables repositories and index_jobs.
mod Connect
mod Limits
mod Tests
use code_trace.Prelude.{
  ℕ, suc, ◌≤◌, String, ◌≡◌, Bool, true, false, not, ◌&&◌, Option, none, some, List, [], ◌∷◌, map,
  find, keep, length, is_some, get_or, leb, includes, ◌==◌, text_eq, if◌then◌else◌, ◌+++◌,
}
use Prim.Native.String
use code_trace.Errors.{Failure, Result, ok, err, not_found, forbidden, conflict}
use code_trace.Exec.{Exec, pure, raise, ◌>>=◌, try_then, Ends}
use code_trace.Indexing.{RepositoryStatus, pending, failed}
use code_trace.Repositories.Installations.{Installation, InstallationTable, get_active_installation}

pub record ConnectRepositoryInput : Type 0 where
  pub installation_id : String
  pub owner : String
  pub name : String
  pub github_url : String
  pub default_branch : String

pub record ConnectedRepository : Type 0 where
  pub id : String
  pub user_id : String
  pub input : ConnectRepositoryInput
  pub status : RepositoryStatus

-- A job of type FULL.
pub record FullIndexJob : Type 0 where
  pub id : String
  pub repository_id : String
  pub status : RepositoryStatus

abbrev pub is_of_user : String → ConnectedRepository → Bool
is_of_user user_id r = r.user_id == user_id

abbrev pub fail_repository : String → ConnectedRepository → ConnectedRepository
fail_repository id r = if r.id == id then record r { status = failed } else r

abbrev pub fail_job : String → FullIndexJob → FullIndexJob
fail_job id j = if j.id == id then record j { status = failed } else j

-- The tables behind Prisma, its transactions and the queue. A call that fails changes nothing, nor does
-- a transaction that fails; a read and a call of the queue change no table.
pub record ConnectionTables (S : Type 0) : Type 0 where
  pub repositories : S → List ConnectedRepository
  pub jobs : S → List FullIndexJob
  pub find_repository : String → Exec S (Option ConnectedRepository)
  pub count : String → Exec S ℕ
  pub create_repository : String → ConnectRepositoryInput → Exec S ConnectedRepository
  pub create_job : String → Exec S FullIndexJob
  pub transaction :
      Exec S (ConnectedRepository × FullIndexJob) → Exec S (ConnectedRepository × FullIndexJob)
  pub fail_both : String → String → Exec S (Unit {0})
  pub delete : String → Exec S (Unit {0})
  pub enqueue_index_job : FullIndexJob → Exec S (Unit {0})

-- Neither table has changed.
abbrev pub Keeps : {S : Type 0} → ConnectionTables S → S → S → Type 0
Keeps tables s t = (tables.repositories t ≡ tables.repositories s) × (tables.jobs t ≡ tables.jobs s)

pub record ConnectionLaws {S : Type 0} (tables : ConnectionTables S) : Type 0 where
  pub find_repository :
      (id : String) (s : S)
      → Ends
          (tables.find_repository id s)
          (λ found t. (found ≡ find (λ r. r.id == id) (tables.repositories s)) × Keeps tables s t)
          (λ e t. Keeps tables s t)
  pub count :
      (user_id : String) (s : S)
      → Ends
          (tables.count user_id s)
          (λ n t.
            (n ≡ length (keep (is_of_user user_id) (tables.repositories s))) × Keeps tables s t)
          (λ e t. Keeps tables s t)
  pub create_repository :
      (user_id : String) (input : ConnectRepositoryInput) (s : S)
      → Ends
          (tables.create_repository user_id input s)
          (λ r t.
            (r ≡ record { id = r.id; user_id = user_id; input = input; status = pending })
            × (tables.repositories t ≡ r ∷ tables.repositories s)
            × (tables.jobs t ≡ tables.jobs s))
          (λ e t. Keeps tables s t)
  pub create_job :
      (repository_id : String) (s : S)
      → Ends
          (tables.create_job repository_id s)
          (λ j t.
            (j ≡ record { id = j.id; repository_id = repository_id; status = pending })
            × (tables.repositories t ≡ tables.repositories s)
            × (tables.jobs t ≡ j ∷ tables.jobs s))
          (λ e t. Keeps tables s t)
  pub transaction :
      (body : Exec S (ConnectedRepository × FullIndexJob)) (s : S)
      → Ends (tables.transaction body s) (λ made t. body s ≡ (ok made, t)) (λ e t. Keeps tables s t)
  pub fail_both :
      (job_id repository_id : String) (s : S)
      → Ends
          (tables.fail_both job_id repository_id s)
          (λ done t.
            (tables.repositories t ≡ map (fail_repository repository_id) (tables.repositories s))
            × (tables.jobs t ≡ map (fail_job job_id) (tables.jobs s)))
          (λ e t. Keeps tables s t)
  pub delete :
      (id : String) (s : S)
      → Ends
          (tables.delete id s)
          (λ done t. tables.repositories t ≡ keep (λ r. not (r.id == id)) (tables.repositories s))
          (λ e t. Keeps tables s t)
  pub enqueue_index_job :
      (job : FullIndexJob) (s : S)
      → Ends (tables.enqueue_index_job job s) (λ done t. Keeps tables s t) (λ e t. Keeps tables s t)

abbrev pub max_repositories_per_user : ℕ
max_repositories_per_user = 2

abbrev pub limit_reached : Failure
limit_reached = conflict "REPOSITORY_LIMIT_REACHED" "You can connect at most 2 repositories"

module _ {S : Type 0} (tables : ConnectionTables S) (installations : InstallationTable S) where
  abbrev pub no_installation : Failure
  no_installation = not_found "Installation not found or revoked"

  abbrev pub users_or_refused : String → Option Installation → Exec S Installation
  users_or_refused user_id none = raise no_installation
  users_or_refused user_id (some r) =
      if r.user_id == user_id then pure r else raise (forbidden "You do not own this installation")

  -- the two guards on the installation that `connectRepository` and `listAvailableRepos` share
  unfoldable pub own_installation : String → String → Exec S Installation
  own_installation user_id installation_id = do
    active ← get_active_installation installations installation_id
    users_or_refused user_id active

  unfoldable pub create_both :
      String → ConnectRepositoryInput → Exec S (ConnectedRepository × FullIndexJob)
  create_both user_id input = do
    repository ← tables.create_repository user_id input
    index_job ← tables.create_job repository.id
    pure (repository, index_job)

  -- the `try` around the queue, whose `catch` marks both rows FAILED
  unfoldable pub enqueue_or_fail : ConnectedRepository → FullIndexJob → Exec S (Unit {0})
  enqueue_or_fail repository index_job =
      try_then (tables.enqueue_index_job index_job) pure
        (λ e. do _ ← tables.fail_both index_job.id repository.id; raise e)

  unfoldable pub connect_within_limit : String → ConnectRepositoryInput → Exec S ConnectedRepository
  connect_within_limit user_id input = do
    made ← tables.transaction (create_both user_id input)
    _ ← enqueue_or_fail made.0 made.1
    pure made.0

  unfoldable pub connect_repository : String → ConnectRepositoryInput → Exec S ConnectedRepository
  connect_repository user_id input = do
    _ ← own_installation user_id input.installation_id
    connected ← tables.count user_id
    if leb max_repositories_per_user connected
        then raise limit_reached
        else connect_within_limit user_id input

  abbrev pub owned_or_null : String → Option ConnectedRepository → Exec S ConnectedRepository
  owned_or_null user_id none = raise (not_found "Repository not found")
  owned_or_null user_id (some r) =
      if r.user_id == user_id then pure r else raise (not_found "Repository not found")

  unfoldable pub get_owned_repository : String → String → Exec S ConnectedRepository
  get_owned_repository user_id repository_id = do
    found ← tables.find_repository repository_id
    owned_or_null user_id found

  unfoldable pub delete_repository : String → String → Exec S (Unit {0})
  delete_repository user_id repository_id = do
    _ ← get_owned_repository user_id repository_id
    tables.delete repository_id
