-- ===== src/Indexing.antt =====
-- backend/src/modules/indexing/services/index-job.service.ts: the start of an index job. The tables,
-- Prisma's transaction and the queue are parameters.
pub mod Start
pub mod Tests
use code_trace.Prelude.{
  ℕ, String, ◌≡◌, ◌↔◌, Bool, true, false, ◌&&◌, Option, none, List, ◌∷◌, map, find, if◌then◌else◌,
  ◌==◌, text_eq, number_eq,
}
use code_trace.Errors.{Result, ok, err, Failure, conflict}
use code_trace.Exec.{Exec, pure, raise, ◌>>=◌, Ends}

-- `RepositoryStatus`
pub data RepositoryStatus : Type 0 where
  pending cloning parsing chunking embedding storing indexed failed : RepositoryStatus

pub data IndexType : Type 0 where
  full incremental : IndexType

pub record Repository : Type 0 where
  pub id : String
  pub status : RepositoryStatus

-- A job that `create` makes: its status is PENDING.
pub record IndexJob : Type 0 where
  pub id : String
  pub repository_id : String
  pub type : IndexType

-- `NON_TERMINAL_STATUSES.includes(status)`
abbrev pub is_non_terminal : RepositoryStatus → Bool
is_non_terminal indexed = false
is_non_terminal failed = false
is_non_terminal _ = true

abbrev pub same_status : RepositoryStatus → RepositoryStatus → Bool
same_status pending pending = true
same_status cloning cloning = true
same_status parsing parsing = true
same_status chunking chunking = true
same_status embedding embedding = true
same_status storing storing = true
same_status indexed indexed = true
same_status failed failed = true
same_status _ _ = false

-- `where: { id: repositoryId, status: currentStatus }`
abbrev pub is_at : String → RepositoryStatus → Repository → Bool
is_at id status r = r.id == id && same_status r.status status

-- `data: { status: "PENDING" }` for the rows of that `where`
abbrev pub start_row : String → RepositoryStatus → Repository → Repository
start_row id status r = if is_at id status r then record r { status = pending } else r

-- The tables behind Prisma. A call that fails changes nothing, and a transaction that fails undoes
-- what its body did.
pub record IndexTables (S : Type 0) : Type 0 where
  pub repositories : S → List Repository
  pub jobs : S → List IndexJob
  pub update_many : String → RepositoryStatus → Exec S ℕ
  pub create_job : String → IndexType → Exec S IndexJob
  pub transaction : Exec S IndexJob → Exec S IndexJob
  pub enqueue : IndexJob → Exec S (Unit {0})
  pub update_many_lem :
      (id : String) (status : RepositoryStatus) (s : S)
      → Ends
          (update_many id status s)
          (λ count t.
            ((count ≡ 0) ↔ (find (is_at id status) (repositories s) ≡ none))
            × (repositories t ≡ map (start_row id status) (repositories s))
            × (jobs t ≡ jobs s))
          (λ e t. (repositories t ≡ repositories s) × (jobs t ≡ jobs s))
  pub create_job_lem :
      (id : String) (type : IndexType) (s : S)
      → Ends
          (create_job id type s)
          (λ job t.
            (job.repository_id ≡ id)
            × (job.type ≡ type)
            × (repositories t ≡ repositories s)
            × (jobs t ≡ job ∷ jobs s))
          (λ e t. (repositories t ≡ repositories s) × (jobs t ≡ jobs s))
  pub transaction_lem :
      (body : Exec S IndexJob) (s : S)
      → Ends
          (transaction body s)
          (λ job t. body s ≡ (ok job, t))
          (λ e t. (repositories t ≡ repositories s) × (jobs t ≡ jobs s))
  pub enqueue_lem :
      (job : IndexJob) (s : S)
      → Ends
          (enqueue job s)
          (λ done t. (repositories t ≡ repositories s) × (jobs t ≡ jobs s))
          (λ e t. (repositories t ≡ repositories s) × (jobs t ≡ jobs s))

module _ {S : Type 0} (tables : IndexTables S) where
  already_indexing : Failure
  already_indexing = conflict "ALREADY_INDEXING" "Repository is already actively indexing"

  -- the function that the transaction runs
  pub claim_repository : String → IndexType → RepositoryStatus → Exec S IndexJob
  unfolding already_indexing
  claim_repository repository_id type status = do
    count ← tables.update_many repository_id status
    if count == 0 then raise already_indexing else tables.create_job repository_id type

  pub create_and_enqueue_index_job : String → IndexType → RepositoryStatus → Exec S IndexJob
  unfolding already_indexing
  create_and_enqueue_index_job repository_id type status =
      if is_non_terminal status then raise already_indexing else (do
        index_job ← tables.transaction (claim_repository repository_id type status)
        enqueued ← tables.enqueue index_job
        pure index_job)
