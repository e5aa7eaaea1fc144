-- ===== src/Review/Store.antt =====
-- The table pr_reviews of backend/prisma/schema.prisma, behind Prisma.
use code_trace.Prelude.{
  ℕ, String, ◌≡◌, ◌≢◌, Bool, true, false, ◌&&◌, Option, none, some, List, ◌∷◌, map, find, is_some,
  if◌then◌else◌, ◌==◌, text_eq,
}
use code_trace.Errors.{is_unique_violation}
use code_trace.Exec.{Exec, Ends}
use code_trace.Review.Types.{RiskFactor, PrFinding}
use code_trace.Review.Risk.{Level}

-- `PrReviewStatus`
pub data ReviewStatus : Type 0 where
  pending running complete failed : ReviewStatus

abbrev pub is_complete : ReviewStatus → Bool
is_complete complete = true
is_complete _ = false

pub record ReviewRow : Type 0 where
  pub id : String
  pub pull_request_id : String
  pub commit_sha : String
  pub status : ReviewStatus
  pub risk_score : Option ℕ
  pub risk_level : Option Level
  pub risk_factors : Option (List RiskFactor)
  pub findings : Option (List PrFinding)
  pub llm_cost : Option ℕ
  pub writeback_failed_at : Option ℕ
  pub failure_reason : Option String

-- the row that `create` with `data: { pullRequestId, commitSha, status: "RUNNING" }` makes
abbrev pub running_row : String → String → String → ReviewRow
running_row id pull_request_id commit_sha = record {
  id = id;
  pull_request_id = pull_request_id;
  commit_sha = commit_sha;
  status = running;
  risk_score = none;
  risk_level = none;
  risk_factors = none;
  findings = none;
  llm_cost = none;
  writeback_failed_at = none;
  failure_reason = none;
}

-- `where: { pullRequestId_commitSha: { pullRequestId, commitSha } }`
abbrev pub has_key : String → String → ReviewRow → Bool
has_key pull_request_id commit_sha row =
    row.pull_request_id == pull_request_id && row.commit_sha == commit_sha

-- `where: { id }`
abbrev pub has_id : String → ReviewRow → Bool
has_id id row = row.id == id

-- `update({ where: { id }, data })`, the data as a function on the row
abbrev pub update_row : String → (ReviewRow → ReviewRow) → ReviewRow → ReviewRow
update_row id change row = if has_id id row then change row else row

-- The operations, with what Prisma and the constraint @@unique([pullRequestId, commitSha]) promise.
-- An id is a new UUID. `create` is refused with P2002 just if the key is taken; a failed call changes nothing.
pub record ReviewTable (S : Type 0) : Type 0 where
  pub rows : S → List ReviewRow
  pub create : String → String → Exec S ReviewRow
  pub find_unique : String → String → Exec S (Option ReviewRow)
  pub find_by_id : String → Exec S ReviewRow
  pub update : String → (ReviewRow → ReviewRow) → Exec S ReviewRow
  pub create_lem :
      (p c : String) (s : S)
      → Ends
          (create p c s)
          (λ row t.
            (find (has_key p c) (rows s) ≡ none)
            × (find (has_id row.id) (rows s) ≡ none)
            × (row.id ≢ "")
            × (row ≡ running_row row.id p c)
            × (rows t ≡ row ∷ rows s))
          (λ e t.
            (rows t ≡ rows s)
            × (is_unique_violation e ≡ true → is_some (find (has_key p c) (rows s)) ≡ true))
  pub find_unique_lem :
      (p c : String) (s : S)
      → Ends
          (find_unique p c s)
          (λ found t. (found ≡ find (has_key p c) (rows s)) × (rows t ≡ rows s))
          (λ e t. rows t ≡ rows s)
  pub find_by_id_lem :
      (id : String) (s : S)
      → Ends
          (find_by_id id s)
          (λ row t. (find (has_id id) (rows s) ≡ some row) × (rows t ≡ rows s))
          (λ e t. rows t ≡ rows s)
  pub update_lem :
      (id : String) (change : ReviewRow → ReviewRow) (s : S)
      → Ends
          (update id change s)
          (λ row t.
            (old : ReviewRow) × (find (has_id id) (rows s) ≡ some old)
            × (row ≡ change old)
            × (rows t ≡ map (update_row id change) (rows s)))
          (λ e t. rows t ≡ rows s)
