-- ===== src/Review/Pipeline.antt =====
-- backend/src/modules/pr-review/services/pr-review.service.ts: one review from the claim of its row to
-- the write-back.
pub mod Rows
pub mod Steps
pub mod Run
pub mod Outcome
pub mod Resting
pub mod Writing
pub mod Memory
pub mod Tests
use code_trace.Prelude.{
  ℕ, ◌-◌, String, Bool, true, false, not, Option, none, some, List, get_or, if◌then◌else◌, ◌==◌,
  text_eq,
}
use code_trace.Errors.{known_request, is_unique_violation, message_of}
use code_trace.Exec.{Exec, pure, raise, lift, ◌>>=◌, try_then, gets}
use code_trace.Chat.Pricing.{compute_cost}
use code_trace.Review.Types.{ChangedLineRange, PrFinding, PrDiffResult}
use code_trace.Review.Diff.Fetch.{get_pr_diff}
use code_trace.Review.Writeback.{WritebackResult, post_review_to_github}
use code_trace.Review.Risk.{RiskResult}
use code_trace.Review.Prompt.{system_prompt}
use code_trace.Review.Material.{for_writeback, gather, prompt_of, risk_of, findings_in, usage_entry}
use code_trace.Review.Store.{running, complete, failed, is_complete, ReviewRow, ReviewTable}
use code_trace.Review.Services.{PullRequest, PrReviewJobPayload, Services}

-- the `data` of the four updates
abbrev pub take_over : ReviewRow → ReviewRow
take_over row = record row { status = running; failure_reason = none; writeback_failed_at = none }

abbrev pub mark_failed : String → ReviewRow → ReviewRow
mark_failed message row = record row { status = failed; failure_reason = some message }

abbrev pub mark_unposted : ℕ → ReviewRow → ReviewRow
mark_unposted time row = record row { writeback_failed_at = some time }

abbrev pub mark_complete : RiskResult → List PrFinding → ℕ → ReviewRow → ReviewRow
mark_complete risk findings cost row = record row {
  status = complete;
  risk_score = some risk.score;
  risk_level = some risk.level;
  risk_factors = some risk.factors;
  findings = some findings;
  llm_cost = some cost;
}

pub record Claim : Type 0 where
  pub review : ReviewRow
  pub already_complete : Bool

module _ {S V F : Type 0} (table : ReviewTable S) (services : Services S V F) where
  open services use {chat_model}

  -- `findUniqueOrThrow` by the key: Prisma throws P2025 where there is no row.
  pub or_throw : Option ReviewRow → Exec S ReviewRow
  or_throw none = raise (known_request "P2025" "No record was found for a query.")
  or_throw (some row) = pure row

  pub reclaim : ReviewRow → Exec S Claim
  reclaim existing =
      if is_complete existing.status
      then pure (record { review = existing; already_complete = true })
      else (do
        claimed ← table.update existing.id take_over
        pure (record { review = claimed; already_complete = false }))

  pub claim_or_create_review : String → String → Exec S Claim
  unfolding or_throw reclaim
  claim_or_create_review pull_request_id commit_sha =
      try_then (table.create pull_request_id commit_sha)
        (λ review. pure (record { review = review; already_complete = false }))
        (λ e. if not (is_unique_violation e) then raise e else (do
          found ← table.find_unique pull_request_id commit_sha
          existing ← or_throw found
          reclaim existing))

  -- `runPrReview` from the row that it owns on
  pub review_changes :
      PullRequest → List ChangedLineRange → ReviewRow → Option String → Exec S ReviewRow
  review_changes pull_request ranges review job_id = do
    m ← lift (gather services pull_request ranges)
    started_at ← gets services.now
    completion ← services.generate_chat_completion system_prompt (prompt_of services pull_request m)
    ended_at ← gets services.now
    saved ← table.update review.id (
        mark_complete (risk_of services pull_request ranges m.changed)
          (findings_in services m completion) (compute_cost chat_model completion.usage))
    request_id ← services.random_uuid
    logged ←
        services.create_usage_log
          (usage_entry services pull_request job_id m completion request_id (ended_at - started_at))
    pure saved

  -- `existingReviewId ? … : …`, where "" is falsy
  pub owned_review : PullRequest → String → Option String → Option String → Exec S Claim
  owned_review pull_request pull_request_id commit_sha none =
      claim_or_create_review pull_request_id (get_or commit_sha pull_request.head_sha)
  owned_review pull_request pull_request_id commit_sha (some id) =
      if id == ""
      then claim_or_create_review pull_request_id (get_or commit_sha pull_request.head_sha)
      else (do
        review ← table.find_by_id id
        pure (record { review = review; already_complete = false }))

  pub run_pr_review :
      String
      → List ChangedLineRange
      → Option String
      → Option String
      → Option String
      → Exec S ReviewRow
  unfolding owned_review claim_or_create_review review_changes
  run_pr_review pull_request_id ranges commit_sha existing_review_id job_id = do
    pull_request ← services.find_pull_request pull_request_id
    claim ← owned_review pull_request pull_request_id commit_sha existing_review_id
    if claim.already_complete
        then pure claim.review
        else review_changes pull_request ranges claim.review job_id

  pub try_post : ReviewRow → PullRequest → String → PrDiffResult → Exec S WritebackResult
  try_post review pull_request token diff =
      try_then
        (post_review_to_github services.post_review token pull_request.owner pull_request.name
          pull_request.github_pr_number (for_writeback review) diff.position_by_file_and_line)
        pure (λ e. pure (record { posted = false; error = some (message_of e) }))

  pub post_writeback_and_record_failure :
      ReviewRow → PullRequest → String → PrDiffResult → Exec S (Unit {0})
  unfolding try_post
  post_writeback_and_record_failure review pull_request token diff = do
    result ← try_post review pull_request token diff
    if result.posted then pure tt else (do
      time ← gets services.now
      updated ← table.update review.id (mark_unposted time)
      pure tt)

  -- the body of the `try` of `processPrReviewJob`
  pub run_claimed : PrReviewJobPayload → ReviewRow → Exec S (Unit {0})
  unfolding run_pr_review post_writeback_and_record_failure
  run_claimed payload review = do
    pull_request ← services.find_pull_request payload.pull_request_id
    token ← services.mint_installation_token pull_request.github_installation_id
    diff ←
        get_pr_diff services.compare token pull_request.owner pull_request.name
          pull_request.base_sha payload.commit_sha
    completed ←
        run_pr_review pull_request.id diff.changed_ranges (some payload.commit_sha) (some review.id)
          (some payload.job_id)
    post_writeback_and_record_failure completed pull_request token diff

  -- that `try` with its `catch`
  pub run_recorded : PrReviewJobPayload → ReviewRow → Exec S (Unit {0})
  unfolding run_claimed
  run_recorded payload review =
      try_then (run_claimed payload review) pure
        (λ e. do updated ← table.update review.id (mark_failed (message_of e)); raise e)

  -- after the key was found taken
  pub resume : PrReviewJobPayload → Option ReviewRow → Exec S (Unit {0})
  unfolding run_recorded
  resume payload none = pure tt
  resume payload (some existing) =
      if is_complete existing.status
      then pure tt
      else (do review ← table.update existing.id take_over; run_recorded payload review)

  pub process_pr_review_job : PrReviewJobPayload → Exec S (Unit {0})
  unfolding run_recorded resume
  process_pr_review_job payload =
      try_then (table.create payload.pull_request_id payload.commit_sha) (run_recorded payload)
        (λ e. if not (is_unique_violation e) then raise e else (do
          found ← table.find_unique payload.pull_request_id payload.commit_sha
          resume payload found))
