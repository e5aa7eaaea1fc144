-- ===== src/Review/Pipeline/Resting.antt =====
-- A job for a commit whose review is COMPLETE.
use code_trace.Prelude.{◌≡◌, refl, ◌∙◌, ap, some, find, Bool-cases, inl, inr, List}
use code_trace.Errors.{Result, ok, err, is_unique_violation}
use code_trace.Exec.{◌>>=◌, bind_lem, try_then_lem, returned, threw}
use code_trace.Review.Store.{ReviewRow, ReviewTable, complete, has_key}
use code_trace.Review.Services.{PrReviewJobPayload, Services}
use code_trace.Review.Pipeline.{resume, process_pr_review_job}

module _ {S V F : Type 0} (table : ReviewTable S) (payload : PrReviewJobPayload) where
  -- One outcome for all services, which leaves the reviews of `before`.
  abbrev Rests : List ReviewRow → ((Services S V F) → Result (Unit {0}) × S) → Type 0
  Rests before run =
      (outcome : Result (Unit {0}) × S) × (table.rows outcome.1 ≡ before)
      × ((services : Services S V F) → run services ≡ outcome)

  look_up-Rests :
      (before : List ReviewRow) (s : S) (row : ReviewRow)
      → table.rows s ≡ before
      → find (has_key payload.pull_request_id payload.commit_sha) before ≡ some row
      → row.status ≡ complete
      → Rests before (λ services.
        (table.find_unique payload.pull_request_id payload.commit_sha
            >>= resume table services payload)
          s)
  unfolding resume
  look_up-Rests before s row rows found done =
      elim (table.find_unique_lem payload.pull_request_id payload.commit_sha s) [
        | returned o t same (is_found, rows') ↦ (
          (ok tt, t),
          rows' ∙ rows,
          λ services.
              let o_is =
                is_found
                ∙ ap (find (has_key payload.pull_request_id payload.commit_sha)) rows
                ∙ found in
              rw (bind_lem, same, o_is, done) refl,
        )
        | threw e t same rows' ↦ ((err e, t), rows' ∙ rows, λ services. rw (bind_lem, same) refl)
      ]

  -- If the review of the job's pull request and commit is COMPLETE, then the job has one outcome, the
  -- same whatever GitHub, the search and the language model would do, so it does nothing with them; and
  -- no review changes.
  pub process_pr_review_job_rests :
      (s : S) (row : ReviewRow)
      → find (has_key payload.pull_request_id payload.commit_sha) (table.rows s) ≡ some row
      → row.status ≡ complete
      → (outcome : Result (Unit {0}) × S) × (table.rows outcome.1 ≡ table.rows s)
        × ((services : Services S V F) → process_pr_review_job table services payload s ≡ outcome)
  unfolding process_pr_review_job
  process_pr_review_job_rests s row found done =
      elim (table.create_lem payload.pull_request_id payload.commit_sha s) [
        | returned r t same (absent, fresh, filled, made, rows) ↦ absurd (cc (found, absent))
        | threw e t same (rows, taken) ↦ elim (Bool-cases (is_unique_violation e)) [
          | inl unique ↦
              let (outcome, kept, all) = look_up-Rests (table.rows s) t row rows found done in
              (outcome, kept, λ services. rw (try_then_lem, same, unique) (all services))
          | inr other ↦ ((err e, t), rows, λ services. rw (try_then_lem, same, other) refl)
        ]
      ]
