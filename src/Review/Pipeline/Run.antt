-- ===== src/Review/Pipeline/Run.antt =====
-- The reviews after each part of `runPrReview` and of the write-back, for a job that owns a row.
use code_trace.Prelude.{
  ◌-◌, String, ◌≡◌, ◌≢◌, refl, sym, subst, ◌∙◌, false, Option, some, List, Bool-cases, inl, inr,
  find-eq-some, ◌==◌, text_eq, eq_iff,
}
use code_trace.Errors.{Failure}
use code_trace.Exec.{Ends, returned, Ends-bind, Ends-try_then, Ends-mono, Ends-gets}
use code_trace.Review.Types.{ChangedLineRange, PrDiffResult}
use code_trace.Review.Diff.Fetch.{get_pr_diff, fetch_compare_files, compare_url, compare_files}
use code_trace.Review.Writeback.{post_review_to_github, review_post, review_url}
use code_trace.Review.Store.{ReviewRow, ReviewTable, has_id}
use code_trace.Review.Services.{PullRequest, PrReviewJobPayload, Services, LeavesReviews}
use code_trace.Review.Material.{for_writeback, gather, prompt_of, usage_entry}
use code_trace.Review.Prompt.{system_prompt}
use code_trace.Review.Pipeline.{
  review_changes, run_pr_review, owned_review, try_post, post_writeback_and_record_failure,
  run_claimed,
}
use code_trace.Review.Pipeline.Rows.{Held, Held-mono}
use code_trace.Review.Pipeline.Steps.{IsAny, IsComplete, Ends-kept, Ends-lift, Ends-update}

module _ {S V F : Type 0} (table : ReviewTable S) (services : Services S V F)
    (leaves : LeavesReviews table services) (id p c : String) (before : List ReviewRow) where
  abbrev pub Kept : (ReviewRow → Type 0) → S → Type 0
  Kept R s = Held id p c before R (table.rows s)

  forget : {R : ReviewRow → Type 0} (e : Failure) (t : S) → Kept R t → Kept IsAny t
  forget e t h = Held-mono id p c before (table.rows t) h (λ row k. tt)

  review_changes-Held :
      (pull_request : PullRequest) (ranges : List ChangedLineRange) (review : ReviewRow)
      (job_id : Option String) (s : S)
      → review.id ≡ id
      → Kept IsAny s
      → Ends
          (review_changes table services pull_request ranges review job_id s)
          (λ saved t. Kept IsComplete t × (saved.id ≡ id))
          (λ e t. Kept IsAny t)
  unfolding review_changes
  review_changes-Held pull_request ranges review job_id s own h =
      Ends-bind _ _ s
        (Ends-lift table (gather services pull_request ranges) (Held id p c before IsAny) s h)
        (λ m t held. Ends-gets _ _ t (
          Ends-bind _ _ t
            (let user = prompt_of services pull_request m in
              Ends-kept table (services.generate_chat_completion system_prompt user)
                (Held id p c before IsAny) t (leaves.generate_chat_completion system_prompt user t)
                held)
            (λ completion u held'. Ends-gets _ _ u (
              Ends-bind _ _ u
                (Ends-update table id p c before _ {R' = IsComplete} review.id u own
                  (λ row. (refl, refl, refl)) held' (λ row k. refl))
                (λ saved v (done, same).
                  Ends-bind _ _ v
                    (Ends-kept table services.random_uuid (Held id p c before IsComplete) v
                      (leaves.random_uuid v) done)
                    (λ request_id w done'.
                      Ends-bind _ _ w
                        (let entry =
                            usage_entry services pull_request job_id m completion request_id
                              (services.now u - services.now t) in
                          Ends-kept table (services.create_usage_log entry)
                            (Held id p c before IsComplete) w (leaves.create_usage_log entry w)
                            done')
                        (λ logged x done''. returned saved x refl (done'', same)) forget)
                    forget)
                (λ e v k. k)))
            (λ e u k. k)))
        (λ e t k. k)

  owned_review-Held :
      (pull_request : PullRequest) (pull_request_id held_id : String) (commit_sha : Option String)
      (s : S)
      → held_id ≡ id
      → held_id ≢ ""
      → Kept IsAny s
      → Ends
          (owned_review table services pull_request pull_request_id commit_sha (some held_id) s)
          (λ claim t. Kept IsAny t × (claim.review.id ≡ id) × (claim.already_complete ≡ false))
          (λ e t. Kept IsAny t)
  unfolding owned_review
  owned_review-Held pull_request pull_request_id held_id commit_sha s own filled h =
      elim (Bool-cases (held_id == "")) [
        | inl e ↦ absurd (filled ((eq_iff held_id "").0 e))
        | inr e ↦ rw e (
            Ends-bind _ _ s (table.find_by_id_lem held_id s)
              (λ row t (found, same). returned _ t refl (
                subst (Held id p c before IsAny) (sym same) h,
                (eq_iff row.id held_id).0
                      (find-eq-some (has_id held_id) (table.rows s) {a = row} found).1
                    ∙ own,
                refl,
              ))
              (λ e t same. subst (Held id p c before IsAny) (sym same) h))
      ]

  run_pr_review-Held :
      (pull_request_id held_id : String) (ranges : List ChangedLineRange)
      (commit_sha job_id : Option String) (s : S)
      → held_id ≡ id
      → held_id ≢ ""
      → Kept IsAny s
      → Ends
          (run_pr_review table services pull_request_id ranges commit_sha (some held_id) job_id s)
          (λ saved t. Kept IsComplete t × (saved.id ≡ id))
          (λ e t. Kept IsAny t)
  unfolding run_pr_review
  run_pr_review-Held pull_request_id held_id ranges commit_sha job_id s own filled h =
      Ends-bind _ _ s
        (Ends-kept table (services.find_pull_request pull_request_id) (Held id p c before IsAny) s
          (leaves.find_pull_request pull_request_id s) h)
        (λ pull_request t held.
          Ends-bind _ _ t
            (owned_review-Held pull_request pull_request_id held_id commit_sha t own filled held)
            (λ claim u (held', same, open_).
              rw open_ (review_changes-Held pull_request ranges claim.review job_id u same held'))
            (λ e u k. k))
        (λ e t k. k)

  -- The write-back throws for no answer of GitHub.
  try_post-Held :
      (review : ReviewRow) (pull_request : PullRequest) (token : String) (diff : PrDiffResult)
      (s : S)
      → Kept IsComplete s
      → Ends
          (try_post table services review pull_request token diff s)
          (λ result t. Kept IsComplete t)
          (λ e t. ⊥)
  unfolding try_post post_review_to_github
  try_post-Held review pull_request token diff s h =
      Ends-try_then _ _ _ s {Q = λ e t. Kept IsComplete t}
        (Ends-bind _ _ s
          (let url =
              review_url pull_request.owner pull_request.name pull_request.github_pr_number in
            let post = review_post (for_writeback review) diff.position_by_file_and_line in
            Ends-kept table (services.post_review token url post) (Held id p c before IsComplete) s
              (leaves.post_review token url post s) h)
          (λ res t held. returned _ t refl held) (λ e t k. k))
        (λ result t held. returned result t refl held) (λ e t held. returned _ t refl held)

  post_writeback-Held :
      (review : ReviewRow) (pull_request : PullRequest) (token : String) (diff : PrDiffResult)
      (s : S)
      → review.id ≡ id
      → Kept IsComplete s
      → Ends
          (post_writeback_and_record_failure table services review pull_request token diff s)
          (λ done t. Kept IsComplete t)
          (λ e t. Kept IsComplete t)
  unfolding post_writeback_and_record_failure
  post_writeback-Held review pull_request token diff s own h =
      Ends-bind _ _ s (try_post-Held review pull_request token diff s h)
        (λ result t held. elim (Bool-cases result.posted) [
          | inl e ↦ rw e (returned tt t refl held)
          | inr e ↦ rw e (
              Ends-gets _ _ t (
                Ends-bind _ _ t
                  (Ends-update table id p c before _ {R' = IsComplete} review.id t own
                    (λ row. (refl, refl, refl)) held (λ row k. k))
                  (λ row u (held', same). returned tt u refl held') (λ e u k. k)))
        ])
        (λ e t k. absurd k)

  diff-Held :
      (pull_request : PullRequest) (token commit_sha : String) (s : S)
      → Kept IsAny s
      → Ends
          (get_pr_diff services.compare token pull_request.owner pull_request.name
            pull_request.base_sha commit_sha s)
          (λ diff t. Kept IsAny t)
          (λ e t. Kept IsAny t)
  unfolding get_pr_diff fetch_compare_files
  diff-Held pull_request token commit_sha s h =
      let url = compare_url pull_request.owner pull_request.name pull_request.base_sha commit_sha in
      Ends-bind _ _ s
        (Ends-bind _ _ s
          (Ends-kept table (services.compare token url) (Held id p c before IsAny) s
            (leaves.compare token url s) h)
          (λ res t held. Ends-lift table (compare_files res) (Held id p c before IsAny) t held)
          (λ e t k. k))
        (λ files t held. returned _ t refl held) (λ e t k. k)

  -- The body of the `try`.
  pub run_claimed-Held :
      (payload : PrReviewJobPayload) (review : ReviewRow) (s : S)
      → review.id ≡ id
      → review.id ≢ ""
      → Kept IsAny s
      → Ends
          (run_claimed table services payload review s)
          (λ done t. Kept IsComplete t)
          (λ e t. Kept IsAny t)
  unfolding run_claimed
  run_claimed-Held payload review s own filled h =
      Ends-bind _ _ s
        (Ends-kept table (services.find_pull_request payload.pull_request_id)
          (Held id p c before IsAny) s (leaves.find_pull_request payload.pull_request_id s) h)
        (λ pull_request t held.
          Ends-bind _ _ t
            (Ends-kept table (services.mint_installation_token pull_request.github_installation_id)
              (Held id p c before IsAny) t
              (leaves.mint_installation_token pull_request.github_installation_id t) held)
            (λ token u held'.
              Ends-bind _ _ u (diff-Held pull_request token payload.commit_sha u held')
                (λ diff v held''.
                  Ends-bind _ _ v
                    (run_pr_review-Held pull_request.id review.id diff.changed_ranges
                      (some payload.commit_sha) (some payload.job_id) v own filled held'')
                    (λ completed w (done, same).
                      Ends-mono _
                        (post_writeback-Held completed pull_request token diff w same done)
                        (λ a x k. k) forget)
                    (λ e w k. k))
                (λ e v k. k))
            (λ e u k. k))
        (λ e t k. k)
