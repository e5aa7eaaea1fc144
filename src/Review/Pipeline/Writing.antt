-- ===== src/Review/Pipeline/Writing.antt =====
-- `postWritebackAndRecordFailure`: the review's own success does not depend on GitHub's answer.
use code_trace.Prelude.{
  ℕ, String, ◌≡◌, refl, sym, ◌∙◌, ap, true, false, some, map, find, Bool-cases, inl, inr, ◌⊎◌,
}
use code_trace.Errors.{Result, ok, err, Response}
use code_trace.Exec.{Ends, returned, threw, Ends-bind, Ends-gets, bind_lem, try_then_lem}
use code_trace.Review.Types.{PrDiffResult}
use code_trace.Review.Writeback.{post_review_to_github, review_post, review_url}
use code_trace.Review.Material.{for_writeback}
use code_trace.Review.Store.{ReviewRow, ReviewTable, has_id, update_row}
use code_trace.Review.Services.{PullRequest, Services, LeavesReviews}
use code_trace.Review.Pipeline.{mark_unposted, try_post, post_writeback_and_record_failure}
use code_trace.Review.Pipeline.Outcome.{CanUpdate}

-- GitHub took the review: the request was answered, and with a status of success.
abbrev pub IsTaken : {S : Type 0} → Result (Response (Unit {0})) × S → Type 0
IsTaken r = (res : Response (Unit {0})) × (r.0 ≡ ok res) × (res.success ≡ true)

module _ {S V F : Type 0} (table : ReviewTable S) (services : Services S V F)
    (leaves : LeavesReviews table services) (can_update : CanUpdate table) (review : ReviewRow)
    (pull_request : PullRequest) (token : String) (diff : PrDiffResult) (s : S) where
  -- GitHub's answer to the request that the write-back makes.
  abbrev pub answer : Result (Response (Unit {0})) × S
  answer =
      services.post_review token
        (review_url pull_request.owner pull_request.name pull_request.github_pr_number)
        (review_post (for_writeback review) diff.position_by_file_and_line) s

  try_post_lem :
      Ends
        (try_post table services review pull_request token diff s)
        (λ result t.
          (table.rows t ≡ table.rows s)
          × (((result.posted ≡ true) × IsTaken answer)
              ⊎ ((result.posted ≡ false) × (IsTaken answer → ⊥))))
        (λ e t. ⊥)
  unfolding try_post post_review_to_github
  try_post_lem = go answer refl
    where
      kept : table.rows answer.1 ≡ table.rows s
      kept =
          leaves.post_review token
            (review_url pull_request.owner pull_request.name pull_request.github_pr_number)
            (review_post (for_writeback review) diff.position_by_file_and_line) s

      go :
          (r : Result (Response (Unit {0})) × S)
          → answer ≡ r
          → Ends
              (try_post table services review pull_request token diff s)
              (λ result t.
                (table.rows t ≡ table.rows s)
                × (((result.posted ≡ true) × IsTaken answer)
                    ⊎ ((result.posted ≡ false) × (IsTaken answer → ⊥))))
              (λ e t. ⊥)
      go (ok res, t) same =
          let rows : table.rows t ≡ table.rows s = sym (ap (λ r. table.rows r.1) same) ∙ kept in
          rw (try_then_lem, bind_lem, same)
            (returned _ t refl (
              rows,
              elim (Bool-cases res.success) [
                | inl e ↦ inl (rw e refl, (res, refl, e))
                | inr e ↦ inr (rw e refl, λ (res', same', taken). absurd (cc (same', taken, e)))
              ],
            ))
      go (err e, t) same =
          rw (try_then_lem, bind_lem, same)
            (returned _ t refl (
              sym (ap (λ r. table.rows r.1) same) ∙ kept,
              inr (refl, λ (res', same', taken). absurd (cc same')),
            ))

  -- Where the review's row is there to be updated, the write-back returns, whatever GitHub answers: if
  -- GitHub took the review then no review changes, and else the one change is that `writebackFailedAt`
  -- of the review is set. The conditions: the update of a row that exists does not fail, and the other
  -- services leave the reviews alone.
  pub post_writeback_and_record_failure_lem :
      (row : ReviewRow)
      → find (has_id review.id) (table.rows s) ≡ some row
      → Ends
          (post_writeback_and_record_failure table services review pull_request token diff s)
          (λ done t.
            (IsTaken answer × (table.rows t ≡ table.rows s))
            ⊎ ((IsTaken answer → ⊥)
                × (time : ℕ) × (table.rows t
                    ≡ map (update_row review.id (mark_unposted time)) (table.rows s))))
          (λ e t. ⊥)
  unfolding post_writeback_and_record_failure
  post_writeback_and_record_failure_lem row found =
      Ends-bind _ _ s try_post_lem
        (λ result t (rows, taken). elim taken [
          | inl (posted, k) ↦ rw posted (returned tt t refl (inl (k, rows)))
          | inr (unposted, k) ↦ rw unposted (
              Ends-gets _ _ t (
                Ends-bind _ _ t {Q = λ e u. ⊥} (sure t rows)
                  (λ new u rows'. returned tt u refl (inr (k, services.now t, rows')))
                  (λ e u none_. absurd none_)))
        ])
        (λ e t k. k)
    where
      sure :
          (t : S)
          → table.rows t ≡ table.rows s
          → Ends
              (table.update review.id (mark_unposted (services.now t)) t)
              (λ new u.
                table.rows u
                ≡ map (update_row review.id (mark_unposted (services.now t))) (table.rows s))
              (λ e u. ⊥)
      sure t rows = elim (table.update_lem review.id (mark_unposted (services.now t)) t) [
        | returned new u same (old, here, made, rows') ↦
            returned new u same
              (rows' ∙ ap (map (update_row review.id (mark_unposted (services.now t)))) rows)
        | threw e u same rows' ↦
            let (new, v, done) =
              can_update review.id (mark_unposted (services.now t)) t row
                (ap (find (has_id review.id)) rows ∙ found) in
            absurd (cc (same, done))
      ]
