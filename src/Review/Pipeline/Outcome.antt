-- ===== src/Review/Pipeline/Outcome.antt =====
-- `processPrReviewJob` as a whole: what a job leaves in pr_reviews, whether it returns or throws.
use code_trace.Prelude.{
  String, ◌≡◌, ◌≢◌, refl, sym, ap, ◌∙◌, subst, ◌⊎◌, inl, inr, true, Option, some, none, List, ◌∷◌,
  Bool-cases, Option-cases, is_some, find, find-eq-some, find-eq-none, eq_iff, text_eq,
}
use code_trace.Errors.{Failure, Result, ok, message_of, is_unique_violation}
use code_trace.Exec.{raise, ◌>>=◌, Ends, returned, threw, Ends-bind, Ends-try_then, Ends-mono}
use code_trace.Review.Store.{
  ReviewStatus, pending, running, complete, failed, is_complete, ReviewRow, ReviewTable,
  running_row, has_id, has_key,
}
use code_trace.Review.Services.{PrReviewJobPayload, Services, LeavesReviews}
use code_trace.Review.Pipeline.{take_over, mark_failed, run_recorded, resume, process_pr_review_job}
use code_trace.Review.Pipeline.Rows.{HasIds, KeepsKey, Held, Held-mono, create-Held, found-Held}
use code_trace.Review.Pipeline.Steps.{IsAny, IsComplete, Ends-update}
use code_trace.Review.Pipeline.Run.{run_claimed-Held}

-- The row records the failure.
abbrev pub IsFailed : Failure → ReviewRow → Type 0
IsFailed e row = (row.status ≡ failed) × (row.failure_reason ≡ some (message_of e))

-- The update of a row that exists does not fail.
abbrev pub CanUpdate : {S : Type 0} → ReviewTable S → Type 0
CanUpdate {S} table =
    (id : String) (change : ReviewRow → ReviewRow) (s : S) (row : ReviewRow)
    → find (has_id id) (table.rows s) ≡ some row
    → (new : ReviewRow) × (t : S) × (table.update id change s ≡ (ok new, t))

is_complete_eq : (status : ReviewStatus) → is_complete status ≡ true → status ≡ complete
is_complete_eq pending h = absurd (cc h)
is_complete_eq running h = absurd (cc h)
is_complete_eq complete h = refl
is_complete_eq failed h = absurd (cc h)

Held-find :
    {id p c : String} {before now : List ReviewRow} {R : ReviewRow → Type 0}
    → Held id p c before R now
    → (row : ReviewRow) × (find (has_id id) now ≡ some row)
Held-find {id} {now = now} h = elim (Option-cases (find (has_id id) now)) [
  | inl e ↦
      absurd (cc (find-eq-none (has_id id) now e h.row h.listed, (eq_iff h.row.id id).1 h.id_is))
  | inr (row, e) ↦ (row, e)
]

module _ {S V F : Type 0} (table : ReviewTable S) (services : Services S V F)
    (leaves : LeavesReviews table services) (can_update : CanUpdate table) where
  -- The update of the held row succeeds.
  Ends-sure_update :
      (id p c : String) (before : List ReviewRow) (change : ReviewRow → ReviewRow)
      {R R' : ReviewRow → Type 0} (held_id : String) (s : S)
      → held_id ≡ id
      → KeepsKey change
      → Held id p c before R (table.rows s)
      → ((row : ReviewRow) → R row → R' (change row))
      → Ends
          (table.update held_id change s)
          (λ row t. Held id p c before R' (table.rows t) × (row.id ≡ id))
          (λ e t. ⊥)
  Ends-sure_update id p c before change {R} {R'} held_id s own keeps h f =
      elim (Ends-update table id p c before change {R' = R'} held_id s own keeps h f) [
        | returned row t same k ↦ returned row t same k
        | threw e t same k ↦
            let (row, found) = Held-find h in
            let (new, u, done) = can_update held_id change s row (rw own found) in
            absurd (cc (same, done))
      ]

  mark_failed-Held :
      (id p c : String) (before : List ReviewRow) (e : Failure) (held_id : String) (s : S)
      → held_id ≡ id
      → Held id p c before IsAny (table.rows s)
      → Ends
          ((table.update held_id (mark_failed (message_of e)) >>= λ updated. raise {A = Unit {0}} e)
            s)
          (λ done t. ⊥)
          (λ f t. (f ≡ e) × Held id p c before (IsFailed e) (table.rows t))
  mark_failed-Held id p c before e held_id s own h =
      Ends-bind _ _ s
        (Ends-sure_update id p c before (mark_failed (message_of e)) {R' = IsFailed e} held_id s own
          (λ row. (refl, refl, refl)) h (λ row k. (refl, refl)))
        (λ row t (held, same). threw e t refl (refl, held)) (λ f t k. absurd k)

  run_recorded-Held :
      (id p c : String) (before : List ReviewRow) (payload : PrReviewJobPayload)
      (review : ReviewRow) (s : S)
      → review.id ≡ id
      → review.id ≢ ""
      → Held id p c before IsAny (table.rows s)
      → Ends
          (run_recorded table services payload review s)
          (λ done t. Held id p c before IsComplete (table.rows t))
          (λ e t. Held id p c before (IsFailed e) (table.rows t))
  unfolding run_recorded
  run_recorded-Held id p c before payload review s own filled h =
      Ends-try_then _ _ _ s
        (run_claimed-Held table services leaves id p c before payload review s own filled h)
        (λ done t held. returned done t refl held)
        (λ e t held.
          Ends-mono _ (mark_failed-Held id p c before e review.id t own held) (λ done u k. absurd k)
            (λ f u (same, k).
              subst (λ x. Held id p c before (IsFailed x) (table.rows u)) (sym same) k))

  abbrev pub Settled : PrReviewJobPayload → S → Result (Unit {0}) × S → Type 0
  Settled payload s r =
      Ends r
        (λ done t.
          (id : String) × Held id payload.pull_request_id payload.commit_sha (table.rows s)
            IsComplete (table.rows t))
        (λ e t.
          (table.rows t ≡ table.rows s)
          ⊎ ((id : String) × Held id payload.pull_request_id payload.commit_sha (table.rows s)
                (IsFailed e) (table.rows t)))

  take_over-Settled :
      (payload : PrReviewJobPayload) (s : S) (row : ReviewRow) (u : S)
      → HasIds (table.rows s)
      → find (has_key payload.pull_request_id payload.commit_sha) (table.rows s) ≡ some row
      → table.rows u ≡ table.rows s
      → Settled payload s
          ((table.update row.id take_over >>= run_recorded table services payload) u)
  take_over-Settled payload s row u ids found rows =
      let p = payload.pull_request_id in
      let c = payload.commit_sha in
      let held = found-Held p c (table.rows s) row ids found in
      let filled = ids.1 row (find-eq-some (has_key p c) (table.rows s) {a = row} found).0 in
      Ends-bind _ _ u
        (Ends-sure_update row.id p c (table.rows s) take_over {R' = IsAny} row.id u refl
          (λ r. (refl, refl, refl))
          (subst (Held row.id p c (table.rows s) (λ r. r ≡ row)) (sym rows) held) (λ r k. tt))
        (λ taken t (held', same).
          Ends-mono _
            (run_recorded-Held row.id p c (table.rows s) payload taken t same
              (λ e. filled (sym same ∙ e)) held')
            (λ done v k. (row.id, k)) (λ e v k. inr (row.id, k)))
        (λ e t k. absurd k)

  resume-Settled :
      (payload : PrReviewJobPayload) (s : S) (found : Option ReviewRow) (u : S)
      → HasIds (table.rows s)
      → found ≡ find (has_key payload.pull_request_id payload.commit_sha) (table.rows s)
      → table.rows u ≡ table.rows s
      → is_some (find (has_key payload.pull_request_id payload.commit_sha) (table.rows s)) ≡ true
      → Settled payload s (resume table services payload found u)
  unfolding resume
  resume-Settled payload s none u ids same rows taken = absurd (cc (ap is_some same ∙ taken))
  resume-Settled payload s (some row) u ids same rows taken =
      elim (Bool-cases (is_complete row.status)) [
        | inl e ↦
            let p = payload.pull_request_id in
            let c = payload.commit_sha in
            rw e (
              returned tt u refl (
                row.id,
                subst (Held row.id p c (table.rows s) IsComplete) (sym rows) (
                    Held-mono row.id p c (table.rows s) (table.rows s)
                      (found-Held p c (table.rows s) row ids (sym same))
                      (λ r k. is_complete_eq r.status (ap (λ x. is_complete x.status) k ∙ e))),
              ))
        | inr e ↦ rw e (take_over-Settled payload s row u ids (sym same) rows)
      ]

  -- A job that returns leaves a COMPLETE review of its pull request and commit. A job that throws
  -- either never had the review, and then no row has changed, or leaves that review FAILED with the
  -- message of what it throws. Both ways, a row of another pull request or commit stays as it was.
  -- The conditions: no two rows share an id and no id is empty; the update of a row that exists does
  -- not fail; and the other services leave the reviews alone.
  pub process_pr_review_job_settles :
      (payload : PrReviewJobPayload) (s : S)
      → HasIds (table.rows s)
      → Settled payload s (process_pr_review_job table services payload s)
  unfolding process_pr_review_job
  process_pr_review_job_settles payload s ids =
      let p = payload.pull_request_id in
      let c = payload.commit_sha in
      Ends-try_then _ _ _ s (table.create_lem p c s)
        (λ row t (absent, fresh, filled, same, rows).
          Ends-mono _
            (run_recorded-Held row.id p c (table.rows s) payload row t refl filled (
              subst (Held row.id p c (table.rows s) IsAny)
                (ap (λ r. r ∷ table.rows s) (sym same) ∙ sym rows)
                (Held-mono row.id p c (table.rows s) (running_row row.id p c ∷ table.rows s)
                  (create-Held row.id p c (table.rows s) fresh) (λ r k. tt))))
            (λ done u k. (row.id, k)) (λ e u k. inr (row.id, k)))
        (λ e t (rows, taken). elim (Bool-cases (is_unique_violation e)) [
          | inr other ↦ rw other (threw e t refl (inl rows))
          | inl unique ↦ rw unique (
              Ends-bind _ _ t (table.find_unique_lem p c t)
                (λ found u (is_found, rows').
                  resume-Settled payload s found u ids (is_found ∙ ap (find (has_key p c)) rows)
                    (rows' ∙ rows) (taken unique))
                (λ f u rows'. inl (rows' ∙ rows)))
        ])
