-- ===== src/Indexing/Start.antt =====
-- At most one job is started from one status of a repository.
use code_trace.Prelude.{
  ℕ, String, ◌≡◌, refl, ap, ◌∙◌, ◌⊎◌, inl, inr, Bool, true, false, ◌&&◌, none, some, List, [], ◌∷◌,
  map, find, Bool-cases, Option-cases, ◌↔◌, ◌==◌, text_eq, number_eq,
}
use code_trace.Errors.{ok, err}
use code_trace.Exec.{Ends, returned, threw, Ends-bind, Ends-mono, Ends-ok, Ends-seen}
use code_trace.Indexing.{
  RepositoryStatus, pending, cloning, parsing, chunking, embedding, storing, indexed, failed,
  IndexType, Repository, IndexJob, is_non_terminal, same_status, is_at, start_row, IndexTables,
  claim_repository, create_and_enqueue_index_job,
}

same_status-pending :
    (status : RepositoryStatus)
    → is_non_terminal status ≡ false
    → same_status pending status ≡ false
same_status-pending pending h = absurd (cc h)
same_status-pending cloning h = refl
same_status-pending parsing h = refl
same_status-pending chunking h = refl
same_status-pending embedding h = refl
same_status-pending storing h = refl
same_status-pending indexed h = refl
same_status-pending failed h = refl

and_false : (b : Bool) → (b && false) ≡ false
and_false true = refl
and_false false = refl

is_at-start_row :
    (id : String) (status : RepositoryStatus) (r : Repository)
    → is_non_terminal status ≡ false
    → is_at id status (start_row id status r) ≡ false
is_at-start_row id status r h = elim (Bool-cases (is_at id status r)) [
  | inl e ↦ rw e (rw (same_status-pending status h) (and_false (r.id == id)))
  | inr e ↦ rw e e
]

-- No repository with the id has the status any more.
find-map-start_row :
    (id : String) (status : RepositoryStatus) (rs : List Repository)
    → is_non_terminal status ≡ false
    → find (is_at id status) (map (start_row id status) rs) ≡ none
find-map-start_row id status [] h = refl
find-map-start_row id status (r ∷ rs) h =
    rw (is_at-start_row id status r h) (find-map-start_row id status rs h)

module _ {S : Type 0} (tables : IndexTables S) (repository_id : String)
    (status : RepositoryStatus) where
  open tables use {repositories, jobs}

  abbrev pub IsUnchanged : S → S → Type 0
  IsUnchanged s t = (repositories t ≡ repositories s) × (jobs t ≡ jobs s)

  -- The repository went from the status to PENDING, with this job.
  abbrev pub IsStarted : S → IndexJob → S → Type 0
  IsStarted s job t =
      ((r : Repository) × (find (is_at repository_id status) (repositories s) ≡ some r))
      × (job.repository_id ≡ repository_id)
      × (repositories t ≡ map (start_row repository_id status) (repositories s))
      × (jobs t ≡ job ∷ jobs s)

  claim_repository-Ends :
      (type : IndexType) (s : S)
      → Ends (claim_repository tables repository_id type status s) (IsStarted s) (λ e t. Unit)
  unfolding claim_repository
  claim_repository-Ends type s =
      Ends-bind _ _ s (tables.update_many_lem repository_id status s)
        (λ count t (zero_iff, rows, kept). elim (Bool-cases (count == 0)) [
          | inl e ↦ rw e (threw _ t refl tt)
          | inr e ↦ rw e (
              Ends-mono _ (tables.create_job_lem repository_id type t)
                (λ job u (of_repository, of_type, rows', added). (
                  present count zero_iff e,
                  of_repository,
                  rows' ∙ rows,
                  added ∙ ap (λ js. job ∷ js) kept,
                ))
                (λ f u k. tt))
        ])
        (λ e t k. tt)
    where
      present :
          (count : ℕ)
          → (count ≡ 0) ↔ (find (is_at repository_id status) (repositories s) ≡ none)
          → (count == 0) ≡ false
          → (r : Repository) × (find (is_at repository_id status) (repositories s) ≡ some r)
      present count zero_iff e =
          elim (Option-cases (find (is_at repository_id status) (repositories s))) [
            | inl absent ↦ absurd (cc (rw (zero_iff.1 absent) at e))
            | inr there ↦ there
          ]

  claim_repository-absent :
      (type : IndexType) (s : S)
      → find (is_at repository_id status) (repositories s) ≡ none
      → Ends (claim_repository tables repository_id type status s) (λ job t. ⊥) (λ e t. Unit)
  unfolding claim_repository
  claim_repository-absent type s absent =
      Ends-bind _ _ s (tables.update_many_lem repository_id status s)
        (λ count t (zero_iff, rows, kept). rw (zero_iff.1 absent) (threw _ t refl tt)) (λ e t k. tt)

  -- A call that returns found the repository at the status that its caller had read, which was INDEXED or
  -- FAILED; the repository is PENDING now, and the one new job is its. A call that throws either changed
  -- nothing, or, where only the queue failed, left the repository PENDING with a job that no worker has.
  pub create_and_enqueue_index_job_lem :
      (type : IndexType) (s : S)
      → Ends
          (create_and_enqueue_index_job tables repository_id type status s)
          (λ job t. (is_non_terminal status ≡ false) × IsStarted s job t)
          (λ e t.
            IsUnchanged s t
            ⊎ ((job : IndexJob) × (u : S) × IsStarted s job t
                × (tables.enqueue job u ≡ (err e, t))))
  unfolding create_and_enqueue_index_job
  create_and_enqueue_index_job_lem type s = elim (Bool-cases (is_non_terminal status)) [
    | inl e ↦ rw e (threw _ s refl (inl (refl, refl)))
    | inr e ↦ rw e (
        Ends-bind _ _ s (started type s)
          (λ job t (found, of_repository, rows, added).
            Ends-bind _ _ t (Ends-seen _ (tables.enqueue_lem job t))
              (λ done u (same, (rows', kept)).
                returned job u refl (refl, (found, of_repository, rows' ∙ rows, kept ∙ added)))
              (λ f u (same, (rows', kept)).
                inr (job, t, (found, of_repository, rows' ∙ rows, kept ∙ added), same)))
          (λ f t k. inl k))
  ]
    where
      started :
          (type : IndexType) (s : S)
          → Ends
              (tables.transaction (claim_repository tables repository_id type status) s)
              (IsStarted s)
              (λ e t. IsUnchanged s t)
      started type s =
          Ends-mono _ (tables.transaction_lem (claim_repository tables repository_id type status) s)
            (λ job t same. Ends-ok _ job t (claim_repository-Ends type s) same) (λ e t k. k)

  -- Of two calls from one status that was read before either, at most one starts a job: after a call
  -- that returned, a second call with the same status throws and changes nothing.
  pub create_and_enqueue_index_job_once :
      (type later_type : IndexType) (s t : S) (job : IndexJob)
      → create_and_enqueue_index_job tables repository_id type status s ≡ (ok job, t)
      → Ends
          (create_and_enqueue_index_job tables repository_id later_type status t)
          (λ second u. ⊥)
          (λ e u. IsUnchanged t u)
  unfolding create_and_enqueue_index_job
  create_and_enqueue_index_job_once type later_type s t job first =
      let (terminal, (found, of_repository, rows, added)) =
        Ends-ok _ job t (create_and_enqueue_index_job_lem type s) first in
      let absent : find (is_at repository_id status) (repositories t) ≡ none =
        ap (find (is_at repository_id status)) rows
        ∙ find-map-start_row repository_id status (repositories s) terminal in
      rw terminal (
        Ends-bind _ _ t
          (Ends-mono _
            (tables.transaction_lem (claim_repository tables repository_id later_type status) t)
            (λ second u same. Ends-ok _ second u (claim_repository-absent later_type t absent) same)
            (λ e u k. k))
          (λ second u k. absurd k) (λ e u k. k))
