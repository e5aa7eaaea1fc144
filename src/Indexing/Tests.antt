-- ===== src/Indexing/Tests.antt =====
-- Two triggers on a repository that was read as INDEXED.
use code_trace.Prelude.{
  ℕ, String, ◌≡◌, refl, ◌⊎◌, false, Option, some, none, List, [], ◌∷◌, map, find, text_eq,
  number_eq, ◌↔◌,
}
use code_trace.Errors.{Result, ok, err}
use code_trace.Exec.{Ends, returned, threw, ◌>>=◌}
use code_trace.Indexing.{
  RepositoryStatus, pending, indexed, IndexType, full, incremental, Repository, IndexJob,
  is_non_terminal, is_at, start_row, IndexTables, claim_repository, create_and_enqueue_index_job,
}
use code_trace.Indexing.Start.{
  IsStarted, IsUnchanged, create_and_enqueue_index_job_lem, create_and_enqueue_index_job_once,
}

record Tables : Type 0 where
  repositories : List Repository
  jobs : List IndexJob

abbrev pub count_of : Option Repository → ℕ
count_of none = 0
count_of (some r) = 1

pub count_of_zero : (o : Option Repository) → (count_of o ≡ 0) ↔ (o ≡ none)
count_of_zero none = ((λ h. refl), λ h. refl)
count_of_zero (some r) = ((λ h. absurd (cc h)), λ h. absurd (cc h))

abbrev pub job_of : String → IndexType → IndexJob
job_of id type = record { id = "j"; repository_id = id; type = type }

abbrev settle_transaction : Tables → Result IndexJob × Tables → Result IndexJob × Tables
settle_transaction s (ok job, t) = (ok job, t)
settle_transaction s (err e, t) = (err e, s)

settle_transaction_lem :
    (s : Tables) (r : Result IndexJob × Tables)
    → Ends
        (settle_transaction s r)
        (λ job t. r ≡ (ok job, t))
        (λ e t. (t.repositories ≡ s.repositories) × (t.jobs ≡ s.jobs))
settle_transaction_lem s (ok job, t) = returned job t refl refl
settle_transaction_lem s (err e, t) = threw e s refl (refl, refl)

abbrev memory : IndexTables Tables
memory = record {
  repositories = λ s. s.repositories;
  jobs = λ s. s.jobs;
  update_many = λ id status s. (
    ok (count_of (find (is_at id status) s.repositories)),
    record s { repositories = map (start_row id status) s.repositories },
  );
  create_job = λ id type s. (ok (job_of id type), record s { jobs = job_of id type ∷ s.jobs });
  transaction = λ body s. settle_transaction s (body s);
  enqueue = λ job s. (ok tt, s);
  update_many_lem = λ id status s. returned _ _ refl (count_of_zero _, refl, refl);
  create_job_lem = λ id type s. returned _ _ refl (refl, refl, refl, refl);
  transaction_lem = λ body s. settle_transaction_lem s (body s);
  enqueue_lem = λ job s. returned tt s refl (refl, refl);
}

abbrev at_status : RepositoryStatus → List IndexJob → Tables
at_status status jobs = record {
  repositories = record { id = "repo"; status = status } ∷ [];
  jobs = jobs;
}

first_call :
    create_and_enqueue_index_job memory "repo" full indexed (at_status indexed [])
    ≡ (ok (job_of "repo" full), at_status pending (job_of "repo" full ∷ []))
unfolding create_and_enqueue_index_job claim_repository ◌>>=◌
first_call = refl

create_and_enqueue_index_job_lem_example :
    Ends
      (create_and_enqueue_index_job memory "repo" full indexed (at_status indexed []))
      (λ job t.
        (is_non_terminal indexed ≡ false)
        × IsStarted memory "repo" indexed (at_status indexed []) job t)
      (λ e t.
        IsUnchanged memory "repo" indexed (at_status indexed []) t
        ⊎ ((job : IndexJob) × (u : Tables) × IsStarted memory "repo" indexed
              (at_status indexed [])
              job
              t
            × (memory.enqueue job u ≡ (err e, t))))
create_and_enqueue_index_job_lem_example =
    create_and_enqueue_index_job_lem memory "repo" indexed full (at_status indexed [])

create_and_enqueue_index_job_once_example :
    Ends
      (create_and_enqueue_index_job memory "repo" incremental indexed
        (at_status pending (job_of "repo" full ∷ [])))
      (λ second u. ⊥)
      (λ e u. IsUnchanged memory "repo" indexed (at_status pending (job_of "repo" full ∷ [])) u)
create_and_enqueue_index_job_once_example =
    create_and_enqueue_index_job_once memory "repo" indexed full incremental (at_status indexed [])
      (at_status pending (job_of "repo" full ∷ [])) (job_of "repo" full) first_call
