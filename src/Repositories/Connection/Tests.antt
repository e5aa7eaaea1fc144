-- ===== src/Repositories/Connection/Tests.antt =====
-- One user, one installation and a queue that may refuse, in memory.
use code_trace.Prelude.{
  ℕ, ◌≤◌, String, ◌≡◌, refl, Bool, true, false, not, none, some, List, [], ◌∷◌, map, find, keep,
  length, ◌==◌, text_eq, number_eq,
}
use code_trace.Errors.{Result, ok, err, error}
use code_trace.Exec.{Ends, returned, threw, ◌>>=◌, try_then}
use code_trace.Indexing.{pending, failed}
use code_trace.Repositories.Installations.{
  Installation, InstallationTable, is_of_github, revoke_installation_row, upserted,
  revoke_installation, get_active_installation,
}
use code_trace.Repositories.Connection.{
  ConnectRepositoryInput, ConnectedRepository, FullIndexJob, ConnectionTables, ConnectionLaws,
  Keeps, is_of_user, fail_repository, fail_job, connect_repository, connect_within_limit,
  create_both, enqueue_or_fail, own_installation,
}
use code_trace.Repositories.Connection.Connect.{Owns, Connected, Leaves, connect_repository_lem}
use code_trace.Repositories.Connection.Limits.{revoke_installation-connect_repository}

record Memory : Type 0 where
  repositories : List ConnectedRepository
  jobs : List FullIndexJob
  installations : List Installation
  queue_works : Bool

abbrev new_installation : String → ℕ → String → Installation
new_installation user_id n permissions = record {
  id = "i";
  github_installation_id = n;
  user_id = user_id;
  permissions = permissions;
  revoked_at = none;
  created_at = 0;
}

abbrev installation_table : InstallationTable Memory
installation_table = record {
  installations = λ s. s.installations;
  find_unique = λ id s. (ok (find (λ r. r.id == id) s.installations), s);
  find_many = λ p s. (ok (keep p s.installations), s);
  upsert = λ user_id n permissions s. (
    ok (new_installation user_id n permissions),
    record s {
      installations =
          upserted n permissions (find (is_of_github n) s.installations)
            (new_installation user_id n permissions) s.installations;
    },
  );
  update_many = λ n time s.
      (ok tt, record s { installations = map (revoke_installation_row n time) s.installations });
  now = λ s. 50;
  find_unique_lem = λ id s. returned _ s refl (refl, refl);
  find_many_lem = λ p s. returned _ s refl (refl, refl);
  upsert_lem = λ user_id n permissions s. returned _ _ refl (refl, refl, refl);
  update_many_lem = λ n time s. returned tt _ refl refl;
}

abbrev new_repository : String → ConnectRepositoryInput → ConnectedRepository
new_repository user_id input = record {
  id = "r";
  user_id = user_id;
  input = input;
  status = pending;
}

abbrev new_job : String → FullIndexJob
new_job repository_id = record { id = "j"; repository_id = repository_id; status = pending }

abbrev Made : Type 0
Made = ConnectedRepository × FullIndexJob

abbrev settled : Memory → Result Made × Memory → Result Made × Memory
settled s (ok made, t) = (ok made, t)
settled s (err e, t) = (err e, s)

abbrev queue_answer : Bool → Result (Unit {0})
queue_answer true = ok tt
queue_answer false = err (error none "Redis is down")

abbrev tables : ConnectionTables Memory
tables = record {
  repositories = λ s. s.repositories;
  jobs = λ s. s.jobs;
  find_repository = λ id s. (ok (find (λ r. r.id == id) s.repositories), s);
  count = λ user_id s. (ok (length (keep (is_of_user user_id) s.repositories)), s);
  create_repository = λ user_id input s. (
    ok (new_repository user_id input),
    record s { repositories = new_repository user_id input ∷ s.repositories },
  );
  create_job = λ id s. (ok (new_job id), record s { jobs = new_job id ∷ s.jobs });
  transaction = λ body s. settled s (body s);
  fail_both = λ job_id repository_id s. (
    ok tt,
    record s {
      repositories = map (fail_repository repository_id) s.repositories;
      jobs = map (fail_job job_id) s.jobs;
    },
  );
  delete = λ id s. (ok tt, record s { repositories = keep (λ r. not (r.id == id)) s.repositories });
  enqueue_index_job = λ job s. (queue_answer s.queue_works, s);
}

settled_lem :
    (s : Memory) (r : Result Made × Memory)
    → Ends (settled s r) (λ made t. r ≡ (ok made, t)) (λ e t. Keeps tables s t)
settled_lem s (ok made, t) = returned made t refl refl
settled_lem s (err e, t) = threw e s refl (refl, refl)

queued :
    (answer : Result (Unit {0})) (s : Memory)
    → Ends {S = Memory} (answer, s) (λ done t. Keeps tables s t) (λ e t. Keeps tables s t)
queued (ok done) s = returned done s refl (refl, refl)
queued (err e) s = threw e s refl (refl, refl)

abbrev laws : ConnectionLaws tables
laws = record {
  find_repository = λ id s. returned _ s refl (refl, (refl, refl));
  count = λ user_id s. returned _ s refl (refl, (refl, refl));
  create_repository = λ user_id input s. returned _ _ refl (refl, refl, refl);
  create_job = λ id s. returned _ _ refl (refl, refl, refl);
  transaction = λ body s. settled_lem s (body s);
  fail_both = λ job_id repository_id s. returned tt _ refl (refl, refl);
  delete = λ id s. returned tt _ refl refl;
  enqueue_index_job = λ job s. queued (queue_answer s.queue_works) s;
}

abbrev input : ConnectRepositoryInput
input = record {
  installation_id = "i";
  owner = "o";
  name = "n";
  github_url = "u";
  default_branch = "main";
}

abbrev start : Bool → Memory
start queue_works = record {
  repositories = [];
  jobs = [];
  installations = new_installation "ann" 7 "{}" ∷ [];
  queue_works = queue_works;
}

-- The queue refuses: both rows are FAILED.
refused_test :
    (connect_repository tables installation_table "ann" input (start false)).1
    ≡ record (start false) {
      repositories = record (new_repository "ann" input) { status = failed } ∷ [];
      jobs = record (new_job "r") { status = failed } ∷ [];
    }
unfolding connect_repository connect_within_limit create_both enqueue_or_fail own_installation
    get_active_installation ◌>>=◌ try_then
refused_test = refl

connect_repository_lem_example :
    Ends
      (connect_repository tables installation_table "ann" input (start true))
      (λ r t.
        Owns tables installation_table laws "ann" "i" (start true)
        × (1 ≤ 2)
        × ((j : FullIndexJob) × (u : Memory) × Connected tables installation_table laws "ann" input
              (start true)
              r
              j
              u
            × Keeps tables u t))
      (λ e t. Leaves tables installation_table laws "ann" input (start true) t)
connect_repository_lem_example =
    connect_repository_lem tables installation_table laws "ann" input (start true)

abbrev revoked : Installation
revoked = record (new_installation "ann" 7 "{}") { revoked_at = some 50 }

abbrev after_revocation : Memory
after_revocation = record (start true) { installations = revoked ∷ [] }

revocation : revoke_installation installation_table 7 (start true) ≡ (ok tt, after_revocation)
unfolding revoke_installation ◌>>=◌
revocation = refl

revoke_installation-connect_repository_example :
    Ends
      (connect_repository tables installation_table "ann" input after_revocation)
      (λ made u. ⊥)
      (λ e u. Keeps tables after_revocation u)
revoke_installation-connect_repository_example =
    revoke_installation-connect_repository tables installation_table laws 7 "ann" input revoked
      (start true) after_revocation revocation refl refl
