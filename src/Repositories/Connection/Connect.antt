-- ===== src/Repositories/Connection/Connect.antt =====
-- What a connection leaves behind, also when the queue fails.
use code_trace.Prelude.{
  ℕ, suc, ◌≤◌, String, ◌≡◌, refl, ◌∙◌, ap, ◌⊎◌, inl, inr, false, Option, none, some, ◌∷◌, map, find,
  keep, length, is_some, leb, arith, ◌==◌, text_eq, if◌then◌else◌, Bool-cases, Option-cases,
}
use code_trace.Errors.{Failure, err}
use code_trace.Exec.{
  Ends, returned, threw, raise, Ends-bind, Ends-mono, Ends-ok, Ends-seen, Ends-try_then,
}
use code_trace.Indexing.{pending}
use code_trace.Repositories.Installations.{
  Installation, InstallationTable, get_active_installation, active_or_null,
}
use code_trace.Repositories.Connection.{
  ConnectRepositoryInput, ConnectedRepository, FullIndexJob, ConnectionTables, ConnectionLaws,
  Keeps, is_of_user, fail_repository, fail_job, max_repositories_per_user, own_installation,
  create_both, enqueue_or_fail, connect_within_limit, connect_repository, users_or_refused,
  limit_reached,
}

module _ {S : Type 0} (tables : ConnectionTables S) (installations : InstallationTable S)
    (laws : ConnectionLaws tables) where
  open tables use {repositories, jobs}

  pub Keeps-trans : (s t u : S) → Keeps tables s t → Keeps tables t u → Keeps tables s u
  Keeps-trans s t u (a, b) (c, d) = (c ∙ a, d ∙ b)

  Keeps-same : (s t : S) → t ≡ s → Keeps tables s t
  Keeps-same s t e = (ap repositories e, ap jobs e)

  -- The installation is the user's and not revoked.
  abbrev pub Owns : String → String → S → Type 0
  Owns user_id id s =
      (r : Installation) × (find (λ x. x.id == id) (installations.installations s) ≡ some r)
      × (r.revoked_at ≡ none)
      × (r.user_id ≡ user_id)

  get_active_installation-Ends :
      (id : String) (s : S)
      → Ends
          (get_active_installation installations id s)
          (λ active t.
            (active ≡ active_or_null (find (λ x. x.id == id) (installations.installations s)))
            × Keeps tables s t)
          (λ e t. Keeps tables s t)
  unfolding get_active_installation
  get_active_installation-Ends id s =
      Ends-bind _ _ s (installations.find_unique_lem id s)
        (λ found t (is_found, same).
          returned (active_or_null found) t refl (ap active_or_null is_found, Keeps-same s t same))
        (λ e t same. Keeps-same s t same)

  pub own_installation-Ends :
      (user_id id : String) (s : S)
      → Ends
          (own_installation tables installations user_id id s)
          (λ r t. Owns user_id id s × Keeps tables s t)
          (λ e t. Keeps tables s t)
  unfolding own_installation
  own_installation-Ends user_id id s =
      Ends-bind _ _ s (get_active_installation-Ends id s)
        (λ active t (is_active, kept).
          rw is_active
            (on_found (find (λ x. x.id == id) (installations.installations s)) t refl kept))
        (λ e t kept. kept)
    where
      on_found :
          (found : Option Installation) (t : S)
          → find (λ x. x.id == id) (installations.installations s) ≡ found
          → Keeps tables s t
          → Ends
              (users_or_refused tables installations user_id (active_or_null found) t)
              (λ r u. Owns user_id id s × Keeps tables s u)
              (λ e u. Keeps tables s u)
      on_found none t e kept = threw _ t refl kept
      on_found (some r) t e kept = elim (Option-cases r.revoked_at) [
        | inr (since, revoked) ↦ rw revoked (threw _ t refl kept)
        | inl active ↦
            let not_revoked : is_some r.revoked_at ≡ false = ap is_some active in
            rw not_revoked (elim (Bool-cases (r.user_id == user_id)) [
              | inl own ↦ rw own (
                  returned r t refl
                    ((r, e, active, (text_eq.beq_iff r.user_id user_id).0 own), kept))
              | inr other ↦ rw other (threw _ t refl kept)
            ])
      ]

  -- One repository of the user and one job for it more, both PENDING.
  abbrev pub Connected :
      String → ConnectRepositoryInput → S → ConnectedRepository → FullIndexJob → S → Type 0
  Connected user_id input s r j t =
      (r ≡ record { id = r.id; user_id = user_id; input = input; status = pending })
      × (j ≡ record { id = j.id; repository_id = r.id; status = pending })
      × (repositories t ≡ r ∷ repositories s)
      × (jobs t ≡ j ∷ jobs s)

  create_both-Ends :
      (user_id : String) (input : ConnectRepositoryInput) (s : S)
      → Ends
          (create_both tables installations user_id input s)
          (λ made t. Connected user_id input s made.0 made.1 t)
          (λ e t. Unit {0})
  unfolding create_both
  create_both-Ends user_id input s =
      Ends-bind _ _ s (laws.create_repository user_id input s)
        (λ r t (is_r, rows, same_jobs).
          Ends-bind _ _ t (laws.create_job r.id t)
            (λ j u (is_j, same_rows, added).
              returned (r, j) u refl
                (is_r, is_j, same_rows ∙ rows, added ∙ ap (λ js. j ∷ js) same_jobs))
            (λ e u kept. tt))
        (λ e t kept. tt)

  -- What a call that throws leaves: nothing new; both rows, FAILED; or both, PENDING, where the update of them
  -- failed too.
  abbrev pub Leaves : String → ConnectRepositoryInput → S → S → Type 0
  Leaves user_id input s t =
      Keeps tables s t
      ⊎ ((r : ConnectedRepository) × (j : FullIndexJob) × (u : S) × (v : S) × Connected user_id
            input s r j u
          × Keeps tables u v
          × (((repositories t ≡ map (fail_repository r.id) (repositories v))
                × (jobs t ≡ map (fail_job j.id) (jobs v)))
              ⊎ ((f : Failure) × (tables.fail_both j.id r.id v ≡ (err f, t)) × Keeps tables v t)))

  connect_within_limit-Ends :
      (user_id : String) (input : ConnectRepositoryInput) (s : S)
      → Ends
          (connect_within_limit tables installations user_id input s)
          (λ r t. (j : FullIndexJob) × (u : S) × Connected user_id input s r j u × Keeps tables u t)
          (λ e t. Leaves user_id input s t)
  unfolding connect_within_limit enqueue_or_fail
  connect_within_limit-Ends user_id input s =
      Ends-bind _ _ s
        (Ends-mono _ (laws.transaction (create_both tables installations user_id input) s)
          (λ made t same. Ends-ok _ made t (create_both-Ends user_id input s) same)
          (λ e t kept. inl kept))
        (λ made u connected.
          Ends-bind _ _ u
            (Ends-try_then _ _ _ u (laws.enqueue_index_job made.1 u)
              (λ done v kept. returned done v refl kept)
              (λ e v kept.
                Ends-bind _ _ v (Ends-seen _ (laws.fail_both made.1.id made.0.id v))
                  (λ done t (same, both_failed).
                    threw e t refl (inr (made.0, made.1, u, v, connected, kept, inl both_failed)))
                  (λ f t (same, still).
                    inr (made.0, made.1, u, v, connected, kept, inr (f, same, still)))))
            (λ done t kept. returned made.0 t refl (made.1, u, connected, kept)) (λ e t left. left))
        (λ e t left. left)

  Connected-from :
      (user_id : String) (input : ConnectRepositoryInput) (s u v : S) (r : ConnectedRepository)
      (j : FullIndexJob)
      → Keeps tables s u
      → Connected user_id input u r j v
      → Connected user_id input s r j v
  Connected-from user_id input s u v r j (rows, same_jobs) (is_r, is_j, added, added_job) =
      (is_r, is_j, added ∙ ap (λ rs. r ∷ rs) rows, added_job ∙ ap (λ js. j ∷ js) same_jobs)

  Leaves-from :
      (user_id : String) (input : ConnectRepositoryInput) (s u t : S)
      → Keeps tables s u
      → Leaves user_id input u t
      → Leaves user_id input s t
  Leaves-from user_id input s u t kept (inl same) = inl (Keeps-trans s u t kept same)
  Leaves-from user_id input s u t kept (inr (r, j, v, w, connected, queued, rest)) =
      inr (r, j, v, w, Connected-from user_id input s u v r j kept connected, queued, rest)

  -- A call that connects a repository is of the user of an active installation who had fewer than two, and it
  -- leaves one repository and one job more, both PENDING. A call that throws leaves the tables as they were; or
  -- the two new rows as FAILED, where the queue refused the job; or as PENDING, where that update failed too.
  pub connect_repository_lem :
      (user_id : String) (input : ConnectRepositoryInput) (s : S)
      → Ends
          (connect_repository tables installations user_id input s)
          (λ r t.
            Owns user_id input.installation_id s
            × (suc (length (keep (is_of_user user_id) (repositories s))) ≤ 2)
            × ((j : FullIndexJob) × (u : S) × Connected user_id input s r j u × Keeps tables u t))
          (λ e t. Leaves user_id input s t)
  unfolding connect_repository
  connect_repository_lem user_id input s =
      Ends-bind _ _ s (own_installation-Ends user_id input.installation_id s)
        (λ r t (own, kept).
          Ends-bind _ _ t (laws.count user_id t)
            (λ n u (is_n, kept').
              counted n u own (is_n ∙ ap (λ rs. length (keep (is_of_user user_id) rs)) kept.0)
                (Keeps-trans s t u kept kept'))
            (λ e u kept'. inl (Keeps-trans s t u kept kept')))
        (λ e t kept. inl kept)
    where
      counted :
          (n : ℕ) (u : S)
          → Owns user_id input.installation_id s
          → n ≡ length (keep (is_of_user user_id) (repositories s))
          → Keeps tables s u
          → Ends
              ((if leb max_repositories_per_user n
                  then raise limit_reached
                  else connect_within_limit tables installations user_id input)
                u)
              (λ r t.
                Owns user_id input.installation_id s
                × (suc (length (keep (is_of_user user_id) (repositories s))) ≤ 2)
                × ((j : FullIndexJob) × (v : S) × Connected user_id input s r j v
                    × Keeps tables v t))
              (λ e t. Leaves user_id input s t)
      counted n u own is_n kept = elim (Bool-cases (leb max_repositories_per_user n)) [
        | inl full ↦ rw full (threw _ u refl (inl kept))
        | inr room ↦ rw room (
            Ends-mono _ (connect_within_limit-Ends user_id input u)
              (λ r t (j, v, connected, queued). (
                own,
                ground arith,
                (j, v, Connected-from user_id input s u v r j kept connected, queued),
              ))
              (λ e t left. Leaves-from user_id input s u t kept left))
      ]
