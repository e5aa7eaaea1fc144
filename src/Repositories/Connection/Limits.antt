-- ===== src/Repositories/Connection/Limits.antt =====
-- Who may connect and delete.
use code_trace.Prelude.{
  ℕ, String, ◌≡◌, refl, sym, ◌∙◌, ap, subst, inl, inr, Bool, true, false, not, Option, none, some,
  map, find, find-eq-some, keep, Has, Has-map, is_some, ◌==◌, text_eq, number_eq, Bool-cases,
}
use code_trace.Errors.{ok}
use code_trace.Exec.{Ends, returned, threw, Ends-bind, Ends-mono, Ends-ok, Ends-gets}
use code_trace.Repositories.Installations.{
  Installation, InstallationTable, is_revocable, revoke_installation_row, revoke_installation,
}
use code_trace.Repositories.Connection.{
  ConnectRepositoryInput, ConnectedRepository, ConnectionTables, ConnectionLaws, Keeps,
  connect_repository, owned_or_null, get_owned_repository, delete_repository,
}
use code_trace.Repositories.Connection.Connect.{Owns, own_installation-Ends, Keeps-trans}

revoked_row :
    (n time : ℕ) (old r : Installation)
    → revoke_installation_row n time old ≡ r
    → r.github_installation_id ≡ n
    → is_some r.revoked_at ≡ true
revoked_row n time old r is_row of_github = elim (Bool-cases (is_revocable n old)) [
  | inl e ↦ subst (λ (x : Installation). is_some x.revoked_at ≡ true) is_row (rw e refl)
  | inr e ↦
      let same : old ≡ r = rw e at is_row in
      let known : (old.github_installation_id == n) ≡ true =
        (number_eq.beq_iff old.github_installation_id n).1
          (ap (λ (x : Installation). x.github_installation_id) same ∙ of_github) in
      subst (λ (x : Installation). is_some x.revoked_at ≡ true) same
        (inactive (is_some old.revoked_at) (rw known at e))
]
  where
    inactive : (b : Bool) → not b ≡ false → b ≡ true
    inactive true e = refl
    inactive false e = absurd (cc e)

module _ {S : Type 0} (tables : ConnectionTables S) (installations : InstallationTable S)
    (laws : ConnectionLaws tables) where
  open tables use {repositories}

  revoke_installation-Ends :
      (n : ℕ) (s : S)
      → Ends
          (revoke_installation installations n s)
          (λ done t.
            (time : ℕ) × (installations.installations t
              ≡ map (revoke_installation_row n time) (installations.installations s)))
          (λ e t. Unit {0})
  unfolding revoke_installation
  revoke_installation-Ends n s = Ends-gets installations.now _ s (
      Ends-mono _ (installations.update_many_lem n (installations.now s) s)
        (λ done t same. (installations.now s, same)) (λ e t k. tt))

  -- After an installation is revoked no repository is connected through it, whoever asks, and the attempt leaves
  -- the tables as they were.
  pub revoke_installation-connect_repository :
      (n : ℕ) (user_id : String) (input : ConnectRepositoryInput) (r : Installation) (s t : S)
      → revoke_installation installations n s ≡ (ok tt, t)
      → find (λ x. x.id == input.installation_id) (installations.installations t) ≡ some r
      → r.github_installation_id ≡ n
      → Ends
          (connect_repository tables installations user_id input t)
          (λ made u. ⊥)
          (λ e u. Keeps tables t u)
  unfolding connect_repository
  revoke_installation-connect_repository n user_id input r s t done found of_github =
      Ends-bind _ _ t
        (own_installation-Ends tables installations laws user_id input.installation_id t)
        (λ own u (owns, kept). absurd (refused owns)) (λ e u kept. kept)
    where
      revoked : is_some r.revoked_at ≡ true
      revoked =
          let (time, same) = Ends-ok _ tt t (revoke_installation-Ends n s) done in
          let listed =
            (find-eq-some (λ x. x.id == input.installation_id) (installations.installations t)
              {a = r} found).0 in
          let (old, was_listed, is_row) =
            Has-map (revoke_installation_row n time) r (installations.installations s)
              (subst (Has r) same listed) in
          revoked_row n time old r is_row of_github

      refused : Owns tables installations laws user_id input.installation_id t → ⊥
      refused (r', found', active, of_user) =
          let same : r ≡ r' = cc (found, found') in
          let clash : is_some r'.revoked_at ≡ true =
            subst (λ (x : Installation). is_some x.revoked_at ≡ true) same revoked in
          cc (clash, ap is_some active)

  get_owned_repository-Ends :
      (user_id id : String) (s : S)
      → Ends
          (get_owned_repository tables installations user_id id s)
          (λ r t.
            (find (λ x. x.id == id) (repositories s) ≡ some r)
            × (r.user_id ≡ user_id)
            × Keeps tables s t)
          (λ e t. Keeps tables s t)
  unfolding get_owned_repository
  get_owned_repository-Ends user_id id s =
      Ends-bind _ _ s (laws.find_repository id s)
        (λ found t (is_found, kept). on_found found t (sym is_found) kept) (λ e t kept. kept)
    where
      on_found :
          (found : Option ConnectedRepository) (t : S)
          → find (λ x. x.id == id) (repositories s) ≡ found
          → Keeps tables s t
          → Ends
              (owned_or_null tables installations user_id found t)
              (λ r u.
                (find (λ x. x.id == id) (repositories s) ≡ some r)
                × (r.user_id ≡ user_id)
                × Keeps tables s u)
              (λ e u. Keeps tables s u)
      on_found none t e kept = threw _ t refl kept
      on_found (some r) t e kept = elim (Bool-cases (r.user_id == user_id)) [
        | inl own ↦ rw own (returned r t refl (e, (text_eq.beq_iff r.user_id user_id).0 own, kept))
        | inr other ↦ rw other (threw _ t refl kept)
      ]

  -- A repository is deleted only by its user, and no other repository goes with it; a call that throws leaves
  -- the tables as they were.
  pub delete_repository_lem :
      (user_id id : String) (s : S)
      → Ends
          (delete_repository tables installations user_id id s)
          (λ done t.
            ((r : ConnectedRepository) × (find (λ x. x.id == id) (repositories s) ≡ some r)
              × (r.user_id ≡ user_id))
            × (repositories t ≡ keep (λ r. not (r.id == id)) (repositories s)))
          (λ e t. Keeps tables s t)
  unfolding delete_repository
  delete_repository_lem user_id id s =
      Ends-bind _ _ s (get_owned_repository-Ends user_id id s)
        (λ r t (found, own, kept).
          Ends-mono _ (laws.delete id t)
            (λ done u rows. ((r, found, own), rows ∙ ap (keep (λ x. not (x.id == id))) kept.0))
            (λ e u kept'. Keeps-trans tables installations laws s t u kept kept'))
        (λ e t kept. kept)
