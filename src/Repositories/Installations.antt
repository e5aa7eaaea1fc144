-- ===== src/Repositories/Installations.antt =====
-- installation.service.ts over the table repository_installations. Permissions are the text of their
-- JSON.
use code_trace.Prelude.{
  ℕ, String, ◌≡◌, Bool, not, ◌&&◌, Option, none, some, List, ◌∷◌, map, find, keep, is_some, get_or,
  ◌==◌, text_eq, number_eq, if◌then◌else◌, ◌+++◌,
}
use code_trace.Exec.{Exec, pure, gets, ◌>>=◌, Ends}

pub record Installation : Type 0 where
  pub id : String
  pub github_installation_id : ℕ
  pub user_id : String
  pub permissions : String
  pub revoked_at : Option ℕ
  pub created_at : ℕ

abbrev pub is_of_github : ℕ → Installation → Bool
is_of_github n r = r.github_installation_id == n

abbrev pub is_revocable : ℕ → Installation → Bool
is_revocable n r = is_of_github n r && not (is_some r.revoked_at)

abbrev pub revoke_installation_row : ℕ → ℕ → Installation → Installation
revoke_installation_row n time r =
    if is_revocable n r then record r { revoked_at = some time } else r

abbrev pub restore_row : ℕ → String → Installation → Installation
restore_row n permissions r =
    if is_of_github n r then record r { permissions = permissions; revoked_at = none } else r

-- Of an upsert: the row that the `create` makes, or nothing if there is one already.
abbrev pub upserted :
    ℕ → String → Option Installation → Installation → List Installation → List Installation
upserted n permissions none row rows = row ∷ rows
upserted n permissions (some old) row rows = map (restore_row n permissions) rows

-- The table behind Prisma. A call that fails changes nothing.
pub record InstallationTable (S : Type 0) : Type 0 where
  pub installations : S → List Installation
  pub find_unique : String → Exec S (Option Installation)
  pub find_many : (Installation → Bool) → Exec S (List Installation)
  pub upsert : String → ℕ → String → Exec S Installation
  pub update_many : ℕ → ℕ → Exec S (Unit {0})
  pub now : S → ℕ
  pub find_unique_lem :
      (id : String) (s : S)
      → Ends
          (find_unique id s)
          (λ found t. (found ≡ find (λ r. r.id == id) (installations s)) × (t ≡ s))
          (λ e t. t ≡ s)
  pub find_many_lem :
      (p : Installation → Bool) (s : S)
      → Ends (find_many p s) (λ rows t. (rows ≡ keep p (installations s)) × (t ≡ s)) (λ e t. t ≡ s)
  pub upsert_lem :
      (user_id : String) (n : ℕ) (permissions : String) (s : S)
      → Ends
          (upsert user_id n permissions s)
          (λ row t.
            (row.github_installation_id ≡ n)
            × (row.revoked_at ≡ none)
            × (installations t
                ≡ upserted n permissions
                    (find (is_of_github n) (installations s))
                    row
                    (installations s)))
          (λ e t. installations t ≡ installations s)
  pub update_many_lem :
      (n time : ℕ) (s : S)
      → Ends
          (update_many n time s)
          (λ done t. installations t ≡ map (revoke_installation_row n time) (installations s))
          (λ e t. installations t ≡ installations s)

abbrev pub install_url : (String → String) → String → String → String
install_url encode slug state =
    "https://github.com/apps/" +++ slug +++ "/installations/new?state=" +++ encode state

abbrev pub active_or_null : Option Installation → Option Installation
active_or_null none = none
active_or_null (some r) = if is_some r.revoked_at then none else some r

abbrev pub is_active_of : String → Installation → Bool
is_active_of user_id r = r.user_id == user_id && not (is_some r.revoked_at)

module _ {S : Type 0} (table : InstallationTable S) where
  unfoldable pub create_installation : String → ℕ → Option String → Exec S Installation
  create_installation user_id n permissions = table.upsert user_id n (get_or permissions "{}")

  unfoldable pub revoke_installation : ℕ → Exec S (Unit {0})
  revoke_installation n = do time ← gets table.now; table.update_many n time

  unfoldable pub get_active_installation : String → Exec S (Option Installation)
  get_active_installation id = do found ← table.find_unique id; pure (active_or_null found)

  -- without the order by `createdAt`, which is the database's
  unfoldable pub list_installations : String → Exec S (List Installation)
  list_installations user_id = table.find_many (is_active_of user_id)
