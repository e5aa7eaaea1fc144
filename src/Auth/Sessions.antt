-- ===== src/Auth/Sessions.antt =====
-- session.service.ts over the table sessions. The hash, the signature of an access token, the random
-- ids and the clock are parameters.
pub mod Rotation
pub mod Revocation
pub mod Tokens
mod Tests
use code_trace.Prelude.{
  ℕ, ◌+◌, ◌*◌, String, ◌≡◌, Bool, true, false, ◌&&◌, not, ◌||◌, Option, none, some, List, ◌∷◌, map,
  find, Has, is_some, ltb, ◌==◌, text_eq, if◌then◌else◌, ◌+++◌,
}
use code_trace.Errors.{Failure, Result, ok, err}
use code_trace.Exec.{Exec, pure, gets, ◌>>=◌, Ends}

pub record Session : Type 0 where
  pub id : String
  pub user_id : String
  pub refresh_token_hash : String
  pub user_agent : Option String
  pub ip_address : Option String
  pub expires_at : ℕ
  pub revoked_at : Option ℕ

pub record SessionMeta : Type 0 where
  pub user_agent : Option String
  pub ip_address : Option String

pub record TokenPair : Type 0 where
  pub access_token : String
  pub refresh_token : String

pub record AccessTokenPayload : Type 0 where
  pub user_id : String
  pub session_id : String

abbrev pub has_hash : String → Session → Bool
has_hash hash r = r.refresh_token_hash == hash

abbrev pub revoke_row : (Session → Bool) → ℕ → Session → Session
revoke_row p time r = if p r then record r { revoked_at = some time } else r

abbrev pub is_active : Session → Bool
is_active r = not (is_some r.revoked_at)

abbrev pub session_of : String → String → String → SessionMeta → ℕ → Session
session_of id user_id hash meta expires_at = record {
  id = id;
  user_id = user_id;
  refresh_token_hash = hash;
  user_agent = meta.user_agent;
  ip_address = meta.ip_address;
  expires_at = expires_at;
  revoked_at = none;
}

-- The table behind Prisma, in which no two rows have one hash (@unique on refresh_token_hash). A call
-- that fails changes nothing.
pub record SessionTable (S : Type 0) : Type 0 where
  pub sessions : S → List Session
  pub find_unique : String → Exec S (Option Session)
  pub update : String → ℕ → Exec S (Unit {0})
  pub update_many : (Session → Bool) → ℕ → Exec S (Unit {0})
  pub create : String → String → SessionMeta → ℕ → Exec S Session
  pub find_unique_lem :
      (hash : String) (s : S)
      → Ends
          (find_unique hash s)
          (λ found t. (found ≡ find (has_hash hash) (sessions s)) × (sessions t ≡ sessions s))
          (λ e t. sessions t ≡ sessions s)
  pub update_lem :
      (id : String) (time : ℕ) (s : S)
      → Ends
          (update id time s)
          (λ done t. sessions t ≡ map (revoke_row (λ r. r.id == id) time) (sessions s))
          (λ e t. sessions t ≡ sessions s)
  pub update_many_lem :
      (p : Session → Bool) (time : ℕ) (s : S)
      → Ends
          (update_many p time s)
          (λ done t. sessions t ≡ map (revoke_row p time) (sessions s))
          (λ e t. sessions t ≡ sessions s)
  pub create_lem :
      (user_id hash : String) (meta : SessionMeta) (expires_at : ℕ) (s : S)
      → Ends
          (create user_id hash meta expires_at s)
          (λ row t.
            (row ≡ session_of row.id user_id hash meta expires_at)
            × (find (has_hash hash) (sessions s) ≡ none)
            × (sessions t ≡ row ∷ sessions s))
          (λ e t. sessions t ≡ sessions s)

-- node:crypto, jsonwebtoken and the clock
pub record Secrets (S : Type 0) : Type 0 where
  pub hash_refresh_token : String → String
  pub issue_access_token : String → String → String
  pub verify : String → Result AccessTokenPayload
  pub random_uuid : S → String
  pub next_uuid : S → S
  pub now : S → ℕ
  pub refresh_token_ttl_seconds : ℕ

module _ {S : Type 0} (table : SessionTable S) (secrets : Secrets S) where
  open secrets use {hash_refresh_token, issue_access_token, now}

  -- `randomUUID()`
  unfoldable pub draw_uuid : Exec S String
  draw_uuid s = (ok (secrets.random_uuid s), secrets.next_uuid s)

  unfoldable pub create_session : String → SessionMeta → Exec S TokenPair
  create_session user_id meta = do
    first ← draw_uuid
    second ← draw_uuid
    let refresh_token = first +++ second
    time ← gets now
    session ←
        table.create user_id (hash_refresh_token refresh_token) meta
          (time + secrets.refresh_token_ttl_seconds * 1000)
    pure (record {
      access_token = issue_access_token user_id session.id;
      refresh_token = refresh_token;
    })

  abbrev pub meta_of : Session → SessionMeta
  meta_of r = record { user_agent = r.user_agent; ip_address = r.ip_address }

  -- `!session || session.revokedAt || session.expiresAt < new Date()`
  abbrev pub is_refused : Session → ℕ → Bool
  is_refused r time = is_some r.revoked_at || ltb r.expires_at time

  unfoldable pub renew : Session → Exec S (Option TokenPair)
  renew r = do
    time ← gets now
    _ ← table.update r.id time
    pair ← create_session r.user_id (meta_of r)
    pure (some pair)

  unfoldable pub rotate_found : Option Session → Exec S (Option TokenPair)
  rotate_found none = pure none
  rotate_found (some r) = do time ← gets now; if is_refused r time then pure none else renew r

  unfoldable pub rotate_session : String → Exec S (Option TokenPair)
  rotate_session refresh_token = do
    found ← table.find_unique (hash_refresh_token refresh_token)
    rotate_found found

  abbrev pub of_token : String → Session → Bool
  of_token hash r = has_hash hash r && is_active r

  unfoldable pub revoke_session : String → Exec S (Unit {0})
  revoke_session refresh_token = do
    time ← gets now
    table.update_many (of_token (hash_refresh_token refresh_token)) time

  abbrev pub of_user : String → Session → Bool
  of_user user_id r = r.user_id == user_id && is_active r

  unfoldable pub revoke_all_sessions : String → Exec S (Unit {0})
  revoke_all_sessions user_id = do time ← gets now; table.update_many (of_user user_id) time

  abbrev pub payload_or_null : Result AccessTokenPayload → Option AccessTokenPayload
  payload_or_null (ok payload) = some payload
  payload_or_null (err _) = none

  unfoldable pub verify_access_token : String → Option AccessTokenPayload
  verify_access_token token = payload_or_null (secrets.verify token)
