-- ===== src/Auth/Sessions/Tokens.antt =====
-- What the sessions promise, without their rows: which hash of a refresh token is good, for which user and
-- until when.
pub mod Refinement
use code_trace.Prelude.{
  ℕ, String, ◌≡◌, ◌⊎◌, Bool, true, false, Option, none, some, List, Has, ◌==◌, text_eq,
  if◌then◌else◌, find, ◌≤◌, ◌<◌,
}
use code_trace.Exec.{Exec, pure, ◌>>=◌}
use code_trace.Auth.Sessions.{
  Session, SessionMeta, TokenPair, SessionTable, Secrets, has_hash, create_session, rotate_session,
  revoke_session, revoke_all_sessions,
}

pub record Holder : Type 0 where
  pub user_id : String
  pub expires_at : ℕ

abbrev pub Tokens : Type 0
Tokens = String → Option Holder

abbrev pub issue : String → Holder → Tokens → Tokens
issue hash holder tokens h = if hash == h then some holder else tokens h

abbrev pub withdraw : String → Tokens → Tokens
withdraw hash tokens h = if h == hash then none else tokens h

abbrev pub unless_of : String → Option Holder → Option Holder
unless_of user_id none = none
unless_of user_id (some holder) = if holder.user_id == user_id then none else some holder

abbrev pub withdraw_all : String → Tokens → Tokens
withdraw_all user_id tokens h = unless_of user_id (tokens h)

abbrev pub Same : Tokens → Tokens → Type 0
Same a b = (hash : String) → a hash ≡ b hash

pub data Command : Type 0 where
  log_in : String → SessionMeta → Command
  exchange log_out log_out_all : String → Command

-- The rows, read as tokens.
abbrev pub unless_revoked : Option ℕ → Session → Option Holder
unless_revoked none r = some (record { user_id = r.user_id; expires_at = r.expires_at })
unless_revoked (some since) r = none

abbrev pub holder_of : Option Session → Option Holder
holder_of none = none
holder_of (some r) = unless_revoked r.revoked_at r

abbrev pub live_tokens : List Session → Tokens
live_tokens rs hash = holder_of (find (has_hash hash) rs)

module _ {S : Type 0} (table : SessionTable S) (secrets : Secrets S) where
  open table use {sessions}
  open secrets use {hash_refresh_token}

  unfoldable pub perform : Command → Exec S (Option TokenPair)
  perform (log_in user_id meta) = do
    pair ← create_session table secrets user_id meta
    pure (some pair)
  perform (exchange token) = rotate_session table secrets token
  perform (log_out token) = do _ ← revoke_session table secrets token; pure none
  perform (log_out_all user_id) = do _ ← revoke_all_sessions table secrets user_id; pure none

  -- A fresh token of the pair is issued to the user.
  abbrev pub Issues : String → Option TokenPair → Tokens → Tokens → Type 0
  Issues user_id answer before after =
      (pair : TokenPair) × (expires_at : ℕ) × (answer ≡ some pair)
      × (before (hash_refresh_token pair.refresh_token) ≡ none)
      × Same after (
          issue (hash_refresh_token pair.refresh_token)
            (record { user_id = user_id; expires_at = expires_at }) before)

  -- No holder has the token, or its time is past at `time`.
  abbrev pub IsBad : Option Holder → ℕ → Type 0
  IsBad held time =
      (held ≡ none) ⊎ ((holder : Holder) × (held ≡ some holder) × (holder.expires_at < time))

  -- The abstract behaviour of each command, where `clock` says at what time an exchange of a token has
  -- looked for it.
  abbrev pub Spec : Command → Tokens → Option TokenPair → (String → ℕ) → Tokens → Type 0
  Spec (log_in user_id meta) before answer clock after = Issues user_id answer before after
  Spec (exchange token) before answer clock after =
      ((answer ≡ none)
        × IsBad (before (hash_refresh_token token)) (clock token)
        × Same after before)
      ⊎ ((holder : Holder) × (before (hash_refresh_token token) ≡ some holder)
          × (clock token ≤ holder.expires_at)
          × Issues holder.user_id answer (withdraw (hash_refresh_token token) before) after)
  Spec (log_out token) before answer clock after =
      (answer ≡ none) × Same after (withdraw (hash_refresh_token token) before)
  Spec (log_out_all user_id) before answer clock after =
      (answer ≡ none) × Same after (withdraw_all user_id before)
