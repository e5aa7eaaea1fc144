-- ===== src/Auth/Sessions/Tokens/Refinement.antt =====
-- The operations on the rows implement those on the tokens.
use code_trace.Prelude.{
  ℕ, String, ◌≡◌, ◌≢◌, refl, sym, ◌∙◌, ap, subst, inl, inr, Bool, true, false, Option, none, some,
  List, ◌∷◌, map, Has, find, find-eq-some, ◌==◌, text_eq, if◌then◌else◌, Bool-cases, Option-cases,
  ◌&&◌, ◌<◌, ◌⊎◌,
}
use code_trace.Exec.{Ends, returned, Ends-bind, Ends-mono}
use code_trace.Auth.Sessions.{
  Session, SessionMeta, TokenPair, SessionTable, Secrets, has_hash, revoke_row, is_active, of_token,
  of_user, session_of,
}
use code_trace.Auth.Sessions.Rotation.{
  find-revoke_row, create_session-Ends, rotate_session_lem, Rotates, Created, LeftOrRevoked, IsDead,
  read_at,
}
use code_trace.Auth.Sessions.Revocation.{
  find-revoke_row-none, revoke_session-Ends, revoke_all_sessions-Ends,
}
use code_trace.Auth.Sessions.Tokens.{
  Holder, Tokens, issue, withdraw, unless_of, withdraw_all, Same, Command, log_in, exchange,
  log_out, log_out_all, unless_revoked, holder_of, live_tokens, perform, Issues, Spec, IsBad,
}

abbrev unless : (Session → Bool) → Option Session → Option Holder
unless p none = none
unless p (some r) = if p r then none else unless_revoked r.revoked_at r

holder-revoke_row :
    (p : Session → Bool) (time : ℕ) (r : Session)
    → holder_of (some (revoke_row p time r)) ≡ unless p (some r)
holder-revoke_row p time r = elim (Bool-cases (p r)) [ inl e ↦ rw e refl | inr e ↦ rw e refl ]

-- After an update of the rows that satisfy `p`, their tokens are withdrawn.
tokens-revoke_row :
    (p : Session → Bool) (time : ℕ) (rs : List Session) (hash : String)
    → live_tokens (map (revoke_row p time) rs) hash ≡ unless p (find (has_hash hash) rs)
tokens-revoke_row p time rs hash = elim (Option-cases (find (has_hash hash) rs)) [
  | inl e ↦ rw e (ap holder_of (find-revoke_row-none p time hash rs e))
  | inr (r, e) ↦
      rw e (ap holder_of (find-revoke_row p time hash rs r e) ∙ holder-revoke_row p time r)
]

found_hash :
    (rs : List Session) (hash : String) (r : Session)
    → find (has_hash hash) rs ≡ some r
    → Has r rs × (r.refresh_token_hash ≡ hash)
found_hash rs hash r e =
    let (listed, same) = find-eq-some (has_hash hash) rs {a = r} e in
    (listed, (text_eq.beq_iff r.refresh_token_hash hash).0 same)

-- @id: no two rows have one id.
abbrev pub IsKeyed : List Session → Type 0
IsKeyed rs = (a b : Session) → Has a rs → Has b rs → a.id ≡ b.id → a ≡ b

-- A test that holds of the row with this hash, unless it is revoked already, and of no other.
withdraw_lem :
    (p : Session → Bool) (rs : List Session) (hash : String)
    → ((r : Session) → find (has_hash hash) rs ≡ some r → is_active r ≡ true → p r ≡ true)
    → ((r : Session) → Has r rs → r.refresh_token_hash ≢ hash → p r ≡ false)
    → (h : String) → unless p (find (has_hash h) rs) ≡ withdraw hash (live_tokens rs) h
withdraw_lem p rs hash on_hash on_other h = elim (Option-cases (find (has_hash h) rs)) [
  | inl e ↦ rw e (nothing (h == hash))
  | inr (r, e) ↦
      let (listed, is_h) = found_hash rs h r e in
      rw e (elim (Bool-cases (h == hash)) [
        | inl same ↦
            let of_hash : find (has_hash hash) rs ≡ some r =
              subst (λ k. find (has_hash k) rs ≡ some r) ((text_eq.beq_iff h hash).0 same) e in
            rw same (gone r (on_hash r of_hash))
        | inr other ↦
            rw
              (
                other,
                on_other r listed (λ k. cc (other, (text_eq.beq_iff h hash).1 (sym is_h ∙ k))),
              )
              refl
      ])
]
  where
    nothing : (b : Bool) → none ≡ (if b then none else holder_of none)
    nothing true = refl
    nothing false = refl

    gone : (r : Session) → (is_active r ≡ true → p r ≡ true) → unless p (some r) ≡ none
    gone r on = elim (Option-cases r.revoked_at) [
      | inl e ↦ rw (on (rw e refl)) refl
      | inr (since, e) ↦ elim (Bool-cases (p r)) [ inl f ↦ rw f refl | inr f ↦ rw (f, e) refl ]
    ]

withdraw_all_lem :
    (p : Session → Bool) (rs : List Session) (user_id : String)
    → ((r : Session) → p r ≡ (r.user_id == user_id && is_active r))
    → (h : String) → unless p (find (has_hash h) rs) ≡ withdraw_all user_id (live_tokens rs) h
withdraw_all_lem p rs user_id is_p h = elim (Option-cases (find (has_hash h) rs)) [
  | inl e ↦ rw e refl
  | inr (r, e) ↦ rw (e, is_p r) (row r)
]
  where
    row :
        (r : Session)
        → (if r.user_id == user_id && is_active r then none else unless_revoked r.revoked_at r)
          ≡ unless_of user_id (unless_revoked r.revoked_at r)
    row r = elim (Option-cases r.revoked_at) [
      | inl e ↦
          rw e (elim (Bool-cases (r.user_id == user_id)) [ inl f ↦ rw f refl | inr f ↦ rw f refl ])
      | inr (since, e) ↦
          rw e (elim (Bool-cases (r.user_id == user_id)) [ inl f ↦ rw f refl | inr f ↦ rw f refl ])
    ]

module _ {S : Type 0} (table : SessionTable S) (secrets : Secrets S)
    (next_uuid_lem : (s : S) → table.sessions (secrets.next_uuid s) ≡ table.sessions s) where
  open table use {sessions}
  open secrets use {hash_refresh_token}

  abbrev pub tokens : S → Tokens
  tokens s = live_tokens (sessions s)

  abbrev pub clock : S → String → ℕ
  clock s token = read_at table secrets next_uuid_lem token s

  -- A new row issues its hash.
  Created-Issues :
      (user_id : String) (meta : SessionMeta) (before : Tokens) (s : S) (pair : TokenPair) (t : S)
      → Same (tokens s) before
      → Created table secrets next_uuid_lem user_id meta s pair t
      → Issues table secrets user_id (some pair) before (tokens t)
  Created-Issues user_id meta before s pair t same (id, expires_at, signed, fresh, added, until) = (
    pair,
    expires_at,
    refl,
    sym (same (hash_refresh_token pair.refresh_token)) ∙ ap holder_of fresh,
    λ h. ap (λ rs. live_tokens rs h) added ∙ issued h,
  )
    where
      issued :
          (h : String)
          → live_tokens
              (session_of id user_id (hash_refresh_token pair.refresh_token) meta expires_at
                ∷ sessions s)
              h
            ≡ issue
                (hash_refresh_token pair.refresh_token)
                (record { user_id = user_id; expires_at = expires_at })
                before
                h
      issued h = elim (Bool-cases (hash_refresh_token pair.refresh_token == h)) [
        | inl e ↦ rw e refl
        | inr e ↦ rw e (same h)
      ]

  exchange_lem :
      (token : String) (s : S) (answer : Option TokenPair) (t : S)
      → IsKeyed (sessions s)
      → Rotates table secrets next_uuid_lem token s answer t
      → Spec table secrets (exchange token) (tokens s) answer (clock s) (tokens t)
  exchange_lem token s answer t keyed (inl (is_none, kept, dead)) =
      inl (is_none, bad dead, λ h. ap (λ rs. live_tokens rs h) kept)
    where
      refused :
          (r : Session) (time : ℕ)
          → (r.revoked_at ≢ none) ⊎ (r.expires_at < time)
          → IsBad table secrets (holder_of (some r)) time
      refused r time (inl revoked) = elim (Option-cases r.revoked_at) [
        | inl f ↦ absurd (revoked f)
        | inr (since, f) ↦ inl (rw f refl)
      ]
      refused r time (inr late) = elim (Option-cases r.revoked_at) [
        | inl f ↦ inr (record { user_id = r.user_id; expires_at = r.expires_at }, rw f refl, late)
        | inr (since, f) ↦ inl (rw f refl)
      ]

      bad :
          IsDead table secrets next_uuid_lem token s
          → IsBad table secrets (tokens s (hash_refresh_token token)) (clock s token)
      bad (inl absent) = inl (ap holder_of absent)
      bad (inr (r, found, e)) =
          subst (λ o. IsBad table secrets (holder_of o) (clock s token)) (sym found)
            (refused r (clock s token) e)
  exchange_lem token s answer t keyed
        (inr (
          r,
          v,
          (found, active, on_time),
          same_v,
          (pair, time, u, is_pair, revoked, created, at_time, is_u),
          is_v,
        )) =
      let hash = hash_refresh_token token in
      let (listed, is_hash) = found_hash (sessions s) hash r found in
      let withdrawn : Same (tokens u) (withdraw hash (tokens s)) = λ h.
        ap (λ rs. live_tokens rs h)
          (revoked ∙ ap (map (revoke_row (λ x. x.id == r.id) time)) same_v)
        ∙ tokens-revoke_row (λ x. x.id == r.id) time (sessions s) h
        ∙ withdraw_lem (λ x. x.id == r.id) (sessions s) hash
            (λ x x_found active.
              (text_eq.beq_iff x.id r.id).1 (ap (λ (y : Session). y.id) (same_found x x_found)))
            (λ x x_listed other. elim (Bool-cases (x.id == r.id)) [
              | inl e ↦ absurd (
                  other (
                    ap (λ (y : Session). y.refresh_token_hash)
                      (keyed x r x_listed listed ((text_eq.beq_iff x.id r.id).0 e))
                    ∙ is_hash))
              | inr e ↦ e
            ])
            h in
      inr (
        record { user_id = r.user_id; expires_at = r.expires_at },
        held,
        on_time,
        subst (λ a. Issues table secrets r.user_id a (withdraw hash (tokens s)) (tokens t))
            (sym is_pair)
            (Created-Issues r.user_id _ (withdraw hash (tokens s)) u pair t withdrawn created),
      )
    where
      same_found :
          (x : Session) → find (has_hash (hash_refresh_token token)) (sessions s) ≡ some x → x ≡ r
      same_found x e = cc (e, found)

      held :
          tokens s (hash_refresh_token token)
          ≡ some (record { user_id = r.user_id; expires_at = r.expires_at })
      held = rw (found, active) refl

  -- Each call that returns does to the tokens what its abstract command does. A login issues a
  -- fresh token to its user. An exchange withdraws a token that is good, and not expired by the
  -- clock at which its row has been read, and issues a fresh one to the same user, or it answers
  -- null and changes nothing, where the token is not good or is expired by that clock. A logout withdraws its token, and a logout of all each
  -- token of the user. A call that throws has changed no row or only revoked one. The
  -- condition: no two rows have one id before the call.
  pub perform_refines :
      (command : Command) (s : S)
      → IsKeyed (sessions s)
      → Ends
          (perform table secrets command s)
          (λ answer t. Spec table secrets command (tokens s) answer (clock s) (tokens t))
          (λ e t. LeftOrRevoked table secrets next_uuid_lem s t)
  unfolding perform
  perform_refines (log_in user_id meta) s keyed =
      Ends-bind _ _ s (create_session-Ends table secrets next_uuid_lem user_id meta s)
        (λ pair t created.
          returned (some pair) t refl
            (Created-Issues user_id meta (tokens s) s pair t (λ h. refl) created))
        (λ e t kept. inl kept)
  perform_refines (exchange token) s keyed =
      Ends-mono _ (rotate_session_lem table secrets next_uuid_lem token s)
        (λ answer t rotates. exchange_lem token s answer t keyed rotates) (λ e t left. left)
  perform_refines (log_out token) s keyed =
      Ends-bind _ _ s (revoke_session-Ends table secrets token s)
        (λ done t (time, revoked). returned none t refl (
          refl,
          λ h.
              ap (λ rs. live_tokens rs h) revoked
              ∙ tokens-revoke_row (of_token table secrets (hash_refresh_token token)) time
                  (sessions s) h
              ∙ withdraw_lem _ (sessions s) (hash_refresh_token token)
                  (λ r found active. rw (of_hash r found, active) refl)
                  (λ r listed other. not_hash r other) h,
        ))
        (λ e t kept. inl kept)
    where
      of_hash :
          (r : Session)
          → find (has_hash (hash_refresh_token token)) (sessions s) ≡ some r
          → (r.refresh_token_hash == hash_refresh_token token) ≡ true
      of_hash r found = (find-eq-some _ (sessions s) {a = r} found).1

      not_hash :
          (r : Session)
          → r.refresh_token_hash ≢ hash_refresh_token token
          → of_token table secrets (hash_refresh_token token) r ≡ false
      not_hash r other = elim (Bool-cases (r.refresh_token_hash == hash_refresh_token token)) [
        | inl e ↦ absurd (other ((text_eq.beq_iff _ _).0 e))
        | inr e ↦ rw e refl
      ]
  perform_refines (log_out_all user_id) s keyed =
      Ends-bind _ _ s (revoke_all_sessions-Ends table secrets user_id s)
        (λ done t (time, revoked). returned none t refl (
          refl,
          λ h.
              ap (λ rs. live_tokens rs h) revoked
              ∙ tokens-revoke_row (of_user table secrets user_id) time (sessions s) h
              ∙ withdraw_all_lem (of_user table secrets user_id) (sessions s) user_id (λ r. refl) h,
        ))
        (λ e t kept. inl kept)
