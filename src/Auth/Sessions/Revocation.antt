-- ===== src/Auth/Sessions/Revocation.antt =====
-- What a logout ends.
use code_trace.Prelude.{
  ℕ, String, ◌≡◌, refl, sym, ◌∙◌, ap, subst, inl, inr, Bool, true, false, not, Option, none, some,
  List, [], ◌∷◌, map, find, find-eq-some, Has, Has-map, is_some, ◌==◌, text_eq, Bool-cases,
  Option-cases,
}
use code_trace.Errors.{ok}
use code_trace.Exec.{Ends, returned, Ends-bind, Ends-mono, Ends-gets, Ends-ok}
use code_trace.Auth.Sessions.{
  Session, SessionTable, Secrets, has_hash, revoke_row, of_token, of_user, rotate_found,
  rotate_session, revoke_session, revoke_all_sessions,
}
use code_trace.Auth.Sessions.Rotation.{find-revoke_row, revoke_row-hash}

pub find-revoke_row-none :
    (p : Session → Bool) (time : ℕ) (hash : String) (rs : List Session)
    → find (has_hash hash) rs ≡ none
    → find (has_hash hash) (map (revoke_row p time) rs) ≡ none
find-revoke_row-none p time hash [] e = refl
find-revoke_row-none p time hash (x ∷ rs) e = elim (Bool-cases (x.refresh_token_hash == hash)) [
  | inl same ↦ absurd (cc (rw same at e))
  | inr other ↦
      rw (revoke_row-hash p time x, other) (find-revoke_row-none p time hash rs (rw other at e))
]

module _ {S : Type 0} (table : SessionTable S) (secrets : Secrets S) where
  open table use {sessions}
  open secrets use {hash_refresh_token, now}

  -- The token of a session that is revoked, or of none, is refused.
  rotate_session-revoked :
      (token : String) (t : S)
      → ((r : Session)
          → find (has_hash (hash_refresh_token token)) (sessions t) ≡ some r
          → is_some r.revoked_at ≡ true)
      → Ends
          (rotate_session table secrets token t)
          (λ answer u. (answer ≡ none) × (sessions u ≡ sessions t))
          (λ e u. sessions u ≡ sessions t)
  unfolding rotate_session rotate_found
  rotate_session-revoked token t revoked =
      Ends-bind _ _ t (table.find_unique_lem (hash_refresh_token token) t)
        (λ answer u (is_answer, kept). on_found answer u (sym is_answer) kept) (λ e u kept. kept)
    where
      on_found :
          (found : Option Session) (u : S)
          → find (has_hash (hash_refresh_token token)) (sessions t) ≡ found
          → sessions u ≡ sessions t
          → Ends
              (rotate_found table secrets found u)
              (λ answer u. (answer ≡ none) × (sessions u ≡ sessions t))
              (λ e u. sessions u ≡ sessions t)
      on_found none u e kept = returned none u refl (refl, kept)
      on_found (some r) u e kept =
          Ends-gets now _ u (rw (revoked r e) (returned none u refl (refl, kept)))

  pub revoke_session-Ends :
      (token : String) (s : S)
      → Ends
          (revoke_session table secrets token s)
          (λ done t.
            (time : ℕ) × (sessions t
              ≡ map
                  (revoke_row (of_token table secrets (hash_refresh_token token)) time)
                  (sessions s)))
          (λ e t. sessions t ≡ sessions s)
  unfolding revoke_session
  revoke_session-Ends token s =
      Ends-gets now _ s (
        Ends-mono _ (table.update_many_lem _ (now s) s) (λ done t same. (now s, same)) (λ e t k. k))

  -- After a logout the refresh token is refused, and the refusal changes nothing.
  pub revoke_session-rotate_session :
      (token : String) (s t : S)
      → revoke_session table secrets token s ≡ (ok tt, t)
      → Ends
          (rotate_session table secrets token t)
          (λ answer u. (answer ≡ none) × (sessions u ≡ sessions t))
          (λ e u. sessions u ≡ sessions t)
  revoke_session-rotate_session token s t done =
      let (time, same) = Ends-ok _ tt t (revoke_session-Ends token s) done in
      rotate_session-revoked token t (λ r e. revoked time same r e)
    where
      hash : String
      hash = hash_refresh_token token

      row :
          (time : ℕ) (r : Session)
          → (r.refresh_token_hash == hash) ≡ true
          → is_some (revoke_row (of_token table secrets hash) time r).revoked_at ≡ true
      row time r of_hash = elim (Option-cases r.revoked_at) [
        | inl e ↦ rw (of_hash, e) refl
        | inr (since, e) ↦ rw (of_hash, e) refl
      ]

      revoked :
          (time : ℕ)
          → sessions t ≡ map (revoke_row (of_token table secrets hash) time) (sessions s)
          → (r : Session) → find (has_hash hash) (sessions t) ≡ some r
          → is_some r.revoked_at ≡ true
      revoked time same r e = elim (Option-cases (find (has_hash hash) (sessions s))) [
        | inl absent ↦ absurd (
            cc (
              e,
              ap (find (has_hash hash)) same,
              find-revoke_row-none (of_token table secrets hash) time hash (sessions s) absent,
            ))
        | inr (old, found) ↦
            let there =
              ap (find (has_hash hash)) same
              ∙ find-revoke_row (of_token table secrets hash) time hash (sessions s) old found in
            let is_row : revoke_row (of_token table secrets hash) time old ≡ r = cc (there, e) in
            subst (λ (x : Session). is_some x.revoked_at ≡ true) is_row
              (row time old (find-eq-some (has_hash hash) (sessions s) {a = old} found).1)
      ]

  pub revoke_all_sessions-Ends :
      (user_id : String) (s : S)
      → Ends
          (revoke_all_sessions table secrets user_id s)
          (λ done t.
            (time : ℕ) × (sessions t
              ≡ map (revoke_row (of_user table secrets user_id) time) (sessions s)))
          (λ e t. sessions t ≡ sessions s)
  unfolding revoke_all_sessions
  revoke_all_sessions-Ends user_id s =
      Ends-gets now _ s (
        Ends-mono _ (table.update_many_lem _ (now s) s) (λ done t same. (now s, same)) (λ e t k. k))

  revoked_row :
      (user_id : String) (time : ℕ) (old r : Session)
      → revoke_row (of_user table secrets user_id) time old ≡ r
      → r.user_id ≡ user_id
      → is_some r.revoked_at ≡ true
  revoked_row user_id time old r is_row of_the_user =
      elim (Bool-cases (of_user table secrets user_id old)) [
        | inl e ↦ subst (λ (x : Session). is_some x.revoked_at ≡ true) is_row (rw e refl)
        | inr e ↦
            let same : old ≡ r = rw e at is_row in
            let known : (old.user_id == user_id) ≡ true =
              (text_eq.beq_iff old.user_id user_id).1 (ap (λ x. x.user_id) same ∙ of_the_user) in
            subst (λ (x : Session). is_some x.revoked_at ≡ true) same
              (inactive (is_some old.revoked_at) (rw known at e))
      ]
    where
      inactive : (b : Bool) → not b ≡ false → b ≡ true
      inactive true e = refl
      inactive false e = absurd (cc e)

  -- After all sessions of a user are revoked, a refresh token of a session of that user is refused, and the
  -- refusal changes nothing.
  pub revoke_all_sessions-rotate_session :
      (user_id token : String) (s t : S) (r : Session)
      → revoke_all_sessions table secrets user_id s ≡ (ok tt, t)
      → find (has_hash (hash_refresh_token token)) (sessions t) ≡ some r
      → r.user_id ≡ user_id
      → Ends
          (rotate_session table secrets token t)
          (λ answer u. (answer ≡ none) × (sessions u ≡ sessions t))
          (λ e u. sessions u ≡ sessions t)
  revoke_all_sessions-rotate_session user_id token s t r done found of_the_user =
      let (time, same) = Ends-ok _ tt t (revoke_all_sessions-Ends user_id s) done in
      let (listed, of_hash) =
        find-eq-some (has_hash (hash_refresh_token token)) (sessions t) {a = r} found in
      let (old, was_listed, is_row) =
        Has-map (revoke_row (of_user table secrets user_id) time) r (sessions s)
          (subst (Has r) same listed) in
      rotate_session-revoked token t
        (λ x e. same_row x e (revoked_row user_id time old r is_row of_the_user))
    where
      same_row :
          (x : Session)
          → find (has_hash (hash_refresh_token token)) (sessions t) ≡ some x
          → is_some r.revoked_at ≡ true
          → is_some x.revoked_at ≡ true
      same_row x e h =
          let same : r ≡ x = cc (e, found) in
          subst (λ (y : Session). is_some y.revoked_at ≡ true) same h
