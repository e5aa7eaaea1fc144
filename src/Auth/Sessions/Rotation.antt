-- ===== src/Auth/Sessions/Rotation.antt =====
-- A refresh token is exchanged once.
use code_trace.Prelude.{
  ℕ, String, ◌≡◌, refl, sym, ◌∙◌, ap, ◌⊎◌, inl, inr, Bool, true, false, Option, none, some, List,
  [], ◌∷◌, map, find, ◌==◌, text_eq, Bool-cases, ◌+++◌, ◌+◌, ◌*◌, ◌≢◌, ◌≤◌, ◌<◌, subst, ltb, arith,
  Option-cases,
}
use code_trace.Errors.{ok}
use code_trace.Exec.{
  Ends, returned, Ends-bind, Ends-seen, Ends-mono, Ends-gets, Ends-ok, ◌>>=◌, pure,
}
use code_trace.Auth.Sessions.{
  Session, SessionMeta, TokenPair, SessionTable, Secrets, has_hash, revoke_row, is_refused,
  session_of, meta_of, draw_uuid, create_session, renew, rotate_found, rotate_session,
}

map_option : {A B : Type 0} → (A → B) → Option A → Option B
map_option f none = none
map_option f (some a) = some (f a)

pub revoke_row-hash :
    (p : Session → Bool) (time : ℕ) (r : Session)
    → (revoke_row p time r).refresh_token_hash ≡ r.refresh_token_hash
revoke_row-hash p time r = elim (Bool-cases (p r)) [ inl e ↦ rw e refl | inr e ↦ rw e refl ]

pub find-revoke_row :
    (p : Session → Bool) (time : ℕ) (hash : String) (rs : List Session) (r : Session)
    → find (has_hash hash) rs ≡ some r
    → find (has_hash hash) (map (revoke_row p time) rs) ≡ some (revoke_row p time r)
find-revoke_row p time hash [] r e = cc
find-revoke_row p time hash (x ∷ rs) r e = elim (Bool-cases (x.refresh_token_hash == hash)) [
  | inl same ↦
      let here : x ≡ r = cc (rw same at e) in
      rw (revoke_row-hash p time x, same) (ap (λ y. some (revoke_row p time y)) here)
  | inr other ↦
      rw (revoke_row-hash p time x, other) (find-revoke_row p time hash rs r (rw other at e))
]

module _ {S : Type 0} (table : SessionTable S) (secrets : Secrets S)
    (next_uuid_lem : (s : S) → table.sessions (secrets.next_uuid s) ≡ table.sessions s) where
  open table use {sessions}
  open secrets use {hash_refresh_token, issue_access_token, now}

  -- A session that is created in `s` draws two ids and then reads the clock.
  abbrev pub expiry_of_new : S → ℕ
  expiry_of_new s =
      now (secrets.next_uuid (secrets.next_uuid s)) + secrets.refresh_token_ttl_seconds * 1000

  -- One session more, which no other shares its hash with and which ends when its time to live has passed.
  abbrev pub Created : String → SessionMeta → S → TokenPair → S → Type 0
  Created user_id meta s pair t =
      (id : String) × (expires_at : ℕ) × (pair.access_token ≡ issue_access_token user_id id)
      × (find (has_hash (hash_refresh_token pair.refresh_token)) (sessions s) ≡ none)
      × (sessions t
          ≡ session_of id user_id (hash_refresh_token pair.refresh_token) meta expires_at
            ∷ sessions s)
      × (expires_at ≡ expiry_of_new s)

  draw_uuid-Ends :
      (s : S)
      → Ends
          (draw_uuid table secrets s)
          (λ id t. (sessions t ≡ sessions s) × (t ≡ secrets.next_uuid s))
          (λ e t. sessions t ≡ sessions s)
  unfolding draw_uuid
  draw_uuid-Ends s = returned _ _ refl (next_uuid_lem s, refl)

  pub create_session-Ends :
      (user_id : String) (meta : SessionMeta) (s : S)
      → Ends
          (create_session table secrets user_id meta s)
          (Created user_id meta s)
          (λ e t. sessions t ≡ sessions s)
  unfolding create_session
  create_session-Ends user_id meta s =
      Ends-bind _ _ s (draw_uuid-Ends s)
        (λ first t (same_t, is_t).
          Ends-bind _ _ t (draw_uuid-Ends t)
            (λ second u (same_u, is_u).
              Ends-gets now _ u
                (created first second u (same_u ∙ same_t) (is_u ∙ ap secrets.next_uuid is_t)))
            (λ e u kept. kept ∙ same_t))
        (λ e t kept. kept)
    where
      created :
          (first second : String) (u : S)
          → sessions u ≡ sessions s
          → u ≡ secrets.next_uuid (secrets.next_uuid s)
          → Ends
              ((table.create user_id
                    (hash_refresh_token (first +++ second))
                    meta
                    (now u + secrets.refresh_token_ttl_seconds * 1000)
                  >>= λ session. pure (record {
                    access_token = issue_access_token user_id session.id;
                    refresh_token = first +++ second;
                  }))
                u)
              (Created user_id meta s)
              (λ e t. sessions t ≡ sessions s)
      created first second u same is_u =
          Ends-bind _ _ u
            (table.create_lem user_id (hash_refresh_token (first +++ second)) meta
              (now u + secrets.refresh_token_ttl_seconds * 1000) u)
            (λ row t (is_row, fresh, added). returned _ t refl (
              row.id,
              now u + secrets.refresh_token_ttl_seconds * 1000,
              refl,
              ap (find (has_hash (hash_refresh_token (first +++ second)))) (sym same) ∙ fresh,
              added ∙ ap (λ rs. row ∷ rs) same ∙ ap (λ x. x ∷ sessions s) is_row,
              ap (λ v. now v + secrets.refresh_token_ttl_seconds * 1000) is_u,
            ))
            (λ e t kept. kept ∙ same)

  -- The old session revoked and a new one for the same user.
  abbrev pub Renewed : Session → S → Option TokenPair → S → Type 0
  Renewed r s answer t =
      (pair : TokenPair) × (time : ℕ) × (u : S) × (answer ≡ some pair)
      × (sessions u ≡ map (revoke_row (λ x. x.id == r.id) time) (sessions s))
      × Created r.user_id (meta_of table secrets r) u pair t
      × (time ≡ now s)
      × (u ≡ (table.update r.id time s).1)

  -- Nothing, or only the old session revoked.
  abbrev pub LeftOrRevoked : S → S → Type 0
  LeftOrRevoked s t =
      (sessions t ≡ sessions s)
      ⊎ ((r : Session) × (time : ℕ) × (sessions t
            ≡ map (revoke_row (λ x. x.id == r.id) time) (sessions s)))

  renew-Ends :
      (r : Session) (s : S)
      → Ends (renew table secrets r s) (Renewed r s) (λ e t. LeftOrRevoked s t)
  unfolding renew
  renew-Ends r s = Ends-gets now _ s (
      Ends-bind _ _ s (Ends-seen _ (table.update_lem r.id (now s) s))
        (λ done u (updated, revoked).
          Ends-bind _ _ u (create_session-Ends r.user_id (meta_of table secrets r) u)
            (λ pair t created.
              returned (some pair) t refl
                (pair, now s, u, refl, revoked, created, refl, sym (ap (λ x. x.1) updated)))
            (λ e t kept. inr (r, now s, kept ∙ revoked)))
        (λ e t (failed, kept). inl kept))

  -- The clock when a call that begins in `s` has looked for the row of the token.
  abbrev pub read_at : String → S → ℕ
  read_at token s = now (table.find_unique (hash_refresh_token token) s).1

  -- The session of the token is neither revoked nor, at that time, expired.
  abbrev pub IsLive : String → S → Session → Type 0
  IsLive token s r =
      (find (has_hash (hash_refresh_token token)) (sessions s) ≡ some r)
      × (r.revoked_at ≡ none)
      × (read_at token s ≤ r.expires_at)

  -- No session has the token, or the one that has it is revoked or, at that time, expired.
  abbrev pub IsDead : String → S → Type 0
  IsDead token s =
      (find (has_hash (hash_refresh_token token)) (sessions s) ≡ none)
      ⊎ ((r : Session) × (find (has_hash (hash_refresh_token token)) (sessions s) ≡ some r)
          × ((r.revoked_at ≢ none) ⊎ (r.expires_at < read_at token s)))

  refused_or_live :
      (r : Session) (time : ℕ)
      → ((is_refused table secrets r time ≡ true) × ((r.revoked_at ≢ none) ⊎ (r.expires_at < time)))
        ⊎ ((is_refused table secrets r time ≡ false)
            × (r.revoked_at ≡ none)
            × (time ≤ r.expires_at))
  refused_or_live r time = elim (Option-cases r.revoked_at) [
    | inl e ↦ elim (Bool-cases (ltb r.expires_at time)) [
      | inl late ↦ inl (rw (e, late) refl, inr (ground (arith, late)))
      | inr on_time ↦ inr (rw (e, on_time) refl, e, ground (arith, on_time))
    ]
    | inr (since, e) ↦ inl (rw e refl, inl (λ k. cc (e, k)))
  ]

  abbrev pub Rotates : String → S → Option TokenPair → S → Type 0
  Rotates token s answer t =
      ((answer ≡ none) × (sessions t ≡ sessions s) × IsDead token s)
      ⊎ ((r : Session) × (v : S) × IsLive token s r
          × (sessions v ≡ sessions s)
          × Renewed r v answer t
          × (v ≡ (table.find_unique (hash_refresh_token token) s).1))

  -- The exchange of a refresh token answers null and changes nothing if no session has the token, or that
  -- session is revoked, or its expiry lies before the clock at which its row has been read. An exchange that
  -- answers with tokens found an unrevoked session, at whose reading the clock was not past its expiry; it
  -- revokes that session at the time at which it finds it, and answers with a new one of the same user and client,
  -- which ends a time to live after the clock at which it is created. A call that throws has changed nothing or
  -- revoked one session.
  pub rotate_session_lem :
      (token : String) (s : S)
      → Ends (rotate_session table secrets token s) (Rotates token s) (λ e t. LeftOrRevoked s t)
  unfolding rotate_session rotate_found
  rotate_session_lem token s =
      Ends-bind _ _ s (Ends-seen _ (table.find_unique_lem (hash_refresh_token token) s))
        (λ found u (read, (is_found, same)).
          on_found found u (sym (ap (λ r. r.1) read)) (sym is_found) same)
        (λ e t (thrown, kept). inl kept)
    where
      on_found :
          (found : Option Session) (u : S)
          → u ≡ (table.find_unique (hash_refresh_token token) s).1
          → find (has_hash (hash_refresh_token token)) (sessions s) ≡ found
          → sessions u ≡ sessions s
          → Ends (rotate_found table secrets found u) (Rotates token s) (λ e t. LeftOrRevoked s t)
      on_found none u is_u is_found same = returned none u refl (inl (refl, same, inl is_found))
      on_found (some r) u is_u is_found same = Ends-gets now _ u (elim (refused_or_live r (now u)) [
        | inl (e, dead) ↦ rw e (
            returned none u refl (
              inl (
                refl,
                same,
                inr (
                  r,
                  is_found,
                  subst (λ time. (r.revoked_at ≢ none) ⊎ (r.expires_at < time)) (ap now is_u) dead,
                ),
              )))
        | inr (e, active, on_time) ↦ rw e (
            Ends-mono _ (renew-Ends r u)
              (λ answer t renewed. inr (
                r,
                u,
                (is_found, active, subst (λ time. time ≤ r.expires_at) (ap now is_u) on_time),
                same,
                renewed,
                is_u,
              ))
              (λ f t left. elim left [
                | inl kept ↦ inl (kept ∙ same)
                | inr (x, time, revoked) ↦
                    inr (x, time, revoked ∙ ap (map (revoke_row (λ y. y.id == x.id) time)) same)
              ]))
      ])

  -- In the table after an exchange the session of the old token is a revoked one.
  find-Renewed :
      (hash : String) (r : Session) (v t : S) (answer : Option TokenPair)
      → find (has_hash hash) (sessions v) ≡ some r
      → Renewed r v answer t
      → (time : ℕ) × (find (has_hash hash) (sessions t)
          ≡ some (record r { revoked_at = some time }))
  find-Renewed hash r v t answer found
        (
          pair,
          time,
          u,
          is_pair,
          revoked,
          (id, expires_at, signed, fresh, added, until),
          at_time,
          is_u,
        ) =
      let new = hash_refresh_token pair.refresh_token in
      let self : (r.id == r.id) ≡ true = (text_eq.beq_iff r.id r.id).1 refl in
      let row : revoke_row (λ x. x.id == r.id) time r ≡ record r { revoked_at = some time } =
        rw self refl in
      let there : find (has_hash hash) (sessions u) ≡ some (record r { revoked_at = some time }) =
        ap (find (has_hash hash)) revoked
        ∙ find-revoke_row (λ x. x.id == r.id) time hash (sessions v) r found
        ∙ ap some row in
      let other : (new == hash) ≡ false = elim (Bool-cases (new == hash)) [
        | inl e ↦ absurd (cc (there, fresh, (text_eq.beq_iff new hash).0 e))
        | inr e ↦ e
      ] in
      (time, ap (find (has_hash hash)) added ∙ rw other there)

  -- A refresh token is exchanged once: after an exchange that answered with a new pair, another with the same
  -- token answers null and changes nothing.
  pub rotate_session_once :
      (token : String) (pair : TokenPair) (s t : S)
      → rotate_session table secrets token s ≡ (ok (some pair), t)
      → Ends
          (rotate_session table secrets token t)
          (λ answer u. (answer ≡ none) × (sessions u ≡ sessions t))
          (λ e u. sessions u ≡ sessions t)
  unfolding rotate_session rotate_found
  rotate_session_once token pair s t first =
      elim (Ends-ok _ (some pair) t (rotate_session_lem token s) first) [
        | inl (is_none, kept, dead) ↦ absurd (cc is_none)
        | inr (r, v, (found, active, on_time), same, renewed, is_v) ↦
            let (time, revoked) =
              find-Renewed (hash_refresh_token token) r v t (some pair)
                (ap (find (has_hash (hash_refresh_token token))) same ∙ found) renewed in
            Ends-bind _ _ t (table.find_unique_lem (hash_refresh_token token) t)
              (λ answer u (is_answer, kept).
                rw (is_answer, revoked) (Ends-gets now _ u (returned none u refl (refl, kept))))
              (λ e u kept. kept)
      ]
