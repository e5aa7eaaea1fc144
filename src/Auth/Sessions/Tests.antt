-- ===== src/Auth/Sessions/Tests.antt =====
-- One user with one session, in memory.
use code_trace.Prelude.{
  ℕ, suc, String, ◌≡◌, refl, sym, ◌∙◌, ap, inl, inr, Option, none, some, List, [], ◌∷◌, map, find,
  ◌==◌, text_eq, show, show_within, digit, ◌+++◌,
}
use code_trace.Errors.{Result, ok, err, thrown}
use code_trace.Exec.{Ends, Ends-mono, returned, threw, ◌>>=◌}
use code_trace.Auth.Sessions.{
  Session, SessionMeta, TokenPair, SessionTable, Secrets, has_hash, revoke_row, session_of,
  rotate_session, rotate_found, renew, create_session, draw_uuid, revoke_session,
  revoke_all_sessions,
}
use code_trace.Auth.Sessions.Rotation.{
  rotate_session_lem, rotate_session_once, Rotates, LeftOrRevoked,
}
use code_trace.Auth.Sessions.Tokens.{Spec, exchange, perform, live_tokens}
use code_trace.Auth.Sessions.Tokens.Refinement.{IsKeyed, perform_refines}

record Memory : Type 0 where
  sessions : List Session
  drawn : ℕ

abbrev add_unless : Option Session → Session → Memory → Result Session × Memory
add_unless none row s = (ok row, record s { sessions = row ∷ s.sessions })
add_unless (some taken) row s = (err (thrown "P2002"), s)

add_unless_lem :
    (o : Option Session) (row : Session) (s : Memory)
    → Ends
        (add_unless o row s)
        (λ r t. (r ≡ row) × (o ≡ none) × (t.sessions ≡ row ∷ s.sessions))
        (λ e t. t.sessions ≡ s.sessions)
add_unless_lem none row s = returned row _ refl (refl, refl, refl)
add_unless_lem (some taken) row s = threw _ s refl refl

abbrev row_of : String → String → SessionMeta → ℕ → Memory → Session
row_of user_id hash meta expires_at s = session_of hash user_id hash meta expires_at

abbrev table : SessionTable Memory
table = record {
  sessions = λ s. s.sessions;
  find_unique = λ hash s. (ok (find (has_hash hash) s.sessions), s);
  update = λ id time s.
      (ok tt, record s { sessions = map (revoke_row (λ r. r.id == id) time) s.sessions });
  update_many = λ p time s. (ok tt, record s { sessions = map (revoke_row p time) s.sessions });
  create = λ user_id hash meta expires_at s.
      add_unless (find (has_hash hash) s.sessions) (session_of hash user_id hash meta expires_at) s;
  find_unique_lem = λ hash s. returned _ s refl (refl, refl);
  update_lem = λ id time s. returned tt _ refl refl;
  update_many_lem = λ p time s. returned tt _ refl refl;
  create_lem = λ user_id hash meta expires_at s. created user_id hash meta expires_at s;
}
  where
    created :
        (user_id hash : String) (meta : SessionMeta) (expires_at : ℕ) (s : Memory)
        → Ends
            (add_unless
              (find (has_hash hash) s.sessions)
              (session_of hash user_id hash meta expires_at)
              s)
            (λ row t.
              (row ≡ session_of row.id user_id hash meta expires_at)
              × (find (has_hash hash) s.sessions ≡ none)
              × (t.sessions ≡ row ∷ s.sessions))
            (λ e t. t.sessions ≡ s.sessions)
    created user_id hash meta expires_at s =
        Ends-mono _
          (add_unless_lem (find (has_hash hash) s.sessions)
            (session_of hash user_id hash meta expires_at) s)
          (λ row t (is_row, free, added). (
            is_row ∙ ap (λ r. session_of r.id user_id hash meta expires_at) (sym is_row),
            free,
            added ∙ ap (λ r. r ∷ s.sessions) (sym is_row),
          ))
          (λ e t k. k)

abbrev secrets : Secrets Memory
secrets = record {
  hash_refresh_token = λ token. token +++ "#";
  issue_access_token = λ user_id session_id. user_id +++ session_id;
  verify = λ token. err (thrown token);
  random_uuid = λ s. show s.drawn;
  next_uuid = λ s. record s { drawn = suc s.drawn };
  now = λ s. 100;
  refresh_token_ttl_seconds = 60;
}

abbrev no_meta : SessionMeta
no_meta = record { user_agent = none; ip_address = none }

abbrev held : Session
held = session_of "s" "ann" "old#" no_meta 100

abbrev start : Memory
start = record { sessions = held ∷ []; drawn = 7 }

abbrev rotated : Memory
rotated = record {
  sessions =
      session_of "78#" "ann" "78#" no_meta 60100 ∷ record held { revoked_at = some 100 } ∷ [];
  drawn = 9;
}

abbrev pair : TokenPair
pair = record { access_token = "ann78#"; refresh_token = "78" }

rotated_once : rotate_session table secrets "old" start ≡ (ok (some pair), rotated)
unfolding rotate_session rotate_found renew create_session draw_uuid ◌>>=◌ show show_within digit
rotated_once = refl

rotate_session_lem_example :
    Ends
      (rotate_session table secrets "old" start)
      (Rotates table secrets (λ s. refl) "old" start)
      (λ e t. LeftOrRevoked table secrets (λ s. refl) start t)
rotate_session_lem_example = rotate_session_lem table secrets (λ s. refl) "old" start

rotate_session_once_example :
    Ends
      (rotate_session table secrets "old" rotated)
      (λ answer u. (answer ≡ none) × (u.sessions ≡ rotated.sessions))
      (λ e u. u.sessions ≡ rotated.sessions)
rotate_session_once_example =
    rotate_session_once table secrets (λ s. refl) "old" pair start rotated rotated_once

abbrev logged_out : Memory
logged_out = record { sessions = record held { revoked_at = some 100 } ∷ []; drawn = 7 }

logout : revoke_session table secrets "old" start ≡ (ok tt, logged_out)
unfolding revoke_session ◌>>=◌
logout = refl

logout_of_all : revoke_all_sessions table secrets "ann" start ≡ (ok tt, logged_out)
unfolding revoke_all_sessions ◌>>=◌
logout_of_all = refl

one_row : IsKeyed (held ∷ [])
one_row a b (inl e) (inl f) same = sym e ∙ f
one_row a b (inr h) other same = absurd h
one_row a b listed (inr h) same = absurd h

perform_refines_example :
    Ends
      (perform table secrets (exchange "old") start)
      (λ answer t.
        Spec table secrets
          (exchange "old")
          (live_tokens start.sessions)
          answer
          (λ token. 100)
          (live_tokens t.sessions))
      (λ e t. LeftOrRevoked table secrets (λ s. refl) start t)
perform_refines_example = perform_refines table secrets (λ s. refl) (exchange "old") start one_row
