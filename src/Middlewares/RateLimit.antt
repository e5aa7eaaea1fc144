-- ===== src/Middlewares/RateLimit.antt =====
-- rate-limit.middleware.ts: `checkRateLimit`. Redis, its clock and the expiry of its keys are a
-- parameter; a key whose time has passed is as if it were not there.
pub mod Window
pub mod Reopening
pub mod Tests
use code_trace.Prelude.{
  ℕ, suc, ◌+◌, ◌≤◌, String, ◌≡◌, ◌⊎◌, Bool, List, [], ◌∷◌, Option, none, some, nat_eq, leb,
  if◌then◌else◌, ◌+++◌,
}
use code_trace.Errors.{ok}
use code_trace.Exec.{Exec, pure, ◌>>=◌, Ends}

pub record Counter : Type 0 where
  pub value : ℕ
  pub expires_at : Option ℕ

-- A key with no expiry lives on; any other until its time has passed.
abbrev pub live_until : Counter → Option ℕ → ℕ → Option Counter
live_until c none time = some c
live_until c (some e) time = if leb time e then some c else none

abbrev pub live_at : Option Counter → ℕ → Option Counter
live_at none time = none
live_at (some c) time = live_until c c.expires_at time

-- INCR
abbrev pub incremented : Option Counter → Counter
incremented none = record { value = 1; expires_at = none }
incremented (some c) = record c { value = suc c.value }

abbrev pub first_expiry : Option ℕ → ℕ → Option ℕ
first_expiry none e = some e
first_expiry (some old) e = some old

-- PEXPIRE … NX
abbrev pub expiring : Option Counter → ℕ → Option Counter
expiring none e = none
expiring (some c) e = some (record c { expires_at = first_expiry c.expires_at e })

-- A command runs at some time of the server between its call and its end; one that fails may have run.
pub record Redis (S : Type 0) : Type 0 where
  pub now : S → ℕ
  pub stored : S → String → Option Counter
  pub incr : String → Exec S ℕ
  pub pexpire_nx : String → ℕ → Exec S (Unit {0})
  pub incr_lem :
      (key : String) (s : S)
      → Ends
          (incr key s)
          (λ count t.
            (time : ℕ) × (now s ≤ time)
            × (time ≤ now t)
            × (count ≡ (incremented (live_at (stored s key) time)).value)
            × (stored t key ≡ some (incremented (live_at (stored s key) time))))
          (λ e t.
            (now s ≤ now t)
            × ((stored t key ≡ stored s key)
                ⊎ ((time : ℕ) × (stored t key ≡ some (incremented (live_at (stored s key) time))))))
  pub pexpire_nx_lem :
      (key : String) (window_ms : ℕ) (s : S)
      → Ends
          (pexpire_nx key window_ms s)
          (λ done t.
            (time : ℕ) × (now s ≤ time)
            × (time ≤ now t)
            × (stored t key ≡ expiring (live_at (stored s key) time) (time + window_ms)))
          (λ e t.
            (now s ≤ now t)
            × ((stored t key ≡ stored s key)
                ⊎ ((time : ℕ) × (stored t key
                      ≡ expiring (live_at (stored s key) time) (time + window_ms)))))

pub record LimitOptions : Type 0 where
  pub window_ms : ℕ
  pub max : ℕ

abbrev pub redis_key : String → String
redis_key key = "ratelimit:ws:" +++ key

module _ {S : Type 0} (redis : Redis S) where
  unfoldable pub expire_first : String → ℕ → ℕ → Exec S (Unit {0})
  expire_first key window_ms count =
      if nat_eq count 1 then redis.pexpire_nx key window_ms else pure tt

  unfoldable pub check_rate_limit : String → LimitOptions → Exec S Bool
  check_rate_limit key opts = do
    count ← redis.incr (redis_key key)
    _ ← expire_first (redis_key key) opts.window_ms count
    pure (leb count opts.max)

  -- Calls of `checkRateLimit` for one key that all return, with their answers, the last one first.
  -- Between them time passes, and nothing else writes the key.
  pub data Calls (key : String) (opts : LimitOptions) (s : S) : List Bool → S → Type 0 where
    no_call : Calls key opts s [] s
    called :
        {answers : List Bool} {t u : S} (answer : Bool)
        → Calls key opts s answers t
        → check_rate_limit key opts t ≡ (ok answer, u)
        → Calls key opts s (answer ∷ answers) u
    waited :
        {answers : List Bool} {t u : S}
        → Calls key opts s answers t
        → redis.now t ≤ redis.now u
        → redis.stored u (redis_key key) ≡ redis.stored t (redis_key key)
        → Calls key opts s answers u
