-- ===== src/Middlewares/RateLimit/Tests.antt =====
-- Redis in memory, whose commands take no time.
use code_trace.Prelude.{
  ℕ, ◌+◌, min, String, ◌≡◌, refl, Bool, true, false, Option, none, some, [], ◌∷◌, text_eq, ◌==◌,
  if◌then◌else◌, arith, All,
}
use native.Mathlib.Nat.{le_refl}
use code_trace.Errors.{ok}
use code_trace.Exec.{◌>>=◌, returned}
use code_trace.Middlewares.RateLimit.{
  Counter, live_at, incremented, expiring, Redis, LimitOptions, redis_key, check_rate_limit,
  expire_first, Calls, no_call, called, waited,
}
use code_trace.Middlewares.RateLimit.Window.{allowed, check_rate_limit_window}
use code_trace.Middlewares.RateLimit.Reopening.{check_rate_limit_reopens, check_rate_limit_stuck}

record Memory : Type 0 where
  now : ℕ
  counters : String → Option Counter

abbrev set_counter : String → Option Counter → Memory → Memory
set_counter key o s = record s { counters = λ j. if j == key then o else s.counters j }

set_counter_lem :
    (key : String) (o : Option Counter) (s : Memory) → (set_counter key o s).counters key ≡ o
set_counter_lem key o s = rw ((text_eq.beq_iff key key).1 refl) refl

abbrev redis : Redis Memory
redis = record {
  now = λ s. s.now;
  stored = λ s key. s.counters key;
  incr = λ key s.
      let c = incremented (live_at (s.counters key) s.now) in
      (ok c.value, set_counter key (some c) s);
  pexpire_nx = λ key window_ms s.
      (ok tt, set_counter key (expiring (live_at (s.counters key) s.now) (s.now + window_ms)) s);
  incr_lem = λ key s.
      returned _ _ refl (s.now, le_refl s.now, le_refl s.now, refl, set_counter_lem key _ s);
  pexpire_nx_lem = λ key window_ms s.
      returned tt _ refl (s.now, le_refl s.now, le_refl s.now, set_counter_lem key _ s);
}

abbrev opts : LimitOptions
opts = record { window_ms = 100; max = 1 }

abbrev start : Memory
start = record { now = 0; counters = λ key. none }

abbrev after : Memory → ℕ → Memory
after s time = record s { now = time }

abbrev run : Memory → Memory
run s = (check_rate_limit redis "ann" opts s).1

two_calls : Calls redis "ann" opts start (false ∷ true ∷ []) (run (run start))
unfolding check_rate_limit expire_first ◌>>=◌
two_calls = called false (called true no_call refl) refl

check_rate_limit_window_example : allowed (false ∷ true ∷ []) ≡ min 2 1
unfolding check_rate_limit expire_first ◌>>=◌
check_rate_limit_window_example =
    check_rate_limit_window redis "ann" opts start two_calls (λ later h. refl) (omega arith)

check_rate_limit_reopens_example : ◌≡◌ {A = Bool} true true
unfolding check_rate_limit expire_first ◌>>=◌
check_rate_limit_reopens_example =
    check_rate_limit_reopens redis "ann" opts start (after (run start) 101)
      (run (after (run start) 101)) true refl (omega arith) (called true no_call refl) (omega arith)
      refl refl

-- PEXPIRE failed behind the first INCR.
abbrev left : Memory
left = set_counter (redis_key "ann") (some (record { value = 1; expires_at = none })) start

check_rate_limit_stuck_example : All (λ answer. answer ≡ false) (false ∷ [])
unfolding check_rate_limit expire_first ◌>>=◌
check_rate_limit_stuck_example =
    check_rate_limit_stuck redis "ann" opts left (record { value = 1; expires_at = none }) refl refl
      (omega arith) (omega arith)
      (called false (waited {u = after left 5000} no_call (omega arith) refl) refl)
