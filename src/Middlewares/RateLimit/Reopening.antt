-- ===== src/Middlewares/RateLimit/Reopening.antt =====
-- When the next window begins, and when there is none.
use code_trace.Prelude.{
  ℕ, ◌+◌, ◌≤◌, ◌<◌, String, ◌≡◌, refl, sym, ◌∙◌, subst, ◌⊎◌, inl, inr, Bool, true, false, Option,
  none, some, List, leb, All, Bool-cases, arith,
}
use code_trace.Errors.{ok}
use code_trace.Exec.{Ends-ok}
use code_trace.Middlewares.RateLimit.{
  Counter, live_at, Redis, LimitOptions, redis_key, check_rate_limit, Calls, no_call, called,
  waited,
}
use code_trace.Middlewares.RateLimit.Window.{Counts, check_rate_limit-Counts}

module _ {S : Type 0} (redis : Redis S) (key : String) (opts : LimitOptions) where
  open redis use {now}

  abbrev stored : S → Option Counter
  stored s = redis.stored s (redis_key key)

  -- A counter ends within `window_ms`.
  abbrev EndsSoon : Option Counter → ℕ → Type 0
  EndsSoon o time =
      (o ≡ none)
      ⊎ ((c : Counter) × (e : ℕ) × (o ≡ some c)
          × (0 < c.value)
          × (c.expires_at ≡ some e)
          × (e ≤ time + opts.window_ms))

  live_at-EndsSoon :
      (o : Option Counter) (time later : ℕ)
      → EndsSoon o time
      → (live_at o later ≡ none)
        ⊎ ((c : Counter) × (e : ℕ) × (o ≡ some c)
            × (live_at o later ≡ some c)
            × (0 < c.value)
            × (c.expires_at ≡ some e)
            × (e ≤ time + opts.window_ms))
  live_at-EndsSoon o time later (inl e) = inl (rw e refl)
  live_at-EndsSoon o time later (inr (c, e, is_some, pos, is_expiry, soon)) =
      elim (Bool-cases (leb later e)) [
        | inl on_time ↦
            inr (c, e, is_some, rw (is_some, is_expiry, on_time) refl, pos, is_expiry, soon)
        | inr late ↦ inl (rw (is_some, is_expiry, late) refl)
      ]

  called-EndsSoon :
      (t u : S) (answer : Bool)
      → EndsSoon (stored t) (now t)
      → check_rate_limit redis key opts t ≡ (ok answer, u)
      → EndsSoon (stored u) (now u)
  called-EndsSoon t u answer ends e =
      let (time, since, till, counts) =
        Ends-ok _ answer u (check_rate_limit-Counts redis key opts t) e in
      elim (live_at-EndsSoon (stored t) (now t) time ends) [
        | inl gone ↦
            let first : Counts redis key opts none time answer u =
              subst (λ o. Counts redis key opts o time answer u) gone counts in
            let (_, (later, after, before, is_stored)) = first in
            inr (_, _, is_stored, omega arith, refl, omega arith)
        | inr (c, end, is_some, live, pos, is_expiry, soon) ↦
            let next : Counts redis key opts (some c) time answer u =
              subst (λ o. Counts redis key opts o time answer u) live counts in
            inr (_, end, (next pos).1, omega arith, is_expiry, omega arith)
      ]

  Calls-EndsSoon :
      (s : S) {answers : List Bool} {t : S}
      → stored s ≡ none
      → Calls redis key opts s answers t
      → EndsSoon (stored t) (now t)
  Calls-EndsSoon s fresh no_call = inl fresh
  Calls-EndsSoon s {t = u} fresh (called {t = t} answer c e) =
      called-EndsSoon t u answer (Calls-EndsSoon s fresh c) e
  Calls-EndsSoon s {t = u} fresh (waited {t = t} c later same) = elim (Calls-EndsSoon s fresh c) [
    | inl none_there ↦ inl (same ∙ none_there)
    | inr (k, e, is_some, pos, is_expiry, soon) ↦
        inr (k, e, same ∙ is_some, pos, is_expiry, omega arith)
  ]

  -- After calls that all return, from a state with no counter on, and once `window_ms` has passed since the last
  -- one, a call that returns is answered with true, if the limit is not 0.
  pub check_rate_limit_reopens :
      (s : S) {answers : List Bool} {t : S} (u v : S) (answer : Bool)
      → stored s ≡ none
      → 0 < opts.max
      → Calls redis key opts s answers t
      → now t + opts.window_ms < now u
      → stored u ≡ stored t
      → check_rate_limit redis key opts u ≡ (ok answer, v)
      → answer ≡ true
  check_rate_limit_reopens s {t = t} u v answer fresh pos calls passed same e =
      let (time, since, till, counts) =
        Ends-ok _ answer v (check_rate_limit-Counts redis key opts u) e in
      elim (live_at-EndsSoon (stored u) (now t) time
        (subst (λ o. EndsSoon o (now t)) (sym same) (Calls-EndsSoon s fresh calls))) [
          | inl gone ↦
              let first : Counts redis key opts none time answer v =
                subst (λ o. Counts redis key opts o time answer v) gone counts in
              first.0 ∙ ground arith
          | inr (c, end, is_some, live, _, is_expiry, soon) ↦
              absurd (ground (arith, is_some, is_expiry, live))
        ]

  -- A counter with no expiry that has reached the limit.
  abbrev IsEndless : Option Counter → Type 0
  IsEndless o =
      (c : Counter) × (o ≡ some c) × (c.expires_at ≡ none) × (0 < c.value) × (opts.max ≤ c.value)

  Calls-Endless :
      (s : S) {answers : List Bool} {t : S}
      → IsEndless (stored s)
      → Calls redis key opts s answers t
      → IsEndless (stored t) × All (λ answer. answer ≡ false) answers
  Calls-Endless s endless no_call = (endless, tt)
  Calls-Endless s {t = u} endless (called {t = t} answer calls e) =
      let ((c, is_some, no_expiry, pos, full), refused) = Calls-Endless s endless calls in
      let (time, since, till, counts) =
        Ends-ok _ answer u (check_rate_limit-Counts redis key opts t) e in
      let live : live_at (stored t) time ≡ some c = rw (is_some, no_expiry) refl in
      let next : Counts redis key opts (some c) time answer u =
        subst (λ o. Counts redis key opts o time answer u) live counts in
      let (is_answer, is_stored) = next pos in
      ((_, is_stored, no_expiry, omega arith, omega arith), (is_answer ∙ ground arith, refused))
  Calls-Endless s endless (waited calls later same) =
      let ((c, is_some, no_expiry, pos, full), refused) = Calls-Endless s endless calls in
      ((c, same ∙ is_some, no_expiry, pos, full), refused)

  -- From a state on in which the counter is positive, has no expiry and has reached the limit, every call of a
  -- sequence of calls that return is answered with false, however long the waits between them.
  pub check_rate_limit_stuck :
      (s : S) (c : Counter) {answers : List Bool} {t : S}
      → stored s ≡ some c
      → c.expires_at ≡ none
      → 0 < c.value
      → opts.max ≤ c.value
      → Calls redis key opts s answers t
      → All (λ answer. answer ≡ false) answers
  check_rate_limit_stuck s c is_stored endless pos full calls =
      (Calls-Endless s (c, is_stored, endless, pos, full) calls).1
