-- ===== src/Middlewares/RateLimit/Window.antt =====
-- How many calls a window lets through.
use code_trace.Prelude.{
  ℕ, suc, ◌+◌, ◌≤◌, ◌<◌, min, String, ◌≡◌, refl, sym, ◌∙◌, ap, subst, ◌⊎◌, inl, inr, Bool, Option,
  none, some, List, [], ◌∷◌, length, nat_eq, leb, if◌then◌else◌, Bool-cases, arith,
}
use code_trace.Errors.{ok}
use code_trace.Exec.{pure, ◌>>=◌, Ends, returned, Ends-bind, bind_lem, Ends-mono, Ends-ok}
use code_trace.Middlewares.RateLimit.{
  Counter, live_at, incremented, Redis, LimitOptions, redis_key, expire_first, check_rate_limit,
  Calls, no_call, called, waited,
}

abbrev pub allowed : List Bool → ℕ
allowed [] = 0
allowed (answer ∷ answers) = if answer then suc (allowed answers) else allowed answers

module _ {S : Type 0} (redis : Redis S) (key : String) (opts : LimitOptions) where
  open redis use {now}

  abbrev stored : S → Option Counter
  stored s = redis.stored s (redis_key key)

  -- What a call that finds `o` answers and stores: with no live key it starts a window that ends
  -- `window_ms` after `time` or later, else it counts in the one there is.
  abbrev pub Counts : Option Counter → ℕ → Bool → S → Type 0
  Counts none time answer t =
      (answer ≡ leb 1 opts.max)
      × ((later : ℕ) × (time ≤ later)
          × (later ≤ now t)
          × (stored t ≡ some (record { value = 1; expires_at = some (later + opts.window_ms) })))
  Counts (some c) time answer t =
      0 < c.value
      → (answer ≡ leb (suc c.value) opts.max) × (stored t ≡ some (record c { value = suc c.value }))

  after_incr :
      (o : Option Counter) (count time : ℕ) (u : S)
      → time ≤ now u
      → count ≡ (incremented o).value
      → stored u ≡ some (incremented o)
      → Ends
          ((expire_first redis (redis_key key) opts.window_ms count >>= λ _.
              pure (leb count opts.max))
            u)
          (λ answer t. (time ≤ now t) × Counts o time answer t)
          (λ e t. Unit {0})
  unfolding expire_first
  after_incr none count time u before one is_stored = rw one (
      Ends-bind _ _ u (redis.pexpire_nx_lem (redis_key key) opts.window_ms u)
        (λ done t (later, after, till, is_expiring).
          returned (leb 1 opts.max) t refl
            (omega arith, (refl, (later, omega arith, till, is_expiring ∙ rw is_stored refl))))
        (λ e t h. tt))
  after_incr (some c) count time u before is_count is_stored = elim (Bool-cases (nat_eq count 1)) [
    | inl e ↦ rw e (
        Ends-bind _ _ u (redis.pexpire_nx_lem (redis_key key) opts.window_ms u)
          (λ done t (later, after, till, is_expiring).
            returned (leb count opts.max) t refl
              (omega arith, λ h. absurd (ground (arith, is_count, e))))
          (λ e t h. tt))
    | inr e ↦
        rw (e, bind_lem {A = Unit {0}} (pure tt) (λ _. pure (leb count opts.max)) u)
          (returned (leb count opts.max) u refl (before, λ h. (rw is_count refl, is_stored)))
  ]

  pub check_rate_limit-Counts :
      (s : S)
      → Ends
          (check_rate_limit redis key opts s)
          (λ answer t.
            (time : ℕ) × (now s ≤ time)
            × (time ≤ now t)
            × Counts (live_at (stored s) time) time answer t)
          (λ e t. Unit {0})
  unfolding check_rate_limit
  check_rate_limit-Counts s =
      Ends-bind _ _ s (redis.incr_lem (redis_key key) s)
        (λ count u (time, since, till, is_count, is_stored).
          Ends-mono _ (after_incr (live_at (stored s) time) count time u till is_count is_stored)
            (λ answer t (before, counts). (time, since, before, counts)) (λ e t h. h))
        (λ e t h. tt)

  pub check_rate_limit-later :
      (t u : S) (answer : Bool) → check_rate_limit redis key opts t ≡ (ok answer, u) → now t ≤ now u
  check_rate_limit-later t u answer e =
      let (time, since, till, _) = Ends-ok _ answer u (check_rate_limit-Counts t) e in omega arith

  -- No counter is there, or one whose time has passed.
  abbrev pub IsGone : Option Counter → ℕ → Type 0
  IsGone o time = (later : ℕ) → time ≤ later → live_at o later ≡ none

  -- The counter of a window that began at `time` or later and has counted `calls` calls.
  abbrev CountsFrom : ℕ → ℕ → Option Counter → Type 0
  CountsFrom time calls o =
      (c : Counter) × (o ≡ some c)
      × (c.value ≡ calls)
      × (0 < calls)
      × ((e : ℕ) × (c.expires_at ≡ some e) × (time + opts.window_ms ≤ e))

  abbrev pub InWindow : S → List Bool → S → Type 0
  InWindow s answers t =
      (now s ≤ now t)
      × (((answers ≡ []) × (stored t ≡ stored s)) ⊎ CountsFrom (now s) (length answers) (stored t))
      × (allowed answers ≡ min (length answers) opts.max)

  allowed_step :
      (answer : Bool) (answers : List Bool) (n : ℕ)
      → length answers ≡ n
      → answer ≡ leb (suc n) opts.max
      → allowed answers ≡ min (length answers) opts.max
      → allowed (answer ∷ answers) ≡ min (suc (length answers)) opts.max
  allowed_step answer answers n is_length is_answer is_allowed = ground arith

  step_InWindow :
      (s : S) {answers : List Bool} {t u : S} (answer : Bool)
      → IsGone (stored s) (now s)
      → InWindow s answers t
      → check_rate_limit redis key opts t ≡ (ok answer, u)
      → now u ≤ now s + opts.window_ms
      → InWindow s (answer ∷ answers) u
  step_InWindow s {answers} {t} {u} answer gone (mono, state, count) e soon =
      let (time, since, till, counts) = Ends-ok _ answer u (check_rate_limit-Counts t) e in
      elim state [
        | inl (empty, same) ↦
            let first : Counts none time answer u =
              subst (λ o. Counts o time answer u)
                (ap (λ o. live_at o time) same ∙ gone time (omega arith)) counts in
            let (is_answer, (later, after, before, is_stored)) = first in
            let none_yet : length answers ≡ 0 = ap length empty in
            (
              omega arith,
              inr (_, is_stored, omega arith, omega arith, (_, refl, omega arith)),
              allowed_step answer answers 0 none_yet is_answer count,
            )
        | inr (c, is_some, is_value, pos, (ex, is_expiry, long)) ↦
            let is_live : live_at (stored t) time ≡ some c =
              rw (is_some, is_expiry) (ground arith) in
            let (is_answer, is_stored) =
              subst (λ o. Counts o time answer u) is_live counts (omega arith) in
            (
              omega arith,
              inr (_, is_stored, omega arith, omega arith, (ex, is_expiry, long)),
              allowed_step answer answers c.value (sym is_value) is_answer count,
            )
      ]

  Calls-InWindow :
      (s : S) {answers : List Bool} {t : S}
      → Calls redis key opts s answers t
      → IsGone (stored s) (now s)
      → now t ≤ now s + opts.window_ms
      → InWindow s answers t
  Calls-InWindow s no_call gone soon = (omega arith, inl (refl, refl), ground arith)
  Calls-InWindow s {t = u} (called {t = t} answer c e) gone soon =
      let later : now t ≤ now u = check_rate_limit-later t u answer e in
      step_InWindow s answer gone (Calls-InWindow s c gone (omega arith)) e soon
  Calls-InWindow s {answers} (waited {t = t} c later same) gone soon =
      let (mono, state, count) = Calls-InWindow s c gone (omega arith) in
      (
        omega arith,
        subst (λ o. ((answers ≡ []) × (o ≡ stored s)) ⊎ CountsFrom (now s) (length answers) o)
            (sym same) state,
        count,
      )

  -- From a state with no live counter on, as long as no more than `window_ms` passes and every call returns,
  -- `max` of the calls are answered with true, or all of them if they are fewer.
  pub check_rate_limit_window :
      (s : S) {answers : List Bool} {t : S}
      → Calls redis key opts s answers t
      → IsGone (stored s) (now s)
      → now t ≤ now s + opts.window_ms
      → allowed answers ≡ min (length answers) opts.max
  check_rate_limit_window s calls gone soon = (Calls-InWindow s calls gone soon).2
