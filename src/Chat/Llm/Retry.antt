-- ===== src/Chat/Llm/Retry.antt =====
-- How often `withRetry` calls, how long it waits, and what it returns.
use code_trace.Prelude.{
  ℕ, zero, suc, ◌+◌, ◌≤◌, ◌<◌, ◌≡◌, refl, sym, ◌∙◌, ap, subst, ◌⊎◌, inl, inr, Bool, true, false,
  ◌&&◌, arith, Bool-cases, ltb,
}
use code_trace.Errors.{Failure, Result, ok, err, thrown}
use code_trace.Exec.{Exec, pure, try_then_lem}
use code_trace.Chat.Llm.{
  RetryOptions, is_retryable_status, delay, retry_from, with_retry, chat_options,
}

and_false : (b : Bool) → (b && false) ≡ false
and_false true = refl
and_false false = refl

nat-cases : (j i : ℕ) → j ≤ i → (j ≡ i) ⊎ (suc j ≤ i)
nat-cases j i h = ground arith

module _ {S A : Type 0} (wait : ℕ → S → S) (fn : Exec S A) (opts : RetryOptions) where
  -- The state before the call with so many calls behind it.
  pub before : ℕ → S → S
  before zero s = s
  before (suc k) s = wait (delay opts (suc k)) (fn (before k s)).1

  abbrev pub FailsRetryably : ℕ → S → Type 0
  FailsRetryably k s =
      (e : Failure) × ((fn (before k s)).0 ≡ err e) × (is_retryable_status e ≡ true)

  -- The call succeeds, or fails for good, or is the last that is allowed.
  abbrev pub IsFinal : ℕ → S → Type 0
  IsFinal k s =
      ((a : A) × ((fn (before k s)).0 ≡ ok a))
      ⊎ ((e : Failure) × ((fn (before k s)).0 ≡ err e) × (is_retryable_status e ≡ false))
      ⊎ (suc k ≡ opts.max_attempts)

  abbrev StopsAt : ℕ → S → Result A × S → Type 0
  StopsAt j s outcome =
      (k : ℕ) × (j ≤ k)
      × (k < opts.max_attempts)
      × ((i : ℕ) → j ≤ i → i < k → FailsRetryably i s)
      × (outcome ≡ fn (before k s))
      × IsFinal k s

  module _ (left attempt : ℕ) (last : Failure) (s t : S) where
    retry_from-ok :
        (a : A) → fn s ≡ (ok a, t) → retry_from wait fn opts (suc left) attempt last s ≡ (ok a, t)
    unfolding retry_from
    retry_from-ok a e = rw (try_then_lem fn pure _ s, e) refl

    retry_from-final :
        (e : Failure)
        → fn s ≡ (err e, t)
        → is_retryable_status e ≡ false
        → retry_from wait fn opts (suc left) attempt last s ≡ (err e, t)
    unfolding retry_from
    retry_from-final e same final =
        rw (try_then_lem fn pure _ s, same, final, and_false (ltb attempt opts.max_attempts)) refl

    retry_from-again :
        (e : Failure)
        → fn s ≡ (err e, t)
        → is_retryable_status e ≡ true
        → ltb attempt opts.max_attempts ≡ true
        → retry_from wait fn opts (suc left) attempt last s
          ≡ retry_from wait fn opts left (suc attempt) e (wait (delay opts attempt) t)
    unfolding retry_from
    retry_from-again e same retryable more =
        rw (try_then_lem fn pure _ s, same, retryable, more) refl

    retry_from-last :
        (e : Failure)
        → fn s ≡ (err e, t)
        → is_retryable_status e ≡ true
        → ltb attempt opts.max_attempts ≡ false
        → retry_from wait fn opts (suc zero) attempt last s ≡ (err e, t)
    unfolding retry_from
    retry_from-last e same retryable more =
        rw (try_then_lem fn pure _ s, same, retryable, more) refl

  none_before : (j : ℕ) (s : S) (i : ℕ) → j ≤ i → i < j → FailsRetryably i s
  none_before j s i h k = absurd (omega arith)

  -- All but the case of a failure that may be tried again.
  retry_from-settled :
      (left j : ℕ) (last : Failure) (s : S)
      → suc left + j ≡ opts.max_attempts
      → ((e : Failure) (t : S)
          → fn (before j s) ≡ (err e, t)
          → is_retryable_status e ≡ true
          → StopsAt j s (retry_from wait fn opts (suc left) (suc j) last (before j s)))
      → StopsAt j s (retry_from wait fn opts (suc left) (suc j) last (before j s))
  retry_from-settled left j last s count again = go (fn (before j s)) refl
    where
      go :
          (r : Result A × S)
          → fn (before j s) ≡ r
          → StopsAt j s (retry_from wait fn opts (suc left) (suc j) last (before j s))
      go (ok a, t) same = (
        j,
        omega arith,
        omega arith,
        none_before j s,
        retry_from-ok left (suc j) last (before j s) t a same ∙ sym same,
        inl (a, ap (λ r. r.0) same),
      )
      go (err e, t) same = elim (Bool-cases (is_retryable_status e)) [
        | inr final ↦ (
          j,
          omega arith,
          omega arith,
          none_before j s,
          retry_from-final left (suc j) last (before j s) t e same final ∙ sym same,
          inr (inl (e, ap (λ r. r.0) same, final)),
        )
        | inl retryable ↦ again e t same retryable
      ]

  fails_from :
      (j k : ℕ) (s : S)
      → FailsRetryably j s
      → ((i : ℕ) → suc j ≤ i → i < k → FailsRetryably i s)
      → (i : ℕ) → j ≤ i
      → i < k
      → FailsRetryably i s
  fails_from j k s first rest i h below = elim (nat-cases j i h) [
    | inl e ↦ subst (λ x. FailsRetryably x s) e first
    | inr more ↦ rest i more below
  ]

  retry_from-StopsAt :
      (left j : ℕ) (last : Failure) (s : S)
      → suc left + j ≡ opts.max_attempts
      → StopsAt j s (retry_from wait fn opts (suc left) (suc j) last (before j s))
  unfolding before
  retry_from-StopsAt zero j last s count =
      retry_from-settled zero j last s count (λ e t same retryable. (
        j,
        omega arith,
        omega arith,
        none_before j s,
        retry_from-last 0 (suc j) last (before j s) t e same retryable (ground arith) ∙ sym same,
        inr (inr (omega arith)),
      ))
  retry_from-StopsAt (suc left) j last s count =
      retry_from-settled (suc left) j last s count (λ e t same retryable.
        let (k, above, below, fails, outcome, final) =
          retry_from-StopsAt left (suc j) e s (omega arith) in
        let waited : before (suc j) s ≡ wait (delay opts (suc j)) t =
          ap (λ r. wait (delay opts (suc j)) r.1) same in
        (
          k,
          omega arith,
          below,
          fails_from j k s (e, ap (λ r. r.0) same, retryable) fails,
          retry_from-again (suc left) (suc j) last (before j s) t e same retryable (ground arith)
              ∙ ap (retry_from wait fn opts (suc left) (suc (suc j)) e) (sym waited)
              ∙ outcome,
          final,
        ))

  -- With at least one attempt allowed, the loop ends with the outcome of one of its calls, the k-th: every
  -- call before it failed with a status that is worth a retry, and it succeeded, or failed with another
  -- status, or was the last that is allowed. Between two calls it waits for the capped delay.
  pub with_retry_lem :
      (s : S)
      → 0 < opts.max_attempts
      → (k : ℕ) × (k < opts.max_attempts)
        × ((i : ℕ) → i < k → FailsRetryably i s)
        × (with_retry wait fn opts s ≡ fn (before k s))
        × IsFinal k s
  unfolding with_retry before
  with_retry_lem s some_allowed = go opts.max_attempts refl some_allowed
    where
      go :
          (m : ℕ)
          → m ≡ opts.max_attempts
          → 0 < m
          → (k : ℕ) × (k < opts.max_attempts)
            × ((i : ℕ) → i < k → FailsRetryably i s)
            × (retry_from wait fn opts m 1 (thrown "undefined") s ≡ fn (before k s))
            × IsFinal k s
      go zero e h = absurd (omega arith)
      go (suc m) e h =
          let (k, above, below, fails, outcome, final) =
            retry_from-StopsAt m 0 (thrown "undefined") s (omega arith) in
          (k, below, (λ i h. fails i (omega arith) h), outcome, final)

  -- The sum of the first delays.
  pub delays : ℕ → ℕ
  delays zero = 0
  delays (suc k) = delay opts (suc k) + delays k

  module _ (requests waited : S → ℕ) (fn_requests : (s : S) → requests (fn s).1 ≤ suc (requests s))
      (fn_waited : (s : S) → waited (fn s).1 ≡ waited s)
      (wait_requests : (d : ℕ) (s : S) → requests (wait d s) ≡ requests s)
      (wait_waited : (d : ℕ) (s : S) → waited (wait d s) ≤ d + waited s) where
    pub requests-before : (k : ℕ) (s : S) → requests (before k s) ≤ k + requests s
    unfolding before
    requests-before zero s = omega arith
    requests-before (suc k) s = omega (
      arith,
      requests-before k s,
      fn_requests (before k s),
      wait_requests (delay opts (suc k)) (fn (before k s)).1,
    )

    pub waited-before : (k : ℕ) (s : S) → waited (before k s) ≤ delays k + waited s
    unfolding before delays
    waited-before zero s = omega arith
    waited-before (suc k) s = omega (
      arith,
      waited-before k s,
      fn_waited (before k s),
      wait_waited (delay opts (suc k)) (fn (before k s)).1,
    )

-- 500, 1000, 2000 and 4000 ms before the last of the five calls.
pub delays_bound :
    {S A : Type 0} (wait : ℕ → S → S) (fn : Exec S A) (k : ℕ)
    → k < 5
    → delays wait fn chat_options k ≤ 7500
unfolding delays delay
delays_bound wait fn zero h = omega arith
delays_bound wait fn (suc zero) h = omega arith
delays_bound wait fn (suc (suc zero)) h = omega arith
delays_bound wait fn (suc (suc (suc zero))) h = omega arith
delays_bound wait fn (suc (suc (suc (suc zero)))) h = omega arith
delays_bound wait fn (suc (suc (suc (suc (suc k))))) h = absurd (omega arith)
