-- ===== src/Chat/Llm/Bounds.antt =====
-- What one answer of the model can cost in requests and in time.
use code_trace.Prelude.{
  ℕ, suc, ◌+◌, ◌≤◌, ◌≡◌, refl, sym, ◌∙◌, ap, subst, String, List, Text, arith, get_elem?, Option,
  some, none,
}
use code_trace.Errors.{Result, ok, err}
use code_trace.Exec.{
  Exec, Ends, returned, threw, try_then_lem, continue, ◌>>=◌, pure, raise, settle,
}
use code_trace.Chat.Llm.{
  LlmState, Provider, Generated, wait_on, unavailable, chat_options, completion_once,
  generate_chat_completion, with_client, get_client, ChatCompletionResult, with_retry, use_client,
  tokens_of,
}
use code_trace.Chat.Llm.Retry.{with_retry_lem, before, requests-before, waited-before, delays_bound}

continue-state :
    {S A B : Type 0} (r : Result A × S) (f : A → B) → (continue r (λ a. pure (f a))).1 ≡ r.1
continue-state (ok a, s) f = refl
continue-state (err e, s) f = refl

abbrev result_of : Generated → ChatCompletionResult
result_of result = record { text = result.text; usage = tokens_of result.usage_metadata }

module _ {W V : Type 0} (provider : Provider W V) (clients : List Text) (requests waited : W → ℕ)
    (content_requests : (key : Text) (model system user : String) (w : W)
      → requests (provider.generate_content key model system user w).1 ≡ suc (requests w))
    (content_waited : (key : Text) (model system user : String) (w : W)
      → waited (provider.generate_content key model system user w).1 ≡ waited w)
    (wait_requests : (d : ℕ) (w : W) → requests (provider.wait d w) ≡ requests w)
    (wait_waited : (d : ℕ) (w : W) → waited (provider.wait d w) ≤ d + waited w) where
  abbrev content : String → String → String → Text → Exec W Generated
  content model system user key = provider.generate_content key model system user

  abbrev pub IsWithin : LlmState W → LlmState W → Type 0
  IsWithin s t =
      (requests t.world ≤ 5 + requests s.world) × (waited t.world ≤ 7500 + waited s.world)

  requests-completion_once :
      (model system user : String) (s : LlmState W)
      → requests (completion_once provider clients model system user s).1.world
        ≤ suc (requests s.world)
  unfolding completion_once ◌>>=◌ with_client get_client
  requests-completion_once model system user s =
      subst (λ t. requests t.world ≤ suc (requests s.world))
        (sym
          (continue-state (with_client provider clients (content model system user) s) result_of))
        (go (get_elem? clients s.next_client_index) (get_client clients s).1)
    where
      go :
          (client : Option Text) (t : LlmState W)
          → requests (use_client client (content model system user) t).1.world
            ≤ suc (requests t.world)
      go none t = omega arith
      go (some key) t = omega (arith, content_requests key model system user t.world)

  waited-completion_once :
      (model system user : String) (s : LlmState W)
      → waited (completion_once provider clients model system user s).1.world ≡ waited s.world
  unfolding completion_once ◌>>=◌ with_client get_client
  waited-completion_once model system user s =
      ap (λ t. waited t.world)
        (continue-state (with_client provider clients (content model system user) s) result_of)
      ∙ go (get_elem? clients s.next_client_index) (get_client clients s).1
    where
      go :
          (client : Option Text) (t : LlmState W)
          → waited (use_client client (content model system user) t).1.world ≡ waited t.world
      go none t = refl
      go (some key) t = content_waited key model system user t.world

  -- An answer of the model costs at most five requests and at most seven and a half seconds of waiting,
  -- whether it comes or not; and what is thrown is the fixed message, never the provider's.
  pub generate_chat_completion_bounds :
      (model system user : String) (s : LlmState W)
      → Ends
          (generate_chat_completion provider clients model system user s)
          (λ a t. IsWithin s t)
          (λ e t. IsWithin s t × (e ≡ unavailable))
  unfolding generate_chat_completion
  generate_chat_completion_bounds model system user s =
      let wait = wait_on provider clients in
      let once = completion_once provider clients model system user in
      let (k, below, fails, outcome, final) =
        with_retry_lem wait once chat_options s (omega arith) in
      let at = before wait once chat_options k s in
      let so_many =
        requests-before wait once chat_options (λ t. requests t.world) (λ t. waited t.world)
          (requests-completion_once model system user) (waited-completion_once model system user)
          (λ d t. wait_requests d t.world) (λ d t. wait_waited d t.world) k s in
      let so_long =
        waited-before wait once chat_options (λ t. requests t.world) (λ t. waited t.world)
          (requests-completion_once model system user) (waited-completion_once model system user)
          (λ d t. wait_requests d t.world) (λ d t. wait_waited d t.world) k s in
      rw (try_then_lem (with_retry wait once chat_options) pure (λ e. raise unavailable) s, outcome)
        (go (once (before wait once chat_options k s)) (
          omega (arith, below, so_many, requests-completion_once model system user at),
          omega (
            arith,
            so_long,
            delays_bound wait once k below,
            waited-completion_once model system user at,
          ),
        ))
    where
      go :
          (r : Result ChatCompletionResult × LlmState W)
          → IsWithin s r.1
          → Ends
              (settle r pure (λ e. raise unavailable))
              (λ a t. IsWithin s t)
              (λ e t. IsWithin s t × (e ≡ unavailable))
      go (ok a, t) h = returned a t refl h
      go (err e, t) h = threw unavailable t refl (h, refl)
