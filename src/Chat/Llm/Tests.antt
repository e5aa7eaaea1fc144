-- ===== src/Chat/Llm/Tests.antt =====
-- A provider that answers 503 a number of times, and then the prompt.
use code_trace.Prelude.{
  ℕ, zero, suc, ◌+◌, ◌-◌, ◌≤◌, ◌<◌, ◌≡◌, refl, String, List, [], ◌∷◌, some, none, arith, codes,
  Text,
}
use code_trace.Errors.{Result, ok, err, error}
use code_trace.Exec.{Exec, Ends, ◌>>=◌, try_then}
use code_trace.Chat.Llm.{
  split_commas, unique_key_pool, key_pool, unique, trim, LlmState, get_client, Provider, Generated,
  wait_on, completion_once, chat_options, generate_chat_completion, unavailable, with_retry,
  retry_from, ChatCompletionResult, is_retryable_status, with_client, delay,
}
use code_trace.Chat.Llm.Retry.{with_retry_lem, before, FailsRetryably, IsFinal}
use code_trace.Chat.Llm.Keys.{start}
use code_trace.Chat.Llm.Bounds.{generate_chat_completion_bounds}

record World : Type 0 where
  failures : ℕ
  requests : ℕ
  waited : ℕ

abbrev answer : ℕ → String → Result Generated
answer zero user = ok (record { text = user; usage_metadata = none })
answer (suc n) user = err (error (some 503) "overloaded")

abbrev provider : Provider World (List ℕ)
provider = record {
  embed_content = λ key text w. (ok [], w);
  generate_content = λ key model system user w. (
    answer w.failures user,
    record { failures = w.failures - 1; requests = suc w.requests; waited = w.waited },
  );
  wait = λ d w. record w { waited = d + w.waited };
}

abbrev clients : List Text
clients = unique_key_pool (codes "a") (codes " b, ,a")

abbrev two_keys : List Text
two_keys = codes "a" ∷ codes "b" ∷ []

clients_test : clients ≡ two_keys
unfolding unique_key_pool key_pool unique trim split_commas
clients_test = refl

abbrev failing : ℕ → LlmState World
failing n = start (record { failures = n; requests = 0; waited = 0 })

abbrev once : Exec (LlmState World) ChatCompletionResult
once = completion_once provider two_keys "m" "s" "u"

generate_chat_completion_test :
    (generate_chat_completion provider two_keys "m" "s" "u" (failing 2)).1
    ≡ record { next_client_index = 1; world = record { failures = 0; requests = 3; waited = 1500 } }
unfolding generate_chat_completion with_retry retry_from try_then completion_once ◌>>=◌ with_client
    get_client is_retryable_status delay
generate_chat_completion_test = refl

with_retry_lem_example :
    (k : ℕ) × (k < 5)
    × ((i : ℕ) → i < k → FailsRetryably (wait_on provider two_keys) once chat_options i (failing 9))
    × (with_retry (wait_on provider two_keys) once chat_options (failing 9)
        ≡ once (before (wait_on provider two_keys) once chat_options k (failing 9)))
    × IsFinal (wait_on provider two_keys) once chat_options k (failing 9)
with_retry_lem_example =
    with_retry_lem (wait_on provider two_keys) once chat_options (failing 9) (omega arith)

generate_chat_completion_bounds_example :
    Ends
      (generate_chat_completion provider two_keys "m" "s" "u" (failing 9))
      (λ a t. (t.world.requests ≤ 5 + 0) × (t.world.waited ≤ 7500 + 0))
      (λ e t. ((t.world.requests ≤ 5 + 0) × (t.world.waited ≤ 7500 + 0)) × (e ≡ unavailable))
generate_chat_completion_bounds_example =
    generate_chat_completion_bounds provider two_keys (λ w. w.requests) (λ w. w.waited)
      (λ key model system user w. refl) (λ key model system user w. refl) (λ d w. refl)
      (λ d w. omega arith) "m" "s" "u" (failing 9)
