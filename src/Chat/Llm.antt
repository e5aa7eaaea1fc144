-- ===== src/Chat/Llm.antt =====
-- llm.service.ts. A key is its code units. `wait` is the `setTimeout` of a retry, under the largest
-- delay that its jitter can draw; the calls of the Gemini client are parameters.
mod Bounds
mod Retry
mod Keys
mod Tests
use code_trace.Prelude.{
  ℕ, zero, suc, ◌+◌, ◌-◌, ◌*◌, ◌%◌, ◌^◌, min, String, Bool, true, false, not, ◌&&◌, ◌||◌, Option,
  none, some, List, [], ◌∷◌, map, keep, length, get_elem?, get_or, includes, ltb, nat_eq, is_space,
  ◌==◌, Eq, number_eq, if◌then◌else◌, Text, text_units_eq,
}
use code_trace.Errors.{Failure, app_error, known_request, error, thrown}
use code_trace.Exec.{Exec, pure, raise, gets, ◌>>=◌, try_then}
use code_trace.Chat.Pricing.{TokenUsage}

-- `text.split(",")`
unfoldable pub split_commas : Text → List Text
split_commas [] = [] ∷ []
split_commas (c ∷ cs) =
    let rest = split_commas cs in
    if nat_eq c b',' then [] ∷ rest else elim rest [ [] ↦ (c ∷ []) ∷ [] | x ∷ xs ↦ (c ∷ x) ∷ xs ]

trim_start : Text → Text
trim_start [] = []
trim_start (c ∷ cs) = let rest = trim_start cs in if is_space c then rest else c ∷ cs

trim_end : Text → Text
trim_end [] = []
trim_end (c ∷ cs) = elim (trim_end cs) [
  | [] ↦ if is_space c then [] else c ∷ []
  | d ∷ ds ↦ c ∷ d ∷ ds
]

unfoldable pub trim : Text → Text
unfolding trim_start trim_end
trim text = trim_end (trim_start text)

abbrev pub is_nonempty : Text → Bool
is_nonempty [] = false
is_nonempty (_ ∷ _) = true

unfoldable pub key_pool : Text → Text → List Text
key_pool key extra = key ∷ keep is_nonempty (map trim (split_commas extra))

-- `[...new Set(keys)]`: the first of equal keys stays
unfoldable pub unique : List Text → List Text
unique [] = []
unique (k ∷ ks) = let rest = unique ks in k ∷ keep (λ x. not (x == k)) rest

unfoldable pub unique_key_pool : Text → Text → List Text
unique_key_pool key extra = unique (key_pool key extra)

-- The module's `nextClientIndex`, and what the provider's calls and the clock change.
pub record LlmState (W : Type 0) : Type 0 where
  pub next_client_index : ℕ
  pub world : W

-- `clients[nextClientIndex]`, one client a key; out of range it is `undefined`.
unfoldable pub get_client : {W : Type 0} → List Text → LlmState W → Option Text × LlmState W
get_client clients s = (
  get_elem? clients s.next_client_index,
  record s { next_client_index = (s.next_client_index + 1) % length clients },
)

pub record RetryOptions : Type 0 where
  pub max_attempts : ℕ
  pub base_delay_ms : ℕ
  pub max_delay_ms : Option ℕ

abbrev pub retryable_statuses : List ℕ
retryable_statuses = 429 ∷ 500 ∷ 503 ∷ 504 ∷ []

-- An `AppError` has a `statusCode` and, like every error but the provider's, no `status`.
unfoldable pub is_retryable_status : Failure → Bool
is_retryable_status (error none _) = true
is_retryable_status (error (some status) _) = includes status retryable_statuses
is_retryable_status (app_error _ _ _) = true
is_retryable_status (known_request _ _) = true
is_retryable_status (thrown _) = true

unfoldable pub delay : RetryOptions → ℕ → ℕ
delay opts attempt = min (opts.base_delay_ms * 2 ^ (attempt - 1)) (get_or opts.max_delay_ms 10000)

module _ {S A : Type 0} (wait : ℕ → S → S) (fn : Exec S A) (opts : RetryOptions) where
  -- The loop from an attempt on, with the number of rounds that are left and the last error.
  unfoldable pub retry_from : ℕ → ℕ → Failure → Exec S A
  retry_from zero attempt last = raise last
  retry_from (suc left) attempt last =
      let next = retry_from left (suc attempt) in
      try_then fn pure (λ e.
        if ltb attempt opts.max_attempts && is_retryable_status e
        then (λ s. next e (wait (delay opts attempt) s))
        else if not (is_retryable_status e)
        then raise e
        else next e)

  unfoldable pub with_retry : Exec S A
  with_retry = retry_from opts.max_attempts 1 (thrown "undefined")

abbrev pub embed_options : RetryOptions
embed_options = record { max_attempts = 3; base_delay_ms = 500; max_delay_ms = none }

abbrev pub chat_options : RetryOptions
chat_options = record { max_attempts = 5; base_delay_ms = 500; max_delay_ms = some 8000 }

abbrev pub unavailable : Failure
unavailable = error none "The AI service is temporarily unavailable. Please try again in a moment."

-- Counts that the provider may leave out.
pub record UsageMetadata : Type 0 where
  pub prompt_token_count : Option ℕ
  pub candidates_token_count : Option ℕ
  pub total_token_count : Option ℕ

pub record Generated : Type 0 where
  pub text : String
  pub usage_metadata : Option UsageMetadata

pub record ChatCompletionResult : Type 0 where
  pub text : String
  pub usage : TokenUsage

abbrev pub tokens_of : Option UsageMetadata → TokenUsage
tokens_of none = record { prompt_tokens = 0; candidates_tokens = 0; total_tokens = 0 }
tokens_of (some m) = record {
  prompt_tokens = get_or m.prompt_token_count 0;
  candidates_tokens = get_or m.candidates_token_count 0;
  total_tokens = get_or m.total_token_count 0;
}

-- The Gemini client by the key it was made with, the clock, and the type `V` of a vector.
pub record Provider (W V : Type 0) : Type 0 where
  pub embed_content : Text → String → Exec W V
  pub generate_content : Text → String → String → String → Exec W Generated
  pub wait : ℕ → W → W

-- A call of the provider as a change of the module's state.
abbrev pub on_world : {W A : Type 0} → Exec W A → Exec (LlmState W) A
on_world m s = let (r, w) = m s.world in (r, record s { world = w })

-- A call on `undefined` is a `TypeError`.
abbrev pub use_client : {W A : Type 0} → Option Text → (Text → Exec W A) → Exec (LlmState W) A
use_client none call = raise (error none "Cannot read properties of undefined")
use_client (some key) call = on_world (call key)

module _ {W V : Type 0} (provider : Provider W V) (clients : List Text) where
  abbrev pub wait_on : ℕ → LlmState W → LlmState W
  wait_on d s = record s { world = provider.wait d s.world }

  -- `getClient().getGenerativeModel(…)` and the call on it
  unfoldable pub with_client : {A : Type 0} → (Text → Exec W A) → Exec (LlmState W) A
  with_client call s = let (client, t) = get_client clients s in use_client client call t

  unfoldable pub embed_query : String → Exec (LlmState W) V
  embed_query text =
      try_then
        (with_retry wait_on (with_client (λ key. provider.embed_content key text)) embed_options)
        pure (λ e. raise unavailable)

  unfoldable pub completion_once : String → String → String → Exec (LlmState W) ChatCompletionResult
  completion_once chat_model system user = do
    result ← with_client (λ key. provider.generate_content key chat_model system user)
    pure (record { text = result.text; usage = tokens_of result.usage_metadata })

  unfoldable pub generate_chat_completion :
      String → String → String → Exec (LlmState W) ChatCompletionResult
  generate_chat_completion chat_model system user =
      try_then (with_retry wait_on (completion_once chat_model system user) chat_options) pure
        (λ e. raise unavailable)
