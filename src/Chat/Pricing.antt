-- ===== src/Chat/Pricing.antt =====
-- pricing.service.ts. Every rate is a whole number of nanodollars for one token, so the cost is one
-- too; the source computes it in floating-point dollars. The model is not the name of a member that
-- every JavaScript object inherits.
use code_trace.Prelude.{
  ℕ, ◌+◌, ◌*◌, ◌≤◌, String, ◌≡◌, ◌≢◌, ◌&&◌, if◌then◌else◌, ◌==◌, text_eq, number_eq, arith, eq_iff,
}

pub record TokenUsage : Type 0 where
  pub prompt_tokens : ℕ
  pub candidates_tokens : ℕ
  pub total_tokens : ℕ

pub record Rate : Type 0 where
  pub prompt : ℕ
  pub candidate : ℕ

abbrev pub flash_rate : Rate
flash_rate = record { prompt = 75; candidate = 300 }

abbrev pub pro_rate : Rate
pro_rate = record { prompt = 1250; candidate = 5000 }

abbrev pub fallback_rate : Rate
fallback_rate = record { prompt = 1875; candidate = 7500 }

pub rate_for : String → Rate
rate_for model =
    if model == "gemini-2.5-flash"
    then flash_rate
    else if model == "gemini-2.5-pro"
    then pro_rate
    else fallback_rate

pub compute_cost : String → TokenUsage → ℕ
unfolding rate_for
compute_cost model usage =
    if usage.prompt_tokens == 0 && usage.candidates_tokens == 0
    then 0
    else usage.prompt_tokens * (rate_for model).prompt
      + usage.candidates_tokens * (rate_for model).candidate

rate_for-le :
    (model : String) → ((rate_for model).prompt ≤ 1875) × ((rate_for model).candidate ≤ 7500)
unfolding rate_for
rate_for-le model = ground arith

rate_for_unknown :
    (model : String)
    → model ≢ "gemini-2.5-flash"
    → model ≢ "gemini-2.5-pro"
    → ((rate_for model).prompt ≡ 1875) × ((rate_for model).candidate ≡ 7500)
unfolding rate_for
rate_for_unknown model h k =
    ground (arith, eq_iff model "gemini-2.5-flash", eq_iff model "gemini-2.5-pro")

compute_cost_lem :
    (model : String) (usage : TokenUsage)
    → compute_cost model usage
      ≡ usage.prompt_tokens * (rate_for model).prompt
        + usage.candidates_tokens * (rate_for model).candidate
unfolding compute_cost
compute_cost_lem model usage = ground arith

-- The cost of a call is that of its tokens at the model's rates, which the early return for an empty
-- call does not change; and a model that is neither of the two priced ones is charged at least what
-- any model is for the same tokens.
pub compute_cost_exact :
    (model : String) (usage : TokenUsage)
    → (compute_cost model usage
        ≡ usage.prompt_tokens * (rate_for model).prompt
          + usage.candidates_tokens * (rate_for model).candidate)
      × ((other : String)
          → other ≢ "gemini-2.5-flash"
          → other ≢ "gemini-2.5-pro"
          → compute_cost model usage ≤ compute_cost other usage)
compute_cost_exact model usage = (
  compute_cost_lem model usage,
  λ other h k.
      let (prompt, candidate) = rate_for_unknown other h k in
      let (prompt_le, candidate_le) = rate_for-le model in
      rw (compute_cost_lem model usage, compute_cost_lem other usage)
        (grind (arith, prompt, candidate, prompt_le, candidate_le)),
)
