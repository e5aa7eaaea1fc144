-- ===== src/Evaluation/Retrieval.antt =====
-- evaluation.service.ts: `runRetrievalEval` over the tables eval_runs and eval_results. A mean is kept as
-- the terms of its sum and their number.
pub mod Outcome
mod Tests
use code_trace.Prelude.{
  ℕ, suc, ◌+◌, String, ◌≡◌, Bool, true, false, Option, none, some, List, [], ◌∷◌, ◌++◌, map, length,
  nat_eq, ◌==◌, text_eq, if◌then◌else◌, is_some, Has, ◌+++◌,
}
use code_trace.Errors.{Failure, error}
use code_trace.Exec.{Exec, pure, raise, lift, ◌>>=◌, Ends}
use code_trace.Database.{ChunkRow, Query}
use code_trace.Retrieval.Merge.{Score}
use code_trace.Retrieval.Context.{SearchServices}
use code_trace.Evaluation.Pr.{Quotient}
use code_trace.Evaluation.Search.{
  EvalConfig, EvalQuestion, Scored, run_config_search, score_question,
}

pub record Mean : Type 0 where
  pub terms : List Quotient
  pub of_all : ℕ

pub record EvalMetrics : Type 0 where
  pub recall_at5 : Quotient
  pub precision_at5 : Mean
  pub mrr : Mean

pub record EvalRun : Type 0 where
  pub id : String
  pub repository_id : String
  pub config : EvalConfig
  pub metrics : EvalMetrics

pub record EvalResult : Type 0 where
  pub eval_run_id : String
  pub eval_question_id : String
  pub retrieved_chunks : List String
  pub correct : Bool

-- `recallAt5: 0, precisionAt5: 0, mrr: 0`
abbrev pub no_metrics : EvalMetrics
no_metrics = record {
  recall_at5 = record { count = 0; of_all = 1 };
  precision_at5 = record { terms = []; of_all = 1 };
  mrr = record { terms = []; of_all = 1 };
}

abbrev pub new_run : String → String → EvalConfig → EvalRun
new_run id repository_id config = record {
  id = id;
  repository_id = repository_id;
  config = config;
  metrics = no_metrics;
}

abbrev pub set_metrics : String → EvalMetrics → EvalRun → EvalRun
set_metrics id metrics r = if r.id == id then record r { metrics = metrics } else r

-- The tables behind Prisma. A call that fails changes nothing.
pub record EvalTables (S : Type 0) : Type 0 where
  pub runs : S → List EvalRun
  pub results : S → List EvalResult
  pub find_questions : String → Exec S (List EvalQuestion)
  pub create_run : String → EvalConfig → Exec S EvalRun
  pub create_result : EvalResult → Exec S (Unit {0})
  pub update_run : String → EvalMetrics → Exec S EvalRun
  pub find_questions_lem :
      (repository_id : String) (s : S)
      → Ends
          (find_questions repository_id s)
          (λ questions t. (runs t ≡ runs s) × (results t ≡ results s))
          (λ e t. (runs t ≡ runs s) × (results t ≡ results s))
  pub create_run_lem :
      (repository_id : String) (config : EvalConfig) (s : S)
      → Ends
          (create_run repository_id config s)
          (λ run t.
            (run ≡ new_run run.id repository_id config)
            × (runs t ≡ run ∷ runs s)
            × (results t ≡ results s))
          (λ e t. (runs t ≡ runs s) × (results t ≡ results s))
  pub create_result_lem :
      (r : EvalResult) (s : S)
      → Ends
          (create_result r s)
          (λ done t. (runs t ≡ runs s) × (results t ≡ results s ++ r ∷ []))
          (λ e t. (runs t ≡ runs s) × (results t ≡ results s))
  pub update_run_lem :
      (id : String) (metrics : EvalMetrics) (s : S)
      → Ends
          (update_run id metrics s)
          (λ run t.
            (runs t ≡ map (set_metrics id metrics) (runs s))
            × (results t ≡ results s)
            × (run.id ≡ id)
            × Has run (runs t))
          (λ e t. (runs t ≡ runs s) × (results t ≡ results s))

-- `hits`, `precisionSum` and `reciprocalRankSum`, the newest term first
pub record Sums : Type 0 where
  pub hits : ℕ
  pub precisions : List Quotient
  pub reciprocal_ranks : List Quotient

abbrev pub add_hit : Option ℕ → Sums → Sums
add_hit none sums = sums
add_hit (some index) sums = record sums {
  hits = sums.hits + 1;
  reciprocal_ranks = record { count = 1; of_all = index + 1 } ∷ sums.reciprocal_ranks;
}

-- 0 is not a term.
abbrev pub add_precision : Option Quotient → Sums → Sums
add_precision none sums = sums
add_precision (some q) sums = record sums { precisions = q ∷ sums.precisions }

abbrev pub add_score : Scored → Sums → Sums
add_score scored sums = add_precision scored.precision (add_hit scored.first_hit sums)

abbrev pub result_row : String → Scored → EvalResult
result_row run_id scored = record {
  eval_run_id = run_id;
  eval_question_id = scored.question_id;
  retrieved_chunks = scored.retrieved;
  correct = is_some scored.first_hit;
}

abbrev pub metrics_of : ℕ → Sums → EvalMetrics
metrics_of total sums = record {
  recall_at5 = record { count = sums.hits; of_all = total };
  precision_at5 = record { terms = sums.precisions; of_all = total };
  mrr = record { terms = sums.reciprocal_ranks; of_all = total };
}

abbrev pub no_sums : Sums
no_sums = record { hits = 0; precisions = []; reciprocal_ranks = [] }

abbrev pub no_questions : String → Failure
no_questions repository_id =
    error none
      ("Cannot run retrieval eval: repository " +++ repository_id +++ " has no eval questions")

module _ {S V F : Type 0} (tables : EvalTables S) (services : SearchServices V) (s : Score F)
    (chunks : Query ChunkRow) (repository_id : String) (config : EvalConfig) where
  -- the `for` loop
  unfoldable pub score_questions : String → List EvalQuestion → Sums → Exec S Sums
  score_questions run_id [] sums = pure sums
  score_questions run_id (question ∷ questions) sums = do
    ids ← lift (run_config_search services s chunks repository_id question.question config)
    let scored = score_question services s chunks question ids
    _ ← tables.create_result (result_row run_id scored)
    score_questions run_id questions (add_score scored sums)

  unfoldable pub run_questions : List EvalQuestion → Exec S EvalRun
  run_questions questions = do
    run ← tables.create_run repository_id config
    sums ← score_questions run.id questions no_sums
    tables.update_run run.id (metrics_of (length questions) sums)

  unfoldable pub run_retrieval_eval : Exec S EvalRun
  run_retrieval_eval = do
    questions ← tables.find_questions repository_id
    if nat_eq (length questions) 0
        then raise (no_questions repository_id)
        else run_questions questions
