-- ===== src/Evaluation/Retrieval/Tests.antt =====
-- One question on a stored chunk, in memory.
use code_trace.Prelude.{
  String, ◌≡◌, refl, sym, ◌∙◌, inl, inr, Bool, true, none, some, List, [], ◌∷◌, ◌++◌, map, Has,
  Option, text_eq, ◌==◌, find, find-eq-some, insert, insert_all, lookup,
}
use code_trace.Errors.{Result, ok, err, thrown}
use code_trace.Exec.{Ends, returned, threw, ◌>>=◌}
use code_trace.Database.{ChunkRow, listing}
use code_trace.Retrieval.Merge.Whole.{whole_scores}
use code_trace.Retrieval.Context.{keyword_search, rank_from, entries_of, is_blank}
use code_trace.Retrieval.Context.Tests.{row_a, search_a}
use code_trace.Evaluation.Search.{
  keyword_only, EvalQuestion, run_config_search, identities_of, first_hit_from, count_relevant,
  present, score_question,
}
use code_trace.Evaluation.Search.Scoring.{score_question_lem, FindsFirst, CountsRelevant}
use code_trace.Evaluation.Retrieval.{
  EvalTables, EvalRun, EvalResult, set_metrics, new_run, run_retrieval_eval, run_questions,
  score_questions,
}
use code_trace.Evaluation.Retrieval.Outcome.{Evaluates, LeavesRun, run_retrieval_eval_lem}

record Memory : Type 0 where
  runs : List EvalRun
  results : List EvalResult

abbrev question : EvalQuestion
question = record {
  id = "q";
  repository_id = "repo";
  question = "login";
  expected_chunks = record { path = "a.ts"; symbol = "login" } ∷ [];
}

abbrev has_id : String → EvalRun → Bool
has_id id r = r.id == id

-- A run that is not there cannot be updated.
abbrev write_if : Option EvalRun → List EvalRun → Memory → Result EvalRun × Memory
write_if none rs s = (err (thrown "P2025"), s)
write_if (some r) rs s = (ok r, record s { runs = rs })

write_if_lem :
    (id : String) (o : Option EvalRun) (rs : List EvalRun) (s : Memory)
    → find (has_id id) rs ≡ o
    → Ends
        (write_if o rs s)
        (λ run t. (t.runs ≡ rs) × (t.results ≡ s.results) × (run.id ≡ id) × Has run t.runs)
        (λ e t. (t.runs ≡ s.runs) × (t.results ≡ s.results))
write_if_lem id none rs s e = threw _ s refl (refl, refl)
write_if_lem id (some r) rs s e =
    let (listed, same) = find-eq-some (has_id id) rs {a = r} e in
    returned r _ refl (refl, refl, (text_eq.beq_iff r.id id).0 same, listed)

abbrev tables : EvalTables Memory
tables = record {
  runs = λ s. s.runs;
  results = λ s. s.results;
  find_questions = λ repository_id s. (ok (question ∷ []), s);
  create_run = λ repository_id config s.
      let run = new_run "e" repository_id config in (ok run, record s { runs = run ∷ s.runs });
  create_result = λ r s. (ok tt, record s { results = s.results ++ r ∷ [] });
  update_run = λ id metrics s.
      let rs = map (set_metrics id metrics) s.runs in write_if (find (has_id id) rs) rs s;
  find_questions_lem = λ repository_id s. returned _ s refl (refl, refl);
  create_run_lem = λ repository_id config s. returned _ _ refl (refl, refl, refl);
  create_result_lem = λ r s. returned tt _ refl (refl, refl);
  update_run_lem = λ id metrics s. write_if_lem id _ (map (set_metrics id metrics) s.runs) s refl;
}

abbrev start : Memory
start = record { runs = []; results = [] }

abbrev result : EvalResult
result = record {
  eval_run_id = "e";
  eval_question_id = "q";
  retrieved_chunks = "a.ts#login" ∷ [];
  correct = true;
}

stored :
    (run_retrieval_eval tables search_a whole_scores
      (listing (row_a ∷ []))
      "repo"
      keyword_only
      start).1.results
    ≡ result ∷ []
unfolding run_retrieval_eval run_questions score_questions run_config_search keyword_search
    rank_from is_blank score_question identities_of first_hit_from present entries_of insert_all
    insert lookup ◌>>=◌
stored = refl

one_row : (a b : ChunkRow) → Has a (row_a ∷ []) → Has b (row_a ∷ []) → a.id ≡ b.id → a ≡ b
one_row a b (inl e) (inl f) same = sym e ∙ f
one_row a b (inr h) other same = absurd h
one_row a b listed (inr h) same = absurd h

score_question_lem_example :
    FindsFirst search_a whole_scores (listing (row_a ∷ [])) question ("a" ∷ []) (some 0)
    × CountsRelevant search_a whole_scores
        (listing (row_a ∷ []))
        question
        ("a" ∷ [])
        (some (record { count = 1; of_all = 1 }))
unfolding score_question first_hit_from count_relevant identities_of entries_of insert_all insert
    lookup
score_question_lem_example =
    score_question_lem search_a whole_scores (listing (row_a ∷ [])) question ("a" ∷ []) one_row

run_retrieval_eval_lem_example :
    Ends
      (run_retrieval_eval tables search_a whole_scores
        (listing (row_a ∷ []))
        "repo"
        keyword_only
        start)
      (Evaluates tables search_a whole_scores (listing (row_a ∷ [])) "repo" keyword_only start)
      (λ e t.
        LeavesRun tables search_a whole_scores (listing (row_a ∷ [])) "repo" keyword_only start t)
run_retrieval_eval_lem_example =
    run_retrieval_eval_lem tables search_a whole_scores (listing (row_a ∷ [])) "repo" keyword_only
      start
