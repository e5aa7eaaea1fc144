-- ===== src/Evaluation/Retrieval/Outcome.antt =====
-- What an evaluation of the searches stores.
use mathlib.Core.List.{append-nil, append_assoc}
use code_trace.Prelude.{
  ℕ, suc, ◌+◌, ◌≤◌, ◌<◌, String, ◌≡◌, refl, sym, ◌∙◌, ap, subst, ◌⊎◌, inl, inr, List, [], ◌∷◌, ◌++◌,
  map, length, nat_eq, Bool-cases, Has, Has-map, arith, keep, ◌==◌, text_eq,
}
use code_trace.Errors.{Result, ok, err}
use code_trace.Exec.{lift, Ends, returned, threw, Ends-bind, Ends-mono, Ends-seen}
use code_trace.Database.{ChunkRow, Query}
use code_trace.Retrieval.Merge.{Score}
use code_trace.Retrieval.Context.{SearchServices}
use code_trace.Evaluation.Search.{
  EvalConfig, EvalQuestion, Scored, run_config_search, score_question,
}
use code_trace.Evaluation.Retrieval.{
  EvalTables, EvalRun, EvalResult, EvalMetrics, Sums, add_score, result_row, metrics_of, no_sums,
  no_metrics, set_metrics, no_questions, score_questions, run_questions, run_retrieval_eval,
}

lift-Ends :
    {S A : Type 0} (r : Result A) (s : S)
    → Ends (lift r s) (λ a t. (r ≡ ok a) × (t ≡ s)) (λ e t. t ≡ s)
lift-Ends (ok a) s = returned a s refl (refl, refl)
lift-Ends (err e) s = threw e s refl refl

set_metrics-lem :
    (id : String) (metrics : EvalMetrics) (rs : List EvalRun) (r : EvalRun)
    → Has r (map (set_metrics id metrics) rs)
    → r.id ≡ id
    → r.metrics ≡ metrics
set_metrics-lem id metrics rs r listed is_id =
    let (old, was_listed, is_row) = Has-map (set_metrics id metrics) r rs listed in
    elim (Bool-cases (old.id == id)) [
      | inl e ↦ ap (λ (x : EvalRun). x.metrics) (sym is_row) ∙ rw e refl
      | inr e ↦
          let same : old ≡ r = rw e at is_row in
          absurd (cc (e, (text_eq.beq_iff old.id id).1 (ap (λ (x : EvalRun). x.id) same ∙ is_id)))
    ]

-- How many of the results are correct.
abbrev pub count_correct : List EvalResult → ℕ
count_correct rs = length (keep (λ r. r.correct) rs)

module _ {S V F : Type 0} (tables : EvalTables S) (services : SearchServices V) (s : Score F)
    (chunks : Query ChunkRow) (repository_id : String) (config : EvalConfig) where
  open tables use {runs, results}

  -- The scores of some questions, each of what its own search found.
  abbrev pub Scores : List EvalQuestion → List Scored → Type 0
  Scores [] [] = Unit
  Scores (q ∷ qs) (scored ∷ scores) =
      ((ids : List String) × (run_config_search services s chunks repository_id q.question config
          ≡ ok ids)
        × (scored ≡ score_question services s chunks q ids))
      × Scores qs scores
  Scores _ _ = ⊥

  abbrev pub sums_from : List Scored → Sums → Sums
  sums_from [] sums = sums
  sums_from (scored ∷ scores) sums = sums_from scores (add_score scored sums)

  abbrev Adds : String → List Scored → S → S → Type 0
  Adds run_id scores s0 t =
      (runs t ≡ runs s0) × (results t ≡ results s0 ++ map (result_row run_id) scores)

  score_questions-Ends :
      (run_id : String) (questions : List EvalQuestion) (sums : Sums) (s0 : S)
      → Ends
          (score_questions tables services s chunks repository_id config run_id questions sums s0)
          (λ total t.
            (scores : List Scored) × Scores questions scores
            × (total ≡ sums_from scores sums)
            × Adds run_id scores s0 t)
          (λ e t. runs t ≡ runs s0)
  unfolding score_questions
  score_questions-Ends run_id [] sums s0 =
      returned sums s0 refl ([], tt, refl, (refl, sym (append-nil _)))
  score_questions-Ends run_id (q ∷ qs) sums s0 =
      Ends-bind _ _ s0
        (lift-Ends (run_config_search services s chunks repository_id q.question config) s0)
        (λ ids u (found, same).
          let scored = score_question services s chunks q ids in
          Ends-bind _ _ u (tables.create_result_lem (result_row run_id scored) u)
            (λ done v (kept, added).
              Ends-mono _ (score_questions-Ends run_id qs (add_score scored sums) v)
                (λ total t (scores, are_scores, is_total, (unchanged, appended)). (
                  scored ∷ scores,
                  ((ids, found, refl), are_scores),
                  is_total,
                  (
                    unchanged ∙ kept ∙ ap runs same,
                    appended
                        ∙ ap (λ rs. rs ++ map (result_row run_id) scores)
                            (added ∙ ap (λ x. results x ++ result_row run_id scored ∷ []) same)
                        ∙ append_assoc (results s0) (result_row run_id scored ∷ []) _,
                  ),
                ))
                (λ e t unchanged. unchanged ∙ kept ∙ ap runs same))
            (λ e v (kept, _). kept ∙ ap runs same))
        (λ e u same. ap runs same)

  sums_from_lem :
      (run_id : String) (scores : List Scored) (sums : Sums)
      → ((sums_from scores sums).hits ≡ sums.hits + count_correct (map (result_row run_id) scores))
        × (length (sums_from scores sums).reciprocal_ranks + sums.hits
            ≡ (sums_from scores sums).hits + length sums.reciprocal_ranks)
        × (length (sums_from scores sums).precisions ≤ length sums.precisions + length scores)
  sums_from_lem run_id [] sums = (omega arith, omega arith, omega arith)
  sums_from_lem run_id (scored ∷ scores) sums =
      let rest = sums_from_lem run_id scores (add_score scored sums) in ground arith

  length-Scores :
      (qs : List EvalQuestion) (scores : List Scored) → Scores qs scores → length scores ≡ length qs
  length-Scores [] [] h = refl
  length-Scores (q ∷ qs) (scored ∷ scores) (_, h) = ap suc (length-Scores qs scores h)
  length-Scores [] (scored ∷ scores) h = absurd h
  length-Scores (q ∷ qs) [] h = absurd h

  -- What a returned run has left, with one new result for each question.
  abbrev pub Evaluates : S → EvalRun → S → Type 0
  Evaluates s0 run t =
      (questions : List EvalQuestion) × (u : S) × (scores : List Scored) × (tables.find_questions
          repository_id s0
        ≡ (ok questions, u))
      × (0 < length questions)
      × Scores questions scores
      × (results t ≡ results s0 ++ map (result_row run.id) scores)
      × Has run (runs t)
      × (run.metrics ≡ metrics_of (length questions) (sums_from scores no_sums))
      × (run.metrics.recall_at5.count ≡ count_correct (map (result_row run.id) scores))
      × (length run.metrics.mrr.terms ≡ run.metrics.recall_at5.count)
      × (length scores ≡ length questions)

  -- A failed run has left no row of a run, or one that reads 0 in each of its three columns.
  abbrev pub LeavesRun : S → S → Type 0
  LeavesRun s0 t =
      (runs t ≡ runs s0) ⊎ ((run : EvalRun) × (run.metrics ≡ no_metrics) × (runs t ≡ run ∷ runs s0))

  run_questions-Ends :
      (s0 u : S) (questions : List EvalQuestion)
      → tables.find_questions repository_id s0 ≡ (ok questions, u)
      → 0 < length questions
      → runs u ≡ runs s0
      → results u ≡ results s0
      → Ends
          (run_questions tables services s chunks repository_id config questions u)
          (Evaluates s0)
          (λ e t. LeavesRun s0 t)
  unfolding run_questions
  run_questions-Ends s0 u questions found pos runs_kept results_kept =
      Ends-bind _ _ u (tables.create_run_lem repository_id config u)
        (λ run v (is_run, added, kept).
          let new : runs v ≡ run ∷ runs s0 = added ∙ ap (λ rs. run ∷ rs) runs_kept in
          let empty : run.metrics ≡ no_metrics = ap (λ (r : EvalRun). r.metrics) is_run in
          Ends-bind _ _ v (score_questions-Ends run.id questions no_sums v)
            (λ total w (scores, are_scores, is_total, (unchanged, appended)).
              Ends-mono _ (tables.update_run_lem run.id (metrics_of (length questions) total) w)
                (λ final t (mapped, same, is_id, listed).
                  let is_metrics =
                    measured run.id total (runs w) (runs t) final mapped listed is_id in
                  let (hits, ranks, _) = sums_from_lem final.id scores no_sums in
                  let of_sums : final.metrics
                      ≡ metrics_of (length questions) (sums_from scores no_sums) =
                    is_metrics ∙ ap (metrics_of (length questions)) is_total in
                  (
                    questions,
                    u,
                    scores,
                    found,
                    pos,
                    are_scores,
                    same
                        ∙ appended
                        ∙ ap (λ rs. rs ++ map (result_row run.id) scores) (kept ∙ results_kept)
                        ∙ ap (λ id. results s0 ++ map (result_row id) scores) (sym is_id),
                    listed,
                    of_sums,
                    ap (λ (m : EvalMetrics). m.recall_at5.count) of_sums ∙ hits ∙ omega arith,
                    ap (λ (m : EvalMetrics). length m.mrr.terms) of_sums
                        ∙ omega (arith, ranks)
                        ∙ sym (ap (λ (m : EvalMetrics). m.recall_at5.count) of_sums),
                    length-Scores questions scores are_scores,
                  ))
                (λ e t (unchanged', _). inr (run, empty, unchanged' ∙ unchanged ∙ new)))
            (λ e w unchanged. inr (run, empty, unchanged ∙ new)))
        (λ e v (unchanged, _). inl (unchanged ∙ runs_kept))
    where
      measured :
          (id : String) (total : Sums) (before after : List EvalRun) (final : EvalRun)
          → after ≡ map (set_metrics id (metrics_of (length questions) total)) before
          → Has final after
          → final.id ≡ id
          → final.metrics ≡ metrics_of (length questions) total
      measured id total before after final mapped listed is_id =
          set_metrics-lem id (metrics_of (length questions) total) before final
            (subst (Has final) mapped listed) is_id

  -- An evaluation that returns has scored each question of the repository by what its own search found, and
  -- there is at least one; it has added one result for each and a run, whose recall counts the correct results
  -- over all questions, and whose mean reciprocal rank has one term for each of them. One that throws has added
  -- no run, or a run with 0 for all three.
  pub run_retrieval_eval_lem :
      (s0 : S)
      → Ends
          (run_retrieval_eval tables services s chunks repository_id config s0)
          (Evaluates s0)
          (λ e t. LeavesRun s0 t)
  unfolding run_retrieval_eval
  run_retrieval_eval_lem s0 =
      Ends-bind _ _ s0 (Ends-seen _ (tables.find_questions_lem repository_id s0))
        (λ questions u (found, (runs_kept, results_kept)).
          elim (Bool-cases (nat_eq (length questions) 0)) [
            | inl e ↦ rw e (threw (no_questions repository_id) u refl (inl runs_kept))
            | inr e ↦
                rw e (
                  run_questions-Ends s0 u questions found (ground (arith, e)) runs_kept
                    results_kept)
          ])
        (λ e u (failed, (runs_kept, _)). inl runs_kept)
