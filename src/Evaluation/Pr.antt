-- ===== src/Evaluation/Pr.antt =====
-- evaluation.service.ts: `runPrEval`. The review is a parameter; a quotient of two counts is kept as the
-- two, and is 0 if the second is 0.
mod Counting
mod Tests
use code_trace.Prelude.{
  ℕ, suc, ◌+◌, ◌-◌, String, Bool, true, false, not, ◌&&◌, Option, none, some, List, [], ◌∷◌, length,
  includes, ◌==◌, text_eq, number_eq, if◌then◌else◌,
}
use code_trace.Exec.{Exec, pure, ◌>>=◌}
use code_trace.Review.Types.{
  Category, bug, security, performance, logic, testing, maintainability, PrFinding,
}

pub record LabeledIssue : Type 0 where
  pub category : Category
  pub file : String

pub record Quotient : Type 0 where
  pub count : ℕ
  pub of_all : ℕ

pub record PrEvalResult : Type 0 where
  pub true_positives : ℕ
  pub false_positives : ℕ
  pub false_negatives : ℕ
  pub precision : Quotient
  pub recall : Quotient

abbrev pub same_category : Category → Category → Bool
same_category bug bug = true
same_category security security = true
same_category performance performance = true
same_category logic logic = true
same_category testing testing = true
same_category maintainability maintainability = true
same_category _ _ = false

abbrev pub is_match : PrFinding → List ℕ → ℕ → LabeledIssue → Bool
is_match finding matched idx label =
    not (includes idx matched)
    && (same_category label.category finding.category && label.file == finding.file)

-- `labeledIssues.findIndex(…)`, from an index on
unfoldable pub find_index : PrFinding → List ℕ → ℕ → List LabeledIssue → Option ℕ
find_index finding matched idx [] = none
find_index finding matched idx (label ∷ labels) =
    let rest = find_index finding matched (suc idx) labels in
    if is_match finding matched idx label then some idx else rest

pub record Matching : Type 0 where
  pub matched_labels : List ℕ
  pub true_positives : ℕ
  pub false_positives : ℕ

abbrev pub count_finding : Option ℕ → Matching → Matching
count_finding none m = record m { false_positives = m.false_positives + 1 }
count_finding (some i) m = record m {
  matched_labels = i ∷ m.matched_labels;
  true_positives = m.true_positives + 1;
}

unfoldable pub match_findings : List LabeledIssue → List PrFinding → Matching → Matching
match_findings labels [] m = m
match_findings labels (finding ∷ findings) m =
    match_findings labels findings (count_finding (find_index finding m.matched_labels 0 labels) m)

abbrev pub result_of : List LabeledIssue → Matching → PrEvalResult
result_of labels m = record {
  true_positives = m.true_positives;
  false_positives = m.false_positives;
  false_negatives = length labels - length m.matched_labels;
  precision = record { count = m.true_positives; of_all = m.true_positives + m.false_positives };
  recall = record { count = m.true_positives; of_all = length labels };
}

unfoldable pub evaluate : List LabeledIssue → List PrFinding → PrEvalResult
evaluate labels findings = result_of labels (
    match_findings labels findings
      (record { matched_labels = []; true_positives = 0; false_positives = 0 }))

unfoldable pub run_pr_eval :
    {S : Type 0} → Exec S (List PrFinding) → List LabeledIssue → Exec S PrEvalResult
run_pr_eval run_pr_review labels = do findings ← run_pr_review; pure (evaluate labels findings)
