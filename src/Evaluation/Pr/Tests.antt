-- ===== src/Evaluation/Pr/Tests.antt =====
-- Two findings of one kind on one labelled file, and a label that no finding matches.
use code_trace.Prelude.{◌≡◌, refl, none, List, [], ◌∷◌, String}
use code_trace.Review.Types.{Category, bug, security, PrFinding}
use code_trace.Evaluation.Pr.{LabeledIssue, evaluate, match_findings, find_index}

abbrev finding : Category → String → PrFinding
finding category file = record {
  category = category;
  file = file;
  line = 1;
  explanation = "";
  related_symbol = none;
  citation = none;
}

abbrev findings : List PrFinding
findings = finding bug "a.ts" ∷ finding bug "a.ts" ∷ []

abbrev labels : List LabeledIssue
labels =
    record { category = security; file = "a.ts" } ∷ record { category = bug; file = "a.ts" } ∷ []

evaluate_test : (evaluate labels findings).false_negatives ≡ 1
unfolding evaluate match_findings find_index
evaluate_test = refl
