-- ===== src/Review/Writeback/Tests.antt =====
-- A review of two findings, one of which can stand on the diff.
use code_trace.Prelude.{◌+◌, ◌≡◌, refl, inl, some, none, [], ◌∷◌, Text, lookup, Has, length}
use code_trace.Review.Types.{bug, testing, PrFinding, PrDiffFile}
use code_trace.Review.Diff.{split_lines}
use code_trace.Review.Diff.Positions.{LineAt, IsContent, number_below}
use code_trace.Review.Diff.Ranges.{Contributes}
use code_trace.Review.Diff.Tests.{files_a, files_test}
use code_trace.Review.Writeback.{
  ReviewForWriteback, GitHubReviewComment, review_post, route, route_from, route_one,
  inline_comment, inline_with, position_of, position_in, comment_at, Positions,
}
use code_trace.Review.Writeback.Routing.{no_finding_dropped, comments_on_diff}

abbrev cited : PrFinding
cited = record {
  category = bug;
  file = "a.ts";
  line = 5;
  explanation = "wrong";
  related_symbol = none;
  citation = some (record { file = "a.ts"; start_line = 4; end_line = 9; chunk_id = "k" });
}

abbrev uncited : PrFinding
uncited = record {
  category = testing;
  file = "b.ts";
  line = 1;
  explanation = "untested";
  related_symbol = none;
  citation = none;
}

abbrev review_a : ReviewForWriteback
review_a = record {
  risk_score = some 20;
  risk_level = some "LOW";
  risk_factors = [];
  findings = uncited ∷ cited ∷ [];
}

abbrev positions_a : Positions
positions_a = ("a.ts", (4, 1) ∷ (5, 3) ∷ (6, 4) ∷ []) ∷ []

abbrev comment_a : GitHubReviewComment
comment_a = record { path = "a.ts"; position = 3; body = "**BUG**: wrong" }

comments_test : (review_post review_a positions_a).comments ≡ comment_a ∷ []
unfolding review_post route route_from route_one inline_comment inline_with position_of position_in
    comment_at lookup
comments_test = refl

no_finding_dropped_example :
    length (review_post review_a positions_a).comments
      + length (route positions_a review_a.findings).still_worth_mentioning
    ≡ 2
no_finding_dropped_example = (no_finding_dropped review_a positions_a).1

comments_on_diff_example :
    (f : PrFinding) × Has f review_a.findings
    × (file : PrDiffFile) × (patch : Text) × Contributes files_a file patch
    × (file.path ≡ "a.ts")
    × (l : LineAt (split_lines patch) 3) × IsContent l.line
    × (number_below l.above ≡ f.line)
comments_on_diff_example =
    comments_on_diff files_a review_a comment_a (rw (files_test, comments_test) (inl refl))
