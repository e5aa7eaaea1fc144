-- ===== src/Review/Diff/Tests.antt =====
-- A patch with a removed line, and what is read from it.
use code_trace.Prelude.{
  ℕ, ◌≡◌, refl, some, List, [], ◌∷◌, Text, codes, lookup, insert, number_eq, text_eq,
}
use code_trace.Review.Types.{PrDiffFile, modified, removed}
use code_trace.Review.Diff.{
  parse_unified_diff, split_lines, pr_diff_of_files, parse_lines, parse_line, hunk_header,
  is_skipped, collect_files, collect_file, usable_patch,
}
use code_trace.Review.Diff.Positions.{LineAt, IsContent, number_below, positions_exact}

abbrev pub patch_a : Text
patch_a = codes "@@ -4,2 +4,3 @@ f\n x\n-y\n+z\n+w\n\\ No newline"

abbrev pub files_a : List PrDiffFile
files_a =
    record { path = "a.ts"; status = modified; patch = some patch_a }
    ∷ record { path = "old.ts"; status = removed; patch = some patch_a }
    ∷ []

-- The fifth line of the file stands at position 3, below the removed line.
patch_test :
    (parse_unified_diff "a.ts" patch_a).position_by_new_line ≡ (4, 1) ∷ (5, 3) ∷ (6, 4) ∷ []
unfolding parse_unified_diff parse_lines parse_line hunk_header is_skipped split_lines insert
patch_test = refl

pub files_test :
    (pr_diff_of_files files_a).position_by_file_and_line
    ≡ ("a.ts", (4, 1) ∷ (5, 3) ∷ (6, 4) ∷ []) ∷ []
unfolding pr_diff_of_files collect_files collect_file parse_unified_diff parse_lines parse_line
    hunk_header is_skipped split_lines usable_patch insert
files_test = refl

positions_exact_example :
    (l : LineAt (split_lines patch_a) 3) × IsContent l.line × (number_below l.above ≡ 5)
unfolding lookup
positions_exact_example = (positions_exact "a.ts" patch_a).0 5 3 (rw patch_test found)
  where
    found : lookup {K = ℕ} {V = ℕ} 5 ((4, 1) ∷ (5, 3) ∷ (6, 4) ∷ []) ≡ some 3
    found = refl
