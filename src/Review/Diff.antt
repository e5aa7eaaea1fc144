-- ===== src/Review/Diff.antt =====
-- backend/src/modules/pr-review/services/github-diff.service.ts. A patch is its code units; the
-- answer of GitHub's compare API is a parameter.
pub mod Positions
pub mod Ranges
pub mod Fetch
pub mod Tests
use code_trace.Prelude.{
  ℕ, zero, suc, ◌+◌, ◌-◌, ◌*◌, String, ◌≡◌, refl, Bool, true, false, ◌&&◌, ◌||◌, Option, none, some,
  List, [], ◌∷◌, ◌++◌, Text, codes, strip_prefix, starts_with, is_digit, nat_eq, ltb, if◌then◌else◌,
  get_or, Map, lookup, insert, number_eq, text_eq,
}
use code_trace.Review.Types.{
  ChangedLineRange, ParsedDiff, PrDiffFile, FileStatus, removed, PrDiffResult,
}

-- the first line of `line :: lines` grows at its front
push_front : ℕ → List Text → List Text
push_front c [] = (c ∷ []) ∷ []
push_front c (line ∷ lines) = (c ∷ line) ∷ lines

-- `patch.split("\n")`
unfoldable pub split_lines : Text → List Text
unfolding push_front
split_lines [] = [] ∷ []
split_lines (c ∷ text) =
    let rest = split_lines text in if nat_eq c 10 then [] ∷ rest else push_front c rest

-- The digits at the front of a text, read on from `n` as `parseInt` does, and the rest.
digits_from : ℕ → Text → ℕ × Text
digits_from n [] = (n, [])
digits_from n (c ∷ text) =
    let more = digits_from (n * 10 + (c - b'0')) text in if is_digit c then more else (n, c ∷ text)

infixl 5 ◌>>=◌
abbrev ◌>>=◌ : {A B : Type 0} → Option A → (A → Option B) → Option B
none >>= k = none
some a >>= k = k a

-- `(\d+)`
number : Text → Option (ℕ × Text)
unfolding digits_from
number [] = none
number (c ∷ text) = if is_digit c then some (digits_from 0 (c ∷ text)) else none

-- `(?:,(\d+))?`
count : Text → Option ℕ × Text
unfolding number
count [] = (none, [])
count (c ∷ text) =
    if nat_eq c b','
    then elim (number text) [ none ↦ (none, c ∷ text) | some (n, rest) ↦ (some n, rest) ]
    else (none, c ∷ text)

-- `HUNK_HEADER_RE`: the start and the length of the hunk in the new file. A digit is followed by
-- neither of "," and " ", so the expression never goes back on what a group has taken.
pub hunk_header : Text → Option (ℕ × Option ℕ)
unfolding number count
hunk_header line = do
  old ← strip_prefix (codes "@@ -") line
  (_, old_rest) ← number old
  let (_, after_old) = count old_rest
  new ← strip_prefix (codes " +") after_old
  (new_start, new_rest) ← number new
  let (new_lines, after_new) = count new_rest
  _ ← strip_prefix (codes " @@") after_new
  some (new_start, new_lines)

abbrev pub is_empty : Text → Bool
is_empty [] = true
is_empty (_ ∷ _) = false

-- The variables of the loop of `parseUnifiedDiff`.
pub record Progress : Type 0 where
  pub ranges : List ChangedLineRange
  pub position_by_new_line : Map ℕ ℕ
  pub current_new_line : ℕ

-- the three `continue`s above the last two statements of the loop
pub is_skipped : Text → Bool
is_skipped line = starts_with (codes "-") line || starts_with (codes "\\") line || is_empty line

header_ranges : String → ℕ → ℕ → List ChangedLineRange
header_ranges file_path new_start new_lines =
    if ltb 0 new_lines
    then record {
      file_path = file_path;
      start_line = new_start;
      end_line = new_start + new_lines - 1;
    }
      ∷ []
    else []

-- one round of the loop, at `lines[i]`
pub parse_line : String → ℕ → Text → Progress → Progress
unfolding header_ranges
parse_line file_path i line p = elim (hunk_header line) [
  | some (new_start, new_lines) ↦ record p {
    ranges = p.ranges ++ header_ranges file_path new_start (get_or new_lines 1);
    current_new_line = new_start;
  }
  | none ↦ if is_skipped line then p else record p {
    position_by_new_line = insert p.current_new_line i p.position_by_new_line;
    current_new_line = p.current_new_line + 1;
  }
]

pub parse_lines : String → ℕ → List Text → Progress → Progress
parse_lines file_path i [] p = p
parse_lines file_path i (line ∷ lines) p =
    parse_lines file_path (i + 1) lines (parse_line file_path i line p)

abbrev pub start : Progress
start = record { ranges = []; position_by_new_line = []; current_new_line = 0 }

pub parse_unified_diff : String → Text → ParsedDiff
parse_unified_diff file_path patch =
    let p = parse_lines file_path 0 (split_lines patch) start in
    record { ranges = p.ranges; position_by_new_line = p.position_by_new_line }

-- `file.status === "removed" || !file.patch` is the negation: `null` and "" are both falsy.
pub usable_patch : FileStatus → Option Text → Option Text
usable_patch removed patch = none
usable_patch _ none = none
usable_patch _ (some []) = none
usable_patch _ (some (c ∷ text)) = some (c ∷ text)

-- one round of the loop of `getPrDiff`
pub collect_file : PrDiffFile → PrDiffResult → PrDiffResult
collect_file file r = elim (usable_patch file.status file.patch) [
  | none ↦ r
  | some patch ↦
      let parsed = parse_unified_diff file.path patch in
      record {
        changed_ranges = r.changed_ranges ++ parsed.ranges;
        position_by_file_and_line =
            insert file.path parsed.position_by_new_line r.position_by_file_and_line;
      }
]

-- the loop, over the files that GitHub returned
pub collect_files : List PrDiffFile → PrDiffResult → PrDiffResult
collect_files [] r = r
collect_files (file ∷ files) r = collect_files files (collect_file file r)

abbrev pub no_diff : PrDiffResult
no_diff = record { changed_ranges = []; position_by_file_and_line = [] }

pub pr_diff_of_files : List PrDiffFile → PrDiffResult
pr_diff_of_files files = collect_files files no_diff
