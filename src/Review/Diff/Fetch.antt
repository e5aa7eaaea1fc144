-- ===== src/Review/Diff/Fetch.antt =====
-- The part of github-diff.service.ts that asks GitHub for the files between two commits; `fetch`, with
-- the token and the URL, is a parameter.
use code_trace.Prelude.{
  String, Option, List, [], map, Text, get_or, show, ◌+++◌, if◌then◌else◌, none,
}
use code_trace.Errors.{Result, ok, err, error, Response}
use code_trace.Exec.{Exec, lift, pure, ◌>>=◌}
use code_trace.Review.Types.{PrDiffFile, FileStatus, PrDiffResult}
use code_trace.Review.Diff.{pr_diff_of_files}

-- An entry of `files` in the body of the compare API.
pub record CompareFile : Type 0 where
  pub filename : String
  pub status : FileStatus
  pub patch : Option Text

unfoldable pub compare_url : String → String → String → String → String
compare_url owner repo base_sha head_sha =
    "https://api.github.com/repos/" +++ owner +++ "/" +++ repo +++ "/compare/" +++ base_sha
    +++ "..." +++ head_sha

pr_diff_file : CompareFile → PrDiffFile
pr_diff_file f = record { path = f.filename; status = f.status; patch = f.patch }

files_of_body : Result (Option (List CompareFile)) → Result (List PrDiffFile)
unfolding pr_diff_file
files_of_body (ok files) = ok (map pr_diff_file (get_or files []))
files_of_body (err e) = err e

-- What `fetchCompareFiles` makes of the response; the body's `files` may be missing.
unfoldable pub compare_files : Response (Option (List CompareFile)) → Result (List PrDiffFile)
unfolding files_of_body
compare_files res =
    if res.success
    then files_of_body res.body
    else err (
        error none (
          "Failed to fetch PR diff (status "
          +++ show res.status
          +++ "): "
          +++ get_or res.message "unknown error"))

module _ {S : Type 0}
    (fetch : String → String → Exec S (Response (Option (List CompareFile)))) where
  unfoldable pub fetch_compare_files :
      String → String → String → String → String → Exec S (List PrDiffFile)
  fetch_compare_files token owner repo base_sha head_sha = do
    res ← fetch token (compare_url owner repo base_sha head_sha)
    lift (compare_files res)

  unfoldable pub get_pr_diff : String → String → String → String → String → Exec S PrDiffResult
  unfolding fetch_compare_files
  get_pr_diff token owner repo base_sha head_sha = do
    files ← fetch_compare_files token owner repo base_sha head_sha
    pure (pr_diff_of_files files)
