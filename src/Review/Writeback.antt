-- ===== src/Review/Writeback.antt =====
-- backend/src/modules/pr-review/services/github-writeback.service.ts. `fetch` is a parameter.
pub mod Bodies
pub mod Routing
pub mod Tests
use code_trace.Prelude.{
  ℕ, String, Bool, true, false, ◌&&◌, Option, none, some, List, [], ◌∷◌, ◌++◌, map, leb, get_or,
  if◌then◌else◌, ◌==◌, text_eq, number_eq, Map, lookup, show, join, ◌+++◌, ◌≡◌, refl,
}
use code_trace.Errors.{Response}
use code_trace.Exec.{Exec, ◌>>=◌, pure}
use code_trace.Review.Types.{
  RiskFactor, Category, bug, security, performance, logic, testing, maintainability, Citation,
  PrFinding,
}

pub record ReviewForWriteback : Type 0 where
  pub risk_score : Option ℕ
  pub risk_level : Option String
  pub risk_factors : List RiskFactor
  pub findings : List PrFinding

pub record GitHubReviewComment : Type 0 where
  pub path : String
  pub position : ℕ
  pub body : String

abbrev pub category_name : Category → String
category_name bug = "BUG"
category_name security = "SECURITY"
category_name performance = "PERFORMANCE"
category_name logic = "LOGIC"
category_name testing = "TESTING"
category_name maintainability = "MAINTAINABILITY"

pub factor_line : RiskFactor → String
factor_line f = "- " +++ f.reason +++ " (+" +++ show f.points +++ ")"

pub finding_line : PrFinding → String
finding_line f =
    "- **"
    +++ category_name f.category
    +++ "** `"
    +++ f.file
    +++ ":"
    +++ show f.line
    +++ "`: "
    +++ f.explanation

factor_lines : List RiskFactor → List String
unfolding factor_line
factor_lines [] = []
factor_lines (f ∷ fs) = "Risk factors:" ∷ (map factor_line (f ∷ fs) ++ "" ∷ [])

finding_lines : List PrFinding → List String
unfolding finding_line
finding_lines [] = []
finding_lines (f ∷ fs) =
    "Additional findings (outside the changed diff, could not be inline-anchored):"
    ∷ map finding_line (f ∷ fs)

-- the array `lines` of `buildSummaryBody`
pub summary_lines : ReviewForWriteback → List PrFinding → List String
unfolding factor_lines finding_lines
summary_lines review still_worth_mentioning =
    ("**CodeTrace Review — Risk: "
      +++ get_or review.risk_level "UNKNOWN"
      +++ " ("
      +++ show (get_or review.risk_score 0)
      +++ "/100)**")
    ∷ ""
    ∷ (factor_lines review.risk_factors ++ finding_lines still_worth_mentioning)

pub build_summary_body : ReviewForWriteback → List PrFinding → String
build_summary_body review findings = join "\n" (summary_lines review findings)

abbrev pub Positions : Type 0
Positions = Map String (Map ℕ ℕ)

position_in : Option (Map ℕ ℕ) → ℕ → Option ℕ
position_in none line = none
position_in (some m) line = lookup line m

-- `position`: `undefined` unless the finding is about the cited file, inside the cited lines.
pub position_of : Positions → PrFinding → Citation → Option ℕ
unfolding position_in
position_of positions finding citation =
    if finding.file == citation.file
      && (leb citation.start_line finding.line && leb finding.line citation.end_line)
    then position_in (lookup citation.file positions) finding.line
    else none

comment_at : PrFinding → Citation → Option ℕ → Option GitHubReviewComment
comment_at finding citation none = none
comment_at finding citation (some position) = some (record {
  path = citation.file;
  position = position;
  body = "**" +++ category_name finding.category +++ "**: " +++ finding.explanation;
})

inline_with : Positions → PrFinding → Option Citation → Option GitHubReviewComment
inline_with positions finding none = none
inline_with positions finding (some citation) =
    comment_at finding citation (position_of positions finding citation)

-- The inline comment that the loop makes of a finding; `none` where it goes to the summary.
pub inline_comment : Positions → PrFinding → Option GitHubReviewComment
unfolding inline_with comment_at
inline_comment positions finding = inline_with positions finding finding.citation

-- The two arrays of the loop.
pub record Routed : Type 0 where
  pub comments : List GitHubReviewComment
  pub still_worth_mentioning : List PrFinding

route_one : PrFinding → Option GitHubReviewComment → Routed → Routed
route_one finding (some c) r = record r { comments = r.comments ++ c ∷ [] }
route_one finding none r = record r {
  still_worth_mentioning = r.still_worth_mentioning ++ finding ∷ [];
}

pub route_from : Positions → List PrFinding → Routed → Routed
unfolding route_one
route_from positions [] r = r
route_from positions (finding ∷ findings) r =
    route_from positions findings (route_one finding (inline_comment positions finding) r)

pub route : Positions → List PrFinding → Routed
route positions findings =
    route_from positions findings (record { comments = []; still_worth_mentioning = [] })

-- The JSON body of the request.
pub record ReviewPost : Type 0 where
  pub event : String
  pub body : String
  pub comments : List GitHubReviewComment

pub record WritebackResult : Type 0 where
  pub posted : Bool
  pub error : Option String

pub github_api_base : String
github_api_base = "https://api.github.com"

pub review_post : ReviewForWriteback → Positions → ReviewPost
review_post review positions =
    let routed = route positions review.findings in
    record {
      event = "COMMENT";
      body = build_summary_body review routed.still_worth_mentioning;
      comments = routed.comments;
    }

writeback_of : Response (Unit {0}) → WritebackResult
writeback_of res = if res.success then record { posted = true; error = none } else record {
  posted = false;
  error = some ("status " +++ show res.status +++ ": " +++ get_or res.message "unknown error");
}

pub review_url : String → String → ℕ → String
review_url owner repo number =
    github_api_base
    +++ "/repos/"
    +++ owner
    +++ "/"
    +++ repo
    +++ "/pulls/"
    +++ show number
    +++ "/reviews"

-- `fetch` takes the token, the URL and the body of the POST.
unfoldable pub post_review_to_github :
    {S : Type 0} (fetch : String → String → ReviewPost → Exec S (Response (Unit {0})))
    → String
    → String
    → String
    → ℕ
    → ReviewForWriteback
    → Positions
    → Exec S WritebackResult
unfolding writeback_of
post_review_to_github fetch token owner repo number review positions = do
  res ← fetch token (review_url owner repo number) (review_post review positions)
  pure (writeback_of res)
