-- ===== src/Review/Writeback/Routing.antt =====
-- Where the findings of a review go: inline on the diff, or into the summary.
use mathlib.Core.List.{append-nil, append_assoc}
use code_trace.Prelude.{
  ℕ, ◌+◌, ◌≤◌, ◌≡◌, refl, sym, ap, ◌∙◌, ◌⊎◌, inl, inr, Option, none, some, List, [], ◌∷◌, ◌++◌,
  arith, length, Has, keep, is_some, not, lookup, Option-cases, eq_iff, text_eq, number_eq,
  if◌then◌else◌, subst, Map, Text, ◌+++◌, show,
}
use code_trace.Review.Types.{PrFinding, Citation, PrDiffFile}
use code_trace.Review.Diff.{pr_diff_of_files, split_lines}
use code_trace.Review.Diff.Positions.{LineAt, IsContent, number_below, positions_exact}
use code_trace.Review.Diff.Ranges.{Contributes, pr_diff_sound}
use code_trace.Review.Writeback.{
  ReviewForWriteback, GitHubReviewComment, Positions, position_of, inline_comment, Routed,
  route_from, route, finding_line, route_one, position_in, inline_with, comment_at, category_name,
  review_post,
}
use code_trace.Review.Writeback.Bodies.{Occurs, inline_comment-body, finding-Occurs}

-- The findings that have no inline comment.
abbrev pub left_over : Positions → List PrFinding → List PrFinding
left_over positions = keep (λ f. not (is_some (inline_comment positions f)))

abbrev prepend : {A : Type 0} → Option A → List A → List A
prepend none xs = xs
prepend (some x) xs = x ∷ xs

abbrev pub inline_comments : Positions → List PrFinding → List GitHubReviewComment
inline_comments positions [] = []
inline_comments positions (f ∷ fs) =
    prepend (inline_comment positions f) (inline_comments positions fs)

route_one_lem :
    (f : PrFinding) (o : Option GitHubReviewComment) (r : Routed) (cs : List GitHubReviewComment)
    (fs : List PrFinding)
    → ((route_one f o r).comments ++ cs ≡ r.comments ++ prepend o cs)
      × ((route_one f o r).still_worth_mentioning ++ fs
          ≡ r.still_worth_mentioning ++ (if not (is_some o) then f ∷ fs else fs))
unfolding route_one
route_one_lem f none r cs fs = (refl, append_assoc _ (f ∷ []) fs)
route_one_lem f (some c) r cs fs = (append_assoc _ (c ∷ []) cs, refl)

route_from_lem :
    (positions : Positions) (fs : List PrFinding) (r : Routed)
    → ((route_from positions fs r).comments ≡ r.comments ++ inline_comments positions fs)
      × ((route_from positions fs r).still_worth_mentioning
          ≡ r.still_worth_mentioning ++ left_over positions fs)
unfolding route_from
route_from_lem positions [] r = (sym (append-nil _), sym (append-nil _))
route_from_lem positions (f ∷ fs) r =
    let o = inline_comment positions f in
    let (comments, rest) = route_from_lem positions fs (route_one f o r) in
    let (comments', rest') =
      route_one_lem f o r (inline_comments positions fs) (left_over positions fs) in
    (comments ∙ comments', rest ∙ rest')

-- The comments are those of the findings that can stand on the diff, in the order of the findings,
-- and the others are left for the summary, in their order.
pub route_lem :
    (positions : Positions) (fs : List PrFinding)
    → ((route positions fs).comments ≡ inline_comments positions fs)
      × ((route positions fs).still_worth_mentioning ≡ left_over positions fs)
unfolding route
route_lem positions fs =
    route_from_lem positions fs (record { comments = []; still_worth_mentioning = [] })

-- Each finding is posted once, as a comment or in the summary.
pub route_count :
    (positions : Positions) (fs : List PrFinding)
    → length (inline_comments positions fs) + length (left_over positions fs) ≡ length fs
route_count positions [] = omega arith
route_count positions (f ∷ fs) = ground (arith, route_count positions fs)

Has-prepend : {A : Type 0} (o : Option A) (a : A) (xs : List A) → Has a xs → Has a (prepend o xs)
Has-prepend none a xs h = h
Has-prepend (some x) a xs h = inr h

routed_somewhere :
    (positions : Positions) (fs : List PrFinding) (f : PrFinding)
    → Has f fs
    → ((c : GitHubReviewComment) × (inline_comment positions f ≡ some c)
        × Has c (inline_comments positions fs))
      ⊎ Has f (left_over positions fs)
routed_somewhere positions [] f h = absurd h
routed_somewhere positions (g ∷ fs) f (inl e) = elim (Option-cases (inline_comment positions g)) [
  | inl no_comment ↦ inr (rw no_comment (inl e))
  | inr (c, made) ↦
      inl (c, subst (λ x. inline_comment positions x ≡ some c) e made, rw made (inl refl))
]
routed_somewhere positions (g ∷ fs) f (inr h) = elim (routed_somewhere positions fs f h) [
  | inl (c, made, k) ↦ inl (c, made, Has-prepend (inline_comment positions g) c _ k)
  | inr k ↦ inr (ground arith)
]

made_for :
    (positions : Positions) (fs : List PrFinding) (c : GitHubReviewComment)
    → Has c (inline_comments positions fs)
    → (f : PrFinding) × Has f fs × (inline_comment positions f ≡ some c)
made_for positions [] c h = absurd h
made_for positions (f ∷ fs) c h = elim (Option-cases (inline_comment positions f)) [
  | inl e ↦ let (g, k, m) = made_for positions fs c (rw e at h) in (g, inr k, m)
  | inr (d, e) ↦ elim (rw e at h) [
    | inl same ↦ (f, inl refl, e ∙ ap some same)
    | inr later ↦ let (g, k, m) = made_for positions fs c later in (g, inr k, m)
  ]
]

-- A comment stands on the file that the finding is about, inside the lines of its citation, at a
-- position that the table has for the finding's line.
abbrev pub IsAnchored : Positions → PrFinding → GitHubReviewComment → Type 0
IsAnchored positions f c =
    (citation : Citation) × (f.citation ≡ some citation)
    × (f.file ≡ citation.file)
    × (citation.start_line ≤ f.line)
    × (f.line ≤ citation.end_line)
    × (c.path ≡ f.file)
    × (m : Map ℕ ℕ) × (lookup f.file positions ≡ some m)
    × (lookup f.line m ≡ some c.position)

position_in-eq-some :
    (o : Option (Map ℕ ℕ)) (line q : ℕ)
    → position_in o line ≡ some q
    → (m : Map ℕ ℕ) × (o ≡ some m) × (lookup line m ≡ some q)
unfolding position_in
position_in-eq-some none line q h = absurd (cc h)
position_in-eq-some (some m) line q h = (m, refl, h)

position_of_tests :
    (positions : Positions) (f : PrFinding) (citation : Citation) (q : ℕ)
    → position_of positions f citation ≡ some q
    → (f.file ≡ citation.file)
      × (citation.start_line ≤ f.line)
      × (f.line ≤ citation.end_line)
      × (position_in (lookup citation.file positions) f.line ≡ some q)
unfolding position_of
position_of_tests positions f citation q h = ground (arith, eq_iff f.file citation.file)

inline_comment-IsAnchored :
    (positions : Positions) (f : PrFinding) (c : GitHubReviewComment) (o : Option Citation)
    → f.citation ≡ o
    → inline_with positions f o ≡ some c
    → IsAnchored positions f c
unfolding inline_with comment_at
inline_comment-IsAnchored positions f c none given h = absurd (cc h)
inline_comment-IsAnchored positions f c (some citation) given h =
    let (q, at_q, made) = position_of_comment (position_of positions f citation) h in
    let (file, from, to, found) = position_of_tests positions f citation q at_q in
    let (m, table, position) = position_in-eq-some _ f.line q found in
    (
      citation,
      given,
      file,
      from,
      to,
      ap (λ d. d.path) (sym made) ∙ sym file,
      m,
      ap (λ x. lookup x positions) file ∙ table,
      position ∙ ap (λ d. some d.position) made,
    )
  where
    position_of_comment :
        (o : Option ℕ)
        → comment_at f citation o ≡ some c
        → (q : ℕ) × (o ≡ some q)
          × (record {
            path = citation.file;
            position = q;
            body = "**" +++ category_name f.category +++ "**: " +++ f.explanation;
          }
              ≡ c)
    position_of_comment none e = absurd (cc e)
    position_of_comment (some q) e = (q, refl, cc)

-- No finding is dropped from what is posted: whatever the findings and the table of positions, each finding
-- has a posted comment on its file with its category and explanation, or the posted body contains the text of
-- its list item, with its category, file, line and explanation; and the comments and the findings left for
-- the body are together as many as the findings.
pub no_finding_dropped :
    (review : ReviewForWriteback) (positions : Positions)
    → ((f : PrFinding)
        → Has f review.findings
        → ((c : GitHubReviewComment) × Has c (review_post review positions).comments
            × (c.path ≡ f.file)
            × (c.body ≡ "**" +++ category_name f.category +++ "**: " +++ f.explanation))
          ⊎ Occurs
              ("- **"
                +++ category_name f.category
                +++ "** `"
                +++ f.file
                +++ ":"
                +++ show f.line
                +++ "`: "
                +++ f.explanation)
              (review_post review positions).body)
      × (length (review_post review positions).comments
            + length (route positions review.findings).still_worth_mentioning
          ≡ length review.findings)
unfolding review_post finding_line inline_comment
no_finding_dropped review positions =
    let (comments, rest) = route_lem positions review.findings in
    (
      λ f h.
          rw (comments, rest)
            (elim (routed_somewhere positions review.findings f h) [
              | inl (c, made, listed) ↦
                  let anchored = inline_comment-IsAnchored positions f c f.citation refl made in
                  let (citation, given, file, from, to, path, m, in_table, at_line) = anchored in
                  inl (c, listed, path, inline_comment-body positions f c made)
              | inr left ↦ inr (finding-Occurs review (left_over positions review.findings) f left)
            ]),
      rw (comments, rest) (route_count positions review.findings),
    )

-- Every posted comment is one of a finding of the review, on the file that the finding is about,
-- with the finding's line inside the lines of its citation, and at the table's position for it.
pub comments-IsAnchored :
    (review : ReviewForWriteback) (positions : Positions) (c : GitHubReviewComment)
    → Has c (review_post review positions).comments
    → (f : PrFinding) × Has f review.findings × IsAnchored positions f c
unfolding review_post inline_comment
comments-IsAnchored review positions c h =
    let (f, listed, made) =
      made_for positions review.findings c
        (subst (Has c) (route_lem positions review.findings).0 h) in
    (f, listed, inline_comment-IsAnchored positions f c f.citation refl made)

-- With the positions of the pull request's own diff, every posted comment stands on a listed file
-- that is not removed, at a line of its patch that is a line of the new file and has the number
-- that the finding names.
pub comments_on_diff :
    (files : List PrDiffFile) (review : ReviewForWriteback) (c : GitHubReviewComment)
    → Has c (review_post review (pr_diff_of_files files).position_by_file_and_line).comments
    → (f : PrFinding) × Has f review.findings
      × (file : PrDiffFile) × (patch : Text) × Contributes files file patch
      × (file.path ≡ c.path)
      × (l : LineAt (split_lines patch) c.position) × IsContent l.line
      × (number_below l.above ≡ f.line)
comments_on_diff files review c h =
    let positions = (pr_diff_of_files files).position_by_file_and_line in
    let (f, listed, anchored) = comments-IsAnchored review positions c h in
    let (citation, given, same, from, to, path, m, table, position) = anchored in
    let (file, patch, contributes, file_path, parsed) = (pr_diff_sound files).1 f.file m table in
    let (l, content, num) =
      (positions_exact f.file patch).0 f.line c.position
        (ap (lookup f.line) (sym parsed) ∙ position) in
    (f, listed, file, patch, contributes, file_path ∙ sym path, l, content, num)
