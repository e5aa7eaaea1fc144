-- ===== src/Review/Writeback/Bodies.antt =====
-- What the body of a review and the comments of it say of a finding.
use text.Mathlib.TextLemmas.{nil-append, append-nil as append-nil_text, append_assoc as append_text}
use code_trace.Prelude.{
  ℕ, ◌≡◌, sym, ap, ◌∙◌, inl, inr, Option, none, some, List, [], ◌∷◌, Has, map-Has, Has-append_right,
  text_eq, number_eq, String, ◌+++◌, join,
}
use code_trace.Review.Types.{PrFinding, Citation}
use code_trace.Review.Writeback.{
  ReviewForWriteback, GitHubReviewComment, Positions, position_of, inline_comment, finding_line,
  finding_lines, factor_lines, inline_with, comment_at, category_name, summary_lines,
  build_summary_body,
}

Has-summary_lines :
    (review : ReviewForWriteback) (fs : List PrFinding) (f : PrFinding)
    → Has f fs
    → Has (finding_line f) (summary_lines review fs)
unfolding summary_lines
Has-summary_lines review [] f h = absurd h
Has-summary_lines review (g ∷ fs) f h = inr (
    inr (
      Has-append_right (finding_line f) (factor_lines review.risk_factors) (finding_lines (g ∷ fs))
        (inr (map-Has finding_line f (g ∷ fs) h))))

-- The text stands in the body.
abbrev pub Occurs : String → String → Type 0
Occurs text body = (before : String) × (after : String) × (body ≡ before +++ (text +++ after))

join-Occurs :
    (separator : String) (xs : List String) (x : String) → Has x xs → Occurs x (join separator xs)
join-Occurs separator [] x h = absurd h
join-Occurs separator (y ∷ []) x (inl e) =
    ("", "", e ∙ sym (append-nil_text x) ∙ sym (nil-append (x +++ "")))
join-Occurs separator (y ∷ []) x (inr h) = absurd h
join-Occurs separator (y ∷ z ∷ zs) x (inl e) =
    let rest = separator +++ join separator (z ∷ zs) in
    ("", rest, ap (λ t. t +++ rest) e ∙ sym (nil-append (x +++ rest)))
join-Occurs separator (y ∷ z ∷ zs) x (inr h) =
    let (before, after, e) = join-Occurs separator (z ∷ zs) x h in
    (
      y +++ (separator +++ before),
      after,
      ap (λ t. y +++ (separator +++ t)) e
          ∙ ap (λ t. y +++ t) (sym (append_text separator before (x +++ after)))
          ∙ sym (append_text y (separator +++ before) (x +++ after)),
    )

some_injective : {A : Type 0} (a b : A) → some a ≡ some b → a ≡ b
some_injective a b e = cc

inline_with-body :
    (positions : Positions) (f : PrFinding) (c : GitHubReviewComment) (o : Option Citation)
    → inline_with positions f o ≡ some c
    → c.body ≡ "**" +++ category_name f.category +++ "**: " +++ f.explanation
unfolding inline_with comment_at
inline_with-body positions f c none h = absurd (cc h)
inline_with-body positions f c (some citation) h = body (position_of positions f citation) h
  where
    body :
        (o : Option ℕ)
        → comment_at f citation o ≡ some c
        → c.body ≡ "**" +++ category_name f.category +++ "**: " +++ f.explanation
    body none e = absurd (cc e)
    body (some q) e = ap (λ (d : GitHubReviewComment). d.body) (sym (some_injective _ c e))

pub inline_comment-body :
    (positions : Positions) (f : PrFinding) (c : GitHubReviewComment)
    → inline_comment positions f ≡ some c
    → c.body ≡ "**" +++ category_name f.category +++ "**: " +++ f.explanation
unfolding inline_comment
inline_comment-body positions f c h = inline_with-body positions f c f.citation h

pub finding-Occurs :
    (review : ReviewForWriteback) (fs : List PrFinding) (f : PrFinding)
    → Has f fs
    → Occurs (finding_line f) (build_summary_body review fs)
unfolding build_summary_body
finding-Occurs review fs f h =
    join-Occurs "\n" (summary_lines review fs) (finding_line f) (Has-summary_lines review fs f h)
