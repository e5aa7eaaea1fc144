-- ===== src/Review/Risk/Growth.antt =====
-- How the score of a change grows.
use code_trace.Prelude.{
  ℕ, ◌≤◌, String, ◌≡◌, refl, inl, inr, Bool, true, not, List, [], ◌∷◌, arith, any, ltb, Has,
  Bool-cases, starts_with, codes,
}
use code_trace.Review.Risk.{
  RiskScoreInput, is_auth_path, is_payment_path, is_migration_path, missing_coverage,
  touches_critical, calculate_risk_score,
}
use code_trace.Review.Risk.Score.{points_if, calculate_risk_score_lem}

-- `large` holds whatever `small` holds.
abbrev pub Extends : RiskScoreInput → RiskScoreInput → Type 0
Extends small large =
    (small.repository_id ≡ large.repository_id)
    × ((p : String) → Has p small.changed_file_paths → Has p large.changed_file_paths)
    × ((p : String) → Has p small.changed_symbols → Has p large.changed_symbols)
    × ((p : String) → Has p small.critical_directories → Has p large.critical_directories)
    × (small.lines_changed ≤ large.lines_changed)
    × (small.dependency_files_changed ≡ true → large.dependency_files_changed ≡ true)

lines_mono : (m n : ℕ) → m ≤ n → ltb 500 m ≡ true → ltb 500 n ≡ true
lines_mono m n h e = ground arith

any-Has :
    (q : String → Bool) (x : String) (ys : List String) → Has x ys → q x ≡ true → any q ys ≡ true
any-Has q x [] h e = absurd h
any-Has q x (y ∷ ys) (inl same) e = rw (same, e)
any-Has q x (y ∷ ys) (inr h) e = ground (arith, any-Has q x ys h e)

any_mono :
    (p q : String → Bool) (xs ys : List String)
    → ((x : String) → p x ≡ true → q x ≡ true)
    → ((x : String) → Has x xs → Has x ys)
    → any p xs ≡ true
    → any q ys ≡ true
any_mono p q [] ys pq sub h = cc
any_mono p q (x ∷ xs) ys pq sub h = elim (Bool-cases (p x)) [
  | inl yes_x ↦ any-Has q x ys (sub x (inl refl)) (pq x yes_x)
  | inr no_x ↦ any_mono p q xs ys pq (λ y k. sub y (inr k)) (rw no_x at h)
]

points_if_mono : (s t : Bool) (n : ℕ) → (s ≡ true → t ≡ true) → points_if s n ≤ points_if t n
points_if_mono s t n h = ground arith

missing_coverage-any :
    (cov : String → String → Bool) (input : RiskScoreInput) (xs : List String)
    → missing_coverage cov input xs ≡ any (λ s. not (cov input.repository_id s)) xs
unfolding missing_coverage
missing_coverage-any cov input [] = refl
missing_coverage-any cov input (x ∷ xs) = rw (missing_coverage-any cov input xs)

module _ (cov : String → String → Bool) (small large : RiskScoreInput)
    (more : Extends small large) where
  missing_coverage_mono :
      missing_coverage cov small small.changed_symbols ≡ true
      → missing_coverage cov large large.changed_symbols ≡ true
  missing_coverage_mono =
      rw (missing_coverage-any cov small, missing_coverage-any cov large, more.0)
        (any_mono (λ s. not (cov large.repository_id s)) (λ s. not (cov large.repository_id s)) _ _
          (λ x e. e) more.2)

  touches_critical_mono : touches_critical cov small ≡ true → touches_critical cov large ≡ true
  unfolding touches_critical
  touches_critical_mono =
      any_mono _ _ _ _
        (λ dir. any_mono (λ p. starts_with (codes dir) (codes p)) _ _ _ (λ p e. e) more.1) more.3

  test_mono :
      (p : String → Bool)
      → any p small.changed_file_paths ≡ true
      → any p large.changed_file_paths ≡ true
  test_mono p = any_mono p p _ _ (λ x e. e) more.1

  -- A change that touches more scores no less: with the coverage of each symbol as it is, an input
  -- of the same repository with at least the paths, the symbols and the critical directories of a
  -- smaller one, as many lines or more, and a changed dependency file if the smaller one has one,
  -- has at least the score of the smaller one.
  pub risk_mono : (calculate_risk_score cov small).score ≤ (calculate_risk_score cov large).score
  risk_mono =
      let before = (calculate_risk_score_lem cov small).1 in
      let after = (calculate_risk_score_lem cov large).1 in
      omega (
        arith,
        before,
        after,
        points_if_mono _ _ 20 (test_mono is_auth_path),
        points_if_mono _ _ 20 (test_mono is_payment_path),
        points_if_mono _ _ 15 (test_mono is_migration_path),
        points_if_mono (ltb 500 small.lines_changed) (ltb 500 large.lines_changed) 10
            (lines_mono small.lines_changed large.lines_changed more.4),
        points_if_mono _ _ 10 more.5,
        points_if_mono _ _ 10 missing_coverage_mono,
        points_if_mono _ _ 5 touches_critical_mono,
      )
