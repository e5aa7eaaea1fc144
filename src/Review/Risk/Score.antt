-- ===== src/Review/Risk/Score.antt =====
-- What the risk score says: each factor, the bounds of the sum, the level, and monotonicity.
use code_trace.Prelude.{
  ℕ, ◌+◌, ◌≤◌, ◌<◌, String, ◌≡◌, refl, ◌↔◌, Bool, true, false, List, [], ◌∷◌, ◌++◌, arith, any, ltb,
  if◌then◌else◌, min, ◌∙◌,
}
use code_trace.Review.Types.{RiskFactor}
use code_trace.Review.Risk.{
  RiskScoreInput, low, medium, high, level_for, is_auth_path, is_payment_path, is_migration_path,
  missing_coverage, touches_critical, risk_factors, total_points, calculate_risk_score, factor_if,
}

-- The points of a test that passed.
abbrev pub points_if : Bool → ℕ → ℕ
points_if test n = if test then n else 0

total_points-append :
    (fs gs : List RiskFactor) → total_points (fs ++ gs) ≡ total_points fs + total_points gs
unfolding total_points
total_points-append [] gs = omega arith
total_points-append (f ∷ fs) gs = omega (arith, total_points-append fs gs)

total_points-factor_if :
    (test : Bool) (f : RiskFactor) → total_points (factor_if test f) ≡ points_if test f.points
unfolding total_points
total_points-factor_if true f = omega arith
total_points-factor_if false f = refl

points_if-le : (test : Bool) (n : ℕ) → points_if test n ≤ n
points_if-le true n = omega arith
points_if-le false n = omega arith

ruleset points = (total_points-append, total_points-factor_if)

-- LOW up to 30, MEDIUM above that and up to 60, HIGH above that.
level_for_lem :
    (s : ℕ)
    → ((level_for s ≡ low) ↔ (s ≤ 30))
      × ((level_for s ≡ medium) ↔ ((30 < s) × (s ≤ 60)))
      × ((level_for s ≡ high) ↔ (60 < s))
unfolding level_for
level_for_lem s = ground arith

-- The seven tests, weighed by their points.
abbrev pub weighed : Bool → Bool → Bool → Bool → Bool → Bool → Bool → ℕ
weighed auth payment migration large dependency coverage critical =
    points_if auth 20
    + (points_if payment 20
        + (points_if migration 15
            + (points_if large 10
                + (points_if dependency 10 + (points_if coverage 10 + points_if critical 5)))))

weighed-le : (a b c d e f g : Bool) → weighed a b c d e f g ≤ 90
weighed-le a b c d e f g = omega (
  arith,
  points_if-le a 20,
  points_if-le b 20,
  points_if-le c 15,
  points_if-le d 10,
  points_if-le e 10,
  points_if-le f 10,
  points_if-le g 5,
)

module _ (has_test_coverage : String → String → Bool) (input : RiskScoreInput) where
  total_points-risk_factors :
      total_points (risk_factors has_test_coverage input)
      ≡ weighed
          (any is_auth_path input.changed_file_paths)
          (any is_payment_path input.changed_file_paths)
          (any is_migration_path input.changed_file_paths)
          (ltb 500 input.lines_changed)
          input.dependency_files_changed
          (missing_coverage has_test_coverage input input.changed_symbols)
          (touches_critical has_test_coverage input)
  unfolding risk_factors
  total_points-risk_factors = simp points

  -- Whatever the input: the score is the sum of the points of the factors that are returned with
  -- it, which is that of the seven tests that pass and at most 90; and the level is LOW exactly for
  -- a score up to 30, MEDIUM exactly from 31 to 60, and HIGH exactly above.
  pub calculate_risk_score_lem :
      let r = calculate_risk_score has_test_coverage input in
      (r.score ≡ total_points r.factors)
      × (r.score
          ≡ weighed
              (any is_auth_path input.changed_file_paths)
              (any is_payment_path input.changed_file_paths)
              (any is_migration_path input.changed_file_paths)
              (ltb 500 input.lines_changed)
              input.dependency_files_changed
              (missing_coverage has_test_coverage input input.changed_symbols)
              (touches_critical has_test_coverage input))
      × (r.score ≤ 90)
      × ((r.level ≡ low) ↔ (r.score ≤ 30))
      × ((r.level ≡ medium) ↔ ((30 < r.score) × (r.score ≤ 60)))
      × ((r.level ≡ high) ↔ (60 < r.score))
  unfolding calculate_risk_score
  calculate_risk_score_lem =
      let total = total_points-risk_factors in
      let within =
        weighed-le (any is_auth_path input.changed_file_paths)
          (any is_payment_path input.changed_file_paths)
          (any is_migration_path input.changed_file_paths) (ltb 500 input.lines_changed)
          input.dependency_files_changed
          (missing_coverage has_test_coverage input input.changed_symbols)
          (touches_critical has_test_coverage input) in
      let uncapped : min 100 (total_points (risk_factors has_test_coverage input))
          ≡ total_points (risk_factors has_test_coverage input) =
        omega (arith, total, within) in
      let (is_low, is_medium, is_high) =
        level_for_lem (min 100 (total_points (risk_factors has_test_coverage input))) in
      (uncapped, uncapped ∙ total, omega (arith, total, within), is_low, is_medium, is_high)
