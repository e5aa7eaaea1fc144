-- ===== src/Review/Risk.antt =====
-- backend/src/modules/pr-review/services/risk-score.service.ts. The three path patterns look for
-- words of ASCII letters, whatever the case; test coverage is a parameter.
pub mod Score
pub mod Growth
pub mod Tests
use code_trace.Prelude.{
  ℕ, ◌+◌, String, Bool, true, false, not, ◌||◌, ◌&&◌, Option, none, some, List, [], ◌∷◌, ◌++◌, min,
  ltb, leb, any, if◌then◌else◌, codes, contains, starts_with, map, Text, ◌≡◌, refl,
}
use code_trace.Review.Types.{RiskFactor}

pub record RiskScoreInput : Type 0 where
  pub repository_id : String
  pub changed_file_paths : List String
  pub changed_symbols : List String
  pub lines_changed : ℕ
  pub dependency_files_changed : Bool
  pub critical_directories : List String

-- The flag `i` folds the case of ASCII letters only into one another.
lower : ℕ → ℕ
lower c = if leb b'A' c && leb c b'Z' then c + 32 else c

-- One alternative of a pattern with the flag `i`.
pub mentions : String → String → Bool
unfolding lower
mentions word path = contains (codes word) (map lower (codes path))

pub is_auth_path : String → Bool
is_auth_path p =
    mentions "auth" p || mentions "login" p || mentions "session" p || mentions "token" p

pub is_payment_path : String → Bool
is_payment_path p =
    mentions "payment" p || mentions "charge" p || mentions "billing" p || mentions "invoice" p

-- `/migrations?\//i`
pub is_migration_path : String → Bool
is_migration_path p = mentions "migration/" p || mentions "migrations/" p

pub data Level : Type 0 where
  low medium high : Level

pub level_for : ℕ → Level
level_for score = if leb score 30 then low else if leb score 60 then medium else high

-- `if (test) factors.push(factor)`
abbrev pub factor_if : Bool → RiskFactor → List RiskFactor
factor_if test factor = if test then factor ∷ [] else []

abbrev auth_factor : RiskFactor
auth_factor = record {
  code = "AUTH_PATH";
  points = 20;
  reason = "touches an authentication/authorization code path";
}

abbrev payment_factor : RiskFactor
payment_factor = record {
  code = "PAYMENT_PATH";
  points = 20;
  reason = "touches a payment code path";
}

abbrev migration_factor : RiskFactor
migration_factor = record {
  code = "MIGRATION";
  points = 15;
  reason = "includes a database migration";
}

abbrev large_factor : RiskFactor
large_factor = record { code = "LARGE_CHANGE"; points = 10; reason = ">500 lines changed" }

abbrev dependency_factor : RiskFactor
dependency_factor = record {
  code = "DEPENDENCY_CHANGE";
  points = 10;
  reason = "adds/changes a dependency";
}

abbrev coverage_factor : RiskFactor
coverage_factor = record {
  code = "NO_TEST_COVERAGE";
  points = 10;
  reason = "no test file touched alongside changed source";
}

abbrev critical_factor : RiskFactor
critical_factor = record {
  code = "CRITICAL_DIRECTORY";
  points = 5;
  reason = "touches a directory flagged as critical";
}

pub record RiskResult : Type 0 where
  pub score : ℕ
  pub level : Level
  pub factors : List RiskFactor

pub total_points : List RiskFactor → ℕ
total_points [] = 0
total_points (f ∷ fs) = f.points + total_points fs

module _ (has_test_coverage : String → String → Bool) (input : RiskScoreInput) where
  open input use {
    repository_id, changed_file_paths, changed_symbols, lines_changed, dependency_files_changed,
    critical_directories,
  }

  -- the loop with its `break`
  pub missing_coverage : List String → Bool
  missing_coverage [] = false
  missing_coverage (symbol ∷ symbols) =
      not (has_test_coverage repository_id symbol) || missing_coverage symbols

  pub touches_critical : Bool
  touches_critical =
      any (λ dir. any (λ p. starts_with (codes dir) (codes p)) changed_file_paths)
        critical_directories

  pub risk_factors : List RiskFactor
  risk_factors =
      factor_if (any is_auth_path changed_file_paths) auth_factor
      ++ (factor_if (any is_payment_path changed_file_paths) payment_factor
          ++ (factor_if (any is_migration_path changed_file_paths) migration_factor
              ++ (factor_if (ltb 500 lines_changed) large_factor
                  ++ (factor_if dependency_files_changed dependency_factor
                      ++ (factor_if (missing_coverage changed_symbols) coverage_factor
                          ++ factor_if touches_critical critical_factor)))))

  pub calculate_risk_score : RiskResult
  calculate_risk_score =
      let score = min 100 (total_points risk_factors) in
      record { score = score; level = level_for score; factors = risk_factors }
