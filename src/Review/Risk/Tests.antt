-- ===== src/Review/Risk/Tests.antt =====
-- A change of a login page, alone and with a migration.
use code_trace.Prelude.{ℕ, String, ◌≡◌, refl, inr, Bool, false, List, [], ◌∷◌, arith}
use code_trace.Review.Risk.{
  RiskScoreInput, calculate_risk_score, total_points, missing_coverage, touches_critical,
  is_auth_path, is_payment_path, is_migration_path, mentions, lower, risk_factors,
}
use code_trace.Review.Risk.Score.{calculate_risk_score_lem}
use code_trace.Review.Risk.Growth.{Extends}

abbrev untested : String → String → Bool
untested repository_id symbol = false

abbrev change_of : List String → ℕ → RiskScoreInput
change_of paths lines = record {
  repository_id = "repo";
  changed_file_paths = paths;
  changed_symbols = "login" ∷ [];
  lines_changed = lines;
  dependency_files_changed = false;
  critical_directories = [];
}

abbrev small_change : RiskScoreInput
small_change = change_of ("src/Login.ts" ∷ []) 10

abbrev large_change : RiskScoreInput
large_change = change_of ("prisma/migrations/1.sql" ∷ "src/Login.ts" ∷ []) 600

small_change-Extends : Extends small_change large_change
small_change-Extends = (refl, (λ p h. inr h), (λ p h. h), (λ p h. h), omega arith, λ h. h)

calculate_risk_score_lem_example :
    (calculate_risk_score untested large_change).score
    ≡ total_points (calculate_risk_score untested large_change).factors
calculate_risk_score_lem_example = (calculate_risk_score_lem untested large_change).0

score_test : (calculate_risk_score untested large_change).score ≡ 55
unfolding calculate_risk_score total_points missing_coverage touches_critical is_auth_path
    is_payment_path is_migration_path mentions lower risk_factors
score_test = refl
