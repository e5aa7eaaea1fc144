-- ===== src/Review/Types.antt =====
-- backend/src/modules/pr-review/types/pr-review.types.ts, and `Citation` of shared/types.
use code_trace.Prelude.{ℕ, Text, String, Option, List, Map}

pub record ChangedLineRange : Type 0 where
  pub file_path : String
  pub start_line : ℕ
  pub end_line : ℕ

pub record ChunkRef : Type 0 where
  pub chunk_id : String
  pub symbol : String
  pub file_path : String

pub record RiskFactor : Type 0 where
  pub code : String
  pub points : ℕ
  pub reason : String

pub data Category : Type 0 where
  bug security performance logic testing maintainability : Category

pub record Citation : Type 0 where
  pub file : String
  pub start_line : ℕ
  pub end_line : ℕ
  pub chunk_id : String

pub record PrFinding : Type 0 where
  pub category : Category
  pub file : String
  pub line : ℕ
  pub explanation : String
  pub related_symbol : Option String
  pub citation : Option Citation

pub record ParsedDiff : Type 0 where
  pub ranges : List ChangedLineRange
  pub position_by_new_line : Map ℕ ℕ

pub data FileStatus : Type 0 where
  added modified removed renamed changed copied unchanged : FileStatus

pub record PrDiffFile : Type 0 where
  pub path : String
  pub status : FileStatus
  pub patch : Option Text

pub record PrDiffResult : Type 0 where
  pub changed_ranges : List ChangedLineRange
  pub position_by_file_and_line : Map String (Map ℕ ℕ)
