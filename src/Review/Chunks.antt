-- ===== src/Review/Chunks.antt =====
-- diff-analyzer.service.ts and dependency-retrieval.service.ts of backend/src/modules/pr-review.
pub mod Overlap
pub mod Dependencies
pub mod Tests
use code_trace.Prelude.{
  ℕ, String, Bool, true, false, not, ◌&&◌, ◌||◌, Option, none, some, List, [], ◌∷◌, ◌++◌, map, leb,
  any, if◌then◌else◌, ◌==◌, text_eq, includes, is_some, codes, contains, ◌≡◌, refl,
}
use code_trace.Database.{ChunkRow, FileRow, RelationshipRow, Query}
use code_trace.Review.Types.{ChangedLineRange, ChunkRef}

-- `where: { repositoryId_path: { repositoryId, path } }`
abbrev pub is_file_at : String → String → FileRow → Bool
is_file_at repository_id path f = f.repository_id == repository_id && f.path == path

-- `where: { fileId, startLine: { lte: range.endLine }, endLine: { gte: range.startLine } }`
abbrev pub is_overlapping : String → ChangedLineRange → ChunkRow → Bool
is_overlapping file_id range c =
    c.file_id == file_id && (leb c.start_line range.end_line && leb range.start_line c.end_line)

abbrev pub ref_at : String → ChunkRow → ChunkRef
ref_at file_path c = record { chunk_id = c.id; symbol = c.symbol; file_path = file_path }

module _ (files : Query FileRow) (chunks : Query ChunkRow) (repository_id : String) where
  -- one round of the loop over the ranges
  unfoldable pub chunks_of_range : ChangedLineRange → List ChunkRef
  chunks_of_range range = elim (files.find_first (is_file_at repository_id range.file_path)) [
    | none ↦ []
    | some file ↦ map (ref_at range.file_path) (chunks.find_many (is_overlapping file.id range))
  ]

  unfoldable pub map_changed_lines_to_chunks : List ChangedLineRange → List ChunkRef
  map_changed_lines_to_chunks [] = []
  map_changed_lines_to_chunks (range ∷ ranges) =
      chunks_of_range range ++ map_changed_lines_to_chunks ranges

-- `toChunkId: { in: chunkIds }`, where `null` is in no list
abbrev pub includes_some : Option String → List String → Bool
includes_some none ids = false
includes_some (some id) ids = includes id ids

-- `where: { repositoryId, OR: [{ toChunkId: in }, { fromChunkId: in }] }`
abbrev pub is_touching : String → List String → RelationshipRow → Bool
is_touching repository_id ids rel =
    rel.repository_id == repository_id
    && (includes_some rel.to_chunk_id ids || includes rel.from_chunk_id ids)

-- The variables `results` and `seen`.
pub record Walk : Type 0 where
  pub results : List ChunkRef
  pub seen : List String

pub visit : ChunkRow → Walk → Walk
visit c w = record { results = w.results ++ ref_at c.file_path c ∷ []; seen = c.id ∷ w.seen }

module _ (ids : List String) where
  pub visit_from : RelationshipRow → Walk → Walk
  visit_from rel w =
      if not (includes rel.from_chunk_id ids) && not (includes rel.from_chunk.id w.seen)
      then visit rel.from_chunk w
      else w

  pub visit_to : Option ChunkRow → Walk → Walk
  visit_to none w = w
  visit_to (some c) w =
      if not (includes c.id ids) && not (includes c.id w.seen) then visit c w else w

  unfoldable pub walk : List RelationshipRow → Walk → Walk
  unfolding visit_from visit_to
  walk [] w = w
  walk (rel ∷ rels) w = walk rels (visit_to rel.to_chunk (visit_from rel w))

abbrev pub no_walk : Walk
no_walk = record { results = []; seen = [] }

-- With no ids the query is not made.
unfoldable pub one_hop : Query RelationshipRow → String → List String → List ChunkRef
one_hop relationships repository_id [] = []
one_hop relationships repository_id (id ∷ ids) =
    (walk (id ∷ ids) (relationships.find_many (is_touching repository_id (id ∷ ids)))
      no_walk).results

-- The patterns without their `%`; `contains` is `LIKE` with the text between two `%`.
abbrev pub test_file_patterns : List String
test_file_patterns = ".test." ∷ ".spec." ∷ "__tests__" ∷ []

abbrev pub is_test_chunk : String → String → ChunkRow → Bool
is_test_chunk repository_id symbol c =
    c.repository_id == repository_id
    && (contains (codes symbol) (codes c.symbol)
        && any (λ pattern. contains (codes pattern) (codes c.file_path)) test_file_patterns)

pub has_test_coverage : Query ChunkRow → String → String → Bool
has_test_coverage chunks repository_id symbol =
    is_some (chunks.find_first (is_test_chunk repository_id symbol))
