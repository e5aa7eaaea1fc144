-- ===== src/Review/Prompt.antt =====
-- The prompts that pr-review.service.ts puts together, from the changed chunks to the text.
use code_trace.Prelude.{
  String, Bool, true, false, Option, none, some, List, [], map, join, show, ◌+++◌, Map, lookup,
  insert_all, get_or, if◌then◌else◌, ◌==◌, text_eq,
}
use code_trace.Review.Types.{ChunkRef}
use code_trace.Database.{ChunkRow}
use code_trace.Retrieval.Types.{RetrievedChunk}

-- `changedChunks.map((c) => c.symbol).join(" ")`
unfoldable pub combined_query : List ChunkRef → String
combined_query changed = join " " (map (λ (c : ChunkRef). c.symbol) changed)

-- `testCoverageBySymbol`. Without the `Set` the same entry is written more than once.
pub coverage_by_symbol : (String → Bool) → List ChunkRef → Map String Bool
coverage_by_symbol covered changed =
    insert_all (map (λ (c : ChunkRef). (c.symbol, covered c.symbol)) changed) []

pub content_by_chunk_id : List ChunkRow → Map String String
content_by_chunk_id rows = insert_all (map (λ (c : ChunkRow). (c.id, c.content)) rows) []

coverage_note : Option Bool → String
coverage_note none = ""
coverage_note (some true) = ""
coverage_note (some false) = " (no test file found for this symbol in the repository)"

changed_entry : Map String Bool → Map String String → ChunkRef → String
unfolding coverage_note
changed_entry coverage contents c =
    c.file_path
    +++ ": "
    +++ c.symbol
    +++ coverage_note (lookup c.symbol coverage)
    +++ "\n"
    +++ get_or (lookup c.chunk_id contents) ""

pub changed_block : Map String Bool → Map String String → List ChunkRef → String
unfolding changed_entry
changed_block coverage contents refs = join "\n\n" (map (changed_entry coverage contents) refs)

related_entry : RetrievedChunk → String
related_entry c =
    "["
    +++ c.file_path
    +++ ":"
    +++ show c.start_line
    +++ "-"
    +++ show c.end_line
    +++ "]\n"
    +++ c.content

pub related_block : List RetrievedChunk → String
unfolding related_entry
related_block retrieved = join "\n\n" (map related_entry retrieved)

pub system_prompt : String
system_prompt =
    "You are a PR reviewer. Return ONLY a JSON array of findings. "
    +++ "Each finding: category (BUG|SECURITY|PERFORMANCE|LOGIC|TESTING|MAINTAINABILITY), "
    +++ "file, line, explanation, relatedSymbol, citationFile, citationStartLine, citationEndLine. "
    +++ "Only report findings tied to a concrete correctness/security/performance/test-coverage concern. "
    +++ "Focus on the CHANGED CODE section — that is the actual diff being reviewed. "
    +++ "RELATED CONTEXT is background only (callers, callees, and generically similar code); "
    +++ "only report a finding there if it's directly relevant to understanding a problem in the changed code. "
    +++ "A symbol marked \"(no test file found for this symbol in the repository)\" has no test coverage — "
    +++ "report a TESTING finding for it if the change is non-trivial enough to warrant a test."

pub user_prompt : String → String → String
user_prompt changed related =
    "CHANGED CODE (review this):\n"
    +++ changed
    +++ (if related == "" then "" else "\n\nRELATED CONTEXT (background only):\n" +++ related)
