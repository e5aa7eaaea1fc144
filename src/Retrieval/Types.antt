-- ===== src/Retrieval/Types.antt =====
-- backend/src/modules/retrieval/types/retrieval.types.ts.
use code_trace.Prelude.{ℕ, String, Option}
use code_trace.Database.{ChunkRow}

pub record RankedChunk : Type 0 where
  pub chunk_id : String
  pub rank : ℕ

pub record RetrievedChunk : Type 0 where
  pub id : String
  pub repository_id : String
  pub file_id : String
  pub symbol : String
  pub symbol_type : String
  pub parent_symbol : Option String
  pub language : String
  pub start_line : ℕ
  pub end_line : ℕ
  pub content : String
  pub file_path : String

-- the object literal of `candidates`, with `filePath: c.file.path`
abbrev pub retrieved_of : ChunkRow → RetrievedChunk
retrieved_of c = record {
  id = c.id;
  repository_id = c.repository_id;
  file_id = c.file_id;
  symbol = c.symbol;
  symbol_type = c.symbol_type;
  parent_symbol = c.parent_symbol;
  language = c.language;
  start_line = c.start_line;
  end_line = c.end_line;
  content = c.content;
  file_path = c.file_path;
}
