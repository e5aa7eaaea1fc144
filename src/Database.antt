-- ===== src/Database.antt =====
-- The database behind Prisma, which the program calls and does not implement: the reads that the
-- components use, with what the client documents of them. The rows are those of the models in
-- backend/prisma/schema.prisma, with the columns in use.
use code_trace.Prelude.{
  ℕ, String, ◌≡◌, ◌↔◌, Bool, true, false, Option, none, some, List, Has, keep, find, Has-keep,
  keep-Has, find-eq-some, find-eq-none,
}

-- `file_path` is that of the joined file (`include: { file: { select: { path: true } } }`).
pub record ChunkRow : Type 0 where
  pub id : String
  pub repository_id : String
  pub file_id : String
  pub symbol : String
  pub symbol_type : String
  pub parent_symbol : Option String
  pub language : String
  pub start_line : ℕ
  pub end_line : ℕ
  pub content : String
  pub file_path : String

pub record FileRow : Type 0 where
  pub id : String
  pub repository_id : String
  pub path : String

pub record RelationshipRow : Type 0 where
  pub repository_id : String
  pub from_chunk_id : String
  pub from_chunk : ChunkRow
  pub to_chunk_id : Option String
  pub to_chunk : Option ChunkRow

-- `findMany` returns the rows that satisfy the `where` clause; `findFirst` and `findUnique` return
-- such a row, or `null` if there is none.
pub record Query (Row : Type 0) : Type 0 where
  pub rows : List Row
  pub find_many : (Row → Bool) → List Row
  pub find_many_iff : (p : Row → Bool) (r : Row) → Has r (find_many p) ↔ (Has r rows × (p r ≡ true))
  pub find_first : (Row → Bool) → Option Row
  pub find_first-some :
      (p : Row → Bool) (r : Row) → find_first p ≡ some r → Has r rows × (p r ≡ true)
  pub find_first-none :
      (p : Row → Bool) → find_first p ≡ none → (r : Row) → Has r rows → p r ≡ false

-- A table that is a list of rows, read from the front.
abbrev pub listing : {Row : Type 0} → List Row → Query Row
listing rows = record {
  rows = rows;
  find_many = λ p. keep p rows;
  find_many_iff = λ p r. (Has-keep p rows r, λ h. keep-Has p rows r h.0 h.1);
  find_first = λ p. find p rows;
  find_first-some = λ p r e. find-eq-some p rows {a = r} e;
  find_first-none = λ p e r h. find-eq-none p rows e r h;
}
