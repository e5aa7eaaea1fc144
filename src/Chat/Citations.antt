-- ===== src/Chat/Citations.antt =====
-- citation-validator.service.ts, and the keys under which chat.service.ts and pr-review.service.ts
-- find the chunk of a citation.
use code_trace.Prelude.{
  ℕ, String, ◌≡◌, refl, Bool, true, false, ◌&&◌, Option, none, some, List, [], map, arith, find,
  find-eq-some, ◌==◌, text_eq, number_eq, eq_iff, show, ◌+++◌, Has, Map, insert_all,
}
use code_trace.Review.Types.{Citation}
use code_trace.Retrieval.Types.{RetrievedChunk}

-- the three tests on the chunk that `find` returned
unfoldable pub agrees : Citation → Option RetrievedChunk → Bool
agrees citation none = false
agrees citation (some match) =
    match.file_path == citation.file
    && (match.start_line == citation.start_line && match.end_line == citation.end_line)

unfoldable pub validate_citation : Citation → List RetrievedChunk → Bool
unfolding agrees
validate_citation citation chunks = agrees citation (find (λ c. c.id == citation.chunk_id) chunks)

-- `${file}:${startLine}-${endLine}`
unfoldable pub citation_key : String → ℕ → ℕ → String
citation_key file start_line end_line = file +++ ":" +++ show start_line +++ "-" +++ show end_line

unfoldable pub key_entries : List RetrievedChunk → List (String × String)
key_entries = map (λ (c : RetrievedChunk). (citation_key c.file_path c.start_line c.end_line, c.id))

unfoldable pub chunk_by_file_and_lines : List RetrievedChunk → Map String String
unfolding key_entries
chunk_by_file_and_lines chunks = insert_all (key_entries chunks) []

-- The citation names a chunk of the list, its file and exactly its lines.
abbrev pub Cites : List RetrievedChunk → Citation → Type 0
Cites chunks citation =
    (c : RetrievedChunk) × Has c chunks
    × (c.id ≡ citation.chunk_id)
    × (c.file_path ≡ citation.file)
    × (c.start_line ≡ citation.start_line)
    × (c.end_line ≡ citation.end_line)

-- A citation that passes the check names a chunk of the list, its file and exactly its lines.
pub validate_citation-Cites :
    (citation : Citation) (chunks : List RetrievedChunk)
    → validate_citation citation chunks ≡ true
    → Cites chunks citation
unfolding validate_citation
validate_citation-Cites citation chunks h = go (find (λ c. c.id == citation.chunk_id) chunks) refl h
  where
    go :
        (o : Option RetrievedChunk)
        → find (λ c. c.id == citation.chunk_id) chunks ≡ o
        → agrees citation o ≡ true
        → Cites chunks citation
    go none e k = absurd (cc k)
    go (some c) e k =
        let (listed, test) = find-eq-some (λ c. c.id == citation.chunk_id) chunks {a = c} e in
        let parts : (c.file_path ≡ citation.file)
            × (c.start_line ≡ citation.start_line)
            × (c.end_line ≡ citation.end_line) =
          ground (arith, eq_iff c.file_path citation.file) in
        (c, listed, (eq_iff c.id citation.chunk_id).0 test, parts.0, parts.1, parts.2)
