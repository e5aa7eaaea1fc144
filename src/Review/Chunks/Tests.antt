-- ===== src/Review/Chunks/Tests.antt =====
-- Two files with three chunks and two relationships between them.
use code_trace.Prelude.{ℕ, String, ◌≡◌, refl, inl, inr, some, none, List, [], ◌∷◌, Has, arith}
use code_trace.Database.{ChunkRow, FileRow, RelationshipRow, listing}
use code_trace.Review.Types.{ChangedLineRange}
use code_trace.Review.Chunks.{ref_at, chunks_of_range, map_changed_lines_to_chunks, one_hop}
use code_trace.Review.Chunks.Overlap.{HasUniquePaths, map_changed_lines_exact}
use code_trace.Review.Chunks.Dependencies.{ids_of, IsJoined, one_hop_exact}

abbrev chunk_row : String → String → String → ℕ → ℕ → ChunkRow
chunk_row id file_id path from to = record {
  id = id;
  repository_id = "repo";
  file_id = file_id;
  symbol = id;
  symbol_type = "function";
  parent_symbol = none;
  language = "ts";
  start_line = from;
  end_line = to;
  content = "";
  file_path = path;
}

abbrev login : ChunkRow
login = chunk_row "login" "f" "a.ts" 1 9

abbrev logout : ChunkRow
logout = chunk_row "logout" "f" "a.ts" 11 19

abbrev login_test : ChunkRow
login_test = chunk_row "login works" "g" "a.test.ts" 1 4

abbrev file_rows : List FileRow
file_rows = record { id = "f"; repository_id = "repo"; path = "a.ts" } ∷ []

abbrev chunk_rows : List ChunkRow
chunk_rows = login ∷ logout ∷ login_test ∷ []

-- `logout` calls `login`, and the test calls `login` too.
abbrev relationship_rows : List RelationshipRow
relationship_rows =
    record {
      repository_id = "repo";
      from_chunk_id = "logout";
      from_chunk = logout;
      to_chunk_id = some "login";
      to_chunk = some login;
    }
    ∷ record {
      repository_id = "repo";
      from_chunk_id = "login works";
      from_chunk = login_test;
      to_chunk_id = some "login";
      to_chunk = some login;
    }
    ∷ []

abbrev lines_9_to_11 : ChangedLineRange
lines_9_to_11 = record { file_path = "a.ts"; start_line = 9; end_line = 11 }

file_rows-HasUniquePaths : HasUniquePaths file_rows
file_rows-HasUniquePaths f g (inl e) (inl h) same path = cc
file_rows-HasUniquePaths f g (inl e) (inr h) same path = absurd h
file_rows-HasUniquePaths f g (inr e) h same path = absurd e

relationship_rows-IsJoined : IsJoined relationship_rows
relationship_rows-IsJoined rel (inl e) = rw⁻¹ e refl
relationship_rows-IsJoined rel (inr (inl e)) = rw⁻¹ e refl
relationship_rows-IsJoined rel (inr (inr e)) = absurd e

lines_test :
    map_changed_lines_to_chunks (listing file_rows) (listing chunk_rows) "repo" (lines_9_to_11 ∷ [])
    ≡ ref_at "a.ts" login ∷ ref_at "a.ts" logout ∷ []
unfolding map_changed_lines_to_chunks chunks_of_range
lines_test = refl

map_changed_lines_exact_example : Has (ref_at "a.ts" logout) (
    map_changed_lines_to_chunks
      (listing file_rows)
      (listing chunk_rows)
      "repo"
      (lines_9_to_11 ∷ []))
map_changed_lines_exact_example =
    (map_changed_lines_exact (listing file_rows) (listing chunk_rows) "repo" (lines_9_to_11 ∷ [])).1
      file_rows-HasUniquePaths lines_9_to_11 logout (inl refl)
      (
        record { id = "f"; repository_id = "repo"; path = "a.ts" },
        inl refl,
        refl,
        refl,
        inr (inl refl),
        refl,
        omega arith,
        omega arith,
      )

one_hop_exact_example :
    Has "login works" (ids_of (one_hop (listing relationship_rows) "repo" ("login" ∷ [])))
one_hop_exact_example =
    (one_hop_exact (listing relationship_rows) "repo" ("login" ∷ []) relationship_rows-IsJoined).3
      (record {
        repository_id = "repo";
        from_chunk_id = "login works";
        from_chunk = login_test;
        to_chunk_id = some "login";
        to_chunk = some login;
      })
      login_test (inr (inl refl)) refl (inl refl, λ h. elim h [ inl e ↦ absurd (cc e) | inr e ↦ e ])
