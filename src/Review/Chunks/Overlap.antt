-- ===== src/Review/Chunks/Overlap.antt =====
-- Which chunks a diff touches, and which symbols have a test.
use Prim.Native.Nat.{max}
use code_trace.Prelude.{
  ℕ, ◌≤◌, String, ◌≡◌, refl, sym, ap, ◌∙◌, ◌↔◌, ◌⊎◌, inl, inr, true, List, [], ◌∷◌, arith, Has,
  Has-map, map-Has, subst, Has-append, Has-append_left, Has-append_right, eq_iff, Option-cases,
  not_both, text_eq, contains, codes,
}
use code_trace.Database.{ChunkRow, FileRow, Query}
use code_trace.Review.Types.{ChangedLineRange, ChunkRef}
use code_trace.Review.Chunks.{
  is_file_at, is_overlapping, ref_at, chunks_of_range, map_changed_lines_to_chunks, is_test_chunk,
  has_test_coverage,
}

-- A line of the file stands both in the chunk and in the changed range.
abbrev pub SharesLine : ChunkRow → ChangedLineRange → Type 0
SharesLine c range =
    (line : ℕ) × (c.start_line ≤ line)
    × (line ≤ c.end_line)
    × (range.start_line ≤ line)
    × (line ≤ range.end_line)

-- The chunk is of a file of the repository at the range's path, and overlaps the range.
abbrev pub Touches : Query FileRow → Query ChunkRow → String → ChangedLineRange → ChunkRow → Type 0
Touches files chunks repository_id range c =
    (file : FileRow) × Has file files.rows
    × (file.repository_id ≡ repository_id)
    × (file.path ≡ range.file_path)
    × Has c chunks.rows
    × (c.file_id ≡ file.id)
    × (c.start_line ≤ range.end_line)
    × (range.start_line ≤ c.end_line)

-- The unique constraint `@@unique([repositoryId, path])` of `File`.
abbrev pub HasUniquePaths : List FileRow → Type 0
HasUniquePaths rows =
    (f g : FileRow)
    → Has f rows
    → Has g rows
    → f.repository_id ≡ g.repository_id
    → f.path ≡ g.path
    → f ≡ g

module _ (files : Query FileRow) (chunks : Query ChunkRow) (repository_id : String) where
  chunks_of_range_sound :
      (range : ChangedLineRange) (x : ChunkRef)
      → Has x (chunks_of_range files chunks repository_id range)
      → (c : ChunkRow) × (x ≡ ref_at range.file_path c) × Touches files chunks repository_id range c
  unfolding chunks_of_range
  chunks_of_range_sound range x =
      elim (Option-cases (files.find_first (is_file_at repository_id range.file_path))) [
        | inl e ↦ rw (e, chunks_of_range) (λ h. absurd h)
        | inr (file, e) ↦
            rw (e, chunks_of_range)
              (λ h.
                let (c, k, same) = Has-map (ref_at range.file_path) x _ h in
                let (listed, test) = (chunks.find_many_iff (is_overlapping file.id range) c).0 k in
                let (stored, at) = files.find_first-some _ file e in
                let lines : (c.file_id ≡ file.id)
                    × (c.start_line ≤ range.end_line)
                    × (range.start_line ≤ c.end_line) =
                  ground (arith, eq_iff c.file_id file.id) in
                let path : (file.repository_id ≡ repository_id) × (file.path ≡ range.file_path) =
                  ground (
                    arith,
                    eq_iff file.repository_id repository_id,
                    eq_iff file.path range.file_path,
                  ) in
                (c, sym same, (file, stored, path.0, path.1, listed, lines.0, lines.1, lines.2)))
      ]

  chunks_of_range_complete :
      HasUniquePaths files.rows
      → (range : ChangedLineRange) (c : ChunkRow) → Touches files chunks repository_id range c
      → Has (ref_at range.file_path c) (chunks_of_range files chunks repository_id range)
  unfolding chunks_of_range
  chunks_of_range_complete unique range c (file, stored, repo, path, listed, same, from, to) =
      elim (Option-cases (files.find_first (is_file_at repository_id range.file_path))) [
        | inl e ↦
            absurd
              (not_both (is_file_at-eq_true file repo path) (files.find_first-none _ e file stored))
        | inr (found, e) ↦
            let (kept, at) = files.find_first-some _ found e in
            let (repo', path') = is_file_at-parts found at in
            let one_file = unique found file kept stored (repo' ∙ sym repo) (path' ∙ sym path) in
            let test : is_overlapping found.id range c ≡ true =
              ground (arith, eq_iff c.file_id found.id, ap (λ f. f.id) one_file) in
            rw (e, chunks_of_range)
              (map-Has (ref_at range.file_path) c _ ((chunks.find_many_iff _ c).1 (listed, test)))
      ]
    where
      is_file_at-eq_true :
          (f : FileRow)
          → f.repository_id ≡ repository_id
          → f.path ≡ range.file_path
          → is_file_at repository_id range.file_path f ≡ true
      is_file_at-eq_true f r p =
          ground (arith, eq_iff f.repository_id repository_id, eq_iff f.path range.file_path)

      is_file_at-parts :
          (f : FileRow)
          → is_file_at repository_id range.file_path f ≡ true
          → (f.repository_id ≡ repository_id) × (f.path ≡ range.file_path)
      is_file_at-parts f h =
          ground (arith, eq_iff f.repository_id repository_id, eq_iff f.path range.file_path)

  -- The chunk and the range have a line in common, where neither is empty.
  shared_line :
      (c : ChunkRow) (range : ChangedLineRange)
      → c.start_line ≤ c.end_line
      → range.start_line ≤ range.end_line
      → ((c.start_line ≤ range.end_line) × (range.start_line ≤ c.end_line)) ↔ SharesLine c range
  shared_line c range filled filled' = (
    λ h. (max c.start_line range.start_line, omega arith, omega arith, omega arith, omega arith),
    λ h. let (line, a, b, d, e) = h in (omega arith, omega arith),
  )

  -- The changed chunks are exactly those that the changed ranges touch: each result is the
  -- reference, under the range's path, of a stored chunk of the file at that path which overlaps the
  -- range; and, if a path has one file in a repository, each such chunk is among the results.
  pub map_changed_lines_exact :
      (ranges : List ChangedLineRange)
      → ((x : ChunkRef)
          → Has x (map_changed_lines_to_chunks files chunks repository_id ranges)
          → (range : ChangedLineRange) × Has range ranges
            × (c : ChunkRow) × (x ≡ ref_at range.file_path c)
            × Touches files chunks repository_id range c)
        × (HasUniquePaths files.rows
            → (range : ChangedLineRange) (c : ChunkRow) → Has range ranges
            → Touches files chunks repository_id range c
            → Has
                (ref_at range.file_path c)
                (map_changed_lines_to_chunks files chunks repository_id ranges))
  unfolding map_changed_lines_to_chunks
  map_changed_lines_exact [] = ((λ x h. absurd h), λ unique range c h t. absurd h)
  map_changed_lines_exact (range ∷ ranges) =
      let (sound, complete) = map_changed_lines_exact ranges in
      (
        λ x h. elim (Has-append x (chunks_of_range files chunks repository_id range) _ h) [
          | inl here ↦
              let (c, same, t) = chunks_of_range_sound range x here in (range, inl refl, c, same, t)
          | inr later ↦ let (other, k, c, same, t) = sound x later in (other, inr k, c, same, t)
        ],
        λ unique other c h t. elim h [
          | inl same ↦ Has-append_left _ (chunks_of_range files chunks repository_id range) _ (
              subst
                (λ r.
                  Touches files chunks repository_id r c
                  → Has (ref_at r.file_path c) (chunks_of_range files chunks repository_id range))
                same (chunks_of_range_complete unique range c) t)
          | inr later ↦
              Has-append_right _ (chunks_of_range files chunks repository_id range) _
                (complete unique other c later t)
        ],
      )

  -- A symbol has test coverage exactly if a chunk of the repository whose symbol contains it is
  -- stored in a file whose path contains ".test.", ".spec." or "__tests__".
  pub has_test_coverage_iff :
      (symbol : String)
      → (has_test_coverage chunks repository_id symbol ≡ true) ↔ (
          (c : ChunkRow) × Has c chunks.rows
          × (c.repository_id ≡ repository_id)
          × (contains (codes symbol) (codes c.symbol) ≡ true)
          × ((contains (codes ".test.") (codes c.file_path) ≡ true)
              ⊎ ((contains (codes ".spec.") (codes c.file_path) ≡ true)
                  ⊎ (contains (codes "__tests__") (codes c.file_path) ≡ true))))
  unfolding has_test_coverage
  has_test_coverage_iff symbol =
      elim (Option-cases (chunks.find_first (is_test_chunk repository_id symbol))) [
        | inl e ↦
            rw (e, has_test_coverage)
              (
                (λ h. absurd (cc h)),
                λ h.
                    let (c, k, repo, sym_in, path) = h in
                    let test : is_test_chunk repository_id symbol c ≡ true =
                      ground (arith, eq_iff c.repository_id repository_id) in
                    absurd (not_both test (chunks.find_first-none _ e c k)),
              )
        | inr (c, e) ↦
            let (k, test) = chunks.find_first-some _ c e in
            rw (e, has_test_coverage)
              (
                (λ h. (
                  c,
                  k,
                  ground (arith, eq_iff c.repository_id repository_id),
                  ground arith,
                  ground arith,
                )),
                λ h. refl,
              )
      ]
