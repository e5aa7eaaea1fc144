-- ===== src/Review/Diff/Ranges.antt =====
-- The changed ranges of a patch, and which files of a pull request contribute to its diff.
use code_trace.Prelude.{
  ℕ, ◌+◌, ◌≤◌, String, ◌≡◌, refl, sym, ◌≢◌, inl, inr, Option, none, some, List, [], ◌∷◌, ◌++◌,
  arith, Text, Has, Has-append, lookup, lookup-insert, text_eq, eq_iff, Option-cases, get_or, Map,
  ◌==◌, Bool-cases, subst,
}
use mathlib.Core.List.{append-nil, append_assoc}
use code_trace.Review.Types.{ChangedLineRange, PrDiffFile, FileStatus, removed, PrDiffResult}
use code_trace.Review.Diff.{
  hunk_header, Progress, parse_line, parse_lines, parse_unified_diff, split_lines, start,
  usable_patch, collect_file, collect_files, no_diff, pr_diff_of_files, header_ranges,
}

-- The range that a line announces, if it is the header of a hunk that leaves a line in the new file.
pub announced : String → Text → List ChangedLineRange
announced file_path line = elim (hunk_header line) [
  | none ↦ []
  | some (new_start, new_lines) ↦ header_ranges file_path new_start (get_or new_lines 1)
]

pub announced_by : String → List Text → List ChangedLineRange
announced_by file_path [] = []
announced_by file_path (line ∷ lines) = announced file_path line ++ announced_by file_path lines

ranges-parse_line :
    (file_path : String) (i : ℕ) (line : Text) (p : Progress)
    → (parse_line file_path i line p).ranges ≡ p.ranges ++ announced file_path line
unfolding parse_line announced
ranges-parse_line file_path i line p = elim (Option-cases (hunk_header line)) [
  | inl e ↦ rw (e, parse_line) (rw (e, announced) (rw append-nil (ground arith)))
  | inr (s, e) ↦ ground arith
]

ranges-parse_lines :
    (file_path : String) (i : ℕ) (lines : List Text) (p : Progress)
    → (parse_lines file_path i lines p).ranges ≡ p.ranges ++ announced_by file_path lines
unfolding parse_lines announced_by
ranges-parse_lines file_path i [] p = sym (append-nil _)
ranges-parse_lines file_path i (line ∷ lines) p =
    rw
      (
        ranges-parse_lines file_path (i + 1) lines (parse_line file_path i line p),
        ranges-parse_line,
      )
      (append_assoc p.ranges (announced file_path line) (announced_by file_path lines))

-- The ranges of a patch are those that its hunk headers announce, in their order.
pub ranges-parse_unified_diff :
    (file_path : String) (patch : Text)
    → (parse_unified_diff file_path patch).ranges ≡ announced_by file_path (split_lines patch)
unfolding parse_unified_diff
ranges-parse_unified_diff file_path patch = ranges-parse_lines file_path 0 (split_lines patch) start

-- A range of the file: it is not empty, and ends no earlier than it starts.
abbrev pub IsRangeOf : String → ChangedLineRange → Type 0
IsRangeOf file_path r = (r.file_path ≡ file_path) × (r.start_line ≤ r.end_line)

announced-IsRangeOf :
    (file_path : String) (line : Text) (r : ChangedLineRange)
    → Has r (announced file_path line)
    → IsRangeOf file_path r
unfolding announced header_ranges
announced-IsRangeOf file_path line r = elim (Option-cases (hunk_header line)) [
  | inl e ↦ rw (e, announced) (λ h. absurd h)
  | inr ((s, n), e) ↦ λ h. ground arith
]

announced_by-IsRangeOf :
    (file_path : String) (lines : List Text) (r : ChangedLineRange)
    → Has r (announced_by file_path lines)
    → IsRangeOf file_path r
unfolding announced_by
announced_by-IsRangeOf file_path [] r h = absurd h
announced_by-IsRangeOf file_path (line ∷ lines) r h =
    elim (Has-append r (announced file_path line) (announced_by file_path lines) h) [
      | inl l ↦ announced-IsRangeOf file_path line r l
      | inr k ↦ announced_by-IsRangeOf file_path lines r k
    ]

-- The file is listed, is not removed, and came with this patch.
abbrev pub Contributes : List PrDiffFile → PrDiffFile → Text → Type 0
Contributes files file patch =
    Has file files × (file.status ≢ removed) × (file.patch ≡ some patch) × (patch ≢ [])

usable_patch-eq-some :
    (status : FileStatus) (patch : Option Text) (text : Text)
    → usable_patch status patch ≡ some text
    → (status ≢ removed) × (patch ≡ some text) × (text ≢ [])
unfolding usable_patch
usable_patch-eq-some removed patch text h = absurd (cc h)
usable_patch-eq-some _ none text h = absurd (cc h)
usable_patch-eq-some _ (some []) text h = absurd (cc h)
usable_patch-eq-some _ (some (c ∷ cs)) text h = ground arith

-- What a range, or a table of positions, of the collected diff comes from.
abbrev RangeFrom : List PrDiffFile → ChangedLineRange → Type 0
RangeFrom files r =
    (file : PrDiffFile) × (patch : Text) × Contributes files file patch
    × Has r (announced_by file.path (split_lines patch))

abbrev TableFrom : List PrDiffFile → String → Map ℕ ℕ → Type 0
TableFrom files path m =
    (file : PrDiffFile) × (patch : Text) × Contributes files file patch
    × (file.path ≡ path)
    × (m ≡ (parse_unified_diff path patch).position_by_new_line)

record From (files : List PrDiffFile) (r : PrDiffResult) : Type 0 where
  range : (x : ChangedLineRange) → Has x r.changed_ranges → RangeFrom files x
  table :
      (path : String) (m : Map ℕ ℕ)
      → lookup path r.position_by_file_and_line ≡ some m
      → TableFrom files path m

module _ (all : List PrDiffFile) (file : PrDiffFile) (listed : Has file all) (r : PrDiffResult)
    (h : From all r) where
  collect_file-patch :
      (patch : Text)
      → usable_patch file.status file.patch ≡ some patch
      → From all (collect_file file r)
  unfolding collect_file
  collect_file-patch patch e =
      let (status, given, filled) = usable_patch-eq-some file.status file.patch patch e in
      let from : Contributes all file patch = (listed, status, given, filled) in
      rw (e, collect_file)
        (record {
          range = λ x k. elim (Has-append x r.changed_ranges _ k) [
            | inl old ↦ h.range x old
            | inr new ↦
                (file, patch, from, subst (Has x) (ranges-parse_unified_diff file.path patch) new)
          ];
          table = λ path m. rw lookup-insert (λ k. elim (Bool-cases (file.path == path)) [
            | inl same ↦
                let same_path = (eq_iff file.path path).0 same in
                let found = rw same at k in (file, patch, from, same_path, cc)
            | inr other ↦ h.table path m (rw other at k)
          ]);
        })

  collect_file-From : From all (collect_file file r)
  unfolding collect_file
  collect_file-From = elim (Option-cases (usable_patch file.status file.patch)) [
    | inl e ↦ rw (e, collect_file) h
    | inr (patch, e) ↦ collect_file-patch patch e
  ]

collect_files-From :
    (all files : List PrDiffFile) (r : PrDiffResult)
    → ((file : PrDiffFile) → Has file files → Has file all)
    → From all r
    → From all (collect_files files r)
unfolding collect_files
collect_files-From all [] r listed h = h
collect_files-From all (file ∷ files) r listed h =
    collect_files-From all files (collect_file file r) (λ f k. listed f (inr k))
      (collect_file-From all file (listed file (inl refl)) r h)

From-no_diff : (files : List PrDiffFile) → From files no_diff
unfolding lookup
From-no_diff files = record { range = λ x h. absurd h; table = λ path m h. cc }

-- Whatever files GitHub lists: a changed range of the diff names a listed file that is not removed,
-- is announced by a header of that file's patch, and ends no earlier than it starts; and the table
-- of positions of a path is that of the patch of a listed file with the path that is not removed.
pub pr_diff_sound :
    (files : List PrDiffFile)
    → let r = pr_diff_of_files files in
      ((x : ChangedLineRange)
        → Has x r.changed_ranges
        → (file : PrDiffFile) × (patch : Text) × Contributes files file patch
          × Has x (announced_by file.path (split_lines patch))
          × IsRangeOf file.path x)
      × ((path : String) (m : Map ℕ ℕ)
          → lookup path r.position_by_file_and_line ≡ some m
          → (file : PrDiffFile) × (patch : Text) × Contributes files file patch
            × (file.path ≡ path)
            × (m ≡ (parse_unified_diff path patch).position_by_new_line))
unfolding pr_diff_of_files
pr_diff_sound files =
    let from = collect_files-From files files no_diff (λ file h. h) (From-no_diff files) in
    (
      λ x h.
          let (file, patch, c, k) = from.range x h in
          (file, patch, c, k, announced_by-IsRangeOf file.path (split_lines patch) x k),
      from.table,
    )
