-- ===== src/Review/Diff/Positions.antt =====
-- Which lines of a patch have a review position, and which line of the new file each one is.
use mathlib.Core.List.{reverse_aux, reverse-reverse, reverse_aux-reverse_aux-nil}
use code_trace.Prelude.{
  ℕ, ◌+◌, String, ◌≡◌, refl, sym, ap, subst, ◌∙◌, ◌≢◌, ◌⊎◌, inl, inr, Bool, true, false, Option,
  none, some, List, [], ◌∷◌, arith, Text, length, if◌then◌else◌, Map, lookup, insert, lookup-insert,
  number_eq, nat_eq_iff, Bool-cases, Option-cases, add-one,
}
use code_trace.Review.Diff.{
  hunk_header, is_skipped, Progress, parse_line, parse_lines, parse_unified_diff, split_lines,
  start,
}

-- A line that stands in the new file: neither a header, nor a removed line, nor the marker of a
-- missing newline, nor empty.
abbrev pub IsContent : Text → Type 0
IsContent [] = ⊥
IsContent (c ∷ text) = (c ≢ b'-') × (c ≢ b'\\') × (hunk_header (c ∷ text) ≡ none)

abbrev number_after : Option (ℕ × Option ℕ) → Bool → ℕ → ℕ
number_after (some (new_start, _)) skipped n = new_start
number_after none skipped n = if skipped then n else n + 1

-- The number in the new file of the line below the lines `above`, the nearest of them first: the
-- start of the hunk whose header is nearest, and one more for each line of the new file since.
pub number_below : List Text → ℕ
number_below [] = 0
number_below (line ∷ above) = number_after (hunk_header line) (is_skipped line) (number_below above)

IsContent-of : (line : Text) → hunk_header line ≡ none → is_skipped line ≡ false → IsContent line
unfolding is_skipped
IsContent-of [] h k = cc
IsContent-of (c ∷ text) h k = ground arith

skipped_of_IsContent : (line : Text) → IsContent line → is_skipped line ≡ false
unfolding is_skipped
skipped_of_IsContent [] h = absurd h
skipped_of_IsContent (c ∷ text) h = ground arith

header_of_IsContent : (line : Text) → IsContent line → hunk_header line ≡ none
header_of_IsContent [] h = absurd h
header_of_IsContent (c ∷ text) h = h.2

-- Among the lines `above` a content line with number `n` stands at index `q`.
abbrev Located : List Text → ℕ → ℕ → Type 0
Located [] n q = ⊥
Located (line ∷ above) n q =
    (IsContent line × (length above ≡ q) × (number_below above ≡ n)) ⊎ Located above n q

-- Each content line of `above` has a position.
abbrev Covered : Map ℕ ℕ → List Text → Type 0
Covered m [] = Unit
Covered m (line ∷ above) = (IsContent line → lookup (number_below above) m ≢ none) × Covered m above

record Inv (above : List Text) (p : Progress) : Type 0 where
  current : p.current_new_line ≡ number_below above
  located : (n q : ℕ) → lookup n p.position_by_new_line ≡ some q → Located above n q
  covered : Covered p.position_by_new_line above

Covered-insert :
    (m : Map ℕ ℕ) (k v : ℕ) (above : List Text) → Covered m above → Covered (insert k v m) above
Covered-insert m k v [] h = tt
Covered-insert m k v (line ∷ above) (h, hs) = (
  λ c. ground (arith, lookup-insert k (number_below above) v m, h c),
  Covered-insert m k v above hs,
)

module _ (file_path : String) (i : ℕ) (line : Text) (p : Progress) where
  position-parse_line_header :
      {s : ℕ × Option ℕ}
      → hunk_header line ≡ some s
      → ((parse_line file_path i line p).position_by_new_line ≡ p.position_by_new_line)
        × ((parse_line file_path i line p).current_new_line ≡ s.0)
  unfolding parse_line
  position-parse_line_header e = ground arith

  position-parse_line_skipped :
      hunk_header line ≡ none → is_skipped line ≡ true → parse_line file_path i line p ≡ p
  unfolding parse_line
  position-parse_line_skipped e k = ground arith

  position-parse_line_content :
      hunk_header line ≡ none
      → is_skipped line ≡ false
      → ((parse_line file_path i line p).position_by_new_line
          ≡ insert p.current_new_line i p.position_by_new_line)
        × ((parse_line file_path i line p).current_new_line ≡ p.current_new_line + 1)
  unfolding parse_line
  position-parse_line_content e k = ground arith

module _ (file_path : String) (above : List Text) (line : Text) (p : Progress)
    (inv : Inv above p) where
  parse_line-header :
      (s : ℕ × Option ℕ)
      → hunk_header line ≡ some s
      → Inv (line ∷ above) (parse_line file_path (length above) line p)
  unfolding number_below
  parse_line-header s e =
      let (same, current) = position-parse_line_header file_path (length above) line p e in
      record {
        current = rw (current, e) refl;
        located = λ n q. rw same (λ h. inr (inv.located n q h));
        covered = (
          λ c. absurd (cc (header_of_IsContent line c)),
          subst (λ m. Covered m above) (sym same) inv.covered,
        );
      }

  parse_line-skipped :
      hunk_header line ≡ none
      → is_skipped line ≡ true
      → Inv (line ∷ above) (parse_line file_path (length above) line p)
  unfolding number_below
  parse_line-skipped e k =
      rw (position-parse_line_skipped file_path (length above) line p e k) (record {
        current = rw (e, k) inv.current;
        located = λ n q h. inr (inv.located n q h);
        covered = (λ c. absurd (cc (skipped_of_IsContent line c)), inv.covered);
      })

  parse_line-content :
      hunk_header line ≡ none
      → is_skipped line ≡ false
      → Inv (line ∷ above) (parse_line file_path (length above) line p)
  unfolding number_below
  parse_line-content e k =
      let (same, current) = position-parse_line_content file_path (length above) line p e k in
      record {
        current = rw (current, e, k) (ap (λ m. m + 1) inv.current);
        located = λ n q. rw same (
            rw lookup-insert λ h. ground (
              arith,
              inv.located n q,
              nat_eq_iff p.current_new_line n,
              IsContent-of line e k,
              inv.current,
            ));
        covered = (
          λ c.
              rw (same, lookup-insert, ← inv.current)
                (ground (arith, nat_eq_iff p.current_new_line p.current_new_line)),
          subst (λ m. Covered m above) (sym same) (Covered-insert _ _ _ above inv.covered),
        );
      }

  parse_line-Inv : Inv (line ∷ above) (parse_line file_path (length above) line p)
  parse_line-Inv = elim (Option-cases (hunk_header line)) [
    | inr (s, e) ↦ parse_line-header s e
    | inl e ↦ elim (Bool-cases (is_skipped line)) [
      | inl k ↦ parse_line-skipped e k
      | inr k ↦ parse_line-content e k
    ]
  ]

parse_lines-Inv :
    (file_path : String) (lines above : List Text) (p : Progress)
    → Inv above p
    → Inv (reverse_aux lines above) (parse_lines file_path (length above) lines p)
unfolding parse_lines
parse_lines-Inv file_path [] above p inv = inv
parse_lines-Inv file_path (line ∷ lines) above p inv =
    rw add-one
      (parse_lines-Inv file_path lines (line ∷ above) _ (parse_line-Inv file_path above line p inv))

Inv-start : Inv [] start
unfolding number_below lookup
Inv-start = record { current = refl; located = λ n q h. cc; covered = tt }

-- A line of `lines`, with the lines above it, nearest first, and those below it.
pub record LineAt (lines : List Text) (q : ℕ) : Type 0 where
  pub line : Text
  pub above : List Text
  pub below : List Text
  pub shape : lines ≡ reverse_aux above (line ∷ below)
  pub index : length above ≡ q

locate :
    (above lines : List Text) (n q : ℕ)
    → Located above n q
    → (l : LineAt (reverse_aux above lines) q) × IsContent l.line × (number_below l.above ≡ n)
locate [] lines n q h = absurd h
locate (line ∷ above) lines n q (inl (c, index, num)) =
    (record { line = line; above = above; below = lines; shape = refl; index = index }, c, num)
locate (line ∷ above) lines n q (inr h) = locate above (line ∷ lines) n q h

Covered-at :
    (m : Map ℕ ℕ) (below : List Text) (line : Text) (above : List Text)
    → Covered m (reverse_aux below (line ∷ above))
    → IsContent line
    → lookup (number_below above) m ≢ none
Covered-at m below line above h c = (drop below (line ∷ above) h).0 c
  where
    drop : (xs ys : List Text) → Covered m (reverse_aux xs ys) → Covered m ys
    drop [] ys h = h
    drop (x ∷ xs) ys h = (drop xs (x ∷ ys) h).1

-- For every patch: a number of the new file has review position q only if line q of the patch is a
-- line of the new file with that number, and every such line's number has a position.
pub positions_exact :
    (file_path : String) (patch : Text)
    → let m = (parse_unified_diff file_path patch).position_by_new_line in
      ((n q : ℕ)
        → lookup n m ≡ some q
        → (l : LineAt (split_lines patch) q) × IsContent l.line × (number_below l.above ≡ n))
      × ((q : ℕ) (l : LineAt (split_lines patch) q)
          → IsContent l.line
          → lookup (number_below l.above) m ≢ none)
unfolding parse_unified_diff
positions_exact file_path patch =
    let lines = split_lines patch in
    let inv = parse_lines-Inv file_path lines [] start Inv-start in
    (
      λ n q h.
          subst (λ x. (l : LineAt x q) × IsContent l.line × (number_below l.above ≡ n))
            (reverse-reverse lines) (locate (reverse_aux lines []) [] n q (inv.located n q h)),
      λ q l c.
          Covered-at _ l.below l.line l.above
            (subst (Covered _)
              (ap (λ x. reverse_aux x []) l.shape
                ∙ reverse_aux-reverse_aux-nil l.above (l.line ∷ l.below))
              inv.covered)
            c,
    )
