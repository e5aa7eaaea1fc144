-- ===== src/Chat/Ask/Citing.antt =====
-- Citations that an answer prints as the prompt prints them are found again.
use code_trace.Prelude.{
  ℕ, String, ◌≡◌, ◌≢◌, refl, sym, ◌∙◌, ◌↔◌, ap, subst, inl, inr, some, List, [], ◌∷◌, Has, All,
  Option-cases, not_both, Map, lookup, Bool-cases, ◌+++◌, ◌==◌, text_eq,
}
use code_trace.Review.Types.{Citation}
use code_trace.Chat.Citations.{citation_key}
use code_trace.Chat.Pattern.{CitationMatch, match_all}
use code_trace.Chat.Ask.Printed.{
  IsName, HasNoBracket, matched, match_all-plain, match_all-printed, printed-citation_key,
}
use code_trace.Chat.Ask.{cited, extract_citations}

abbrev pub citation : String → ℕ → ℕ → String → Citation
citation file start_line end_line id = record {
  file = file;
  start_line = start_line;
  end_line = end_line;
  chunk_id = id;
}

cited-first :
    (chunk_ids : Map String String) (m : CitationMatch) (ms : List CitationMatch) (id : String)
    → lookup (citation_key m.file m.start_line m.end_line) chunk_ids ≡ some id
    → id ≢ ""
    → Has (citation m.file m.start_line m.end_line id) (cited chunk_ids (m ∷ ms))
unfolding cited
cited-first chunk_ids m ms id found some_id = elim (Bool-cases (id == "")) [
  | inl e ↦ absurd (some_id ((text_eq.beq_iff id "").0 e))
  | inr e ↦ rw (found, e) (inl refl)
]

-- An answer is text and citations.
pub data Part : Type 0 where
  prose : String → Part
  citing : String → ℕ → ℕ → Part

abbrev pub print_part : Part → String
print_part (prose text) = text
print_part (citing file start_line end_line) = "[" +++ citation_key file start_line end_line +++ "]"

abbrev pub print : List Part → String
print [] = ""
print (part ∷ parts) = print_part part +++ print parts

-- No bracket opens in the text, and the path of a citation is not empty and has neither a colon nor a
-- closing bracket.
abbrev pub IsReadable : Part → Type 0
IsReadable (prose text) = HasNoBracket text
IsReadable (citing file start_line end_line) = IsName file × (file ≢ "")

data Read : List Part → List CitationMatch → Type 0 where
  read_end : Read [] []
  read_prose :
      (text : String) (parts : List Part) (ms : List CitationMatch)
      → Read parts ms
      → Read (prose text ∷ parts) ms
  read_citing :
      (file : String) (start_line end_line k : ℕ) (parts : List Part) (ms : List CitationMatch)
      → Read parts ms
      → Read (citing file start_line end_line ∷ parts) (matched file start_line end_line k ∷ ms)

match_all-print :
    (parts : List Part)
    → All IsReadable parts
    → (ms : List CitationMatch) × (match_all 0 (print parts) ≡ ms) × Read parts ms
unfolding match_all
match_all-print [] h = ([], refl, read_end)
match_all-print (prose text ∷ parts) (plain, h) =
    let (ms, found, read) = match_all-print parts h in
    (ms, match_all-plain text (print parts) plain ∙ found, read_prose text parts ms read)
match_all-print (citing file start_line end_line ∷ parts) ((name, some_file), h) =
    let (ms, found, read) = match_all-print parts h in
    let (k, first) = match_all-printed file start_line end_line (print parts) name some_file in
    (
      matched file start_line end_line k ∷ ms,
      ap (match_all 0) (printed-citation_key file start_line end_line (print parts))
          ∙ first
          ∙ ap (λ later. matched file start_line end_line k ∷ later) found,
      read_citing file start_line end_line k parts ms read,
    )

module _ (chunk_ids : Map String String) where
  -- The citation stands in the answer and names a listed chunk.
  abbrev pub IsCited : Citation → List Part → Type 0
  IsCited c parts =
      Has (citing c.file c.start_line c.end_line) parts
      × (lookup (citation_key c.file c.start_line c.end_line) chunk_ids ≡ some c.chunk_id)
      × (c.chunk_id ≢ "")

  cited-IsCited :
      (c : Citation) {parts : List Part} {ms : List CitationMatch}
      → Read parts ms
      → Has c (cited chunk_ids ms)
      → IsCited c parts
  unfolding cited
  cited-IsCited c read_end h = absurd h
  cited-IsCited c (read_prose text parts ms read) h =
      let (listed, found, some_id) = cited-IsCited c read h in (inr listed, found, some_id)
  cited-IsCited c (read_citing file start_line end_line k parts ms read) h =
      let later : Has c (cited chunk_ids ms) → IsCited c (citing file start_line end_line ∷ parts) =
        λ rest.
          let (listed, found, some_id) = cited-IsCited c read rest in
          (inr listed, found, some_id) in
      elim (Option-cases (lookup (citation_key file start_line end_line) chunk_ids)) [
        | inl e ↦ later (rw e at h)
        | inr (id, e) ↦ elim (Bool-cases (id == "")) [
          | inl empty ↦ later (rw (e, empty) at h)
          | inr some_id ↦ elim (rw (e, some_id) at h) [
            | inl same ↦
                subst (λ d. IsCited d (citing file start_line end_line ∷ parts)) same
                  (inl refl, e, λ is. not_both ((text_eq.beq_iff id "").1 is) some_id)
            | inr rest ↦ later rest
          ]
        ]
      ]

  cited-later :
      (c : Citation) (m : CitationMatch) (ms : List CitationMatch)
      → Has c (cited chunk_ids ms)
      → Has c (cited chunk_ids (m ∷ ms))
  unfolding cited
  cited-later c m ms h =
      elim (Option-cases (lookup (citation_key m.file m.start_line m.end_line) chunk_ids)) [
        | inl e ↦ rw e h
        | inr (id, e) ↦ elim (Bool-cases (id == "")) [
          | inl empty ↦ rw (e, empty) h
          | inr some_id ↦ rw (e, some_id) (inr h)
        ]
      ]

  IsCited-cited :
      (c : Citation) {parts : List Part} {ms : List CitationMatch}
      → Read parts ms
      → Has (citing c.file c.start_line c.end_line) parts
      → lookup (citation_key c.file c.start_line c.end_line) chunk_ids ≡ some c.chunk_id
      → c.chunk_id ≢ ""
      → Has c (cited chunk_ids ms)
  IsCited-cited c read_end h found some_id = absurd h
  IsCited-cited c (read_prose text parts ms read) (inl e) found some_id = absurd (cc e)
  IsCited-cited c (read_prose text parts ms read) (inr h) found some_id =
      IsCited-cited c read h found some_id
  IsCited-cited c (read_citing file start_line end_line k parts ms read) (inl e) found some_id =
      let same_match : matched file start_line end_line k
          ≡ matched c.file c.start_line c.end_line k =
        cc e in
      subst (λ m. Has c (cited chunk_ids (m ∷ ms))) (sym same_match)
        (cited-first chunk_ids (matched c.file c.start_line c.end_line k) ms c.chunk_id found
          some_id)
  IsCited-cited c (read_citing file start_line end_line k parts ms read) (inr h) found some_id =
      cited-later c _ ms (IsCited-cited c read h found some_id)

-- From an answer of text and of citations `[file:start-end]`, in any number and order, exactly those
-- citations are extracted that name a listed chunk whose id is not empty, each with that id. The conditions:
-- no bracket opens in the text around the citations, and a cited path is not empty and has neither a colon
-- nor a closing bracket.
pub extract_citations-citation_key :
    (parts : List Part) (chunk_ids : Map String String) (c : Citation)
    → All IsReadable parts
    → Has c (extract_citations (print parts) chunk_ids) ↔ IsCited chunk_ids c parts
unfolding extract_citations
extract_citations-citation_key parts chunk_ids c readable =
    let (ms, found, read) = match_all-print parts readable in
    let same : cited chunk_ids (match_all 0 (print parts)) ≡ cited chunk_ids ms =
      ap (cited chunk_ids) found in
    (
      λ h. cited-IsCited chunk_ids c read (subst (Has c) same h),
      λ (listed, id, some_id).
          subst (Has c) (sym same) (IsCited-cited chunk_ids c read listed id some_id),
    )
