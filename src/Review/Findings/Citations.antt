-- ===== src/Review/Findings/Citations.antt =====
-- What a saved citation says.
use code_trace.Prelude.{
  String, ◌≡◌, refl, ap, suc, subst, inl, inr, ◌∙◌, Option, none, some, List, [], ◌∷◌, map, arith,
  Has, Has-map, lookup, Bool-cases, text_eq, length,
}
use code_trace.Review.Types.{Citation, PrFinding}
use code_trace.Retrieval.Types.{RetrievedChunk}
use code_trace.Chat.Citations.{
  validate_citation, validate_citation-Cites, Cites, citation_key, chunk_by_file_and_lines,
}
use code_trace.Review.Findings.{
  RawLlmFinding, finding_of, findings_of, checked_citation, if_valid, citation_for,
}

if_valid-eq-some :
    (citable : List RetrievedChunk) (o : Option Citation) (citation : Citation)
    → if_valid citable o ≡ some citation
    → (o ≡ some citation) × Cites citable citation
unfolding if_valid
if_valid-eq-some citable none citation h = absurd (cc h)
if_valid-eq-some citable (some c) citation h = elim (Bool-cases (validate_citation c citable)) [
  | inl e ↦
      let same : c ≡ citation = cc (rw e at h) in
      (ap some same, subst (Cites citable) same (validate_citation-Cites c citable e))
  | inr e ↦ absurd (cc (rw e at h))
]

citation_for-eq-some :
    (f : RawLlmFinding) (o : Option String) (citation : Citation)
    → citation_for f o ≡ some citation
    → (citation.file ≡ f.citation_file)
      × (citation.start_line ≡ f.citation_start_line)
      × (citation.end_line ≡ f.citation_end_line)
unfolding citation_for
citation_for-eq-some f none citation h = absurd (cc h)
citation_for-eq-some f (some id) citation h = ground arith

-- Whatever the language model replied: there is one finding for each that it reported, and a
-- finding that is saved with a citation cites the file and lines that the model gave, which are
-- exactly those of a citable chunk, and names that chunk's id.
pub findings_of-Cites :
    (citable : List RetrievedChunk) (raw : List RawLlmFinding)
    → (length (findings_of citable raw) ≡ length raw)
      × ((f : PrFinding) (citation : Citation)
          → Has f (findings_of citable raw)
          → f.citation ≡ some citation
          → Cites citable citation
            × (r : RawLlmFinding) × Has r raw
            × (citation.file ≡ r.citation_file)
            × (citation.start_line ≡ r.citation_start_line)
            × (citation.end_line ≡ r.citation_end_line))
unfolding findings_of finding_of checked_citation
findings_of-Cites citable raw = (
  length-map _ raw,
  λ f citation h e.
      let (r, listed, made) =
        Has-map (finding_of (chunk_by_file_and_lines citable) citable) f raw h in
      let (cited, valid) = if_valid-eq-some citable _ citation (checked r f citation made e) in
      let (file, from, to) =
        citation_for-eq-some r
          (lookup (citation_key r.citation_file r.citation_start_line r.citation_end_line)
            (chunk_by_file_and_lines citable))
          citation cited in
      (valid, r, listed, file, from, to),
)
  where
    length-map : {A B : Type 0} (g : A → B) (xs : List A) → length (map g xs) ≡ length xs
    length-map g [] = refl
    length-map g (x ∷ xs) = ap suc (length-map g xs)

    checked :
        (r : RawLlmFinding) (f : PrFinding) (citation : Citation)
        → finding_of (chunk_by_file_and_lines citable) citable r ≡ f
        → f.citation ≡ some citation
        → if_valid citable (
            citation_for r (
              lookup
                (citation_key r.citation_file r.citation_start_line r.citation_end_line)
                (chunk_by_file_and_lines citable)))
          ≡ some citation
    checked r f citation made e = ap (λ x. x.citation) made ∙ e
