-- ===== src/Review/Material/Grounded.antt =====
-- The citations of a saved review, against the table of chunks.
use code_trace.Prelude.{
  ◌≡◌, sym, ap, ◌∙◌, subst, Bool, some, List, map, Has, Has-append, Has-map, Bool-cases, inl, inr,
  ◌==◌, text_eq,
}
use code_trace.Errors.{ok, >>=-eq-ok}
use code_trace.Database.{ChunkRow}
use code_trace.Retrieval.Types.{RetrievedChunk, retrieved_of}
use code_trace.Retrieval.Context.Sources.{retrieve_context_sound}
use code_trace.Review.Types.{ChangedLineRange, ChunkRef, Citation, PrFinding}
use code_trace.Review.Findings.{parse_raw_findings}
use code_trace.Review.Findings.Citations.{findings_of-Cites}
use code_trace.Review.Prompt.{combined_query}
use code_trace.Review.Services.{PullRequest, Completion, Services}
use code_trace.Review.Material.{Material, citable_of, related_to, gather, findings_in}

ok_injective : {A : Type 0} {x y : A} → ok x ≡ ok y → x ≡ y
ok_injective e = cc

module _ {S V F : Type 0} (services : Services S V F) where
  open services use {chunks, search, score}

  related_to-Has :
      (pull_request : PullRequest) (changed : List ChunkRef) (retrieved : List RetrievedChunk)
      (c : RetrievedChunk)
      → related_to services pull_request changed ≡ ok retrieved
      → Has c retrieved
      → (row : ChunkRow) × Has row chunks.rows × (c ≡ retrieved_of row)
  unfolding related_to
  related_to-Has pull_request changed retrieved c h listed =
      elim (Bool-cases (combined_query changed == "")) [
        | inl e ↦ absurd (subst (Has c) (sym (ok_injective (rw e at h))) listed)
        | inr e ↦
            let sound =
              retrieve_context_sound search score chunks pull_request.repository_id
                (combined_query changed) retrieved (rw e at h) in
            let (v, embedded, by_vector, searched, by_keyword, searched', stored) = sound in
            let (row, kept, same, from) = stored c listed in (row, kept, same)
      ]

  citable_of-Has :
      (pull_request : PullRequest) (changed : List ChunkRef) (retrieved : List RetrievedChunk)
      (m : Material) (p : ChunkRow → Bool) (c : RetrievedChunk)
      → related_to services pull_request changed ≡ ok retrieved
      → retrieved ≡ m.retrieved
      → chunks.find_many p ≡ m.chunk_rows
      → Has c (citable_of m)
      → (row : ChunkRow) × Has row chunks.rows × (c ≡ retrieved_of row)
  citable_of-Has pull_request changed retrieved m p c found same rows listed =
      elim (Has-append c m.retrieved (map retrieved_of m.chunk_rows) listed) [
        | inl h ↦ related_to-Has pull_request changed retrieved c found (subst (Has c) (sym same) h)
        | inr h ↦
            let (row, kept, e) = Has-map retrieved_of c m.chunk_rows h in
            (row, ((chunks.find_many_iff p row).0 (subst (Has row) (sym rows) kept)).0, sym e)
      ]

  -- A citation of a finding that a review saves names a row of the table of chunks: its id, the path
  -- of its file, and its first and last line.
  pub gather-Grounded :
      (pull_request : PullRequest) (ranges : List ChangedLineRange) (m : Material)
      (completion : Completion) (f : PrFinding) (citation : Citation)
      → gather services pull_request ranges ≡ ok m
      → Has f (findings_in services m completion)
      → f.citation ≡ some citation
      → (row : ChunkRow) × Has row chunks.rows
        × (row.id ≡ citation.chunk_id)
        × (row.file_path ≡ citation.file)
        × (row.start_line ≡ citation.start_line)
        × (row.end_line ≡ citation.end_line)
  unfolding gather findings_in
  gather-Grounded pull_request ranges m completion f citation gathered listed cited =
      let (retrieved, found, made) = >>=-eq-ok _ _ gathered in
      let (c, citable, ids, paths, starts, ends) =
        ((findings_of-Cites (citable_of m)
            (parse_raw_findings services.parse_json completion.text)).1
          f citation listed cited).0 in
      let same_material = ok_injective made in
      let (row, stored, same) =
        citable_of-Has pull_request _ retrieved m _ c found (ap (λ x. x.retrieved) same_material)
          (ap (λ x. x.chunk_rows) same_material) citable in
      (
        row,
        stored,
        sym (ap (λ x. x.id) same) ∙ ids,
        sym (ap (λ x. x.file_path) same) ∙ paths,
        sym (ap (λ x. x.start_line) same) ∙ starts,
        sym (ap (λ x. x.end_line) same) ∙ ends,
      )
