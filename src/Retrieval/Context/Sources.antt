-- ===== src/Retrieval/Context/Sources.antt =====
-- Where the retrieved context comes from.
use code_trace.Prelude.{
  String, ◌≡◌, refl, sym, ap, ◌∙◌, ◌⊎◌, inl, inr, some, List, [], ◌∷◌, text_eq, Map, lookup, insert,
  insert_all, lookup-insert_all, Has, Has-map, map-Has, includes, includes→Has, take, Has-take,
  Has-keys-insert, keys-insert_keeps, keys-lookup, keys, subst, Option-cases,
}
use code_trace.Errors.{ok, >>=-eq-ok}
use code_trace.Database.{ChunkRow, Query}
use code_trace.Retrieval.Types.{RankedChunk, RetrievedChunk, retrieved_of}
use code_trace.Retrieval.Merge.{Score, merge_rankings, classify_query}
use code_trace.Retrieval.Merge.Scores.{chunk_ids}
use code_trace.Retrieval.Merge.Order.{merge_rankings_exact}
use code_trace.Retrieval.Rerank.{retrieval_top_k, rerank_safe}
use code_trace.Retrieval.Context.{
  entries_of, candidates_of, SearchServices, vector_search, keyword_search, fetch_and_rerank,
  retrieve_context,
}

candidates_of-Has :
    (m : Map String ChunkRow) (ids : List String) (c : RetrievedChunk)
    → Has c (candidates_of m ids)
    → (id : String) × Has id ids
      × (row : ChunkRow) × (lookup id m ≡ some row)
      × (c ≡ retrieved_of row)
unfolding candidates_of
candidates_of-Has m [] c = λ h. absurd h
candidates_of-Has m (id ∷ ids) c = elim (Option-cases (lookup id m)) [
  | inl e ↦
      rw (e, candidates_of)
        (λ h.
          let (i, k, row, found, same) = candidates_of-Has m ids c h in
          (i, inr k, row, found, same))
  | inr (row, e) ↦
      rw (e, candidates_of)
        (λ h. elim h [
          | inl same ↦ (id, inl refl, row, e, sym same)
          | inr later ↦
              let (i, k, r, found, same) = candidates_of-Has m ids c later in
              (i, inr k, r, found, same)
        ])
]

Has-entries_of :
    (id : String) (row : ChunkRow) (rows : List ChunkRow)
    → Has (id, row) (entries_of rows)
    → Has row rows × (row.id ≡ id)
unfolding entries_of
Has-entries_of id row [] h = absurd h
Has-entries_of id row (r ∷ rows) (inl e) =
    let same = ap (λ (x : String × ChunkRow). x.1) e in
    (inl same, ap (λ (x : ChunkRow). x.id) (sym same) ∙ ap (λ (x : String × ChunkRow). x.0) e)
Has-entries_of id row (r ∷ rows) (inr h) = let (k, e) = Has-entries_of id row rows h in (inr k, e)

pub lookup-entries_of :
    (id : String) (row : ChunkRow) (rows : List ChunkRow)
    → lookup id (insert_all (entries_of rows) []) ≡ some row
    → Has row rows × (row.id ≡ id)
unfolding lookup
lookup-entries_of id row rows h = elim (lookup-insert_all id row (entries_of rows) [] h) [
  | inl entry ↦ Has-entries_of id row rows entry
  | inr no_entry ↦ absurd (cc no_entry)
]

keys-insert_all :
    (a : String) (entries : List (String × ChunkRow)) (m : Map String ChunkRow)
    → Has a (keys entries) ⊎ Has a (keys m)
    → Has a (keys (insert_all entries m))
unfolding insert_all
keys-insert_all a [] m (inl h) = absurd h
keys-insert_all a [] m (inr h) = h
keys-insert_all a ((k, v) ∷ entries) m (inl (inl e)) =
    keys-insert_all a entries (insert k v m)
      (inr (subst (λ b. Has b (keys (insert k v m))) e (Has-keys-insert k v m)))
keys-insert_all a ((k, v) ∷ entries) m (inl (inr h)) =
    keys-insert_all a entries (insert k v m) (inl h)
keys-insert_all a ((k, v) ∷ entries) m (inr h) =
    keys-insert_all a entries (insert k v m) (inr (keys-insert_keeps k a v m h))

keys-entries_of :
    (row : ChunkRow) (rows : List ChunkRow) → Has row rows → Has row.id (keys (entries_of rows))
unfolding entries_of
keys-entries_of row [] h = absurd h
keys-entries_of row (r ∷ rows) (inl e) = inl (ap (λ (x : ChunkRow). x.id) e)
keys-entries_of row (r ∷ rows) (inr h) = inr (keys-entries_of row rows h)

-- A listed row has an entry, maybe that of another row with its id.
pub entries_of-lookup :
    (row : ChunkRow) (rows : List ChunkRow)
    → Has row rows
    → (r : ChunkRow) × (lookup row.id (insert_all (entries_of rows) []) ≡ some r)
entries_of-lookup row rows h =
    keys-lookup row.id _
      (keys-insert_all row.id (entries_of rows) [] (inl (keys-entries_of row rows h)))

module _ {V F : Type 0} (services : SearchServices V) (s : Score F) (chunks : Query ChunkRow) where
  fetch_and_rerank-Has :
      (query : String) (ids : List String) (c : RetrievedChunk)
      → Has c (fetch_and_rerank services s chunks query ids)
      → (row : ChunkRow) × Has row chunks.rows × Has row.id ids × (c ≡ retrieved_of row)
  unfolding fetch_and_rerank
  fetch_and_rerank-Has query [] c h = absurd h
  fetch_and_rerank-Has query (i ∷ is) c h =
      let p = λ (r : ChunkRow). includes r.id (i ∷ is) in
      let m = insert_all (entries_of (chunks.find_many p)) [] in
      let (id, listed, row, found, same) =
        candidates_of-Has m (i ∷ is) c
          ((rerank_safe services.jina query (candidates_of m (i ∷ is))).0 c h) in
      let (kept, its_id) = lookup-entries_of id row (chunks.find_many p) found in
      let (stored, test) = (chunks.find_many_iff p row).0 kept in
      (row, stored, includes→Has row.id (i ∷ is) test, same)

  -- Whatever the services answer: if the retrieval succeeds, then so did the embedding and both
  -- searches, and each chunk retrieved is a stored row that one of the two searches found.
  pub retrieve_context_sound :
      (repository_id query : String) (retrieved : List RetrievedChunk)
      → retrieve_context services s chunks repository_id query ≡ ok retrieved
      → (v : V) × (services.embed_query query ≡ ok v)
        × (by_vector : List RankedChunk) × (vector_search services s chunks repository_id v 20
            ≡ ok by_vector)
        × (by_keyword : List RankedChunk) × (keyword_search services s chunks repository_id query 20
            ≡ ok by_keyword)
        × ((c : RetrievedChunk)
            → Has c retrieved
            → (row : ChunkRow) × Has row chunks.rows
              × (c ≡ retrieved_of row)
              × (Has row.id (chunk_ids by_vector) ⊎ Has row.id (chunk_ids by_keyword)))
  unfolding retrieve_context
  retrieve_context_sound repository_id query retrieved h =
      let (v, embedded, h₁) = >>=-eq-ok _ _ h in
      let (by_vector, searched, h₂) = >>=-eq-ok _ _ h₁ in
      let (by_keyword, searched', h₃) = >>=-eq-ok _ _ h₂ in
      let merged = merge_rankings s (classify_query query) by_vector by_keyword in
      let exact = merge_rankings_exact s (classify_query query) by_vector by_keyword in
      (
        v,
        embedded,
        by_vector,
        searched,
        by_keyword,
        searched',
        λ c k.
            let (row, stored, listed, same) =
              fetch_and_rerank-Has query (chunk_ids (take retrieval_top_k merged)) c
                (subst (Has c) (sym (ok_injective h₃)) k) in
            let (r, kept, e) = Has-map (λ (r : RankedChunk). r.chunk_id) row.id _ listed in
            let in_merged =
              subst (λ a. Has a (chunk_ids merged)) e
                (map-Has (λ (r : RankedChunk). r.chunk_id) r merged (Has-take 20 merged r kept)) in
            (row, stored, same, (exact.1 row.id).0 in_merged),
      )
    where
      ok_injective : {A : Type 0} {x y : A} → ok x ≡ ok y → x ≡ y
      ok_injective e = cc
