-- ===== src/Evaluation/Search/Scoring.antt =====
-- What the score of a question says of the chunks that were found.
use code_trace.Prelude.{
  ℕ, suc, ◌+◌, String, ◌≡◌, ◌≢◌, refl, sym, ◌∙◌, ap, subst, ◌⊎◌, inl, inr, true, false, Bool,
  Option, none, some, List, [], ◌∷◌, map, length, take, get_elem?, keep, All, All-mono_Has, Has,
  Has-take, Has-map, map-Has, Tally, keep-Tally, includes, includes→Has, Has→includes, text_eq,
  Bool-cases, Option-cases, not_both, Map, lookup, insert_all, arith, ◌+++◌,
}
use code_trace.Database.{ChunkRow, Query}
use code_trace.Retrieval.Merge.{Score}
use code_trace.Retrieval.Context.{SearchServices, entries_of}
use code_trace.Retrieval.Context.Sources.{lookup-entries_of, entries_of-lookup}
use code_trace.Evaluation.Pr.{Quotient}
use code_trace.Evaluation.Search.{
  ExpectedChunkIdentity, EvalQuestion, identity_key, expected_keys, identity_in, is_expected,
  first_hit_from, count_relevant, identities_of, precision_of, score_question,
}

module _ (keys : List String) (identity : String → Option String) where
  abbrev passes : String → Bool
  passes id = is_expected keys (identity id)

  first_hit_from-map :
      (i : ℕ) (ids : List String)
      → ((first_hit_from i keys (map identity ids) ≡ none) × All (λ id. passes id ≡ false) ids)
        ⊎ ((j : ℕ) × (id : String) × (first_hit_from i keys (map identity ids) ≡ some (i + j))
            × (get_elem? ids j ≡ some id)
            × (passes id ≡ true)
            × All (λ k. passes k ≡ false) (take j ids))
  unfolding first_hit_from
  first_hit_from-map i [] = inl (refl, tt)
  first_hit_from-map i (id ∷ ids) = elim (Bool-cases (passes id)) [
    | inl e ↦ inr (0, id, rw e (ap some (omega arith)), refl, e, tt)
    | inr e ↦ elim (first_hit_from-map (suc i) ids) [
      | inl (no_hit, others) ↦ inl (rw e no_hit, (e, others))
      | inr (j, k, hit, at_j, passed, before) ↦
          inr (suc j, k, rw e (hit ∙ ap some (omega arith)), at_j, passed, (e, before))
    ]
  ]

  count_relevant-map :
      (ids : List String) → count_relevant keys (map identity ids) ≡ length (keep passes ids)
  unfolding count_relevant
  count_relevant-map [] = refl
  count_relevant-map (id ∷ ids) = elim (Bool-cases (passes id)) [
    | inl e ↦ rw e (ap suc (count_relevant-map ids))
    | inr e ↦ rw e (count_relevant-map ids)
  ]

length-map : {A B : Type 0} (f : A → B) (xs : List A) → length (map f xs) ≡ length xs
length-map f [] = refl
length-map f (x ∷ xs) = ap suc (length-map f xs)

module _ {V F : Type 0} (services : SearchServices V) (s : Score F) (chunks : Query ChunkRow)
    (question : EvalQuestion) where
  -- A stored chunk has the id, and the path and symbol of an expected one.
  abbrev pub IsExpected : String → Type 0
  IsExpected id =
      (row : ChunkRow) × (expected : ExpectedChunkIdentity) × Has row chunks.rows
      × (row.id ≡ id)
      × Has expected question.expected_chunks
      × (row.file_path +++ "#" +++ row.symbol ≡ expected.path +++ "#" +++ expected.symbol)

  -- No found chunk is expected, or the hit is the first one that is.
  abbrev pub FindsFirst : List String → Option ℕ → Type 0
  FindsFirst ids first_hit =
      ((first_hit ≡ none) × All (λ id. IsExpected id → ⊥) ids)
      ⊎ ((i : ℕ) × (id : String) × (first_hit ≡ some i)
          × (get_elem? ids i ≡ some id)
          × IsExpected id
          × All (λ k. IsExpected k → ⊥) (take i ids))

  -- The number of the found chunks that are expected, over the number of the found ones.
  abbrev pub CountsRelevant : List String → Option Quotient → Type 0
  CountsRelevant ids precision =
      ((precision ≡ none) × (ids ≡ []))
      ⊎ ((n : ℕ) × (ids ≢ [])
          × (precision ≡ some (record { count = n; of_all = length ids }))
          × Tally IsExpected ids n)

  abbrev keys : List String
  keys = expected_keys question.expected_chunks

  module _ (ids : List String) where
    abbrev found : List ChunkRow
    found = chunks.find_many (λ c. includes c.id ids)

    abbrev chunk_by_id : Map String ChunkRow
    chunk_by_id = insert_all (entries_of found) []

    abbrev test : String → Bool
    test id = is_expected keys (identity_in chunk_by_id id)

    test-IsExpected : (id : String) → test id ≡ true → IsExpected id
    test-IsExpected id h = elim (Option-cases (lookup id chunk_by_id)) [
      | inl e ↦ absurd (cc (rw e at h))
      | inr (row, e) ↦
          let (listed, is_id) = lookup-entries_of id row found e in
          let is_key = includes→Has _ keys (rw e at h) in
          let (expected, asked, same) = Has-map _ _ question.expected_chunks is_key in
          (row, expected, ((chunks.find_many_iff _ row).0 listed).0, is_id, asked, sym same)
    ]

    module _
        (keyed : (a b : ChunkRow)
          → Has a chunks.rows
          → Has b chunks.rows
          → a.id ≡ b.id
          → a ≡ b) where
      IsExpected-test : (id : String) → Has id ids → test id ≡ false → IsExpected id → ⊥
      IsExpected-test id listed fails (row, expected, stored, is_id, asked, same) =
          let is_in = subst (λ k. includes k ids ≡ true) (sym is_id) (Has→includes id ids listed) in
          let fetched = (chunks.find_many_iff (λ c. includes c.id ids) row).1 (stored, is_in) in
          let (r, at_row) = entries_of-lookup row found fetched in
          let (r_listed, r_id) = lookup-entries_of row.id r found at_row in
          let is_row = keyed r row ((chunks.find_many_iff _ r).0 r_listed).0 stored r_id in
          let at_id : lookup id chunk_by_id ≡ some row =
            subst (λ k. lookup k chunk_by_id ≡ some r) is_id at_row ∙ ap some is_row in
          let key =
            map-Has (λ (e : ExpectedChunkIdentity). identity_key e.path e.symbol) expected
              question.expected_chunks asked in
          not_both (rw at_id (Has→includes _ keys (subst (λ k. Has k keys) (sym same) key))) fails

      -- A hit is scored exactly if one of the found chunks is expected, and its index is that of the first
      -- such chunk; a chunk is expected if a stored row of its id has the path and the symbol of an expected
      -- one, joined by "#". The precision is the number of the found chunks that are expected over the number
      -- of the found chunks, and none where there are none. The condition: no two stored rows have one id.
      pub score_question_lem :
          let scored = score_question services s chunks question ids in
          FindsFirst ids scored.first_hit × CountsRelevant ids scored.precision
      unfolding score_question identities_of
      score_question_lem = (
        elim (first_hit_from-map keys (identity_in chunk_by_id) 0 ids) [
          | inl (no_hit, others) ↦
              inl (no_hit, All-mono_Has ids (λ id h fails. IsExpected-test id h fails) others)
          | inr (j, id, hit, at_j, passed, before) ↦ inr (
            j,
            id,
            hit ∙ ap some (omega arith),
            at_j,
            test-IsExpected id passed,
            All-mono_Has (take j ids) (λ k h fails. IsExpected-test k (Has-take j ids k h) fails)
                before,
          )
        ],
        precision ids refl,
      )
        where
          precision :
              (xs : List String)
              → xs ≡ ids
              → CountsRelevant xs
                  (precision_of services s chunks keys (map (identity_in chunk_by_id) xs))
          precision [] e = inl (refl, refl)
          precision (x ∷ xs) e = inr (
            length (keep test (x ∷ xs)),
            λ none_found. cc none_found,
            ap
                  (λ n. some (record {
                    count = n;
                    of_all = length (map (identity_in chunk_by_id) (x ∷ xs));
                  }))
                  (count_relevant-map keys (identity_in chunk_by_id) (x ∷ xs))
                ∙ ap (λ n. some (record { count = length (keep test (x ∷ xs)); of_all = n }))
                    (length-map (identity_in chunk_by_id) (x ∷ xs)),
            keep-Tally IsExpected test (x ∷ xs) (λ id h holds. test-IsExpected id holds)
                (λ id h fails. IsExpected-test id (subst (Has id) e h) fails),
          )
