-- ===== src/Retrieval/Merge/Order.antt =====
-- The merged ranking: its chunks, its ranks, and its order.
use code_trace.Prelude.{
  ℕ, zero, suc, ◌+◌, String, ◌≡◌, refl, sym, ap, ◌↔◌, ◌⊎◌, inl, inr, true, some, List, [], ◌∷◌,
  arith, Has, Map, lookup, text_eq, Distinct, Bool-cases, subst, All, get_elem?, includes, Has-map,
  map-Has,
}
use code_trace.Retrieval.Types.{RankedChunk}
use code_trace.Retrieval.Merge.{
  QueryType, vector_k, keyword_k, Score, add_scores, scores, place, sort, number_from,
  merge_rankings,
}
use code_trace.Retrieval.Merge.Scores.{
  keys, chunk_ids, add_terms, lookup-add_scores, Has-keys-add_scores, Distinct-keys-add_scores,
  lookup_of_Has, add_terms_none,
}

module _ {F : Type 0} (s : Score F) where
  open s use {nought, at_most, total, transitive}

  -- No entry stands behind one of a lower score.
  abbrev Descending : Map String F → Type 0
  Descending [] = Unit
  Descending (x ∷ xs) = All (λ y. at_most y.1 x.1 ≡ true) xs × Descending xs

  All-place :
      (b : F) (x : String × F) (ys : Map String F)
      → at_most x.1 b ≡ true
      → All (λ y. at_most y.1 b ≡ true) ys
      → All (λ y. at_most y.1 b ≡ true) (place s x ys)
  unfolding place
  All-place b x [] h k = (h, tt)
  All-place b x (y ∷ ys) h (p, k) = elim (Bool-cases (at_most y.1 x.1)) [
    | inl e ↦ rw (e, place) (h, (p, k))
    | inr e ↦ rw (e, place) (p, All-place b x ys h k)
  ]

  All-below :
      (b c : F) (ys : Map String F)
      → at_most b c ≡ true
      → All (λ y. at_most y.1 b ≡ true) ys
      → All (λ y. at_most y.1 c ≡ true) ys
  All-below b c [] h k = tt
  All-below b c (y ∷ ys) h (p, k) = (transitive y.1 b c p h, All-below b c ys h k)

  Descending-place :
      (x : String × F) (ys : Map String F) → Descending ys → Descending (place s x ys)
  unfolding place
  Descending-place x [] d = (tt, tt)
  Descending-place x (y ∷ ys) (p, d) = elim (Bool-cases (at_most y.1 x.1)) [
    | inl e ↦ rw (e, place) ((e, All-below y.1 x.1 ys e p), (p, d))
    | inr e ↦ rw (e, place) (All-place y.1 x ys (total y.1 x.1 e) p, Descending-place x ys d)
  ]

  Descending-sort : (xs : Map String F) → Descending (sort s xs)
  unfolding sort
  Descending-sort [] = tt
  Descending-sort (x ∷ xs) = Descending-place x (sort s xs) (Descending-sort xs)

  Has-place : (x a : String × F) (ys : Map String F) → Has a (place s x ys) ↔ ((x ≡ a) ⊎ Has a ys)
  unfolding place
  Has-place x a [] = ((λ h. h), λ h. h)
  Has-place x a (y ∷ ys) =
      let (before, after) = Has-place x a ys in
      elim (Bool-cases (at_most y.1 x.1)) [
        | inl e ↦ rw (e, place) ((λ h. h), λ h. h)
        | inr e ↦
            rw (e, place)
              (
                (λ h. elim h [
                  | inl same ↦ inr (inl same)
                  | inr k ↦ elim (before k) [ inl p ↦ inl p | inr q ↦ inr (inr q) ]
                ]),
                λ h. elim h [
                  | inl p ↦ inr (after (inl p))
                  | inr k ↦ elim k [ inl same ↦ inl same | inr q ↦ inr (after (inr q)) ]
                ],
              )
      ]

  Has-sort : (a : String × F) (xs : Map String F) → Has a (sort s xs) ↔ Has a xs
  unfolding sort
  Has-sort a [] = ((λ h. h), λ h. h)
  Has-sort a (x ∷ xs) =
      let (before, after) = Has-place x a (sort s xs) in
      let (out, back) = Has-sort a xs in
      (
        λ h. elim (before h) [ inl e ↦ inl e | inr k ↦ inr (out k) ],
        λ h. after (elim h [ inl e ↦ inl e | inr k ↦ inr (back k) ]),
      )

  Has-keys-place :
      (x : String × F) (a : String) (ys : Map String F)
      → Has a (keys (place s x ys))
      → (x.0 ≡ a) ⊎ Has a (keys ys)
  unfolding place
  Has-keys-place x a [] = λ h. h
  Has-keys-place x a (y ∷ ys) = elim (Bool-cases (at_most y.1 x.1)) [
    | inl e ↦ rw (e, place) (λ h. h)
    | inr e ↦
        rw (e, place)
          (λ h. elim h [
            | inl same ↦ inr (inl same)
            | inr k ↦ elim (Has-keys-place x a ys k) [ inl p ↦ inl p | inr q ↦ inr (inr q) ]
          ])
  ]

  Distinct-keys-place :
      (x : String × F) (ys : Map String F)
      → (Has x.0 (keys ys) → ⊥)
      → Distinct (keys ys)
      → Distinct (keys (place s x ys))
  unfolding place
  Distinct-keys-place x [] new d = ((λ h. h), tt)
  Distinct-keys-place x (y ∷ ys) new (fresh, d) = elim (Bool-cases (at_most y.1 x.1)) [
    | inl e ↦ rw (e, place) (new, (fresh, d))
    | inr e ↦
        rw (e, place)
          (
            (λ h. elim (Has-keys-place x y.0 ys h) [
              | inl same ↦ new (inl (sym same))
              | inr old ↦ fresh old
            ]),
            Distinct-keys-place x ys (λ h. new (inr h)) d,
          )
  ]

  Distinct-keys-sort : (xs : Map String F) → Distinct (keys xs) → Distinct (keys (sort s xs))
  unfolding sort
  Distinct-keys-sort [] d = tt
  Distinct-keys-sort (x ∷ xs) (fresh, d) =
      Distinct-keys-place x (sort s xs)
        (λ h.
          let (a, k, e) = Has-map (λ x. x.0) x.0 (sort s xs) h in
          fresh (subst (λ b. Has b (keys xs)) e (map-Has (λ x. x.0) a xs ((Has-sort a xs).0 k))))
        (Distinct-keys-sort xs d)

  Has-keys-sort : (a : String) (xs : Map String F) → Has a (keys (sort s xs)) ↔ Has a (keys xs)
  Has-keys-sort a xs = (
    λ h.
        let (x, k, e) = Has-map (λ x. x.0) a (sort s xs) h in
        subst (λ b. Has b (keys xs)) e (map-Has (λ x. x.0) x xs ((Has-sort x xs).0 k)),
    λ h.
        let (x, k, e) = Has-map (λ x. x.0) a xs h in
        subst (λ b. Has b (keys (sort s xs))) e
          (map-Has (λ x. x.0) x (sort s xs) ((Has-sort x xs).1 k)),
  )

  chunk_ids-number_from : (n : ℕ) (xs : Map String F) → chunk_ids (number_from s n xs) ≡ keys xs
  unfolding number_from
  chunk_ids-number_from n [] = refl
  chunk_ids-number_from n ((a, v) ∷ xs) = ap (λ ys. a ∷ ys) (chunk_ids-number_from (n + 1) xs)

  rank-number_from :
      (n i : ℕ) (xs : Map String F) (r : RankedChunk)
      → get_elem? (number_from s n xs) i ≡ some r
      → r.rank ≡ n + i
  unfolding number_from
  rank-number_from n i [] r h = absurd (cc h)
  rank-number_from n zero ((a, v) ∷ xs) r h = ground arith
  rank-number_from n (suc i) ((a, v) ∷ xs) r h = omega (arith, rank-number_from (n + 1) i xs r h)

  -- The results that the score puts in this order, the highest first.
  abbrev pub IsRankedBy : (String → F) → List RankedChunk → Type 0
  IsRankedBy score [] = Unit
  IsRankedBy score (r ∷ rs) =
      All (λ q. at_most (score q.chunk_id) (score r.chunk_id) ≡ true) rs × IsRankedBy score rs

  All-number_from :
      (score : String → F) (b c : F) (n : ℕ) (xs : Map String F)
      → b ≡ c
      → All (λ x. x.1 ≡ score x.0) xs
      → All (λ y. at_most y.1 b ≡ true) xs
      → All (λ q. at_most (score q.chunk_id) c ≡ true) (number_from s n xs)
  unfolding number_from
  All-number_from score b c n [] e same h = tt
  All-number_from score b c n ((a, v) ∷ xs) e (p, same) (q, h) =
      (cc, All-number_from score b c (n + 1) xs e same h)

  IsRankedBy-number_from :
      (score : String → F) (n : ℕ) (xs : Map String F)
      → All (λ x. x.1 ≡ score x.0) xs
      → Descending xs
      → IsRankedBy score (number_from s n xs)
  unfolding number_from
  IsRankedBy-number_from score n [] same d = tt
  IsRankedBy-number_from score n ((a, v) ∷ xs) (p, same) (q, d) = (
    All-number_from score v (score a) (n + 1) xs p same q,
    IsRankedBy-number_from score (n + 1) xs same d,
  )

  All-of_Has :
      (P : String × F → Type 0) (xs : Map String F) → ((x : String × F) → Has x xs → P x) → All P xs
  All-of_Has P [] h = tt
  All-of_Has P (x ∷ xs) h = (h x (inl refl), All-of_Has P xs (λ y k. h y (inr k)))

  module _ (query_type : QueryType) (vector_results keyword_results : List RankedChunk) where
    -- Reciprocal rank fusion: for each place of the chunk in either list, one over the list's
    -- constant plus the rank there, added up from 0.
    pub rrf_score : String → F
    rrf_score a =
        add_terms s (keyword_k query_type) a keyword_results
          (add_terms s (vector_k query_type) a vector_results nought)

    lookup-scores :
        (a : String) (v : F)
        → lookup a (scores s query_type vector_results keyword_results) ≡ some v
        → v ≡ rrf_score a
    unfolding scores rrf_score lookup
    lookup-scores a v =
        rw
          (
            lookup-add_scores s (keyword_k query_type) a keyword_results,
            lookup-add_scores s (vector_k query_type) a vector_results [],
          )
          (elim (Bool-cases (includes a (chunk_ids keyword_results))) [
            | inl k ↦ elim (Bool-cases (includes a (chunk_ids vector_results))) [
              | inl e ↦ rw (k, e) (λ h. cc)
              | inr e ↦
                  rw (k, e)
                    (λ h. cc (add_terms_none s (vector_k query_type) a vector_results nought e))
            ]
            | inr k ↦ elim (Bool-cases (includes a (chunk_ids vector_results))) [
              | inl e ↦
                  rw (k, e)
                    (λ h. cc (
                      add_terms_none s (keyword_k query_type) a keyword_results
                        (add_terms s (vector_k query_type) a vector_results nought) k))
              | inr e ↦ rw (k, e) (λ h. cc)
            ]
          ])

    -- No chunk is ranked twice; the ranked chunks are those of the two lists; the ranks count from
    -- 1; and no chunk stands behind one of a lower fused score.
    pub merge_rankings_exact :
        let r = merge_rankings s query_type vector_results keyword_results in
        Distinct (chunk_ids r)
        × ((a : String)
            → Has a (chunk_ids r)
              ↔ (Has a (chunk_ids vector_results) ⊎ Has a (chunk_ids keyword_results)))
        × ((i : ℕ) (x : RankedChunk) → get_elem? r i ≡ some x → x.rank ≡ i + 1)
        × IsRankedBy rrf_score r
    unfolding merge_rankings scores
    merge_rankings_exact =
        let vector = add_scores s (vector_k query_type) vector_results [] in
        let m = add_scores s (keyword_k query_type) keyword_results vector in
        let fused = sort s m in
        let same_ids = chunk_ids-number_from 1 fused in
        let distinct =
          Distinct-keys-add_scores s (keyword_k query_type) keyword_results vector
            (Distinct-keys-add_scores s (vector_k query_type) vector_results [] tt) in
        let in_keyword =
          λ (a : String). Has-keys-add_scores s (keyword_k query_type) a keyword_results vector in
        let in_vector =
          λ (a : String). Has-keys-add_scores s (vector_k query_type) a vector_results [] in
        (
          subst Distinct (sym same_ids) (Distinct-keys-sort m distinct),
          λ a. (
            λ h. elim ((in_keyword a).0 ((Has-keys-sort a m).0 (subst (Has a) same_ids h))) [
              | inl k ↦ inr k
              | inr v ↦ elim ((in_vector a).0 v) [ inl k ↦ inl k | inr no_more ↦ absurd no_more ]
            ],
            λ h. subst (Has a) (sym same_ids) (
                (Has-keys-sort a m).1 (
                  (in_keyword a).1
                    (elim h [ inl v ↦ inr ((in_vector a).1 (inl v)) | inr k ↦ inl k ]))),
          ),
          λ i x h. omega (arith, rank-number_from 1 i fused x h),
          IsRankedBy-number_from rrf_score 1 fused
              (All-of_Has _ fused (λ x h.
                lookup-scores x.0 x.1 (lookup_of_Has x.0 x.1 m distinct ((Has-sort x m).0 h))))
              (Descending-sort m),
        )
