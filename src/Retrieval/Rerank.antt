-- ===== src/Retrieval/Rerank.antt =====
-- backend/src/modules/retrieval/services/reranker.service.ts. The call of the Jina API is a parameter.
use code_trace.Prelude.{
  ℕ, zero, suc, ◌≤◌, String, ◌≡◌, refl, ◌≢◌, inl, inr, Option, none, some, List, [], ◌∷◌, map,
  arith, get_elem?, take, length, if◌then◌else◌, ◌+++◌, Has, Bool-cases, subst, show,
}
use code_trace.Errors.{Result, ok, err, error, Failure, Response, ◌>>=◌, >>=-eq-ok}
use code_trace.Retrieval.Types.{RetrievedChunk}

abbrev pub retrieval_top_k : ℕ
retrieval_top_k = 20

abbrev pub retrieval_final_k : ℕ
retrieval_final_k = 8

-- The index of each result; `none` is one that is no index of an array (negative, fractional or not
-- a number). `results` is `none` where the body has no array of that name.
pub record JinaRerankResponse : Type 0 where
  pub results : Option (List (Option ℕ))

pub record RerankRequest : Type 0 where
  pub model : String
  pub query : String
  pub documents : List String
  pub top_n : ℕ

document_of : RetrievedChunk → String
document_of c = c.file_path +++ " (" +++ c.symbol +++ "):\n" +++ c.content

-- `candidates[result.index]`
candidate_at : List RetrievedChunk → Option ℕ → Option RetrievedChunk
candidate_at candidates none = none
candidate_at candidates (some i) = get_elem? candidates i

-- `.map(…)` and the filter that drops `undefined`
pub pick : List RetrievedChunk → List (Option ℕ) → List RetrievedChunk
unfolding candidate_at
pick candidates [] = []
pick candidates (i ∷ indices) =
    let rest = pick candidates indices in
    elim (candidate_at candidates i) [ none ↦ rest | some c ↦ c ∷ rest ]

non_empty : List RetrievedChunk → Result (List RetrievedChunk)
non_empty [] = err (error none "Jina API returned no valid result indices")
non_empty (c ∷ cs) = ok (c ∷ cs)

results_of : List RetrievedChunk → Option (List (Option ℕ)) → Result (List RetrievedChunk)
unfolding non_empty
results_of candidates none = err (error none "Invalid response from Jina API")
results_of candidates (some indices) = non_empty (pick candidates indices)

-- what the `try` does with the response
reranked_of : List RetrievedChunk → Response JinaRerankResponse → Result (List RetrievedChunk)
unfolding results_of
reranked_of candidates response =
    if response.success
    then (do body ← response.body; results_of candidates body.results)
    else err
        (error none ("Jina API error: " +++ show response.status +++ " " +++ response.status_text))

-- the body of the `try`
unfoldable pub try_rerank :
    (RerankRequest → Result (Response JinaRerankResponse))
    → String
    → List RetrievedChunk
    → Result (List RetrievedChunk)
unfolding document_of reranked_of
try_rerank jina query candidates =
    jina (record {
      model = "jina-reranker-v3.5";
      query = query;
      documents = map document_of candidates;
      top_n = retrieval_final_k;
    })
    >>= reranked_of candidates

-- the `catch` falls back to the order of the candidates
unfoldable pub or_fallback :
    List RetrievedChunk → Result (List RetrievedChunk) → List RetrievedChunk
or_fallback candidates (ok reranked) = reranked
or_fallback candidates (err _) = take retrieval_final_k candidates

unfoldable pub rerank :
    (RerankRequest → Result (Response JinaRerankResponse))
    → String
    → List RetrievedChunk
    → List RetrievedChunk
unfolding or_fallback
rerank jina query [] = []
rerank jina query (c ∷ cs) = or_fallback (c ∷ cs) (try_rerank jina query (c ∷ cs))

get_elem?-Has : {A : Type 0} (xs : List A) (i : ℕ) (a : A) → get_elem? xs i ≡ some a → Has a xs
get_elem?-Has [] i a h = absurd (cc h)
get_elem?-Has (x ∷ xs) zero a h = inl cc
get_elem?-Has (x ∷ xs) (suc i) a h = inr (get_elem?-Has xs i a h)

take-Has : {A : Type 0} (n : ℕ) (xs : List A) (a : A) → Has a (take n xs) → Has a xs
take-Has zero xs a h = absurd h
take-Has (suc n) [] a h = absurd h
take-Has (suc n) (x ∷ xs) a (inl e) = inl e
take-Has (suc n) (x ∷ xs) a (inr h) = inr (take-Has n xs a h)

length-take-le : {A : Type 0} (n : ℕ) (xs : List A) → length (take n xs) ≤ n
length-take-le zero xs = omega arith
length-take-le (suc n) [] = omega arith
length-take-le (suc n) (x ∷ xs) = omega (arith, length-take-le n xs)

pick-Has :
    (candidates : List RetrievedChunk) (is : List (Option ℕ)) (c : RetrievedChunk)
    → Has c (pick candidates is)
    → Has c candidates
unfolding pick
pick-Has candidates [] c h = absurd h
pick-Has candidates (none ∷ is) c h = pick-Has candidates is c h
pick-Has candidates (some i ∷ is) c h =
    ground (arith, pick-Has candidates is c, get_elem?-Has candidates i c)

results_of-eq-ok :
    (candidates reranked : List RetrievedChunk) (results : Option (List (Option ℕ)))
    → results_of candidates results ≡ ok reranked
    → (is : List (Option ℕ)) × (reranked ≡ pick candidates is) × (reranked ≢ [])
unfolding results_of
results_of-eq-ok candidates reranked none h = absurd (cc h)
results_of-eq-ok candidates reranked (some is) h =
    let (same, filled) = non_empty-eq-ok (pick candidates is) h in (is, same, filled)
  where
    non_empty-eq-ok :
        (cs : List RetrievedChunk) → non_empty cs ≡ ok reranked → (reranked ≡ cs) × (reranked ≢ [])
    non_empty-eq-ok [] e = absurd (cc e)
    non_empty-eq-ok (c ∷ cs) e = (cc, λ k. cc)

-- What a successful call returned: a list of candidates, with at least one.
try_rerank-eq-ok :
    (jina : RerankRequest → Result (Response JinaRerankResponse)) (query : String)
    (candidates reranked : List RetrievedChunk)
    → try_rerank jina query candidates ≡ ok reranked
    → (is : List (Option ℕ)) × (reranked ≡ pick candidates is) × (reranked ≢ [])
unfolding try_rerank
try_rerank-eq-ok jina query candidates reranked h =
    let (response, called, read) = >>=-eq-ok _ (reranked_of candidates) h in
    elim (Bool-cases response.success) [
      | inl e ↦
          let (body, parsed, found) =
            >>=-eq-ok response.body (λ b. results_of candidates b.results) (rw e at read) in
          results_of-eq-ok candidates reranked body.results found
      | inr e ↦ absurd (cc (rw e at read))
    ]

-- Whatever the reranker answers: each result is a candidate; there is one, if there is a candidate;
-- and if the call or its answer fails, the results are the first eight candidates in their order.
pub rerank_safe :
    (jina : RerankRequest → Result (Response JinaRerankResponse)) (query : String)
    (candidates : List RetrievedChunk)
    → ((c : RetrievedChunk) → Has c (rerank jina query candidates) → Has c candidates)
      × (candidates ≢ [] → rerank jina query candidates ≢ [])
      × ((e : Failure)
          → try_rerank jina query candidates ≡ err e
          → (rerank jina query candidates ≡ take 8 candidates)
            × (length (rerank jina query candidates) ≤ 8))
unfolding rerank
rerank_safe jina query [] = ((λ c h. h), (λ h. h), λ e h. (refl, omega arith))
rerank_safe jina query (c ∷ cs) = settle (try_rerank jina query (c ∷ cs)) refl
  where
    settle :
        (r : Result (List RetrievedChunk))
        → try_rerank jina query (c ∷ cs) ≡ r
        → ((d : RetrievedChunk) → Has d (or_fallback (c ∷ cs) r) → Has d (c ∷ cs))
          × (c ∷ cs ≢ [] → or_fallback (c ∷ cs) r ≢ [])
          × ((e : Failure)
              → r ≡ err e
              → (or_fallback (c ∷ cs) r ≡ take 8 (c ∷ cs)) × (length (or_fallback (c ∷ cs) r) ≤ 8))
    settle (ok reranked) called =
        let (is, same, filled) = try_rerank-eq-ok jina query (c ∷ cs) reranked called in
        (λ d h. pick-Has (c ∷ cs) is d (subst (Has d) same h), (λ k. filled), λ e h. absurd (cc h))
    settle (err e) called =
        (take-Has 8 (c ∷ cs), (λ k h. cc), λ x h. (refl, length-take-le 8 (c ∷ cs)))
