-- ===== src/Retrieval/Merge.antt =====
-- backend/src/modules/retrieval/services/rrf-merge.service.ts. The scores are floating-point numbers:
-- their type is a parameter, with the two operations on it and the comparison that orders it.
pub mod Scores
pub mod Order
pub mod Whole
use code_trace.Prelude.{
  ℕ, zero, suc, ◌+◌, String, Bool, true, false, ◌&&◌, ◌||◌, Option, none, some, List, [], ◌∷◌, leb,
  nat_eq, if◌then◌else◌, text_eq, Map, lookup, insert, get_or, codes, Text, ◌≡◌, refl,
}
use code_trace.Retrieval.Types.{RankedChunk}

pub data QueryType : Type 0 where
  identifier semantic : QueryType

abbrev is_lower : ℕ → Bool
is_lower c = leb b'a' c && leb c b'z'

abbrev is_upper : ℕ → Bool
is_upper c = leb b'A' c && leb c b'Z'

-- `[a-z]_[a-z]` behind a lower-case letter
snake_tail : Text → Bool
snake_tail (d ∷ e ∷ _) = nat_eq d b'_' && is_lower e
snake_tail _ = false

camel_tail : Text → Bool
camel_tail [] = false
camel_tail (d ∷ _) = is_upper d

-- `IDENTIFIER_PATTERN`: a lower-case letter before an upper-case one, or before "_" and a
-- lower-case one.
unfoldable pub matches_identifier : Text → Bool
unfolding snake_tail camel_tail
matches_identifier [] = false
matches_identifier (c ∷ text) =
    (is_lower c && (camel_tail text || snake_tail text)) || matches_identifier text

unfoldable pub classify_query : String → QueryType
unfolding matches_identifier
classify_query query = if matches_identifier (codes query) then identifier else semantic

abbrev pub vector_k : QueryType → ℕ
vector_k identifier = 80
vector_k semantic = 40

abbrev pub keyword_k : QueryType → ℕ
keyword_k identifier = 10
keyword_k semantic = 40

-- The floating-point numbers of the scores: 0, `a + b`, `1 / n` for an integer n, and `a <= b`.
-- On the finite numbers that occur `<=` is total and transitive, and `b - a > 0` is its negation.
pub record Score (F : Type 0) : Type 0 where
  pub nought : F
  pub plus : F → F → F
  pub reciprocal : ℕ → F
  pub at_most : F → F → Bool
  pub total : (a b : F) → at_most a b ≡ false → at_most b a ≡ true
  pub transitive : (a b c : F) → at_most a b ≡ true → at_most b c ≡ true → at_most a c ≡ true

module _ {F : Type 0} (s : Score F) where
  open s use {nought, plus, reciprocal, at_most}

  -- One of the two loops over the results, with its constant k.
  unfoldable pub add_scores : ℕ → List RankedChunk → Map String F → Map String F
  add_scores k [] m = m
  add_scores k (r ∷ rs) m =
      add_scores k rs
        (insert r.chunk_id (plus (get_or (lookup r.chunk_id m) nought) (reciprocal (k + r.rank))) m)

  unfoldable pub scores : QueryType → List RankedChunk → List RankedChunk → Map String F
  scores query_type vector_results keyword_results =
      add_scores (keyword_k query_type) keyword_results
        (add_scores (vector_k query_type) vector_results [])

  -- `.sort((a, b) => b[1] - a[1])`, which is stable: an entry stays before those of its score that
  -- it stood before.
  unfoldable pub place : String × F → Map String F → Map String F
  place x [] = x ∷ []
  place x (y ∷ ys) = if at_most y.1 x.1 then x ∷ y ∷ ys else y ∷ place x ys

  unfoldable pub sort : Map String F → Map String F
  sort [] = []
  sort (x ∷ xs) = place x (sort xs)

  unfoldable pub number_from : ℕ → Map String F → List RankedChunk
  number_from n [] = []
  number_from n ((chunk_id, _) ∷ entries) =
      record { chunk_id = chunk_id; rank = n } ∷ number_from (n + 1) entries

  unfoldable pub merge_rankings : QueryType → List RankedChunk → List RankedChunk → List RankedChunk
  merge_rankings query_type vector_results keyword_results =
      number_from 1 (sort (scores query_type vector_results keyword_results))
