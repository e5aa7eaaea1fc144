-- ===== src/Retrieval/Merge/Whole.antt =====
-- Fused scores on which a test can compute: whole numbers, with 1000 / n for 1 / n.
use code_trace.Prelude.{ℕ, ◌+◌, ◌/◌, ◌≡◌, true, false, leb, arith}
use code_trace.Retrieval.Merge.{Score}

pub leb-total : (a b : ℕ) → leb a b ≡ false → leb b a ≡ true
leb-total a b h = ground arith

pub leb-transitive : (a b c : ℕ) → leb a b ≡ true → leb b c ≡ true → leb a c ≡ true
leb-transitive a b c h k = ground arith

abbrev pub whole_scores : Score ℕ
whole_scores = record {
  nought = 0;
  plus = λ a b. a + b;
  reciprocal = λ n. 1000 / n;
  at_most = leb;
  total = leb-total;
  transitive = leb-transitive;
}
