-- ===== src/Evaluation/Pr/Counting.antt =====
-- The counts of an evaluation add up.
use code_trace.Prelude.{
  ℕ, suc, ◌+◌, ◌≤◌, ◌<◌, ◌≡◌, refl, sym, ap, inl, inr, Bool, true, false, not, ◌&&◌, Option, none,
  some, List, [], ◌∷◌, length, includes, arith, nat_eq, number_eq, if◌then◌else◌, Bool-cases,
}
use code_trace.Review.Types.{PrFinding}
use code_trace.Evaluation.Pr.{
  LabeledIssue, Matching, is_match, find_index, count_finding, match_findings, evaluate,
}

-- How many labels, numbered from an index on, are not matched.
unmatched : List ℕ → ℕ → List LabeledIssue → ℕ
unmatched matched idx [] = 0
unmatched matched idx (label ∷ labels) =
    let rest = unmatched matched (suc idx) labels in if includes idx matched then rest else suc rest

unmatched-nil : (idx : ℕ) (labels : List LabeledIssue) → unmatched [] idx labels ≡ length labels
unfolding unmatched
unmatched-nil idx [] = refl
unmatched-nil idx (label ∷ labels) = ap suc (unmatched-nil (suc idx) labels)

-- An index before the labels does not matter.
unmatched-before :
    (i idx : ℕ) (matched : List ℕ) (labels : List LabeledIssue)
    → i < idx
    → unmatched (i ∷ matched) idx labels ≡ unmatched matched idx labels
unfolding unmatched
unmatched-before i idx matched [] h = refl
unmatched-before i idx matched (label ∷ labels) h =
    let other : nat_eq i idx ≡ false = ground arith in
    rw (other, unmatched-before i (suc idx) matched labels (omega arith)) refl

find_index-le :
    (finding : PrFinding) (matched : List ℕ) (idx i : ℕ) (labels : List LabeledIssue)
    → find_index finding matched idx labels ≡ some i
    → idx ≤ i
unfolding find_index
find_index-le finding matched idx i [] e = absurd (cc e)
find_index-le finding matched idx i (label ∷ labels) e =
    elim (Bool-cases (is_match finding matched idx label)) [
      | inl here ↦ let same : idx ≡ i = cc (rw here at e) in omega (arith, same)
      | inr later ↦ omega (arith, find_index-le finding matched (suc idx) i labels (rw later at e))
    ]

find_index-unmatched :
    (finding : PrFinding) (matched : List ℕ) (idx i : ℕ) (labels : List LabeledIssue)
    → find_index finding matched idx labels ≡ some i
    → suc (unmatched (i ∷ matched) idx labels) ≡ unmatched matched idx labels
unfolding find_index unmatched
find_index-unmatched finding matched idx i [] e = absurd (cc e)
find_index-unmatched finding matched idx i (label ∷ labels) e =
    elim (Bool-cases (is_match finding matched idx label)) [
      | inl here ↦
          let same : idx ≡ i = cc (rw here at e) in
          let is_i : nat_eq i idx ≡ true = (number_eq.beq_iff i idx).1 (sym same) in
          rw (is_i, fresh (includes idx matched) _ here)
            (ap suc (unmatched-before i (suc idx) matched labels (omega (arith, same))))
      | inr later ↦
          let found = rw later at e in
          let after = find_index-le finding matched (suc idx) i labels found in
          let not_i : nat_eq i idx ≡ false = ground (arith, after) in
          let rest = find_index-unmatched finding matched (suc idx) i labels found in
          elim (Bool-cases (includes idx matched)) [
            | inl taken ↦ rw (not_i, taken) rest
            | inr free ↦ rw (not_i, free) (ap suc rest)
          ]
    ]
  where
    fresh : (b c : Bool) → (not b && c) ≡ true → b ≡ false
    fresh true c h = absurd (cc h)
    fresh false c h = refl

record IsCounted (labels : List LabeledIssue) (seen : ℕ) (m : Matching) : Type 0 where
  all_seen : m.true_positives + m.false_positives ≡ seen
  one_label_each : m.true_positives ≡ length m.matched_labels
  all_labels : length m.matched_labels + unmatched m.matched_labels 0 labels ≡ length labels

count_finding-IsCounted :
    (labels : List LabeledIssue) (finding : PrFinding) (seen : ℕ) (m : Matching)
    → IsCounted labels seen m
    → IsCounted labels (suc seen) (count_finding (find_index finding m.matched_labels 0 labels) m)
count_finding-IsCounted labels finding seen m counted =
    go (find_index finding m.matched_labels 0 labels) refl
  where
    go :
        (o : Option ℕ)
        → find_index finding m.matched_labels 0 labels ≡ o
        → IsCounted labels (suc seen) (count_finding o m)
    go none e = record {
      all_seen = omega (arith, counted.all_seen);
      one_label_each = counted.one_label_each;
      all_labels = counted.all_labels;
    }
    go (some i) e = record {
      all_seen = omega (arith, counted.all_seen);
      one_label_each = omega (arith, counted.one_label_each);
      all_labels =
          omega
            (arith, counted.all_labels, find_index-unmatched finding m.matched_labels 0 i labels e);
    }

match_findings-IsCounted :
    (labels : List LabeledIssue) (findings : List PrFinding) (seen : ℕ) (m : Matching)
    → IsCounted labels seen m
    → IsCounted labels (seen + length findings) (match_findings labels findings m)
unfolding match_findings
match_findings-IsCounted labels [] seen m counted = record {
  all_seen = omega (arith, counted.all_seen);
  one_label_each = counted.one_label_each;
  all_labels = counted.all_labels;
}
match_findings-IsCounted labels (finding ∷ findings) seen m counted =
    let rest =
      match_findings-IsCounted labels findings (suc seen) _
        (count_finding-IsCounted labels finding seen m counted) in
    record {
      all_seen = omega (arith, rest.all_seen);
      one_label_each = rest.one_label_each;
      all_labels = rest.all_labels;
    }

-- Every finding is a true or a false positive, every label is found by exactly one true positive or is a false
-- negative, and so there are at most as many true positives as findings and as labels.
pub evaluate_lem :
    (labels : List LabeledIssue) (findings : List PrFinding)
    → let result = evaluate labels findings in
      (result.true_positives + result.false_positives ≡ length findings)
      × (result.true_positives + result.false_negatives ≡ length labels)
      × (result.true_positives ≤ length findings)
      × (result.true_positives ≤ length labels)
unfolding evaluate
evaluate_lem labels findings =
    let counted = match_findings-IsCounted labels findings 0 none_seen (record {
      all_seen = refl;
      one_label_each = refl;
      all_labels = omega (arith, unmatched-nil 0 labels);
    }) in
    (
      omega (arith, counted.all_seen),
      omega (arith, counted.one_label_each, counted.all_labels),
      omega (arith, counted.all_seen),
      omega (arith, counted.one_label_each, counted.all_labels),
    )
  where
    none_seen : Matching
    none_seen = record { matched_labels = []; true_positives = 0; false_positives = 0 }
