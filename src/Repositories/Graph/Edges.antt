-- ===== src/Repositories/Graph/Edges.antt =====
-- The edges between files.
use code_trace.Prelude.{
  ℕ, suc, ◌+◌, String, ◌≡◌, ◌≢◌, refl, sym, ◌∙◌, ap, subst, inl, inr, Bool, Option, none, some,
  List, [], ◌∷◌, map, keep, length, is_some, get_or, ◌==◌, text_eq, Map, lookup, insert, keys, All,
  All-insert, All-Has, Distinct, Distinct-keys-insert, Bool-cases, not_both, Option-cases,
  lookup-Has, arith, sum_of,
}
use code_trace.Repositories.Graph.{
  RelationshipType, calls, imports, extends, implements, FileRelationshipRow, FileChunkRow,
  count_one, FileEdge, edge_key, new_edge, counted, ends_of, ends_to, apart, add_edge,
  edges_by_pair, truthy, chunks_by_path, canonical_ids, aggregate_file_graph,
}

abbrev pub total : FileEdge → ℕ
total e =
    e.counts.calls_count + e.counts.imports_count + e.counts.extends_count
    + e.counts.implements_count

total-counted : (type : RelationshipType) (e : FileEdge) → total (counted type e) ≡ suc (total e)
unfolding count_one
total-counted calls e = omega arith
total-counted imports e = omega arith
total-counted extends e = omega arith
total-counted implements e = omega arith

-- An entry stands under the key of its ends, which are two files.
abbrev IsApart : String × FileEdge → Type 0
IsApart (key, e) = (key ≡ edge_key e.source e.target) × (e.source ≢ e.target)

abbrev pub entry_total : String × FileEdge → ℕ
entry_total (key, e) = total e

total_or : Option FileEdge → ℕ
total_or none = 0
total_or (some e) = total e

sum_of-insert :
    (k : String) (v : FileEdge) (m : Map String FileEdge)
    → sum_of entry_total (insert k v m) + total_or (lookup k m) ≡ sum_of entry_total m + total v
unfolding insert lookup total_or
sum_of-insert k v [] = omega arith
sum_of-insert k v ((key, e) ∷ m) = elim (Bool-cases (key == k)) [
  | inl same ↦ rw same (omega arith)
  | inr other ↦ rw other (omega (arith, sum_of-insert k v m))
]

totals-insert :
    (from to : String) (type : RelationshipType) (m : Map String FileEdge)
    → sum_of entry_total (add_edge type (some (from, to)) m) ≡ suc (sum_of entry_total m)
unfolding total_or
totals-insert from to type m =
    go (lookup (edge_key from to) m) (λ v. sum_of-insert (edge_key from to) v m)
  where
    go :
        (o : Option FileEdge)
        → ((v : FileEdge)
            → sum_of entry_total (insert (edge_key from to) v m) + total_or o
              ≡ sum_of entry_total m + total v)
        → sum_of entry_total
            (insert (edge_key from to) (counted type (get_or o (new_edge from to))) m)
          ≡ suc (sum_of entry_total m)
    go none h =
        omega (arith, h (counted type (new_edge from to)), total-counted type (new_edge from to))
    go (some e) h = omega (arith, h (counted type e), total-counted type e)

apart-ne : (a b from to : String) → apart a b ≡ some (from, to) → from ≢ to
apart-ne a b from to h same = elim (Bool-cases (a == b)) [
  | inl e ↦ absurd (cc (rw e at h))
  | inr e ↦
      let ends : (a ≡ from) × (b ≡ to) = (cc (rw e at h), cc (rw e at h)) in
      not_both ((text_eq.beq_iff a b).1 cc) e
]

ends_of-ne :
    (canonical : Map String String) (rel : FileRelationshipRow) (from to : String)
    → ends_of canonical rel ≡ some (from, to)
    → from ≢ to
unfolding ends_of
ends_of-ne canonical rel from to = go (truthy rel.to_file_id)
  where
    go : (o : Option String) → ends_to canonical rel.from_file_id o ≡ some (from, to) → from ≢ to
    go none h = absurd (cc h)
    go (some id) h = apart-ne _ _ from to h

add_edge-IsApart :
    (type : RelationshipType) (from to : String) (m : Map String FileEdge)
    → from ≢ to
    → All IsApart m
    → All IsApart (add_edge type (some (from, to)) m)
add_edge-IsApart type from to m ne h =
    All-insert IsApart (edge_key from to) _ m (go (lookup (edge_key from to) m) refl) h
  where
    go :
        (o : Option FileEdge)
        → lookup (edge_key from to) m ≡ o
        → IsApart (edge_key from to, counted type (get_or o (new_edge from to)))
    go none e = (refl, ne)
    go (some edge) e =
        All-Has IsApart m (edge_key from to, edge) h (lookup-Has (edge_key from to) edge m e)

abbrev pub makes_edge : Map String String → FileRelationshipRow → Bool
makes_edge canonical rel = is_some (ends_of canonical rel)

edges_by_pair_lem :
    (canonical : Map String String) (rels : List FileRelationshipRow) (m : Map String FileEdge)
    → All IsApart m
    → Distinct (keys m)
    → All IsApart (edges_by_pair canonical rels m)
      × Distinct (keys (edges_by_pair canonical rels m))
      × (sum_of entry_total (edges_by_pair canonical rels m)
          ≡ sum_of entry_total m + length (keep (makes_edge canonical) rels))
unfolding edges_by_pair
edges_by_pair_lem canonical [] m h d = (h, d, omega arith)
edges_by_pair_lem canonical (rel ∷ rels) m h d = elim (Option-cases (ends_of canonical rel)) [
  | inl e ↦ rw e (edges_by_pair_lem canonical rels m h d)
  | inr ((from, to), e) ↦
      let (apart_all, distinct, sum) =
        edges_by_pair_lem canonical rels (add_edge rel.relationship_type (some (from, to)) m)
          (add_edge-IsApart rel.relationship_type from to m (ends_of-ne canonical rel from to e) h)
          (Distinct-keys-insert (edge_key from to) _ m d) in
      rw e (apart_all, distinct, omega (arith, sum, totals-insert from to rel.relationship_type m))
]

abbrev edge_of : String × FileEdge → FileEdge
edge_of entry = entry.1

sum_of-edge_of : (m : Map String FileEdge) → sum_of total (map edge_of m) ≡ sum_of entry_total m
sum_of-edge_of [] = refl
sum_of-edge_of ((key, e) ∷ m) = ap (λ n. total e + n) (sum_of-edge_of m)

ends-apart :
    (m : Map String FileEdge) → All IsApart m → All (λ e. e.source ≢ e.target) (map edge_of m)
ends-apart [] h = tt
ends-apart ((key, e) ∷ m) ((same, ne), h) = (ne, ends-apart m h)

abbrev pub key_of : FileEdge → String
key_of e = edge_key e.source e.target

keys-edge_of : (m : Map String FileEdge) → All IsApart m → map key_of (map edge_of m) ≡ keys m
keys-edge_of [] h = refl
keys-edge_of ((key, e) ∷ m) ((same, ne), h) =
    rw (keys-edge_of m h) (ap (λ k. k ∷ keys m) (sym same))

-- In the graph of the files no edge leads from a file to itself and no two edges join the same files in the
-- same direction; and the counts of all edges sum up to the number of the relationships that have a target
-- file other than their source file.
pub aggregate_file_graph-edges :
    (locale_before : String → String → Bool) (relationships : List FileRelationshipRow)
    (chunks : List FileChunkRow)
    → let graph = aggregate_file_graph locale_before relationships chunks in
      All (λ e. e.source ≢ e.target) graph.edges
      × Distinct (map key_of graph.edges)
      × (sum_of total graph.edges
          ≡ length (keep (makes_edge (canonical_ids (chunks_by_path chunks []) [])) relationships))
unfolding aggregate_file_graph
aggregate_file_graph-edges locale_before relationships chunks =
    let canonical = canonical_ids (chunks_by_path chunks []) [] in
    let m = edges_by_pair canonical relationships [] in
    let (apart_all, distinct, sum) = edges_by_pair_lem canonical relationships [] tt tt in
    (
      ends-apart m apart_all,
      subst Distinct (sym (keys-edge_of m apart_all)) distinct,
      sum_of-edge_of m ∙ sum ∙ none_before _,
    )
  where
    none_before : (n : ℕ) → 0 + n ≡ n
    none_before n = omega arith
