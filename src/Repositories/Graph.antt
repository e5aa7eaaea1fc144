-- ===== src/Repositories/Graph.antt =====
-- graph.service.ts: the graph of a repository's files and the graph around one symbol.
-- `localeCompare` is a parameter, as whether the first text may stand before the second.
pub mod Symbols
pub mod Edges
pub mod Paths
mod Nodes
mod Tests
use Prim.Native.Char.{Char, code}
use Prim.Native.String
use Prim.Native.String.{compare}
use Prim.Native.Nat.{Ordering}
use code_trace.Prelude.{
  ℕ, ◌+◌, String, Bool, true, false, Option, none, some, List, [], ◌∷◌, ◌++◌, map, length, take,
  get_or, ltb, nat_eq, ◌==◌, text_eq, if◌then◌else◌, Map, lookup, insert, ◌+++◌,
}

pub data RelationshipType : Type 0 where
  calls imports extends implements : RelationshipType

pub record FileRelationshipRow : Type 0 where
  pub relationship_type : RelationshipType
  pub from_chunk_id : String
  pub from_file_id : String
  pub from_file_path : String
  pub to_chunk_id : Option String
  pub to_file_id : Option String
  pub to_file_path : Option String

pub record FileChunkRow : Type 0 where
  pub file_id : String
  pub file_path : String
  pub chunk_id : String
  pub symbol : String

pub record Counts : Type 0 where
  pub calls_count : ℕ
  pub imports_count : ℕ
  pub extends_count : ℕ
  pub implements_count : ℕ

abbrev pub empty_counts : Counts
empty_counts = record {
  calls_count = 0;
  imports_count = 0;
  extends_count = 0;
  implements_count = 0;
}

-- `counts[type] += 1`
unfoldable pub count_one : RelationshipType → Counts → Counts
count_one calls c = record c { calls_count = c.calls_count + 1 }
count_one imports c = record c { imports_count = c.imports_count + 1 }
count_one extends c = record c { extends_count = c.extends_count + 1 }
count_one implements c = record c { implements_count = c.implements_count + 1 }

-- `path.replace(/\\/g, "/")`
unfoldable pub normalize_path : String → String
normalize_path String.[] = ""
normalize_path (String.◌∷◌ c s) =
    let rest = normalize_path s in String.◌∷◌ (if nat_eq (code c) b'\\' then "/" else c) rest

-- `if (id)`: a missing or empty id is none
abbrev pub truthy : Option String → Option String
truthy none = none
truthy (some id) = if id == "" then none else some id

abbrev pub count_chunk : String → Map String ℕ → Map String ℕ
count_chunk id m = insert id (get_or (lookup id m) 0 + 1) m

abbrev pub count_target : Option String → Map String ℕ → Map String ℕ
count_target none m = m
count_target (some id) m = count_chunk id m

unfoldable pub relationship_count_by_chunk : List FileRelationshipRow → Map String ℕ → Map String ℕ
relationship_count_by_chunk [] m = m
relationship_count_by_chunk (rel ∷ rels) m =
    relationship_count_by_chunk rels
      (count_target (truthy rel.to_chunk_id) (count_chunk rel.from_chunk_id m))

unfoldable pub chunks_by_path :
    List FileChunkRow → Map String (List FileChunkRow) → Map String (List FileChunkRow)
chunks_by_path [] m = m
chunks_by_path (chunk ∷ chunks) m =
    let key = normalize_path chunk.file_path in
    chunks_by_path chunks (insert key (get_or (lookup key m) [] ++ chunk ∷ []) m)

abbrev pub smaller : String → String → String
smaller a b = elim (compare b a) [ Ordering.lt ↦ b | _ ↦ a ]

-- `ids.sort()[0]`
unfoldable pub first_sorted : String → List FileChunkRow → String
first_sorted id [] = id
first_sorted id (chunk ∷ chunks) = first_sorted (smaller id chunk.file_id) chunks

abbrev pub canonical_id : List FileChunkRow → Option String
canonical_id [] = none
canonical_id (chunk ∷ chunks) = some (first_sorted chunk.file_id chunks)

abbrev pub set_all : String → List FileChunkRow → Map String String → Map String String
set_all id [] m = m
set_all id (chunk ∷ chunks) m = set_all id chunks (insert chunk.file_id id m)

abbrev pub set_group : Option String → List FileChunkRow → Map String String → Map String String
set_group none chunks m = m
set_group (some id) chunks m = set_all id chunks m

unfoldable pub canonical_ids :
    Map String (List FileChunkRow) → Map String String → Map String String
canonical_ids [] m = m
canonical_ids ((path, chunks) ∷ groups) m =
    canonical_ids groups (set_group (canonical_id chunks) chunks m)

pub record TopSymbol : Type 0 where
  pub chunk_id : String
  pub symbol : String

pub record FileNode : Type 0 where
  pub id : Option String
  pub path : String
  pub symbol_count : ℕ
  pub top_symbols : List TopSymbol

pub record FileEdge : Type 0 where
  pub source : String
  pub target : String
  pub counts : Counts

pub record FileGraph : Type 0 where
  pub nodes : List FileNode
  pub edges : List FileEdge

module _ (locale_before : String → String → Bool) (counts : Map String ℕ) where
  abbrev pub count_of : FileChunkRow → ℕ
  count_of c = get_or (lookup c.chunk_id counts) 0

  -- The comparator does not put `b` before `a`.
  abbrev pub stays_before : FileChunkRow → FileChunkRow → Bool
  stays_before a b =
      if nat_eq (count_of a) (count_of b)
      then locale_before a.symbol b.symbol
      else ltb (count_of b) (count_of a)

  -- A stable sort.
  unfoldable pub place : FileChunkRow → List FileChunkRow → List FileChunkRow
  place c [] = c ∷ []
  place c (d ∷ ds) = if stays_before c d then c ∷ d ∷ ds else d ∷ place c ds

  unfoldable pub sorted_chunks : List FileChunkRow → List FileChunkRow
  sorted_chunks [] = []
  sorted_chunks (c ∷ cs) = place c (sorted_chunks cs)

  abbrev pub top_symbol : FileChunkRow → TopSymbol
  top_symbol c = record { chunk_id = c.chunk_id; symbol = c.symbol }

  abbrev pub first_file_id : List FileChunkRow → Option String
  first_file_id [] = none
  first_file_id (c ∷ cs) = some c.file_id

  abbrev pub lookup_id : Option String → Map String String → Option String
  lookup_id none m = none
  lookup_id (some id) m = lookup id m

  unfoldable pub file_node : Map String String → String × List FileChunkRow → FileNode
  file_node canonical (path, chunks) = record {
    id = lookup_id (first_file_id chunks) canonical;
    path = path;
    symbol_count = length chunks;
    top_symbols = map top_symbol (take 5 (sorted_chunks chunks));
  }

abbrev pub edge_key : String → String → String
edge_key from to = from +++ "->" +++ to

abbrev pub new_edge : String → String → FileEdge
new_edge from to = record { source = from; target = to; counts = empty_counts }

abbrev pub counted : RelationshipType → FileEdge → FileEdge
counted type edge = record edge { counts = count_one type edge.counts }

abbrev pub apart : String → String → Option (String × String)
apart from to = if from == to then none else some (from, to)

abbrev pub canonical_of : Map String String → String → String
canonical_of canonical id = get_or (lookup id canonical) id

abbrev pub ends_to : Map String String → String → Option String → Option (String × String)
ends_to canonical from_id none = none
ends_to canonical from_id (some to_id) =
    apart (canonical_of canonical from_id) (canonical_of canonical to_id)

-- the two ids of a relationship that makes an edge
unfoldable pub ends_of : Map String String → FileRelationshipRow → Option (String × String)
ends_of canonical rel = ends_to canonical rel.from_file_id (truthy rel.to_file_id)

abbrev pub add_edge :
    RelationshipType → Option (String × String) → Map String FileEdge → Map String FileEdge
add_edge type none m = m
add_edge type (some (from, to)) m =
    insert (edge_key from to)
      (counted type (get_or (lookup (edge_key from to) m) (new_edge from to))) m

unfoldable pub edges_by_pair :
    Map String String → List FileRelationshipRow → Map String FileEdge → Map String FileEdge
edges_by_pair canonical [] m = m
edges_by_pair canonical (rel ∷ rels) m =
    edges_by_pair canonical rels (add_edge rel.relationship_type (ends_of canonical rel) m)

unfoldable pub aggregate_file_graph :
    (String → String → Bool) → List FileRelationshipRow → List FileChunkRow → FileGraph
aggregate_file_graph locale_before relationships chunks =
    let counts = relationship_count_by_chunk relationships [] in
    let groups = chunks_by_path chunks [] in
    let canonical = canonical_ids groups [] in
    record {
      nodes = map (file_node locale_before counts canonical) groups;
      edges = map (λ (e : String × FileEdge). e.1) (edges_by_pair canonical relationships []);
    }
