-- ===== src/Repositories/Graph/Tests.antt =====
-- A repository with one file under two spellings of its path, and a file that calls into it.
use code_trace.Prelude.{
  String, ◌≡◌, ◌≢◌, refl, Bool, true, Option, none, some, List, [], ◌∷◌, map, length, keep, Has,
  All, Distinct, sum_of, lookup, insert, text_eq,
}
use code_trace.Repositories.Graph.{
  calls, imports, FileRelationshipRow, FileChunkRow, FileNode, FileEdge, aggregate_file_graph,
  chunks_by_path, canonical_ids, relationship_count_by_chunk, edges_by_pair, normalize_path,
  first_sorted, place, sorted_chunks, file_node, count_one, ends_of,
}
use code_trace.Repositories.Graph.Edges.{aggregate_file_graph-edges, total, key_of, makes_edge}
use code_trace.Repositories.Graph.Nodes.{aggregate_file_graph-nodes, IsCounted, IsNode}
use code_trace.Repositories.Graph.Symbols.{
  SymbolChunkRef, function, OutgoingEdgeRow, IncomingEdgeRow, build_symbol_graph, outgoing_id,
  add_outgoing, add_incoming, add_row, add_node, chunk_ref_to_node,
}
use code_trace.Repositories.Graph.Symbols.Closed.{build_symbol_graph-IsClosed, ids_of, Joins}

abbrev chunk : String → String → String → FileChunkRow
chunk file path id = record { file_id = file; file_path = path; chunk_id = id; symbol = id }

abbrev chunks : List FileChunkRow
chunks = chunk "f2" "src\\a.ts" "main" ∷ chunk "f1" "src/a.ts" "help" ∷ chunk "f3" "b.ts" "run" ∷ []

abbrev relation : String → String → Option String → FileRelationshipRow
relation from_chunk from_file to_file = record {
  relationship_type = calls;
  from_chunk_id = from_chunk;
  from_file_id = from_file;
  from_file_path = "";
  to_chunk_id = some "help";
  to_file_id = to_file;
  to_file_path = none;
}

abbrev relations : List FileRelationshipRow
relations =
    relation "run" "f3" (some "f2")
    ∷ relation "run" "f3" (some "f1")
    ∷ relation "main" "f2" (some "f1")
    ∷ relation "main" "f2" none
    ∷ []

abbrev any_order : String → String → Bool
any_order a b = true

abbrev two_calls : FileEdge
two_calls = record {
  source = "f3";
  target = "f1";
  counts = record { calls_count = 2; imports_count = 0; extends_count = 0; implements_count = 0 };
}

edges_test : (aggregate_file_graph any_order relations chunks).edges ≡ two_calls ∷ []
unfolding aggregate_file_graph chunks_by_path canonical_ids relationship_count_by_chunk
    edges_by_pair normalize_path first_sorted place sorted_chunks file_node count_one ends_of lookup
    insert
edges_test = refl

aggregate_file_graph-edges_example :
    All (λ e. e.source ≢ e.target) (aggregate_file_graph any_order relations chunks).edges
    × Distinct (map key_of (aggregate_file_graph any_order relations chunks).edges)
    × (sum_of total (aggregate_file_graph any_order relations chunks).edges
        ≡ length (keep (makes_edge (canonical_ids (chunks_by_path chunks []) [])) relations))
aggregate_file_graph-edges_example = aggregate_file_graph-edges any_order relations chunks

aggregate_file_graph-nodes_example :
    Distinct
      (map (λ (n : FileNode). n.path) (aggregate_file_graph any_order relations chunks).nodes)
    × All (IsCounted chunks) (aggregate_file_graph any_order relations chunks).nodes
    × (sum_of
          (λ (n : FileNode). n.symbol_count)
          (aggregate_file_graph any_order relations chunks).nodes
        ≡ 3)
    × All IsNode (aggregate_file_graph any_order relations chunks).nodes
aggregate_file_graph-nodes_example = aggregate_file_graph-nodes any_order relations chunks

abbrev ref : String → SymbolChunkRef
ref id = record { id = id; symbol = id; symbol_type = function; file_path = "a.ts"; start_line = 1 }

abbrev outgoing : List OutgoingEdgeRow
outgoing =
    record { relationship_type = calls; target = some (ref "g"); external_target = none }
    ∷ record { relationship_type = calls; target = some (ref "g"); external_target = none }
    ∷ record { relationship_type = imports; target = none; external_target = some "fs" }
    ∷ []

abbrev incoming : List IncomingEdgeRow
incoming = record { relationship_type = calls; source = ref "g" } ∷ []

ids_test : ids_of (build_symbol_graph (ref "r") outgoing incoming) ≡ "r" ∷ "g" ∷ "external:fs" ∷ []
unfolding build_symbol_graph add_outgoing add_incoming add_row add_node chunk_ref_to_node
    normalize_path lookup insert
ids_test = refl

build_symbol_graph-IsClosed_example :
    Distinct (ids_of (build_symbol_graph (ref "r") outgoing incoming))
    × Has "r" (ids_of (build_symbol_graph (ref "r") outgoing incoming))
    × All
        (λ row. Has (outgoing_id row) (ids_of (build_symbol_graph (ref "r") outgoing incoming)))
        outgoing
    × All
        (λ row. Has (row.source.id) (ids_of (build_symbol_graph (ref "r") outgoing incoming)))
        incoming
    × All
        (Joins "r" (ids_of (build_symbol_graph (ref "r") outgoing incoming)))
        (build_symbol_graph (ref "r") outgoing incoming).edges
build_symbol_graph-IsClosed_example = build_symbol_graph-IsClosed (ref "r") outgoing incoming
