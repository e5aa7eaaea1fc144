-- ===== src/Repositories/Graph/Symbols.antt =====
-- graph.service.ts: `buildSymbolGraph`.
pub mod Closed
use code_trace.Prelude.{
  ℕ, String, Bool, true, false, Option, none, some, List, [], ◌∷◌, ◌++◌, map, is_some, ◌==◌,
  text_eq, if◌then◌else◌, get_or, Map, lookup, insert, ◌+++◌, includes,
}
use code_trace.Repositories.Graph.{
  RelationshipType, calls, imports, extends, implements, normalize_path,
}

pub data SymbolType : Type 0 where
  function method class interface : SymbolType

pub record SymbolChunkRef : Type 0 where
  pub id : String
  pub symbol : String
  pub symbol_type : SymbolType
  pub file_path : String
  pub start_line : ℕ

pub record OutgoingEdgeRow : Type 0 where
  pub relationship_type : RelationshipType
  pub target : Option SymbolChunkRef
  pub external_target : Option String

pub record IncomingEdgeRow : Type 0 where
  pub relationship_type : RelationshipType
  pub source : SymbolChunkRef

pub record SymbolNode : Type 0 where
  pub id : String
  pub symbol : Option String
  pub symbol_type : Option SymbolType
  pub file : Option String
  pub start_line : Option ℕ
  pub external : Bool

pub record SymbolEdge : Type 0 where
  pub source : String
  pub target : String
  pub type : RelationshipType

unfoldable pub chunk_ref_to_node : SymbolChunkRef → SymbolNode
chunk_ref_to_node ref = record {
  id = ref.id;
  symbol = some ref.symbol;
  symbol_type = some ref.symbol_type;
  file = some (normalize_path ref.file_path);
  start_line = some ref.start_line;
  external = false;
}

abbrev pub type_name : RelationshipType → String
type_name calls = "CALLS"
type_name imports = "IMPORTS"
type_name extends = "EXTENDS"
type_name implements = "IMPLEMENTS"

-- `nodesById`, `edgeKeys` and `edges`
pub record Building : Type 0 where
  pub nodes : Map String SymbolNode
  pub edge_keys : List String
  pub edges : List SymbolEdge

abbrev pub outgoing_id : OutgoingEdgeRow → String
outgoing_id row = elim row.target [
  | none ↦ "external:" +++ get_or row.external_target "null"
  | some target ↦ target.id
]

abbrev pub outgoing_node : OutgoingEdgeRow → SymbolNode
outgoing_node row = elim row.target [
  | none ↦ record {
    id = outgoing_id row;
    symbol = row.external_target;
    symbol_type = none;
    file = none;
    start_line = none;
    external = true;
  }
  | some target ↦ chunk_ref_to_node target
]

unfoldable pub add_node : String → SymbolNode → Map String SymbolNode → Map String SymbolNode
add_node id node nodes = if is_some (lookup id nodes) then nodes else insert id node nodes

-- A row: its node, and its edge unless the key is taken.
unfoldable pub add_row : String → SymbolNode → String → SymbolEdge → Building → Building
add_row id node key edge b =
    let nodes = add_node id node b.nodes in
    if includes key b.edge_keys
    then record b { nodes = nodes }
    else record { nodes = nodes; edge_keys = b.edge_keys ++ key ∷ []; edges = b.edges ++ edge ∷ [] }

abbrev pub outgoing_key : OutgoingEdgeRow → String
outgoing_key row = "root->" +++ outgoing_id row +++ ":" +++ type_name row.relationship_type

abbrev pub incoming_key : IncomingEdgeRow → String
incoming_key row = row.source.id +++ "->root:" +++ type_name row.relationship_type

abbrev pub outgoing_edge : String → OutgoingEdgeRow → SymbolEdge
outgoing_edge root row = record {
  source = root;
  target = outgoing_id row;
  type = row.relationship_type;
}

abbrev pub incoming_edge : String → IncomingEdgeRow → SymbolEdge
incoming_edge root row = record {
  source = row.source.id;
  target = root;
  type = row.relationship_type;
}

unfoldable pub add_outgoing : String → List OutgoingEdgeRow → Building → Building
add_outgoing root [] b = b
add_outgoing root (row ∷ rows) b =
    add_outgoing root rows
      (add_row (outgoing_id row) (outgoing_node row) (outgoing_key row) (outgoing_edge root row) b)

unfoldable pub add_incoming : String → List IncomingEdgeRow → Building → Building
add_incoming root [] b = b
add_incoming root (row ∷ rows) b = add_incoming root rows (
    add_row row.source.id (chunk_ref_to_node row.source) (incoming_key row) (incoming_edge root row)
      b)

abbrev pub started : SymbolChunkRef → Building
started root = record {
  nodes = insert root.id (chunk_ref_to_node root) [];
  edge_keys = [];
  edges = [];
}

pub record SymbolGraph : Type 0 where
  pub nodes : List SymbolNode
  pub edges : List SymbolEdge

unfoldable pub build_symbol_graph :
    SymbolChunkRef → List OutgoingEdgeRow → List IncomingEdgeRow → SymbolGraph
build_symbol_graph root outgoing incoming =
    let built = add_incoming root.id incoming (add_outgoing root.id outgoing (started root)) in
    record { nodes = map (λ (n : String × SymbolNode). n.1) built.nodes; edges = built.edges }
