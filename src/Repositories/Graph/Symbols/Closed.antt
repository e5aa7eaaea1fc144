-- ===== src/Repositories/Graph/Symbols/Closed.antt =====
-- The graph of a symbol names each node once and has no edge that leads out of it.
use code_trace.Prelude.{
  String, ◌≡◌, refl, sym, subst, ◌⊎◌, inl, inr, List, [], ◌∷◌, map, text_eq, Map, lookup, insert,
  keys, Has, All, All-append, All-insert, All-map, All-mono, Distinct, Has-keys-insert,
  keys-insert_keeps, Distinct-keys-insert, Bool-cases, Option-cases, lookup-Has, Has-keys, includes,
}
use code_trace.Repositories.Graph.Symbols.{
  SymbolChunkRef, OutgoingEdgeRow, IncomingEdgeRow, SymbolNode, SymbolEdge, SymbolGraph, Building,
  add_node, add_row, add_outgoing, add_incoming, build_symbol_graph, chunk_ref_to_node, outgoing_id,
  outgoing_node, outgoing_key, outgoing_edge, incoming_key, incoming_edge, started,
}

-- Both ends of the edge are among the ids, and one of them is the root.
abbrev pub Joins : String → List String → SymbolEdge → Type 0
Joins root ids edge =
    Has edge.source ids × Has edge.target ids × ((edge.source ≡ root) ⊎ (edge.target ≡ root))

abbrev IsNamed : String × SymbolNode → Type 0
IsNamed (id, node) = node.id ≡ id

record IsClosed (root : String) (b : Building) : Type 0 where
  distinct : Distinct (keys b.nodes)
  named : All IsNamed b.nodes
  rooted : Has root (keys b.nodes)
  joined : All (Joins root (keys b.nodes)) b.edges

add_node_lem :
    (id : String) (node : SymbolNode) (nodes : Map String SymbolNode)
    → node.id ≡ id
    → Distinct (keys nodes)
    → All IsNamed nodes
    → Distinct (keys (add_node id node nodes))
      × All IsNamed (add_node id node nodes)
      × Has id (keys (add_node id node nodes))
      × ((a : String) → Has a (keys nodes) → Has a (keys (add_node id node nodes)))
unfolding add_node
add_node_lem id node nodes same d named = elim (Option-cases (lookup id nodes)) [
  | inl e ↦ rw e (
    Distinct-keys-insert id node nodes d,
    All-insert IsNamed id node nodes same named,
    Has-keys-insert id node nodes,
    λ a h. keys-insert_keeps id a node nodes h,
  )
  | inr (old, e) ↦ rw e (d, named, Has-keys id old nodes (lookup-Has id old nodes e), λ a h. h)
]

module _ (root : String) where
  Joins-grows :
      (ids more : List String)
      → ((a : String) → Has a ids → Has a more)
      → (edge : SymbolEdge) → Joins root ids edge
      → Joins root more edge
  Joins-grows ids more grows edge (from, to, at_root) =
      (grows edge.source from, grows edge.target to, at_root)

  -- A row whose edge joins its node and the root.
  abbrev JoinsRoot : String → SymbolEdge → Type 0
  JoinsRoot id edge =
      ((edge.source ≡ root) × (edge.target ≡ id)) ⊎ ((edge.source ≡ id) × (edge.target ≡ root))

  Joins-row :
      (id : String) (edge : SymbolEdge) (ids : List String)
      → JoinsRoot id edge
      → Has root ids
      → Has id ids
      → Joins root ids edge
  Joins-row id edge ids (inl (from, to)) at_root here =
      (subst (λ x. Has x ids) (sym from) at_root, subst (λ x. Has x ids) (sym to) here, inl from)
  Joins-row id edge ids (inr (from, to)) at_root here =
      (subst (λ x. Has x ids) (sym from) here, subst (λ x. Has x ids) (sym to) at_root, inr to)

  add_row_lem :
      (id : String) (node : SymbolNode) (key : String) (edge : SymbolEdge) (b : Building)
      → node.id ≡ id
      → JoinsRoot id edge
      → IsClosed root b
      → IsClosed root (add_row id node key edge b)
        × Has id (keys (add_row id node key edge b).nodes)
        × ((a : String) → Has a (keys b.nodes) → Has a (keys (add_row id node key edge b).nodes))
  unfolding add_row
  add_row_lem id node key edge b same joins closed =
      let (distinct, named, here, grows) =
        add_node_lem id node b.nodes same closed.distinct closed.named in
      let joined = All-mono (Joins-grows _ _ grows) b.edges closed.joined in
      let rooted = grows root closed.rooted in
      elim (Bool-cases (includes key b.edge_keys)) [
        | inl e ↦ rw e (
          record { distinct = distinct; named = named; rooted = rooted; joined = joined },
          here,
          grows,
        )
        | inr e ↦ rw e (
          record {
            distinct = distinct;
            named = named;
            rooted = rooted;
            joined =
                All-append _ b.edges (edge ∷ []) joined (Joins-row id edge _ joins rooted here, tt);
          },
          here,
          grows,
        )
      ]

  Grown : Building → List String → Building → Type 0
  Grown b ids after =
      IsClosed root after
      × All (λ id. Has id (keys after.nodes)) ids
      × ((a : String) → Has a (keys b.nodes) → Has a (keys after.nodes))

  Grown-cons :
      (b middle after : Building) (id : String) (ids : List String)
      → ((a : String) → Has a (keys b.nodes) → Has a (keys middle.nodes))
      → Has id (keys middle.nodes)
      → Grown middle ids after
      → Grown b (id ∷ ids) after
  unfolding Grown
  Grown-cons b middle after id ids grows here (closed, there, grows_on) =
      (closed, (grows_on id here, there), λ a h. grows_on a (grows a h))

  outgoing_node-id : (row : OutgoingEdgeRow) → (outgoing_node row).id ≡ outgoing_id row
  unfolding chunk_ref_to_node
  outgoing_node-id row = elim (Option-cases row.target) [
    | inl e ↦ rw e refl
    | inr (target, e) ↦ rw e refl
  ]

  add_outgoing-Grown :
      (rows : List OutgoingEdgeRow) (b : Building)
      → IsClosed root b
      → Grown b (map outgoing_id rows) (add_outgoing root rows b)
  unfolding add_outgoing Grown
  add_outgoing-Grown [] b closed = (closed, tt, λ a h. h)
  add_outgoing-Grown (row ∷ rows) b closed =
      let (next, here, grows) =
        add_row_lem (outgoing_id row) (outgoing_node row) (outgoing_key row)
          (outgoing_edge root row) b (outgoing_node-id row) (inl (refl, refl)) closed in
      let middle =
        add_row (outgoing_id row) (outgoing_node row) (outgoing_key row) (outgoing_edge root row)
          b in
      Grown-cons b middle (add_outgoing root rows middle) (outgoing_id row) (map outgoing_id rows)
        grows here (add_outgoing-Grown rows middle next)

  abbrev pub incoming_id : IncomingEdgeRow → String
  incoming_id row = row.source.id

  add_incoming-Grown :
      (rows : List IncomingEdgeRow) (b : Building)
      → IsClosed root b
      → Grown b (map incoming_id rows) (add_incoming root rows b)
  unfolding add_incoming Grown chunk_ref_to_node
  add_incoming-Grown [] b closed = (closed, tt, λ a h. h)
  add_incoming-Grown (row ∷ rows) b closed =
      let (next, here, grows) =
        add_row_lem row.source.id (chunk_ref_to_node row.source) (incoming_key row)
          (incoming_edge root row) b refl (inr (refl, refl)) closed in
      let middle =
        add_row row.source.id (chunk_ref_to_node row.source) (incoming_key row)
          (incoming_edge root row) b in
      Grown-cons b middle (add_incoming root rows middle) row.source.id (map incoming_id rows) grows
        here (add_incoming-Grown rows middle next)

started-IsClosed : (root : SymbolChunkRef) → IsClosed root.id (started root)
unfolding chunk_ref_to_node insert
started-IsClosed root = record {
  distinct = ((λ h. h), tt);
  named = (refl, tt);
  rooted = inl refl;
  joined = tt;
}

ids-keys :
    (nodes : Map String SymbolNode)
    → All IsNamed nodes
    → map (λ (n : SymbolNode). n.id) (map (λ (e : String × SymbolNode). e.1) nodes) ≡ keys nodes
ids-keys [] h = refl
ids-keys ((id, node) ∷ nodes) (same, h) = rw (same, ids-keys nodes h) refl

abbrev pub ids_of : SymbolGraph → List String
ids_of graph = map (λ (n : SymbolNode). n.id) graph.nodes

-- The graph around a symbol has each node once; the symbol itself, the target of every outgoing row and the
-- source of every incoming row are among them; and each edge joins the symbol and a node of the graph.
pub build_symbol_graph-IsClosed :
    (root : SymbolChunkRef) (outgoing : List OutgoingEdgeRow) (incoming : List IncomingEdgeRow)
    → let graph = build_symbol_graph root outgoing incoming in
      Distinct (ids_of graph)
      × Has root.id (ids_of graph)
      × All (λ row. Has (outgoing_id row) (ids_of graph)) outgoing
      × All (λ row. Has (row.source.id) (ids_of graph)) incoming
      × All (Joins root.id (ids_of graph)) graph.edges
unfolding build_symbol_graph Grown
build_symbol_graph-IsClosed root outgoing incoming =
    let first = add_outgoing root.id outgoing (started root) in
    let last = add_incoming root.id incoming first in
    let (closed, targets, grown) =
      add_outgoing-Grown root.id outgoing (started root) (started-IsClosed root) in
    let (closed', sources, grown') = add_incoming-Grown root.id incoming first closed in
    rw (ids-keys last.nodes closed'.named) (
      closed'.distinct,
      closed'.rooted,
      All-map outgoing_id (λ id. Has id (keys last.nodes)) outgoing
          (All-mono (λ id h. grown' id h) (map outgoing_id outgoing) targets),
      All-map (λ (row : IncomingEdgeRow). row.source.id) (λ id. Has id (keys last.nodes)) incoming
          sources,
      closed'.joined,
    )
