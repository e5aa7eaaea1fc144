-- ===== src/Repositories/Graph/Nodes.antt =====
-- The nodes of the graph of the files.
use code_trace.Prelude.{
  ℕ, zero, suc, ◌+◌, ◌≤◌, String, ◌≡◌, ◌≢◌, refl, sym, ◌∙◌, ap, subst, inl, inr, Bool, true, Option,
  none, some, List, [], ◌∷◌, ◌++◌, map, take, length, is_some, get_or, ◌==◌, text_eq, Map, lookup,
  insert, keys, Has, All, All-append, All-insert, All-Has, Distinct, Tally, Distinct-keys-insert,
  Has-keys-insert, keys-insert_keeps, keys-lookup, Bool-cases, lookup-Has, arith, sum_of,
}
use code_trace.Repositories.Graph.{
  FileRelationshipRow, FileChunkRow, FileNode, chunks_by_path, canonical_id, canonical_ids, set_all,
  set_group, normalize_path, file_node, sorted_chunks, top_symbol, aggregate_file_graph,
  relationship_count_by_chunk,
}
use code_trace.Repositories.Graph.Paths.{Slashed, size_or, size-joined, group-Tally}

abbrev Group : Type 0
Group = String × List FileChunkRow

abbrev size : Group → ℕ
size (path, chunks) = length chunks

sum_of-insert :
    (k : String) (v : List FileChunkRow) (m : Map String (List FileChunkRow))
    → sum_of size (insert k v m) + size_or (lookup k m) ≡ sum_of size m + length v
unfolding insert lookup size_or
sum_of-insert k v [] = omega arith
sum_of-insert k v ((key, chunks) ∷ m) = elim (Bool-cases (key == k)) [
  | inl same ↦ rw same (omega arith)
  | inr other ↦ rw other (omega (arith, sum_of-insert k v m))
]

-- The group has a chunk, and all its chunks have its path.
abbrev IsGroup : Group → Type 0
IsGroup (path, chunks) = (chunks ≢ []) × All (λ c. normalize_path c.file_path ≡ path) chunks

append-ne : {A : Type 0} (xs : List A) (x : A) → xs ++ x ∷ [] ≢ []
append-ne [] x e = absurd (cc e)
append-ne (y ∷ xs) x e = absurd (cc e)

module _ (chunk : FileChunkRow) (m : Map String (List FileChunkRow)) where
  abbrev key_of : String
  key_of = normalize_path chunk.file_path

  joined-IsGroup :
      (o : Option (List FileChunkRow))
      → lookup key_of m ≡ o
      → All IsGroup m
      → IsGroup (key_of, get_or o [] ++ chunk ∷ [])
  joined-IsGroup none e h = (append-ne [] chunk, (refl, tt))
  joined-IsGroup (some chunks) e h = (
    append-ne chunks chunk,
    All-append _ chunks (chunk ∷ [])
        (All-Has IsGroup m (key_of, chunks) h (lookup-Has key_of chunks m e)).1 (refl, tt),
  )

chunks_by_path_lem :
    (chunks : List FileChunkRow) (m : Map String (List FileChunkRow))
    → All IsGroup m
    → Distinct (keys m)
    → All IsGroup (chunks_by_path chunks m)
      × Distinct (keys (chunks_by_path chunks m))
      × (sum_of size (chunks_by_path chunks m) ≡ sum_of size m + length chunks)
unfolding chunks_by_path
chunks_by_path_lem [] m h d = (h, d, omega arith)
chunks_by_path_lem (chunk ∷ chunks) m h d =
    let key = normalize_path chunk.file_path in
    let group = get_or (lookup key m) [] ++ chunk ∷ [] in
    let (groups, distinct, sum) =
      chunks_by_path_lem chunks (insert key group m)
        (All-insert IsGroup key group m (joined-IsGroup chunk m (lookup key m) refl h) h)
        (Distinct-keys-insert key group m d) in
    (
      groups,
      distinct,
      omega (arith, sum, sum_of-insert key group m, size-joined chunk (lookup key m)),
    )

set_all-keeps :
    (id a : String) (chunks : List FileChunkRow) (m : Map String String)
    → Has a (keys m)
    → Has a (keys (set_all id chunks m))
set_all-keeps id a [] m h = h
set_all-keeps id a (chunk ∷ chunks) m h =
    set_all-keeps id a chunks (insert chunk.file_id id m) (keys-insert_keeps chunk.file_id a id m h)

set_group-keeps :
    (o : Option String) (a : String) (chunks : List FileChunkRow) (m : Map String String)
    → Has a (keys m)
    → Has a (keys (set_group o chunks m))
set_group-keeps none a chunks m h = h
set_group-keeps (some id) a chunks m h = set_all-keeps id a chunks m h

canonical_ids-keeps :
    (a : String) (groups : List Group) (m : Map String String)
    → Has a (keys m)
    → Has a (keys (canonical_ids groups m))
unfolding canonical_ids
canonical_ids-keeps a [] m h = h
canonical_ids-keeps a ((path, chunks) ∷ groups) m h =
    canonical_ids-keeps a groups _ (set_group-keeps (canonical_id chunks) a chunks m h)

-- The first chunk of each group has a canonical id.
canonical_ids-first :
    (path : String) (c : FileChunkRow) (cs : List FileChunkRow) (groups : List Group)
    (m : Map String String)
    → Has (path, c ∷ cs) groups
    → Has c.file_id (keys (canonical_ids groups m))
unfolding canonical_ids
canonical_ids-first path c cs [] m h = absurd h
canonical_ids-first path c cs ((p, chunks) ∷ groups) m (inl e) =
    canonical_ids-keeps c.file_id groups _ (here chunks (ap (λ g. g.1) e))
  where
    here :
        (chunks : List FileChunkRow)
        → chunks ≡ c ∷ cs
        → Has c.file_id (keys (set_group (canonical_id chunks) chunks m))
    here chunks e =
        subst (λ xs. Has c.file_id (keys (set_group (canonical_id xs) xs m))) (sym e)
          (set_all-keeps _ c.file_id cs _ (Has-keys-insert c.file_id _ m))
canonical_ids-first path c cs ((p, chunks) ∷ groups) m (inr h) =
    canonical_ids-first path c cs groups _ h

length-take : {A : Type 0} (n : ℕ) (xs : List A) → length (take n xs) ≤ n
length-take zero xs = omega arith
length-take (suc n) [] = omega arith
length-take (suc n) (x ∷ xs) = omega (arith, length-take n xs)

length-map : {A B : Type 0} (f : A → B) (xs : List A) → length (map f xs) ≡ length xs
length-map f [] = refl
length-map f (x ∷ xs) = ap suc (length-map f xs)

-- The node counts the chunks that stand under its path.
abbrev pub IsCounted : List FileChunkRow → FileNode → Type 0
IsCounted chunks node = Tally (λ c. Slashed c.file_path node.path) chunks node.symbol_count

-- The node has an id, and at most five of its symbols.
abbrev pub IsNode : FileNode → Type 0
IsNode node = (is_some node.id ≡ true) × (length node.top_symbols ≤ 5)

module _ (locale_before : String → String → Bool) (counts : Map String ℕ)
    (canonical : Map String String) where
  file_node-IsNode :
      (path : String) (chunks : List FileChunkRow)
      → chunks ≢ []
      → ((c : FileChunkRow) (cs : List FileChunkRow)
          → chunks ≡ c ∷ cs
          → Has c.file_id (keys canonical))
      → IsNode (file_node locale_before counts canonical (path, chunks))
  unfolding file_node
  file_node-IsNode path [] some_chunk first = absurd (some_chunk refl)
  file_node-IsNode path (c ∷ cs) some_chunk first =
      let (id, found) = keys-lookup c.file_id canonical (first c cs refl) in
      (
        rw found refl,
        omega (
          arith,
          length-map (top_symbol locale_before counts)
              (take 5 (sorted_chunks locale_before counts (c ∷ cs))),
          length-take 5 (sorted_chunks locale_before counts (c ∷ cs)),
        ),
      )

  nodes-IsNode :
      (groups : List Group)
      → All IsGroup groups
      → ((path : String) (c : FileChunkRow) (cs : List FileChunkRow)
          → Has (path, c ∷ cs) groups
          → Has c.file_id (keys canonical))
      → All IsNode (map (file_node locale_before counts canonical) groups)
  nodes-IsNode [] h first = tt
  nodes-IsNode ((path, chunks) ∷ groups) ((some_chunk, same), h) first = (
    file_node-IsNode path chunks some_chunk
        (λ c cs e. first path c cs (inl (ap (λ xs. (path, xs)) e))),
    nodes-IsNode groups h (λ p c cs k. first p c cs (inr k)),
  )

  nodes-IsCounted :
      (chunks : List FileChunkRow) (groups : List Group)
      → ((path : String) (group : List FileChunkRow)
          → Has (path, group) groups
          → Tally (λ c. Slashed c.file_path path) chunks (length group))
      → All (IsCounted chunks) (map (file_node locale_before counts canonical) groups)
  unfolding file_node
  nodes-IsCounted chunks [] h = tt
  nodes-IsCounted chunks ((path, group) ∷ groups) h =
      (h path group (inl refl), nodes-IsCounted chunks groups (λ p g k. h p g (inr k)))

  paths-file_node :
      (groups : List Group)
      → map (λ (n : FileNode). n.path) (map (file_node locale_before counts canonical) groups)
        ≡ keys groups
  unfolding file_node
  paths-file_node [] = refl
  paths-file_node ((path, chunks) ∷ groups) = ap (λ ps. path ∷ ps) (paths-file_node groups)

  sum_of-file_node :
      (groups : List Group)
      → sum_of
          (λ (n : FileNode). n.symbol_count)
          (map (file_node locale_before counts canonical) groups)
        ≡ sum_of size groups
  unfolding file_node
  sum_of-file_node [] = refl
  sum_of-file_node ((path, chunks) ∷ groups) = ap (λ n. length chunks + n) (sum_of-file_node groups)

-- In the graph of the files no two nodes have one path. The symbol count of a node is the number of the chunks
-- whose file path is the node's once "/" has taken the place of each backslash, and the counts of all nodes
-- together are as many as the chunks. Each node has an id and at most five top symbols.
pub aggregate_file_graph-nodes :
    (locale_before : String → String → Bool) (relationships : List FileRelationshipRow)
    (chunks : List FileChunkRow)
    → let graph = aggregate_file_graph locale_before relationships chunks in
      Distinct (map (λ (n : FileNode). n.path) graph.nodes)
      × All (IsCounted chunks) graph.nodes
      × (sum_of (λ (n : FileNode). n.symbol_count) graph.nodes ≡ length chunks)
      × All IsNode graph.nodes
unfolding aggregate_file_graph
aggregate_file_graph-nodes locale_before relationships chunks =
    let counts = relationship_count_by_chunk relationships [] in
    let groups = chunks_by_path chunks [] in
    let canonical = canonical_ids groups [] in
    let (grouped, distinct, sum) = chunks_by_path_lem chunks [] tt tt in
    (
      subst Distinct (sym (paths-file_node locale_before counts canonical groups)) distinct,
      nodes-IsCounted locale_before counts canonical chunks groups
          (λ path group h. group-Tally chunks path group distinct h),
      sum_of-file_node locale_before counts canonical groups ∙ sum ∙ none_before _,
      nodes-IsNode locale_before counts canonical groups grouped
          (λ path c cs h. canonical_ids-first path c cs groups [] h),
    )
  where
    none_before : (n : ℕ) → 0 + n ≡ n
    none_before n = omega arith
