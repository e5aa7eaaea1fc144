-- ===== src/Review/Chunks/Dependencies.antt =====
-- The one-hop walk of the symbol relationships.
use mathlib.Core.List.{map-append}
use code_trace.Prelude.{
  String, ◌≡◌, refl, sym, ap, ◌∙◌, ◌⊎◌, inl, inr, true, false, Option, none, some, List, [], ◌∷◌,
  map, arith, Has, Has-append, Has-append_left, Has-append_right, Distinct, Distinct-concat,
  includes, includes→Has, Has→includes, Bool-cases, not_both, text_eq, subst,
}
use code_trace.Database.{ChunkRow, RelationshipRow, Query}
use code_trace.Review.Types.{ChunkRef}
use code_trace.Review.Chunks.{
  ref_at, is_touching, Walk, visit, visit_from, visit_to, walk, no_walk, one_hop,
}

abbrev pub ids_of : List ChunkRef → List String
ids_of = map (λ (x : ChunkRef). x.chunk_id)

-- The chunk is an end of a relationship of the list.
abbrev pub IsEnd : List RelationshipRow → ChunkRow → Type 0
IsEnd rels c =
    (rel : RelationshipRow) × Has rel rels × ((rel.from_chunk ≡ c) ⊎ (rel.to_chunk ≡ some c))

-- The joined row `fromChunk` is the one that `fromChunkId` names.
abbrev pub IsJoined : List RelationshipRow → Type 0
IsJoined rels = (rel : RelationshipRow) → Has rel rels → rel.from_chunk.id ≡ rel.from_chunk_id

-- The end of the relationship that is not among the given chunks.
abbrev pub IsOtherEnd : List String → RelationshipRow → ChunkRow → Type 0
IsOtherEnd ids rel c = ((rel.from_chunk ≡ c) ⊎ (rel.to_chunk ≡ some c)) × (Has c.id ids → ⊥)

module _ (ids : List String) (all : List RelationshipRow) where
  record Inv (w : Walk) : Type 0 where
    distinct : Distinct (ids_of w.results)
    seen : (a : String) → Has a (ids_of w.results) → Has a w.seen
    kept : (a : String) → Has a w.seen → Has a (ids_of w.results)
    outside : (x : ChunkRef) → Has x w.results → Has x.chunk_id ids → ⊥
    ends :
        (x : ChunkRef) → Has x w.results → (c : ChunkRow) × (x ≡ ref_at c.file_path c) × IsEnd all c

  Inv-no_walk : Inv no_walk
  Inv-no_walk = record {
    distinct = tt;
    seen = λ a h. h;
    kept = λ a h. h;
    outside = λ x h k. h;
    ends = λ x h. absurd h;
  }

  Inv-visit :
      (c : ChunkRow) (w : Walk)
      → IsEnd all c
      → (Has c.id ids → ⊥)
      → (Has c.id w.seen → ⊥)
      → Inv w
      → Inv (visit c w)
  unfolding visit
  Inv-visit c w end out new inv = record {
    distinct =
        subst Distinct (sym (map-append _ w.results (ref_at c.file_path c ∷ [])))
          (Distinct-concat (ids_of w.results) c.id inv.distinct (λ h. new (inv.seen c.id h)));
    seen = λ a h.
        elim (Has-append a (ids_of w.results) (c.id ∷ [])
          (subst (Has a) (map-append _ w.results (ref_at c.file_path c ∷ [])) h)) [
            | inl old ↦ inr (inv.seen a old)
            | inr last ↦ elim last [ inl same ↦ inl same | inr no_more ↦ absurd no_more ]
          ];
    kept = λ a h. subst (Has a) (sym (map-append _ w.results (ref_at c.file_path c ∷ []))) (elim h [
      | inl same ↦ Has-append_right a (ids_of w.results) (c.id ∷ []) (inl same)
      | inr old ↦ Has-append_left a (ids_of w.results) (c.id ∷ []) (inv.kept a old)
    ]);
    outside = λ x h. elim (Has-append x w.results (ref_at c.file_path c ∷ []) h) [
      | inl old ↦ inv.outside x old
      | inr last ↦ elim last [
        | inl same ↦
            λ k. out (subst (λ y. Has y ids) (sym (ap (λ (y : ChunkRef). y.chunk_id) same)) k)
        | inr no_more ↦ absurd no_more
      ]
    ];
    ends = λ x h. elim (Has-append x w.results (ref_at c.file_path c ∷ []) h) [
      | inl old ↦ inv.ends x old
      | inr last ↦ elim last [ inl same ↦ (c, sym same, end) | inr no_more ↦ absurd no_more ]
    ];
  }

  not_includes : (a : String) (xs : List String) → includes a xs ≡ false → Has a xs → ⊥
  not_includes a xs e h = not_both (Has→includes a xs h) e

  Inv-visit_from :
      (rel : RelationshipRow) (w : Walk)
      → Has rel all
      → rel.from_chunk.id ≡ rel.from_chunk_id
      → Inv w
      → Inv (visit_from ids rel w)
  unfolding visit_from
  Inv-visit_from rel w listed joined inv = elim (Bool-cases (includes rel.from_chunk_id ids)) [
    | inl given ↦ rw given inv
    | inr other ↦ elim (Bool-cases (includes rel.from_chunk.id w.seen)) [
      | inl old ↦ rw (other, old) inv
      | inr new ↦
          rw (other, new)
            (Inv-visit rel.from_chunk w (rel, listed, inl refl)
              (λ h. not_includes rel.from_chunk_id ids other (subst (λ a. Has a ids) joined h))
              (not_includes rel.from_chunk.id w.seen new) inv)
    ]
  ]

  Inv-visit_to :
      (rel : RelationshipRow) (o : Option ChunkRow) (w : Walk)
      → Has rel all
      → rel.to_chunk ≡ o
      → Inv w
      → Inv (visit_to ids o w)
  unfolding visit_to
  Inv-visit_to rel none w listed is_to inv = inv
  Inv-visit_to rel (some c) w listed is_to inv = elim (Bool-cases (includes c.id ids)) [
    | inl given ↦ rw given inv
    | inr other ↦ elim (Bool-cases (includes c.id w.seen)) [
      | inl old ↦ rw (other, old) inv
      | inr new ↦
          rw (other, new)
            (Inv-visit c w (rel, listed, inr is_to) (not_includes c.id ids other)
              (not_includes c.id w.seen new) inv)
    ]
  ]

  Inv-walk :
      IsJoined all
      → (rels : List RelationshipRow) (w : Walk)
      → ((rel : RelationshipRow) → Has rel rels → Has rel all)
      → Inv w
      → Inv (walk ids rels w)
  unfolding walk
  Inv-walk joined [] w listed inv = inv
  Inv-walk joined (rel ∷ rels) w listed inv =
      let here = listed rel (inl refl) in
      Inv-walk joined rels _ (λ r h. listed r (inr h))
        (Inv-visit_to rel rel.to_chunk _ here refl
          (Inv-visit_from rel w here (joined rel here) inv))

  seen-visit_from :
      (rel : RelationshipRow) (w : Walk) (a : String)
      → Has a w.seen
      → Has a (visit_from ids rel w).seen
  unfolding visit_from visit
  seen-visit_from rel w a h = ground arith

  seen-visit_to :
      (o : Option ChunkRow) (w : Walk) (a : String) → Has a w.seen → Has a (visit_to ids o w).seen
  unfolding visit_to visit
  seen-visit_to none w a h = h
  seen-visit_to (some c) w a h = ground arith

  seen-walk :
      (rels : List RelationshipRow) (w : Walk) (a : String)
      → Has a w.seen
      → Has a (walk ids rels w).seen
  unfolding walk
  seen-walk [] w a h = h
  seen-walk (rel ∷ rels) w a h =
      seen-walk rels _ a (seen-visit_to rel.to_chunk _ a (seen-visit_from rel w a h))

  from_seen :
      (rel : RelationshipRow) (w : Walk)
      → (Has rel.from_chunk_id ids → ⊥)
      → Has rel.from_chunk.id (visit_from ids rel w).seen
  unfolding visit_from visit
  from_seen rel w out = elim (Bool-cases (includes rel.from_chunk_id ids)) [
    | inl given ↦ absurd (out (includes→Has rel.from_chunk_id ids given))
    | inr other ↦ elim (Bool-cases (includes rel.from_chunk.id w.seen)) [
      | inl old ↦ rw (other, old) (includes→Has rel.from_chunk.id w.seen old)
      | inr new ↦ rw (other, new) (inl refl)
    ]
  ]

  to_seen :
      (c : ChunkRow) (o : Option ChunkRow) (w : Walk)
      → o ≡ some c
      → (Has c.id ids → ⊥)
      → Has c.id (visit_to ids o w).seen
  unfolding visit_to visit
  to_seen c o w e out = rw e (elim (Bool-cases (includes c.id ids)) [
    | inl given ↦ absurd (out (includes→Has c.id ids given))
    | inr other ↦ elim (Bool-cases (includes c.id w.seen)) [
      | inl old ↦ rw (other, old) (includes→Has c.id w.seen old)
      | inr new ↦ rw (other, new) (inl refl)
    ]
  ])

  all_seen :
      IsJoined all
      → (rels : List RelationshipRow) (w : Walk) (rel : RelationshipRow) (c : ChunkRow)
      → ((r : RelationshipRow) → Has r rels → Has r all)
      → Has rel rels
      → IsOtherEnd ids rel c
      → Has c.id (walk ids rels w).seen
  unfolding walk
  all_seen joined [] w rel c listed h end = absurd h
  all_seen joined (r ∷ rels) w rel c listed (inr h) end =
      all_seen joined rels _ rel c (λ x k. listed x (inr k)) h end
  all_seen joined (r ∷ rels) w rel c listed (inl same) (inl from, out) = seen-walk rels _ c.id (
      seen-visit_to r.to_chunk _ c.id (
        subst (λ (x : ChunkRow). Has x.id (visit_from ids r w).seen)
          (ap (λ x. x.from_chunk) same ∙ from)
          (from_seen r w (λ h. out (
            subst (λ a. Has a ids)
              (sym (joined r (listed r (inl refl)))
                ∙ ap (λ (x : ChunkRow). x.id) (ap (λ x. x.from_chunk) same ∙ from))
              h)))))
  all_seen joined (r ∷ rels) w rel c listed (inl same) (inr to, out) =
      seen-walk rels _ c.id (to_seen c r.to_chunk _ (ap (λ x. x.to_chunk) same ∙ to) out)

-- The walk from the given chunks, where each relationship is joined to the chunk that it starts at:
-- no result occurs twice, none is one of the given chunks, each is an end of a relationship of the
-- repository that starts or ends at a given chunk, and every such end that is not a given chunk is
-- among the results.
pub one_hop_exact :
    (relationships : Query RelationshipRow) (repository_id : String) (ids : List String)
    → IsJoined relationships.rows
    → let results = one_hop relationships repository_id ids in
      let rels = relationships.find_many (is_touching repository_id ids) in
      Distinct (ids_of results)
      × ((x : ChunkRef) → Has x results → Has x.chunk_id ids → ⊥)
      × ((x : ChunkRef)
          → Has x results
          → (c : ChunkRow) × (x ≡ ref_at c.file_path c) × IsEnd rels c)
      × ((rel : RelationshipRow) (c : ChunkRow)
          → Has rel relationships.rows
          → is_touching repository_id ids rel ≡ true
          → IsOtherEnd ids rel c
          → Has c.id (ids_of results))
unfolding one_hop
one_hop_exact relationships repository_id [] joined =
    (tt, (λ x h k. h), (λ x h. absurd h), λ rel c h t end. absurd (no_ids rel t))
  where
    no_ids : (rel : RelationshipRow) → is_touching repository_id [] rel ≡ true → ⊥
    no_ids rel t = ground arith
one_hop_exact relationships repository_id (id ∷ ids) joined =
    let p = is_touching repository_id (id ∷ ids) in
    let rels = relationships.find_many p in
    let joined' : IsJoined rels = λ rel h. joined rel ((relationships.find_many_iff p rel).0 h).0 in
    let inv =
      Inv-walk (id ∷ ids) rels joined' rels no_walk (λ r h. h) (Inv-no_walk (id ∷ ids) rels) in
    (
      inv.distinct,
      inv.outside,
      inv.ends,
      λ rel c h t end. inv.kept c.id (
          all_seen (id ∷ ids) rels joined' rels no_walk rel c (λ r k. k)
            ((relationships.find_many_iff p rel).1 (h, t)) end),
    )
