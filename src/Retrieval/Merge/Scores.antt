-- ===== src/Retrieval/Merge/Scores.antt =====
-- The score of each chunk: which chunks have one, and what it is.
use code_trace.Prelude.{
  ℕ, ◌+◌, String, ◌≡◌, refl, sym, ap, ◌∙◌, ◌↔◌, ◌⊎◌, inl, inr, Bool, true, false, some, List, [],
  ◌∷◌, map, arith, Has, includes, Map, lookup, insert, lookup-insert, text_eq, eq_iff, get_or,
  if◌then◌else◌, ◌==◌, Distinct, Bool-cases, map-Has, not_both, subst,
}
use code_trace.Retrieval.Types.{RankedChunk}
use code_trace.Retrieval.Merge.{Score, add_scores}

abbrev pub keys : {V : Type 0} → Map String V → List String
keys {V} = map (λ (x : String × V). x.0)

abbrev pub chunk_ids : List RankedChunk → List String
chunk_ids = map (λ (r : RankedChunk). r.chunk_id)

-- What `insert` does to the keys.
Has-keys-insert :
    {V : Type 0} (k a : String) (v : V) (m : Map String V)
    → Has a (keys (insert k v m)) ↔ ((k ≡ a) ⊎ Has a (keys m))
unfolding insert
Has-keys-insert k a v [] = ((λ h. h), λ h. h)
Has-keys-insert k a v ((j, w) ∷ m) =
    let (before, after) = Has-keys-insert k a v m in
    elim (Bool-cases (j == k)) [
      | inl same ↦
          rw (same, insert)
            ((λ h. inr h), λ h. elim h [ inl e ↦ inl ((eq_iff j k).0 same ∙ e) | inr old ↦ old ])
      | inr other ↦
          rw (other, insert)
            (
              (λ h. elim h [
                | inl e ↦ inr (inl e)
                | inr later ↦ elim (before later) [ inl e ↦ inl e | inr old ↦ inr (inr old) ]
              ]),
              λ h. elim h [
                | inl e ↦ inr (after (inl e))
                | inr old ↦ elim old [ inl e ↦ inl e | inr deep ↦ inr (after (inr deep)) ]
              ],
            )
    ]

Distinct-keys-insert :
    {V : Type 0} (k : String) (v : V) (m : Map String V)
    → Distinct (keys m)
    → Distinct (keys (insert k v m))
unfolding insert
Distinct-keys-insert k v [] d = ((λ h. h), tt)
Distinct-keys-insert k v ((j, w) ∷ m) (fresh, d) = elim (Bool-cases (j == k)) [
  | inl same ↦ rw (same, insert) (fresh, d)
  | inr other ↦
      rw (other, insert)
        (
          (λ h. elim ((Has-keys-insert k j v m).0 h) [
            | inl e ↦ not_both ((eq_iff j k).1 (sym e)) other
            | inr old ↦ fresh old
          ]),
          Distinct-keys-insert k v m d,
        )
]

module _ {F : Type 0} (s : Score F) where
  open s use {nought, plus, reciprocal}

  -- `acc`, with a term `1 / (k + rank)` added for each result of the chunk, in the order of the list.
  pub add_terms : ℕ → String → List RankedChunk → F → F
  add_terms k a [] acc = acc
  add_terms k a (r ∷ rs) acc =
      add_terms k a rs (if r.chunk_id == a then plus acc (reciprocal (k + r.rank)) else acc)

  pub add_terms_none :
      (k : ℕ) (a : String) (rs : List RankedChunk) (acc : F)
      → includes a (chunk_ids rs) ≡ false
      → add_terms k a rs acc ≡ acc
  unfolding add_terms
  add_terms_none k a [] acc h = refl
  add_terms_none k a (r ∷ rs) acc h =
      ground (arith, λ (e : includes a (chunk_ids rs) ≡ false). add_terms_none k a rs acc e)

  pub lookup-add_scores :
      (k : ℕ) (a : String) (rs : List RankedChunk) (m : Map String F)
      → lookup a (add_scores s k rs m) ≡ (
          if includes a (chunk_ids rs)
          then some (add_terms k a rs (get_or (lookup a m) nought))
          else lookup a m)
  unfolding add_scores add_terms
  lookup-add_scores k a [] m = refl
  lookup-add_scores k a (r ∷ rs) m = elim (Bool-cases (r.chunk_id == a)) [
    | inl same ↦
        rw
          (
            lookup-add_scores k a rs,
            lookup-insert,
            (eq_iff r.chunk_id a).0 same,
            (eq_iff a a).1 refl,
          )
          (settle _ (includes a (chunk_ids rs)) refl)
    | inr other ↦ rw (lookup-add_scores k a rs, lookup-insert, other) refl
  ]
    where
      settle :
          (acc : F) (b : Bool)
          → includes a (chunk_ids rs) ≡ b
          → (if b then some (add_terms k a rs acc) else some acc) ≡ some (add_terms k a rs acc)
      settle acc true e = refl
      settle acc false e = ap some (sym (add_terms_none k a rs acc e))

  pub Has-keys-add_scores :
      (k : ℕ) (a : String) (rs : List RankedChunk) (m : Map String F)
      → Has a (keys (add_scores s k rs m)) ↔ (Has a (chunk_ids rs) ⊎ Has a (keys m))
  unfolding add_scores
  Has-keys-add_scores k a [] m = ((λ h. inr h), λ h. elim h [ inl e ↦ absurd e | inr old ↦ old ])
  Has-keys-add_scores k a (r ∷ rs) m =
      let ih = Has-keys-add_scores k a rs _ in
      let here = Has-keys-insert r.chunk_id a _ m in
      (
        λ h. elim (ih.0 h) [
          | inl later ↦ inl (inr later)
          | inr k ↦ elim (here.0 k) [ inl e ↦ inl (inl e) | inr old ↦ inr old ]
        ],
        λ h. elim h [
          | inl listed ↦ elim listed [
            | inl e ↦ ih.1 (inr (here.1 (inl e)))
            | inr later ↦ ih.1 (inl later)
          ]
          | inr old ↦ ih.1 (inr (here.1 (inr old)))
        ],
      )

  pub Distinct-keys-add_scores :
      (k : ℕ) (rs : List RankedChunk) (m : Map String F)
      → Distinct (keys m)
      → Distinct (keys (add_scores s k rs m))
  unfolding add_scores
  Distinct-keys-add_scores k [] m d = d
  Distinct-keys-add_scores k (r ∷ rs) m d =
      Distinct-keys-add_scores k rs _ (Distinct-keys-insert r.chunk_id _ m d)

-- An entry is what the map has at its key, if no key occurs twice.
pub lookup_of_Has :
    {V : Type 0} (a : String) (v : V) (m : Map String V)
    → Distinct (keys m)
    → Has (a, v) m
    → lookup a m ≡ some v
unfolding lookup
lookup_of_Has a v [] d h = absurd h
lookup_of_Has a v ((j, w) ∷ m) (fresh, d) (inl e) =
    rw ((eq_iff j a).1 (ap (λ x. x.0) e)) (ap (λ x. some x.1) e)
lookup_of_Has a v ((j, w) ∷ m) (fresh, d) (inr h) = elim (Bool-cases (j == a)) [
  | inl same ↦ absurd (
      fresh
        (subst (λ k. Has k (keys m)) (sym ((eq_iff j a).0 same)) (map-Has (λ x. x.0) (a, v) m h)))
  | inr other ↦ rw (other, lookup) (lookup_of_Has a v m d h)
]
