-- ===== src/Prelude/Maps.antt =====
-- JavaScript's `Map`: entries in the order of first insertion; `set` of a present key writes in place.
use mathlib.Core.Path.{◌≡◌, refl, sym, ap, subst}
use mathlib.Core.Option.{Option, none, some}
use mathlib.Core.List.{List, [], ◌∷◌}
use mathlib.Core.Logic.{◌⊎◌, inl, inr}
use native.Mathlib.Omega.{arith}
use code_trace.Prelude.Tests.{if◌then◌else◌, Eq, ◌==◌, Bool-cases, not_both}
use code_trace.Prelude.Lists.{Has, Distinct, All}

abbrev pub Map : Type 0 → Type 0 → Type 0
Map K V = List (K × V)

module _ {K V : Type 0} ⦃e : Eq K⦄ where
  unfoldable pub lookup : K → Map K V → Option V
  lookup k [] = none
  lookup k ((key, value) ∷ entries) = if key == k then some value else lookup k entries

  unfoldable pub insert : K → V → Map K V → Map K V
  insert k v [] = (k, v) ∷ []
  insert k v ((key, value) ∷ entries) =
      if key == k then (key, v) ∷ entries else (key, value) ∷ insert k v entries

  pub lookup-insert :
      (k asked : K) (v : V) (m : Map K V)
      → lookup asked (insert k v m) ≡ (if k == asked then some v else lookup asked m)
  unfolding lookup insert
  lookup-insert k asked v [] = refl
  lookup-insert k asked v ((key, value) ∷ entries) = ground (
    arith,
    lookup-insert k asked v entries,
    e.beq_iff key asked,
    e.beq_iff key k,
    e.beq_iff k asked,
  )

  pub lookup-Has : (k : K) (v : V) (m : Map K V) → lookup k m ≡ some v → Has (k, v) m
  unfolding lookup
  lookup-Has k v [] h = cc
  lookup-Has k v ((j, w) ∷ m) h = ground (arith, lookup-Has k v m, e.beq_iff j k)

  -- `new Map(entries)`
  unfoldable pub insert_all : List (K × V) → Map K V → Map K V
  insert_all [] m = m
  insert_all ((k, v) ∷ entries) m = insert_all entries (insert k v m)

  pub lookup-insert_all :
      (k : K) (v : V) (entries : List (K × V)) (m : Map K V)
      → lookup k (insert_all entries m) ≡ some v
      → Has (k, v) entries ⊎ (lookup k m ≡ some v)
  unfolding insert_all
  lookup-insert_all k v [] m h = inr h
  lookup-insert_all k v ((j, w) ∷ entries) m h =
      elim (lookup-insert_all k v entries (insert j w m) h) [
        | inl later ↦ inl (inr later)
        | inr here ↦ elim (Bool-cases (j == k)) [
          | inl same ↦
              let found = rw (lookup-insert, same) at here in
              let key = (e.beq_iff j k).0 same in inl (inl cc)
          | inr other ↦ inr (rw (lookup-insert, other) at here)
        ]
      ]

  abbrev pub keys : Map K V → List K
  keys [] = []
  keys ((k, v) ∷ entries) = k ∷ keys entries

  pub Has-keys-insert : (k : K) (v : V) (m : Map K V) → Has k (keys (insert k v m))
  unfolding insert
  Has-keys-insert k v [] = inl refl
  Has-keys-insert k v ((j, w) ∷ m) = elim (Bool-cases (j == k)) [
    | inl same_key ↦ rw same_key (inl ((e.beq_iff j k).0 same_key))
    | inr other ↦ rw other (inr (Has-keys-insert k v m))
  ]

  pub keys-insert_keeps :
      (k a : K) (v : V) (m : Map K V) → Has a (keys m) → Has a (keys (insert k v m))
  unfolding insert
  keys-insert_keeps k a v [] h = absurd h
  keys-insert_keeps k a v ((j, w) ∷ m) h = elim (Bool-cases (j == k)) [
    | inl same_key ↦ rw same_key h
    | inr other ↦
        rw other
          (elim h [ inl first ↦ inl first | inr rest ↦ inr (keys-insert_keeps k a v m rest) ])
  ]

  pub keys-insert_cases :
      (k a : K) (v : V) (m : Map K V) → Has a (keys (insert k v m)) → (a ≡ k) ⊎ Has a (keys m)
  unfolding insert
  keys-insert_cases k a v [] (inl same) = inl (sym same)
  keys-insert_cases k a v [] (inr h) = absurd h
  keys-insert_cases k a v ((j, w) ∷ m) h = elim (Bool-cases (j == k)) [
    | inl same_key ↦ inr (rw same_key at h)
    | inr other ↦ elim (rw other at h) [
      | inl first ↦ inr (inl first)
      | inr rest ↦ elim (keys-insert_cases k a v m rest) [
        | inl same ↦ inl same
        | inr old ↦ inr (inr old)
      ]
    ]
  ]

  pub Distinct-keys-insert :
      (k : K) (v : V) (m : Map K V) → Distinct (keys m) → Distinct (keys (insert k v m))
  unfolding insert
  Distinct-keys-insert k v [] d = ((λ h. h), tt)
  Distinct-keys-insert k v ((j, w) ∷ m) (fresh, d) = elim (Bool-cases (j == k)) [
    | inl same_key ↦ rw same_key (fresh, d)
    | inr other ↦ rw other (
      (λ h. elim (keys-insert_cases k j v m h) [
        | inl same ↦ not_both ((e.beq_iff j k).1 same) other
        | inr old ↦ fresh old
      ]),
      Distinct-keys-insert k v m d,
    )
  ]

  pub Has-keys : (k : K) (v : V) (m : Map K V) → Has (k, v) m → Has k (keys m)
  Has-keys k v [] h = absurd h
  Has-keys k v ((j, w) ∷ m) (inl same) = inl (ap (λ x. x.0) same)
  Has-keys k v ((j, w) ∷ m) (inr h) = inr (Has-keys k v m h)

  pub All-insert :
      (P : K × V → Type 0) (k : K) (v : V) (m : Map K V) → P (k, v) → All P m → All P (insert k v m)
  unfolding insert
  All-insert P k v [] p h = (p, tt)
  All-insert P k v ((j, w) ∷ m) p (q, h) = elim (Bool-cases (j == k)) [
    | inl same ↦ rw same (subst (λ i. P (i, v)) (sym ((e.beq_iff j k).0 same)) p, h)
    | inr other ↦ rw other (q, All-insert P k v m p h)
  ]

  pub keys-lookup : (k : K) (m : Map K V) → Has k (keys m) → (v : V) × (lookup k m ≡ some v)
  unfolding lookup
  keys-lookup k [] h = absurd h
  keys-lookup k ((j, w) ∷ m) h = elim (Bool-cases (j == k)) [
    | inl same ↦ (w, rw same refl)
    | inr other ↦ elim h [
      | inl first ↦ absurd (not_both ((e.beq_iff j k).1 first) other)
      | inr rest ↦ let (v, found) = keys-lookup k m rest in (v, rw other found)
    ]
  ]
