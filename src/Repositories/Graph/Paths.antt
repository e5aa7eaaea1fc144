-- ===== src/Repositories/Graph/Paths.antt =====
-- Which chunks stand under a path.
use Prim.Native.Char.{code}
use code_trace.Prelude.{
  ℕ, suc, ◌+◌, Bool, if◌then◌else◌, String, ◌≡◌, ◌≢◌, refl, sym, ◌∙◌, ap, subst, ◌⊎◌, inl, inr,
  true, false, Option, none, some, List, [], ◌∷◌, ◌++◌, length, length-append, keep, get_or, nat_eq,
  ◌==◌, text_eq, Map, lookup, insert, lookup-insert, keys, Has, Has-keys, Distinct, Tally,
  keep-Tally, not_both, Bool-cases, arith,
}
use code_trace.Repositories.Graph.{FileChunkRow, chunks_by_path, normalize_path}

-- `path` is `raw` with "/" in the place of each backslash.
abbrev pub Slashed : String → String → Type 0
Slashed String.[] path = path ≡ ""
Slashed (String.◌∷◌ c raw) path =
    (rest : String) × Slashed raw rest
    × (((code c ≡ b'\\') × (path ≡ String.◌∷◌ "/" rest))
        ⊎ ((code c ≢ b'\\') × (path ≡ String.◌∷◌ c rest)))

normalize_path-Slashed : (raw : String) → Slashed raw (normalize_path raw)
unfolding normalize_path
normalize_path-Slashed String.[] = refl
normalize_path-Slashed (String.◌∷◌ c raw) = (
  normalize_path raw,
  normalize_path-Slashed raw,
  elim (Bool-cases (nat_eq (code c) b'\\')) [
    | inl e ↦ inl (ground (arith, e), rw e refl)
    | inr e ↦ inr (ground (arith, e), rw e refl)
  ],
)

Slashed-normalize_path : (raw path : String) → Slashed raw path → normalize_path raw ≡ path
unfolding normalize_path
Slashed-normalize_path String.[] path h = sym h
Slashed-normalize_path (String.◌∷◌ c raw) path (rest, h, inl (is, e)) =
    let slash : nat_eq (code c) b'\\' ≡ true = ground (arith, is) in
    rw slash (ap (String.◌∷◌ "/") (Slashed-normalize_path raw rest h) ∙ sym e)
Slashed-normalize_path (String.◌∷◌ c raw) path (rest, h, inr (other, e)) =
    let no_slash : nat_eq (code c) b'\\' ≡ false = ground (arith, other) in
    rw no_slash (ap (String.◌∷◌ c) (Slashed-normalize_path raw rest h) ∙ sym e)

unfoldable pub size_or : Option (List FileChunkRow) → ℕ
size_or none = 0
size_or (some chunks) = length chunks

pub size-joined :
    (chunk : FileChunkRow) (o : Option (List FileChunkRow))
    → length (get_or o [] ++ chunk ∷ []) ≡ suc (size_or o)
unfolding size_or
size-joined chunk none = refl
size-joined chunk (some chunks) = omega (arith, length-append chunks (chunk ∷ []))

abbrev under : String → FileChunkRow → Bool
under path c = normalize_path c.file_path == path

-- The group of a path has the chunks under it.
size_or-chunks_by_path :
    (path : String) (chunks : List FileChunkRow) (m : Map String (List FileChunkRow))
    → size_or (lookup path (chunks_by_path chunks m))
      ≡ size_or (lookup path m) + length (keep (under path) chunks)
unfolding chunks_by_path size_or
size_or-chunks_by_path path [] m = omega arith
size_or-chunks_by_path path (chunk ∷ chunks) m =
    let key = normalize_path chunk.file_path in
    let group = get_or (lookup key m) [] ++ chunk ∷ [] in
    let rest = size_or-chunks_by_path path chunks (insert key group m) in
    elim (Bool-cases (key == path)) [
      | inl e ↦
          let same : lookup key m ≡ lookup path m =
            ap (λ k. lookup k m) ((text_eq.beq_iff key path).0 e) in
          let here : size_or (lookup path (insert key group m)) ≡ suc (size_or (lookup path m)) =
            ap size_or (lookup-insert key path group m)
            ∙ in_group key group m e
            ∙ size-joined chunk (lookup key m)
            ∙ ap (λ o. suc (size_or o)) same in
          rw e (omega (arith, rest, here))
      | inr e ↦
          let here : size_or (lookup path (insert key group m)) ≡ size_or (lookup path m) =
            ap size_or (lookup-insert key path group m) ∙ rw e refl in
          rw e (omega (arith, rest, here))
    ]
  where
    in_group :
        (key : String) (group : List FileChunkRow) (m : Map String (List FileChunkRow))
        → (key == path) ≡ true
        → size_or (if key == path then some group else lookup path m) ≡ length group
    in_group key group m e = rw e refl

Has-lookup :
    {W : Type 0} (k : String) (w : W) (m : Map String W)
    → Distinct (keys m)
    → Has (k, w) m
    → lookup k m ≡ some w
unfolding lookup
Has-lookup k w [] d h = absurd h
Has-lookup k w ((j, v) ∷ m) (fresh, d) (inl e) =
    let self = (text_eq.beq_iff j k).1 (ap (λ x. x.0) e) in rw self (ap (λ x. some x.1) e)
Has-lookup k w ((j, v) ∷ m) (fresh, d) (inr h) = elim (Bool-cases (j == k)) [
  | inl e ↦
      absurd
        (fresh (subst (λ i. Has i (keys m)) (sym ((text_eq.beq_iff j k).0 e)) (Has-keys k w m h)))
  | inr e ↦ rw e (Has-lookup k w m d h)
]

-- The size of a group is the number of the chunks whose path is its, up to the kind of slash.
pub group-Tally :
    (chunks : List FileChunkRow) (path : String) (group : List FileChunkRow)
    → Distinct (keys (chunks_by_path chunks []))
    → Has (path, group) (chunks_by_path chunks [])
    → Tally (λ c. Slashed c.file_path path) chunks (length group)
unfolding size_or lookup
group-Tally chunks path group distinct h =
    let found = Has-lookup path group (chunks_by_path chunks []) distinct h in
    let whole : length group ≡ 0 + length (keep (under path) chunks) =
      sym (ap size_or found) ∙ size_or-chunks_by_path path chunks [] in
    let counted : length (keep (under path) chunks) ≡ length group = omega (arith, whole) in
    subst (Tally (λ c. Slashed c.file_path path) chunks) counted (
      keep-Tally _ (under path) chunks
        (λ c k e.
          subst (Slashed c.file_path) ((text_eq.beq_iff _ path).0 e)
            (normalize_path-Slashed c.file_path))
        (λ c k e slashed.
          not_both ((text_eq.beq_iff _ path).1 (Slashed-normalize_path c.file_path path slashed))
            e))
